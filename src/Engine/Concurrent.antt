-- ===== src/Engine/Concurrent.antt =====
-- Workers of the engine at the same time, of one process or of several: `executeTask` of
-- execution-engine/main.go in its three steps, the claim, the execution, and the final status, which the
-- steps of other workers come between. A process may end between any two of them, as main does on a signal,
-- without waiting for its workers.
pub mod Idle
pub mod Rows
pub mod Exclusive
pub mod Stuck
pub mod Crashed
use aien.Prelude.{
  ℕ, zero, suc, ◌+◌, ◌≡◌, Bool, true, false, List, [], ◌∷◌, Option, none, some, String, ◌==◌, not,
  if◌then◌else◌,
}
use aien.Prelude.Sql.{Result}
use aien.Intent.Types.{Intent}
use aien.Intent.Table.{IntentRow, set_status}
use aien.Scheduler.{Wire}
use aien.Engine.{
  Wallet, Answers, World, ExecutionError, claimed, skips, autocommit, final_status, with_rows,
  finish, run_execution_simulation,
}

-- Tasks that are claimed and not yet executed, those executed whose final status is not yet written, and
-- the ids of all executions so far.
pub record Shared (W : Type 0) : Type 0 where
  pub world : World W
  pub running : List Intent
  pub executed : List (Intent × Result ExecutionError (Unit {0}))
  pub log : List String

pub data Event : Type 0 where
  claim_task : Answers → Intent → Event
  -- of the task with this number in its list
  execute : ℕ → (cancelled : Bool) → Event
  write_status : ℕ → Answers → Event
  -- the process of the task ends
  crash_running crash_executed : ℕ → Event

-- The k-th element and the others.
module _ {A : Type 0} where
  abbrev put_back : A → Option (A × List A) → Option (A × List A)
  put_back x none = none
  put_back x (some (y, ys)) = some (y, x ∷ ys)

  unfoldable pub pick : ℕ → List A → Option (A × List A)
  pick k [] = none
  pick zero (x ∷ xs) = some (x, xs)
  pick (suc k) (x ∷ xs) = put_back x (pick k xs)

module _ (wire : Wire) {W A : Type 0} (wallet : Wallet W A) where
  -- Step 2: a claim that is answered with a row starts the task.
  abbrev pub started : Intent → (skip : Bool) → List IntentRow × Bool → Shared W → Shared W
  started intent skip (rows, false) s = record s { world = with_rows rows s.world }
  started intent true (rows, true) s = record s { world = with_rows rows s.world }
  started intent false (rows, true) s = record s {
    world = with_rows rows s.world;
    running = intent ∷ s.running;
  }

  -- Step 3.
  abbrev pub run_picked : (cancelled : Bool) → Option (Intent × List Intent) → Shared W → Shared W
  run_picked cancelled none s = s
  run_picked cancelled (some (intent, rest)) s =
      let (w, r) = run_execution_simulation wallet cancelled intent s.world.wallet in
      record {
        world = record s.world { wallet = w };
        running = rest;
        executed = (intent, r) ∷ s.executed;
        log = intent.id ∷ s.log;
      }

  abbrev Finished : Type 0
  Finished = Intent × Result ExecutionError (Unit {0})

  -- Steps 4 and 5.
  abbrev pub write_picked : Answers → Option (Finished × List Finished) → Shared W → Shared W
  write_picked a none s = s
  write_picked a (some ((intent, r), rest)) s = record s {
    world =
        (finish wire wallet a intent (final_status r).1 s.world (
          autocommit a.final_ends (set_status intent.id (final_status r).0 a.now)
            s.world.pipeline.rows)).0;
    executed = rest;
  }

  abbrev pub drop_running : Option (Intent × List Intent) → Shared W → Shared W
  drop_running none s = s
  drop_running (some (intent, rest)) s = record s { running = rest }

  abbrev pub drop_executed : Option (Finished × List Finished) → Shared W → Shared W
  drop_executed none s = s
  drop_executed (some (task, rest)) s = record s { executed = rest }

  unfoldable pub step : Event → Shared W → Shared W
  step (claim_task a intent) s =
      started intent (skips a.rows_affected_fails (claimed intent.id a.now s.world.pipeline.rows).1)
        (autocommit a.claim_ends (λ rows. (claimed intent.id a.now rows).0) s.world.pipeline.rows) s
  step (execute k cancelled) s = run_picked cancelled (pick k s.running) s
  step (write_status k a) s = write_picked a (pick k s.executed) s
  step (crash_running k) s = drop_running (pick k s.running) s
  step (crash_executed k) s = drop_executed (pick k s.executed) s

  unfoldable pub run : List Event → Shared W → Shared W
  run [] s = s
  run (e ∷ es) s = run es (step e s)

  abbrev pub at_rest : World W → Shared W
  at_rest world = record { world = world; running = []; executed = []; log = [] }

-- How often an id is among some.
unfoldable pub times : String → List String → ℕ
times id [] = 0
times id (k ∷ ks) = (if k == id then 1 else 0) + times id ks

unfoldable pub times_running : String → List Intent → ℕ
times_running id [] = 0
times_running id (intent ∷ rest) = (if intent.id == id then 1 else 0) + times_running id rest
