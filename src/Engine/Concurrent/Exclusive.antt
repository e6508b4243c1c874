-- ===== src/Engine/Concurrent/Exclusive.antt =====
-- One worker at most executes an intent, however the steps of the workers interleave.
use aien.Prelude.{
  ℕ, ◌+◌, ◌≤◌, ◌≡◌, refl, sym, ◌∙◌, ◌⊎◌, inl, inr, Bool, true, false, List, [], ◌∷◌, Option, none,
  some, String, ◌==◌, ==_iff, arith, Bool-cases,
}
use mathlib.Core.Path.{subst}
use aien.Prelude.Sql.{Result, Commit, committed, refused, lost}
use aien.Intent.Types.{Intent}
use aien.Intent.Table.{IntentRow}
use aien.Scheduler.{Wire}
use aien.Engine.{Wallet, Answers, World, ExecutionError, claimed, skips, autocommit, with_rows}
use aien.Engine.Claim.{IsIdle, claimed-IsIdle}
use aien.Engine.Concurrent.{
  Shared, Event, claim_task, execute, write_status, crash_running, crash_executed, pick, started,
  run_picked, write_picked, drop_running, drop_executed, step, run, at_rest, times, times_running,
}
use aien.Engine.Concurrent.Idle.{claimed_kept-IsIdle, write_picked-Idle, times_running-pick, Idle}

module _ (wire : Wire) {W A : Type 0} (wallet : Wallet W A) where
  abbrev total : String → Shared W → ℕ
  total id s = times_running id s.running + times id s.log

  -- No task of the id is running and it has not been executed, or it is one of these, once, and the
  -- row cannot be claimed.
  abbrev Safe : String → Shared W → Type 0
  Safe id s = (total id s ≡ 0) ⊎ ((total id s ≡ 1) × Idle wire wallet id s)

  Safe-rows :
      (id : String) (s : Shared W) (rows : List IntentRow)
      → (Idle wire wallet id s → IsIdle id rows)
      → Safe id s
      → Safe id (record s { world = with_rows rows s.world })
  Safe-rows id s rows keep (inl none_yet) = inl none_yet
  Safe-rows id s rows keep (inr (one, idle)) = inr (one, keep idle)

  started-Safe :
      (id : String) (a : Answers) (intent : Intent) (skip : Bool) (c : Commit) (s : Shared W)
      → skips a.rows_affected_fails (claimed intent.id a.now s.world.pipeline.rows).1 ≡ skip
      → Safe id s
      → Safe id (
          started wire wallet intent skip
            (autocommit c (λ rows. (claimed intent.id a.now rows).0) s.world.pipeline.rows)
            s)
  unfolding times_running
  started-Safe id a intent skip refused s e h = h
  started-Safe id a intent skip lost s e h =
      Safe-rows id s _ (claimed_kept-IsIdle wire wallet id intent a.now s.world.pipeline.rows) h
  started-Safe id a intent true committed s e h =
      Safe-rows id s _ (claimed_kept-IsIdle wire wallet id intent a.now s.world.pipeline.rows) h
  started-Safe id a intent false committed s e (inl none_yet) =
      elim (Bool-cases (intent.id == id)) [
        | inl same ↦ inr (
          rw same (omega (arith, none_yet)),
          subst (λ k. IsIdle k (claimed intent.id a.now s.world.pipeline.rows).0)
              ((==_iff intent.id id).0 same) (claimed-IsIdle intent.id a.now s.world.pipeline.rows),
        )
        | inr other ↦ inl (rw other (omega (arith, none_yet)))
      ]
  started-Safe id a intent false committed s e (inr (one, idle)) =
      elim (Bool-cases (intent.id == id)) [
        | inl same ↦ absurd (
            ground (
              arith,
              e,
              subst (λ k. IsIdle k s.world.pipeline.rows) (sym ((==_iff intent.id id).0 same)) idle
                  a.now,
            ))
        | inr other ↦ inr (
          rw other (omega (arith, one)),
          claimed_kept-IsIdle wire wallet id intent a.now s.world.pipeline.rows idle,
        )
      ]

  run_picked-Safe :
      (id : String) (cancelled : Bool) (k : ℕ) (s : Shared W) (o : Option (Intent × List Intent))
      → pick k s.running ≡ o
      → Safe id s
      → Safe id (run_picked wire wallet cancelled o s)
  unfolding times
  run_picked-Safe id cancelled k s none e h = h
  run_picked-Safe id cancelled k s (some (intent, rest)) e h =
      let moved : total id (run_picked wire wallet cancelled (some (intent, rest)) s) ≡ total id s =
        omega (arith, times_running-pick id k s.running intent rest e) in
      elim h [ inl none_yet ↦ inl (moved ∙ none_yet) | inr (one, idle) ↦ inr (moved ∙ one, idle) ]

  drop_running-Safe :
      (id : String) (k : ℕ) (s : Shared W) (o : Option (Intent × List Intent))
      → pick k s.running ≡ o
      → Safe id s
      → Safe id (drop_running wire wallet o s)
  drop_running-Safe id k s none e h = h
  drop_running-Safe id k s (some (intent, rest)) e h =
      let fewer = times_running-pick id k s.running intent rest e in
      elim h [
        | inl none_yet ↦ inl (omega (arith, fewer, none_yet))
        | inr (one, idle) ↦ elim (Bool-cases (intent.id == id)) [
          | inl same ↦ inl (ground (arith, fewer, one, same))
          | inr other ↦ inr (ground (arith, fewer, one, other), idle)
        ]
      ]

  write_picked-Safe :
      (id : String) (a : Answers) (s : Shared W)
      (o : Option (
        (Intent × Result ExecutionError (Unit {0}))
        × List (Intent × Result ExecutionError (Unit {0}))))
      → Safe id s
      → Safe id (write_picked wire wallet a o s)
  write_picked-Safe id a s none h = h
  write_picked-Safe id a s (some ((intent, r), rest)) (inl none_yet) = inl none_yet
  write_picked-Safe id a s (some ((intent, r), rest)) (inr (one, idle)) =
      inr (one, write_picked-Idle wire wallet id a s (some ((intent, r), rest)) idle)

  drop_executed-Safe :
      (id : String) (s : Shared W)
      (o : Option (
        (Intent × Result ExecutionError (Unit {0}))
        × List (Intent × Result ExecutionError (Unit {0}))))
      → Safe id s
      → Safe id (drop_executed wire wallet o s)
  drop_executed-Safe id s none h = h
  drop_executed-Safe id s (some (task, rest)) h = h

  step-Safe : (id : String) (e : Event) (s : Shared W) → Safe id s → Safe id (step wire wallet e s)
  unfolding step
  step-Safe id (claim_task a intent) s h = started-Safe id a intent _ a.claim_ends s refl h
  step-Safe id (execute k cancelled) s h = run_picked-Safe id cancelled k s _ refl h
  step-Safe id (write_status k a) s h = write_picked-Safe id a s (pick k s.executed) h
  step-Safe id (crash_running k) s h = drop_running-Safe id k s _ refl h
  step-Safe id (crash_executed k) s h = drop_executed-Safe id s (pick k s.executed) h

  run-Safe :
      (id : String) (es : List Event) (s : Shared W) → Safe id s → Safe id (run wire wallet es s)
  unfolding run
  run-Safe id [] s h = h
  run-Safe id (e ∷ es) s h = run-Safe id es (step wire wallet e s) (step-Safe id e s h)

  -- Let workers take their steps in any order, on whatever intents and with whatever answers, while nothing
  -- else writes to the rows; a process may end at any time. No two of them are at one intent, and none is at
  -- an intent that has been executed: the executions of an id so far, and those that are to come from
  -- tasks that are claimed, are one at most.
  pub run_exclusive :
      (id : String) (es : List Event) (world : World W)
      → let s = run wire wallet es (at_rest wire wallet world) in
        times_running id s.running + times id s.log ≤ 1
  unfolding times times_running
  run_exclusive id es world = elim (run-Safe id es (at_rest wire wallet world) (inl refl)) [
    | inl none_yet ↦ omega (arith, none_yet)
    | inr (one, idle) ↦ omega (arith, one)
  ]
