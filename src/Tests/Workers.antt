-- ===== src/Tests/Workers.antt =====
-- The engine's workers on one task.
use mathlib.Core.List.{Perm}
use aien.Prelude.{
  false, ◌+◌, ◌<◌, ◌≤◌, ◌≡◌, refl, List, [], ◌∷◌, Option, none, some, String, All, length,
}
use aien.Prelude.Decimal.{ℤ, pos}
use aien.Intent.Types.{Bytes}
use aien.Intent.Table.{find_row}
use aien.Wallet.Money.{cents}
use aien.Workers.{
  Pool, Event as PoolEvent, send, receive, finish, moved, fresh, jobs_in, jobs_of, sent_by, working,
  waiting,
}
use aien.Workers
use aien.Engine.{execute_task}
use aien.Engine.Payment.{Bank, bank}
use aien.Engine.Concurrent.{
  Event, claim_task, execute, write_status, crash_running, run, at_rest, times, times_running,
}
use aien.Engine.Concurrent.Exclusive.{run_exclusive}
use aien.Engine.Concurrent.Crashed.{as_executing, claimed_crash-find_row}
use aien.Engine.WorkerPool.{
  Settled, settle, State, started, Run, here, next, deliver, take, complete, pool_size,
}
use aien.Engine.WorkerPool.Acked.{Acknowledged, Run-Acknowledged}
use aien.Tests.Payment.{parse, scheduled_row, answers}
use aien.Tests.Pipeline.{intent, row_with, wire}

-- Two workers get the same task; the first one to claim it executes it.
abbrev both : List Event
both =
    claim_task answers intent
    ∷ claim_task answers intent
    ∷ execute 0 false
    ∷ execute 0 false
    ∷ write_status 0 answers
    ∷ []

run_exclusive_example :
    let s = run wire (bank cents parse) both (at_rest wire (bank cents parse) scheduled_row) in
    times_running "intent1" s.running + times "intent1" s.log ≤ 1
run_exclusive_example = run_exclusive wire (bank cents parse) "intent1" both scheduled_row

claimed_crash-find_row_example :
    let s =
      run wire
        (bank cents parse)
        (claim_task answers intent ∷ crash_running 0 ∷ both)
        (at_rest wire (bank cents parse) scheduled_row) in
    (times "intent1" s.log ≡ 0)
    × (find_row "intent1" s.world.pipeline.rows
        ≡ some (as_executing 3 (row_with "INTENT_STATUS_SCHEDULED")))
unfolding find_row
claimed_crash-find_row_example =
    claimed_crash-find_row wire (bank cents parse) answers intent both scheduled_row
      (row_with "INTENT_STATUS_SCHEDULED") refl refl refl

abbrev one_worker : String → Option ℤ
one_worker s = some (pos 1)

-- The only worker has completed the first of two messages.
abbrev answer_of_first : Settled
answer_of_first = settle (execute_task wire (bank cents parse) answers [] scheduled_row).1

abbrev trace : List (PoolEvent Bytes Settled)
trace = send [] ∷ receive 0 ∷ send [] ∷ finish 0 answer_of_first ∷ []

abbrev pool_with : List Bytes → Workers.Worker Bytes → List (Bytes × Settled) → Pool Bytes Settled
pool_with buffer worker finished = record {
  buffer = buffer;
  capacity = 1;
  is_closed = false;
  workers = worker ∷ [];
  finished = finished;
}

abbrev with_pool : Pool Bytes Settled → State (Bank cents)
with_pool p = record { pool = p; world = scheduled_row }

abbrev last : State (Bank cents)
last = record {
  pool = pool_with ([] ∷ []) waiting (([], answer_of_first) ∷ []);
  world = (execute_task wire (bank cents parse) answers [] scheduled_row).0;
}

traced :
    Run wire
      (bank cents parse)
      (started (pool_size one_worker (λ key. none)) scheduled_row)
      trace
      last
unfolding Workers.step
traced = next _ (with_pool (pool_with ([] ∷ []) waiting [])) _ _ _ (deliver [] _ refl) (
    next _ (with_pool (pool_with [] (working []) [])) _ _ _ (take 0 _ refl) (
      next _ (with_pool (pool_with ([] ∷ []) (working []) [])) _ _ _ (deliver [] _ refl)
        (next _ last _ _ _ (complete 0 answers [] _ refl refl) (here last))))

Run-Acknowledged_example :
    (0 < 1)
    × Perm (jobs_in last.pool) (sent_by trace)
    × (length (jobs_of last.pool.workers) ≤ 1)
    × (length last.pool.buffer ≤ 1)
    × All (Acknowledged wire (bank cents parse) last.world) last.pool.finished
Run-Acknowledged_example =
    Run-Acknowledged wire (bank cents parse) one_worker (λ key. none) scheduled_row trace last
      traced
