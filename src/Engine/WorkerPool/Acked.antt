-- ===== src/Engine/WorkerPool/Acked.antt =====
-- What the pool's workers acknowledge, and what becomes of the messages.
use mathlib.Core.List.{Perm}
use mathlib.Core.Path.{subst}
use aien.Prelude.{
  ◌<◌, none, some, zero, suc, ℕ, ◌≤◌, ◌≡◌, refl, sym, ap, inl, inr, Bool, true, false, List, [],
  ◌∷◌, ◌++◌, some, String, All, All-append, arith, length, Option-cases,
}
use aien.Prelude.Sql.{Commit, committed, refused, lost}
use aien.Intent.Types.{Intent, Bytes}
use aien.Intent.Table.{IntentRow, set_status}
use aien.Scheduler.{Wire}
use aien.Workers.{
  Pool, Event, send, close, receive, finish, moved, working, get_elem?, fresh, done, jobs_of,
  sent_by, jobs_in,
}
use aien.Workers
use aien.Workers.Handled.{moved-injective}
use aien.Workers.Bounded.{on_receive_finished, run-fresh}
use aien.Engine.{
  Option, Wallet, Answers, World, claimed, autocommit, final_status, with_rows, on_claim,
  execute_task, execute_intent, execute_claimed, run_execution_simulation,
}
use aien.Engine.Claim.{IsIdle, claimed-IsIdle}
use aien.Engine.Once.{finish_kept}
use aien.Engine.Concurrent.Idle.{claimed_kept-IsIdle, final_kept-IsIdle}
use aien.Prelude.Decimal.{ℤ, pos, negsuc}
use aien.Startup.Config.{Environment, get_env}
use aien.Engine.WorkerPool.{
  pool_size, positive_or_three, Settled, ack, settle, State, started, Step, deliver, take, complete,
  shut_down, Run, here, next,
}

module _ (wire : Wire) {W A : Type 0} (wallet : Wallet W A) where
  execute_claimed-IsIdle :
      (id : String) (a : Answers) (intent : Intent) (s : World W) (rows : List IntentRow)
      → IsIdle id rows
      → IsIdle id (execute_claimed wire wallet a intent (with_rows rows s)).0.pipeline.rows
  unfolding execute_claimed
  execute_claimed-IsIdle id a intent s rows h =
      let run = run_execution_simulation wallet a.cancelled intent s.wallet in
      let st = final_status run.1 in
      let written = autocommit a.final_ends (set_status intent.id st.0 a.now) rows in
      let kept =
        finish_kept wire wallet a intent st.1 (record (with_rows rows s) { wallet = run.0 })
          written in
      subst (IsIdle id) (sym kept.1)
        (final_kept-IsIdle wire wallet id intent a.now run.1 a.final_ends rows h)

  on_claim_keeps :
      (id : String) (a : Answers) (intent : Intent) (skip : Bool) (c : Commit) (s : World W)
      → IsIdle id s.pipeline.rows
      → IsIdle id
          (on_claim wire wallet a intent skip
            (autocommit c (λ rows. (claimed intent.id a.now rows).0) s.pipeline.rows)
            s).0.pipeline.rows
  on_claim_keeps id a intent skip refused s h = h
  on_claim_keeps id a intent skip lost s h =
      claimed_kept-IsIdle wire wallet id intent a.now s.pipeline.rows h
  on_claim_keeps id a intent true committed s h =
      claimed_kept-IsIdle wire wallet id intent a.now s.pipeline.rows h
  on_claim_keeps id a intent false committed s h =
      execute_claimed-IsIdle id a intent s _
        (claimed_kept-IsIdle wire wallet id intent a.now s.pipeline.rows h)

  on_claim_acks :
      (a : Answers) (intent : Intent) (skip : Bool) (c : Commit) (s : World W)
      → let o =
          on_claim wire wallet a intent skip
            (autocommit c (λ rows. (claimed intent.id a.now rows).0) s.pipeline.rows)
            s in
        settle o.1 ≡ ack → IsIdle intent.id o.0.pipeline.rows
  on_claim_acks a intent skip refused s h = absurd (ground arith)
  on_claim_acks a intent skip lost s h = absurd (ground arith)
  on_claim_acks a intent true committed s h = claimed-IsIdle intent.id a.now s.pipeline.rows
  on_claim_acks a intent false committed s h =
      execute_claimed-IsIdle intent.id a intent s _ (claimed-IsIdle intent.id a.now s.pipeline.rows)

  -- A message that is acknowledged can be read, and no row of its intent is SCHEDULED.
  abbrev pub Acknowledged : World W → Bytes × Settled → Type 0
  Acknowledged s (m, r) =
      r ≡ ack
      → (intent : Intent) × (wire.unmarshal m ≡ some intent) × IsIdle intent.id s.pipeline.rows

  execute_task_keeps :
      (id : String) (a : Answers) (m : Bytes) (s : World W)
      → IsIdle id s.pipeline.rows
      → IsIdle id (execute_task wire wallet a m s).0.pipeline.rows
  unfolding execute_task execute_intent
  execute_task_keeps id a m s h = elim (Option-cases (wire.unmarshal m)) [
    | inl unread ↦ rw unread h
    | inr (intent, read) ↦ rw read (on_claim_keeps id a intent _ a.claim_ends s h)
  ]

  execute_task-Acknowledged :
      (a : Answers) (m : Bytes) (s : World W)
      → Acknowledged
          (execute_task wire wallet a m s).0
          (m, settle (execute_task wire wallet a m s).1)
  unfolding execute_task execute_intent
  execute_task-Acknowledged a m s = elim (Option-cases (wire.unmarshal m)) [
    | inl unread ↦ rw unread (λ h. absurd (ground arith))
    | inr (intent, read) ↦ rw read (λ h. (intent, refl, on_claim_acks a intent _ a.claim_ends s h))
  ]

  All-keeps :
      (a : Answers) (m : Bytes) (s : World W) (finished : List (Bytes × Settled))
      → All (Acknowledged s) finished
      → All (Acknowledged (execute_task wire wallet a m s).0) finished
  All-keeps a m s [] h = tt
  All-keeps a m s ((m', r) ∷ finished) h = (
    λ acked.
        let (intent, read, idle) = h.0 acked in
        (intent, read, execute_task_keeps intent.id a m s idle),
    All-keeps a m s finished h.1,
  )

  send_finished :
      (m : Bytes) (p p' : Pool Bytes Settled)
      → Workers.step (send m) p ≡ moved p'
      → p.finished ≡ p'.finished
  unfolding Workers.step
  send_finished m p p' h = ground arith

  close_finished :
      (p p' : Pool Bytes Settled) → Workers.step close p ≡ moved p' → p.finished ≡ p'.finished
  unfolding Workers.step
  close_finished p p' h = ground arith

  receive_finished :
      (k : ℕ) (p p' : Pool Bytes Settled)
      → Workers.step (receive k) p ≡ moved p'
      → p.finished ≡ p'.finished
  unfolding Workers.step
  receive_finished k p p' h = on_receive_finished k (get_elem? p.workers k) p p' h

  finish_finished :
      (k : ℕ) (m : Bytes) (r : Settled) (p p' : Pool Bytes Settled)
      → get_elem? p.workers k ≡ some (working m)
      → Workers.step (finish k r) p ≡ moved p'
      → p.finished ++ (m, r) ∷ [] ≡ p'.finished
  unfolding Workers.step
  finish_finished k m r p p' at h =
      ap (λ (q : Pool Bytes Settled). q.finished) (moved-injective _ p' (rw at at h))

  abbrev AllAcknowledged : State W → Type 0
  AllAcknowledged s = All (Acknowledged s.world) s.pool.finished

  Step-All :
      (s s' : State W) (e : Event Bytes Settled)
      → Step wire wallet s e s'
      → AllAcknowledged s
      → AllAcknowledged s'
  Step-All s s' e (deliver m p h) all =
      subst (All (Acknowledged s.world)) (send_finished m s.pool p h) all
  Step-All s s' e (take k p h) all =
      subst (All (Acknowledged s.world)) (receive_finished k s.pool p h) all
  Step-All s s' e (shut_down p h) all =
      subst (All (Acknowledged s.world)) (close_finished s.pool p h) all
  Step-All s s' e (complete k a m p at h) all =
      let after = (execute_task wire wallet a m s.world).0 in
      subst (All (Acknowledged after)) (finish_finished k m _ s.pool p at h) (
        All-append (Acknowledged after) s.pool.finished _
          (All-keeps a m s.world s.pool.finished all) (execute_task-Acknowledged a m s.world, tt))

  Step-step :
      (s s' : State W) (e : Event Bytes Settled)
      → Step wire wallet s e s'
      → Workers.step e s.pool ≡ moved s'.pool
  Step-step s s' e (deliver m p h) = h
  Step-step s s' e (take k p h) = h
  Step-step s s' e (shut_down p h) = h
  Step-step s s' e (complete k a m p at h) = h

  Run-All :
      (s s' : State W) (es : List (Event Bytes Settled))
      → AllAcknowledged s
      → Run wire wallet s es s'
      → AllAcknowledged s'
  Run-All s s' es all (here t) = all
  Run-All s s' es all (next t s1 t' e rest first more) =
      Run-All s1 s' rest (Step-All s s1 e first all) more

  Run-run :
      (s s' : State W) (es : List (Event Bytes Settled))
      → Run wire wallet s es s'
      → Workers.run es s.pool ≡ moved s'.pool
  unfolding Workers.run
  Run-run s s' es (here t) = refl
  Run-run s s' es (next t s1 t' e rest first more) =
      rw (Step-step s s1 e first) (Run-run s1 s' rest more)

  pool_size_pos : (atoi : String → Option ℤ) (env : Environment) → 0 < pool_size atoi env
  pool_size_pos atoi env = positive (atoi (get_env env "WORKER_POOL_SIZE" "3"))
    where
      positive : (o : Option ℤ) → 0 < positive_or_three o
      positive none = omega arith
      positive (some (negsuc n)) = omega arith
      positive (some (pos zero)) = omega arith
      positive (some (pos (suc n))) = omega arith

  -- The engine has one worker at least. In whatever order the subscription hands messages over and the `n`
  -- workers take and complete them, every message that was handed over is answered, at a worker or in
  -- the channel, once; `n` at most are at workers and `n` in the channel. A message is acknowledged only if
  -- it can be read and no row of its intent is SCHEDULED any more; this does not say that the task
  -- has been executed.
  pub Run-Acknowledged :
      (atoi : String → Option ℤ) (env : Environment) (world : World W)
      (es : List (Event Bytes Settled)) (s : State W)
      → Run wire wallet (started (pool_size atoi env) world) es s
      → let n = pool_size atoi env in
        (0 < n)
        × Perm (jobs_in s.pool) (sent_by es)
        × (length (jobs_of s.pool.workers) ≤ n)
        × (length s.pool.buffer ≤ n)
        × All (Acknowledged s.world) s.pool.finished
  Run-Acknowledged atoi env world es s r =
      let n = pool_size atoi env in
      let (jobs, at_work, buffered) = run-fresh n es s.pool (Run-run (started n world) s es r) in
      (pool_size_pos atoi env, jobs, at_work, buffered, Run-All (started n world) s es tt r)
