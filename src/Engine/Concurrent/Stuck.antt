-- ===== src/Engine/Concurrent/Stuck.antt =====
-- An id that nobody is at and that cannot be claimed stays as it is.
use aien.Prelude.{
  ℕ, zero, suc, ◌≡◌, refl, sym, ap, ◌∙◌, inl, inr, Bool, true, false, List, [], ◌∷◌, Option, none,
  some, String, ◌==◌, ==_iff, arith, All, Bool-cases,
}
use mathlib.Core.Option.{some-injective}
use mathlib.Core.Path.{subst}
use aien.Prelude.Sql.{Result, Commit, committed, refused, lost}
use aien.Intent.Types.{Intent, Time}
use aien.Intent.Table.{IntentRow, find_row, set_status}
use aien.Scheduler.{Wire}
use aien.Engine.{
  Wallet, Answers, ExecutionError, claimed, skips, autocommit, final_status, with_rows,
}
use aien.Engine.Claim.{IsIdle}
use aien.Engine.Once.{finish_kept}
use aien.Engine.Concurrent.{
  Shared, Event, claim_task, execute, write_status, crash_running, crash_executed, pick, started,
  run_picked, write_picked, drop_running, drop_executed, step, run, times, times_running,
}
use aien.Engine.Concurrent.Rows.{claimed_row, written_row}
use aien.Engine.Concurrent.Idle.{
  pick_inv, claimed_kept-IsIdle, write_picked-Idle, times_running-pick, Idle,
}

module _ (wire : Wire) {W A : Type 0} (wallet : Wallet W A) where
  abbrev Finished : Type 0
  Finished = Intent × Result ExecutionError (Unit {0})

  -- Nobody is at the id, and its row, which cannot be claimed, and its executions are as they were.
  pub record IsStuck (id : String) (found : Option IntentRow) (n : ℕ) (s : Shared W) : Type 0 where
    pub idle : Idle wire wallet id s
    pub unclaimed : times_running id s.running ≡ 0
    pub unwritten : All (λ (t : Finished). (t.0.id == id) ≡ false) s.executed
    pub row : find_row id s.world.pipeline.rows ≡ found
    pub executions : times id s.log ≡ n

  module _ (id : String) (found : Option IntentRow) (n : ℕ) where
    with_rows-IsStuck :
        (s : Shared W) (intent : Intent) (now : Time)
        → IsStuck id found n s
        → IsStuck id found n
            (record s { world = with_rows (claimed intent.id now s.world.pipeline.rows).0 s.world })
    with_rows-IsStuck s intent now h = record {
      idle = claimed_kept-IsIdle wire wallet id intent now s.world.pipeline.rows h.idle;
      unclaimed = h.unclaimed;
      unwritten = h.unwritten;
      row = claimed_row id intent now s.world.pipeline.rows h.idle ∙ h.row;
      executions = h.executions;
    }

    -- The claim of the stuck id finds no row.
    not_claimed :
        (a : Answers) (intent : Intent) (rows : List IntentRow)
        → IsIdle id rows
        → skips a.rows_affected_fails (claimed intent.id a.now rows).1 ≡ false
        → (intent.id == id) ≡ false
    not_claimed a intent rows idle e = elim (Bool-cases (intent.id == id)) [
      | inl same ↦ absurd (
          ground
            (arith, e, subst (λ k. IsIdle k rows) (sym ((==_iff intent.id id).0 same)) idle a.now))
      | inr other ↦ other
    ]

    started-IsStuck :
        (a : Answers) (intent : Intent) (skip : Bool) (c : Commit) (s : Shared W)
        → skips a.rows_affected_fails (claimed intent.id a.now s.world.pipeline.rows).1 ≡ skip
        → IsStuck id found n s
        → IsStuck id found n (
            started wire wallet intent skip
              (autocommit c (λ rows. (claimed intent.id a.now rows).0) s.world.pipeline.rows)
              s)
    unfolding times_running
    started-IsStuck a intent skip refused s e h = h
    started-IsStuck a intent skip lost s e h = with_rows-IsStuck s intent a.now h
    started-IsStuck a intent true committed s e h = with_rows-IsStuck s intent a.now h
    started-IsStuck a intent false committed s e h =
        let h' = with_rows-IsStuck s intent a.now h in
        let other = not_claimed a intent s.world.pipeline.rows h.idle e in
        record {
          idle = h'.idle;
          unclaimed = rw other (omega (arith, h.unclaimed));
          unwritten = h'.unwritten;
          row = h'.row;
          executions = h'.executions;
        }

    picked_other :
        (k : ℕ) (tasks : List Intent) (intent : Intent) (rest : List Intent)
        → pick k tasks ≡ some (intent, rest)
        → times_running id tasks ≡ 0
        → ((intent.id == id) ≡ false) × (times_running id rest ≡ 0)
    picked_other k tasks intent rest e none_there =
        let counted = times_running-pick id k tasks intent rest e in
        elim (Bool-cases (intent.id == id)) [
          | inl same ↦ absurd (ground (arith, counted, none_there, same))
          | inr other ↦ (other, ground (arith, counted, none_there, other))
        ]

    run_picked-IsStuck :
        (cancelled : Bool) (k : ℕ) (s : Shared W) (o : Option (Intent × List Intent))
        → pick k s.running ≡ o
        → IsStuck id found n s
        → IsStuck id found n (run_picked wire wallet cancelled o s)
    unfolding times
    run_picked-IsStuck cancelled k s none e h = h
    run_picked-IsStuck cancelled k s (some (intent, rest)) e h =
        let (other, none_left) = picked_other k s.running intent rest e h.unclaimed in
        record {
          idle = h.idle;
          unclaimed = none_left;
          unwritten = (other, h.unwritten);
          row = h.row;
          executions = rw other (omega (arith, h.executions));
        }

    All-pick :
        (k : ℕ) (tasks : List Finished) (task : Finished) (rest : List Finished)
        → pick k tasks ≡ some (task, rest)
        → All (λ (t : Finished). (t.0.id == id) ≡ false) tasks
        → ((task.0.id == id) ≡ false) × All (λ (t : Finished). (t.0.id == id) ≡ false) rest
    unfolding pick
    All-pick k [] task rest e all = absurd (ground arith)
    All-pick zero (x ∷ xs) task rest e all =
        let same = some-injective (x, xs) (task, rest) e in
        subst
          (λ (p : Finished × List Finished).
            ((p.0.0.id == id) ≡ false) × All (λ (t : Finished). (t.0.id == id) ≡ false) p.1)
          same all
    All-pick (suc k) (x ∷ xs) task rest e all =
        let (zs, there, joined) = pick_inv x task (pick k xs) rest e in
        let (first, others) = All-pick k xs task zs there all.1 in
        (first, subst (All (λ (t : Finished). (t.0.id == id) ≡ false)) (sym joined) (all.0, others))

    write_picked-IsStuck :
        (a : Answers) (k : ℕ) (s : Shared W) (o : Option (Finished × List Finished))
        → pick k s.executed ≡ o
        → IsStuck id found n s
        → IsStuck id found n (write_picked wire wallet a o s)
    write_picked-IsStuck a k s none e h = h
    write_picked-IsStuck a k s (some ((intent, r), rest)) e h =
        let (other, others) = All-pick k s.executed (intent, r) rest e h.unwritten in
        let written =
          autocommit a.final_ends (set_status intent.id (final_status r).0 a.now)
            s.world.pipeline.rows in
        let kept = finish_kept wire wallet a intent (final_status r).1 s.world written in
        record {
          idle = write_picked-Idle wire wallet id a s (some ((intent, r), rest)) h.idle;
          unclaimed = h.unclaimed;
          unwritten = others;
          row =
              ap (find_row id) kept.1
              ∙ written_row id a.final_ends intent (final_status r).0 a.now s.world.pipeline.rows
                  other
              ∙ h.row;
          executions = h.executions;
        }

    drop_running-IsStuck :
        (k : ℕ) (s : Shared W) (o : Option (Intent × List Intent))
        → pick k s.running ≡ o
        → IsStuck id found n s
        → IsStuck id found n (drop_running wire wallet o s)
    drop_running-IsStuck k s none e h = h
    drop_running-IsStuck k s (some (intent, rest)) e h = record {
      idle = h.idle;
      unclaimed = (picked_other k s.running intent rest e h.unclaimed).1;
      unwritten = h.unwritten;
      row = h.row;
      executions = h.executions;
    }

    drop_executed-IsStuck :
        (k : ℕ) (s : Shared W) (o : Option (Finished × List Finished))
        → pick k s.executed ≡ o
        → IsStuck id found n s
        → IsStuck id found n (drop_executed wire wallet o s)
    drop_executed-IsStuck k s none e h = h
    drop_executed-IsStuck k s (some (task, rest)) e h = record {
      idle = h.idle;
      unclaimed = h.unclaimed;
      unwritten = (All-pick k s.executed task rest e h.unwritten).1;
      row = h.row;
      executions = h.executions;
    }

    step-IsStuck :
        (e : Event) (s : Shared W)
        → IsStuck id found n s
        → IsStuck id found n (step wire wallet e s)
    unfolding step
    step-IsStuck (claim_task a intent) s h = started-IsStuck a intent _ a.claim_ends s refl h
    step-IsStuck (execute k cancelled) s h = run_picked-IsStuck cancelled k s _ refl h
    step-IsStuck (write_status k a) s h = write_picked-IsStuck a k s _ refl h
    step-IsStuck (crash_running k) s h = drop_running-IsStuck k s _ refl h
    step-IsStuck (crash_executed k) s h = drop_executed-IsStuck k s _ refl h

    pub run-IsStuck :
        (es : List Event) (s : Shared W)
        → IsStuck id found n s
        → IsStuck id found n (run wire wallet es s)
    unfolding run
    run-IsStuck [] s h = h
    run-IsStuck (e ∷ es) s h = run-IsStuck es (step wire wallet e s) (step-IsStuck e s h)
