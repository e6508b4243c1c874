-- ===== src/Engine/Concurrent/Crashed.antt =====
-- A task whose worker ends behind the claim is not taken up again.
use aien.Prelude.{◌≡◌, refl, sym, Bool, true, false, List, [], ◌∷◌, some, String, ==_iff, arith}
use mathlib.Core.Path.{subst}
use aien.Prelude.Sql.{Commit, committed, refused, lost}
use aien.Intent.Types.{Intent, Time}
use aien.Intent.Table.{IntentRow, find_row}
use aien.Scheduler.{Wire}
use aien.Engine.{Wallet, Answers, World, claim, claimed, skips, autocommit, with_rows}
use aien.Engine.Claim.{claimed-IsIdle}
use aien.Engine.Concurrent.{
  Event, claim_task, crash_running, pick, started, drop_running, step, run, at_rest, times,
  times_running,
}
use aien.Engine.Concurrent.Stuck.{IsStuck, run-IsStuck}

abbrev pub as_executing : Time → IntentRow → IntentRow
as_executing now r = record r { status = "INTENT_STATUS_EXECUTING"; updated_at = now }

pub find_row-claimed :
    (id : String) (now : Time) (rows : List IntentRow) (r : IntentRow)
    → find_row id rows ≡ some r
    → r.status ≡ "INTENT_STATUS_SCHEDULED"
    → find_row id (claimed id now rows).0 ≡ some (as_executing now r)
unfolding find_row claim
find_row-claimed id now [] r h e = absurd (ground arith)
find_row-claimed id now (q ∷ rows) r h e = ground (
  arith,
  ==_iff q.id id,
  ==_iff q.status "INTENT_STATUS_SCHEDULED",
  find_row-claimed id now rows r,
)

module _ (wire : Wire) {W A : Type 0} (wallet : Wallet W A) where
  claim_then_crash :
      (a : Answers) (intent : Intent) (skip : Bool) (c : Commit) (world : World W)
      → c ≡ committed
      → let claims = λ (rows : List IntentRow). (claimed intent.id a.now rows).0 in
        let s =
          started wire wallet intent skip
            (autocommit c claims world.pipeline.rows)
            (at_rest wire wallet world) in
        drop_running wire wallet (pick 0 s.running) s
        ≡ at_rest wire wallet (with_rows (claims world.pipeline.rows) world)
  unfolding pick
  claim_then_crash a intent true committed world h = refl
  claim_then_crash a intent false committed world h = refl
  claim_then_crash a intent skip refused world h = absurd (ground arith)
  claim_then_crash a intent skip lost world h = absurd (ground arith)

  -- A worker claims a SCHEDULED intent, and its process ends before it executes it. Whatever the workers do
  -- then, on this intent's message too, and however they are answered, the intent stays EXECUTING and is
  -- never executed, while nothing else writes to the rows.
  pub claimed_crash-find_row :
      (a : Answers) (intent : Intent) (es : List Event) (world : World W) (r : IntentRow)
      → a.claim_ends ≡ committed
      → find_row intent.id world.pipeline.rows ≡ some r
      → r.status ≡ "INTENT_STATUS_SCHEDULED"
      → let s =
          run wire wallet
            (claim_task a intent ∷ crash_running 0 ∷ es)
            (at_rest wire wallet world) in
        (times intent.id s.log ≡ 0)
        × (find_row intent.id s.world.pipeline.rows ≡ some (as_executing a.now r))
  unfolding run step times times_running
  claimed_crash-find_row a intent es world r commits there scheduled =
      let rows = (claimed intent.id a.now world.pipeline.rows).0 in
      let stuck : IsStuck wire wallet intent.id (some (as_executing a.now r)) 0
          (at_rest wire wallet (with_rows rows world)) =
        record {
          idle = claimed-IsIdle intent.id a.now world.pipeline.rows;
          unclaimed = refl;
          unwritten = tt;
          row = find_row-claimed intent.id a.now world.pipeline.rows r there scheduled;
          executions = refl;
        } in
      let skip = skips a.rows_affected_fails (claimed intent.id a.now world.pipeline.rows).1 in
      let last = run-IsStuck wire wallet intent.id (some (as_executing a.now r)) 0 es _ (
        subst (IsStuck wire wallet intent.id (some (as_executing a.now r)) 0)
          (sym (claim_then_crash a intent skip a.claim_ends world commits)) stuck) in
      (last.executions, last.row)
