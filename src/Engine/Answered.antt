-- ===== src/Engine/Answered.antt =====
-- A task that the database and the broker answer, with an execution that succeeds.
use aien.Prelude.{◌≡◌, refl, false, List, [], ◌∷◌, ◌++◌, some, String, ==_iff, nat_eq, arith}
use aien.Prelude.Sql.{ok, committed}
use aien.Intent.Types.{Intent, Bytes, Time, completed}
use aien.Intent.Table.{IntentRow, find_row, set_status}
use aien.Intent.Table.Laws.{find_row-set_status}
use aien.Scheduler.{Wire, acked, publish_message}
use aien.Engine.{
  Wallet, Answers, World, claim, claimed, execute_intent, execute_claimed, executed,
  run_execution_simulation,
}
use aien.Engine.Concurrent.Crashed.{find_row-claimed}

pub record AllUp (a : Answers) : Type 0 where
  pub claims : a.claim_ends ≡ committed
  pub counts : a.rows_affected_fails ≡ false
  pub writes : a.final_ends ≡ committed
  pub publishes : a.publish ≡ acked

claimed-some :
    (id : String) (now : Time) (rows : List IntentRow) (r : IntentRow)
    → find_row id rows ≡ some r
    → r.status ≡ "INTENT_STATUS_SCHEDULED"
    → nat_eq (claimed id now rows).1 0 ≡ false
unfolding find_row claim
claimed-some id now [] r h e = absurd (ground arith)
claimed-some id now (q ∷ rows) r h e =
    ground
      (arith, ==_iff q.id id, ==_iff q.status "INTENT_STATUS_SCHEDULED", claimed-some id now rows r)

module _ (wire : Wire) {W A : Type 0} (wallet : Wallet W A) (a : Answers) (intent : Intent)
    (bytes : Bytes) (s : World W) (w : W) (r : IntentRow) where
  abbrev completed_row : IntentRow
  completed_row = record r { status = "INTENT_STATUS_COMPLETED"; updated_at = a.now }

  abbrev rows' : List IntentRow
  rows' =
      set_status intent.id "INTENT_STATUS_COMPLETED" a.now
        (claimed intent.id a.now s.pipeline.rows).0

  found_completed :
      find_row intent.id s.pipeline.rows ≡ some r
      → r.status ≡ "INTENT_STATUS_SCHEDULED"
      → find_row intent.id rows' ≡ some completed_row
  found_completed found scheduled = ground (
    arith,
    find_row-set_status intent.id intent.id "INTENT_STATUS_COMPLETED" a.now
        (claimed intent.id a.now s.pipeline.rows).0,
    find_row-claimed intent.id a.now s.pipeline.rows r found scheduled,
    ==_iff intent.id intent.id,
  )

  -- The row is COMPLETED, the wallet is as the execution has left it, and the message is published.
  pub execute_intent_up :
      AllUp a
      → find_row intent.id s.pipeline.rows ≡ some r
      → r.status ≡ "INTENT_STATUS_SCHEDULED"
      → run_execution_simulation wallet a.cancelled intent s.wallet ≡ (w, ok tt)
      → wire.marshal (record intent { status = completed }) ≡ some bytes
      → let s' = (execute_intent wire wallet a intent s).0 in
        (s'.wallet ≡ w)
        × (find_row intent.id s'.pipeline.rows ≡ some completed_row)
        × (s'.pipeline.published ≡ s.pipeline.published ++ executed intent bytes ∷ [])
  unfolding execute_intent execute_claimed publish_message
  execute_intent_up up found scheduled runs given =
      rw
        (
          up.claims,
          up.counts,
          claimed-some intent.id a.now s.pipeline.rows r found scheduled,
          runs,
          up.writes,
          given,
          up.publishes,
        )
        (refl, found_completed found scheduled, refl)
