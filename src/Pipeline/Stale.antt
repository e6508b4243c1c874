-- ===== src/Pipeline/Stale.antt =====
-- A delivery to the scheduler that acts on a row from an earlier state.
use aien.Prelude.{true, ◌≡◌, refl, ◌≢◌, false, List, [], ◌∷◌, some, String, ◌==◌, ==_iff, arith}
use aien.Prelude.Sql.{ok, exec, transact_up, IsUp}
use aien.Intent.Types.{Intent, Time}
use aien.Intent.Table.{IntentRow, find_row, set_status}
use aien.Intent.Table.Laws.{find_row-set_status, with_status}
use aien.Scheduler.{
  update_failed, Answers, Wire, Pipeline, on_row, schedule, expired, with_status_of, update_status,
}
use aien.Scheduler.Status.{then_publish_rows}
use aien.Engine.{claim}
use aien.Engine.Claim.{IsIdle}

claim-found :
    (k to from : String) (now : Time) (rows : List IntentRow) (r : IntentRow)
    → find_row k rows ≡ some r
    → r.status ≡ from
    → (claim k to from now rows).1 ≢ 0
unfolding claim find_row
claim-found k to from now [] r found e h = ground arith
claim-found k to from now (q ∷ rows) r found e h =
    ground (arith, ==_iff q.status from, claim-found k to from now rows r, found, e, h)

module _ (wire : Wire) (a : Answers) (intent : Intent) (s : Pipeline) where
  schedule_up :
      IsUp a.server
      → (schedule wire a intent s).0.rows
        ≡ set_status intent.id "INTENT_STATUS_SCHEDULED" a.now s.rows
  unfolding schedule
  schedule_up up =
      let s' = with_status_of "INTENT_STATUS_SCHEDULED" a.now intent s in
      rw
        (transact_up a.server update_failed
          (exec (a.server.fails update_status) update_failed
            (with_status_of "INTENT_STATUS_SCHEDULED" a.now intent))
          s s' tt up (rw (up.answers update_status) refl))
        (then_publish_rows wire a.publish intent (s', ok tt))

  -- Let a delivery have read a row that was PENDING and not expired, and let another row of the id be
  -- there when it acts, whatever its status: EXECUTING, COMPLETED or FAILED. If the database answers, the
  -- row is SCHEDULED afterwards, and the engine can claim the intent and execute it again.
  pub stale_reschedules :
      (read r : IntentRow)
      → (read.status == "INTENT_STATUS_PENDING") ≡ true
      → expired a.now read.deadline ≡ false
      → IsUp a.server
      → find_row intent.id s.rows ≡ some r
      → let s' = (on_row wire a intent (some read) s).0 in
        (find_row intent.id s'.rows ≡ with_status "INTENT_STATUS_SCHEDULED" a.now (some r))
        × (¬ IsIdle intent.id s'.rows)
  unfolding on_row
  stale_reschedules read r pending live up there =
      let found : find_row intent.id (set_status intent.id "INTENT_STATUS_SCHEDULED" a.now s.rows)
          ≡ with_status "INTENT_STATUS_SCHEDULED" a.now (some r) =
        ground (
          arith,
          there,
          find_row-set_status intent.id intent.id "INTENT_STATUS_SCHEDULED" a.now s.rows,
          ==_iff intent.id intent.id,
        ) in
      rw (pending, live, schedule_up up)
        (
          found,
          λ (idle : IsIdle intent.id (set_status intent.id "INTENT_STATUS_SCHEDULED" a.now s.rows)).
              claim-found intent.id "INTENT_STATUS_EXECUTING" "INTENT_STATUS_SCHEDULED" a.now _ _
                found refl (idle a.now),
        )
