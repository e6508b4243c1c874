-- ===== src/Scheduler/Redelivery.antt =====
-- A submitted intent reaches the execution engine: what a delivery left undone the next one does.
use aien.Prelude.{
  Bool-cases, Bool, ◌≡◌, refl, ◌⊎◌, inl, inr, true, false, List, [], ◌∷◌, ◌++◌, some, ==_iff, arith,
  ap, ◌∙◌,
}
use aien.Prelude.Sql.{ok, IsUp, transact_up, exec}
use aien.Intent.Types.{Intent, Bytes}
use aien.Intent.Table.{IntentRow, find_row, set_status}
use aien.Intent.Table.Laws.{find_row-set_status}
use aien.Scheduler.{
  acked, Pipeline, Answers, Wire, Message, schedule, on_row, handle_submitted_intent, as_scheduled,
  task, expired, publish_message, update_status, update_failed, with_status_of,
}
use aien.Scheduler.Status.{schedule_rows}

-- The database and the broker answer every call with success.
pub record AllUp (a : Answers) : Type 0 where
  pub selects : a.select_fails ≡ false
  pub server_up : IsUp a.server
  pub publishes : a.publish ≡ acked

-- The task has been published, and the row of the intent says so.
pub record Queued (intent : Intent) (bytes : Bytes) (s : Pipeline) : Type 0 where
  pub earlier : List Message
  pub sent : s.published ≡ earlier ++ task intent bytes ∷ []
  pub row : IntentRow
  pub found : find_row intent.id s.rows ≡ some row
  pub is_scheduled : row.status ≡ "INTENT_STATUS_SCHEDULED"

module _ (wire : Wire) (a : Answers) (intent : Intent) (bytes : Bytes) (s : Pipeline)
    (r : IntentRow) where
  on_row_scheduled :
      AllUp a
      → wire.marshal (as_scheduled intent) ≡ some bytes
      → find_row intent.id s.rows ≡ some r
      → r.status ≡ "INTENT_STATUS_SCHEDULED"
      → Queued intent bytes (on_row wire a intent (some r) s).0
  unfolding on_row publish_message
  on_row_scheduled up given found done =
      rw (done, given, up.publishes)
        (record { earlier = s.published; sent = refl; row = r; found = found; is_scheduled = done })

  exec_up :
      (fails : Bool)
      → fails ≡ false
      → exec fails update_failed (with_status_of "INTENT_STATUS_SCHEDULED" a.now intent) s
        ≡ ok (tt, with_status_of "INTENT_STATUS_SCHEDULED" a.now intent s)
  exec_up false h = refl
  exec_up true h = absurd (ground arith)

  pub schedule_up :
      AllUp a
      → wire.marshal (as_scheduled intent) ≡ some bytes
      → schedule wire a intent s ≡ (
        (publish_message acked
            (task intent bytes)
            (with_status_of "INTENT_STATUS_SCHEDULED" a.now intent s)).0,
        ok tt,
      )
  unfolding schedule publish_message
  schedule_up up given =
      rw
        (
          transact_up a.server update_failed
              (exec (a.server.fails update_status) update_failed
                (with_status_of "INTENT_STATUS_SCHEDULED" a.now intent))
              s (with_status_of "INTENT_STATUS_SCHEDULED" a.now intent s) tt up.server_up
              (exec_up (a.server.fails update_status) (up.server_up.answers update_status)),
          given,
          up.publishes,
        )
        refl

  on_row_pending :
      AllUp a
      → wire.marshal (as_scheduled intent) ≡ some bytes
      → find_row intent.id s.rows ≡ some r
      → r.status ≡ "INTENT_STATUS_PENDING"
      → expired a.now r.deadline ≡ false
      → Queued intent bytes (on_row wire a intent (some r) s).0
  unfolding on_row publish_message
  on_row_pending up given found pending live =
      rw (pending, live, schedule_up up given)
        (record {
          earlier = s.published;
          sent = refl;
          row = record r { status = "INTENT_STATUS_SCHEDULED"; updated_at = a.now };
          found = ground (
            arith,
            find_row-set_status intent.id intent.id "INTENT_STATUS_SCHEDULED" a.now s.rows,
            found,
            ==_iff intent.id intent.id,
          );
          is_scheduled = refl;
        })

module _ (wire : Wire) (a b : Answers) (intent : Intent) (bytes data_of : Bytes) (s : Pipeline)
    (r : IntentRow) where
  pub found_scheduled :
      find_row intent.id s.rows ≡ some r
      → find_row intent.id (set_status intent.id "INTENT_STATUS_SCHEDULED" a.now s.rows)
        ≡ some (record r { status = "INTENT_STATUS_SCHEDULED"; updated_at = a.now })
  found_scheduled found = ground (
    arith,
    find_row-set_status intent.id intent.id "INTENT_STATUS_SCHEDULED" a.now s.rows,
    found,
    ==_iff intent.id intent.id,
  )

  on_row_again :
      AllUp b
      → wire.marshal (as_scheduled intent) ≡ some bytes
      → find_row intent.id s.rows ≡ some r
      → r.status ≡ "INTENT_STATUS_PENDING"
      → expired b.now r.deadline ≡ false
      → (s' : Pipeline)
      → (s'.rows ≡ s.rows) ⊎ (s'.rows ≡ set_status intent.id "INTENT_STATUS_SCHEDULED" a.now s.rows)
      → Queued intent bytes (on_row wire b intent (find_row intent.id s'.rows) s').0
  on_row_again up given found pending live s' (inl same) =
      let found' = ap (find_row intent.id) same ∙ found in
      rw found' (on_row_pending wire b intent bytes s' r up given found' pending live)
  on_row_again up given found pending live s' (inr e) =
      let found' = ap (find_row intent.id) e ∙ found_scheduled found in
      rw found' (
        on_row_scheduled wire b intent bytes s'
          (record r { status = "INTENT_STATUS_SCHEDULED"; updated_at = a.now }) up given found'
          refl)

  first_rows :
      wire.unmarshal data_of ≡ some intent
      → find_row intent.id s.rows ≡ some r
      → r.status ≡ "INTENT_STATUS_PENDING"
      → expired a.now r.deadline ≡ false
      → let s' = (handle_submitted_intent wire a data_of s).0 in
        (s'.rows ≡ s.rows) ⊎ (s'.rows ≡ set_status intent.id "INTENT_STATUS_SCHEDULED" a.now s.rows)
  unfolding handle_submitted_intent on_row
  first_rows read found pending live = elim (Bool-cases a.select_fails) [
    | inl fails ↦ rw (read, fails) (inl refl)
    | inr answers ↦ simp (read, answers, found, pending, live) (schedule_rows wire a intent s)
  ]

  pub answered :
      (s' : Pipeline)
      → b.select_fails ≡ false
      → wire.unmarshal data_of ≡ some intent
      → handle_submitted_intent wire b data_of s'
        ≡ on_row wire b intent (find_row intent.id s'.rows) s'
  unfolding handle_submitted_intent
  answered s' answers read = simp (read, answers) refl

  -- Let the row of a submitted intent be PENDING, and its deadline not have passed at either of
  -- two deliveries. Then the second delivery, if the database and the broker answer it and the
  -- intent can be encoded, leaves the row SCHEDULED and the task published, however the first
  -- one ended.
  pub redelivery-Queued :
      AllUp b
      → wire.unmarshal data_of ≡ some intent
      → wire.marshal (as_scheduled intent) ≡ some bytes
      → find_row intent.id s.rows ≡ some r
      → r.status ≡ "INTENT_STATUS_PENDING"
      → expired a.now r.deadline ≡ false
      → expired b.now r.deadline ≡ false
      → Queued intent bytes
          (handle_submitted_intent wire b data_of (handle_submitted_intent wire a data_of s).0).0
  unfolding handle_submitted_intent
  redelivery-Queued up read given found pending live_a live =
      let s' = (handle_submitted_intent wire a data_of s).0 in
      rw (answered s' up.selects read)
        (on_row_again up given found pending live s' (first_rows read found pending live_a))
