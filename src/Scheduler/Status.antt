-- ===== src/Scheduler/Status.antt =====
-- What the scheduler does to the status of an intent.
use aien.Prelude.{
  ◌∙◌, ap, Bool, ◌≡◌, refl, ◌⊎◌, inl, inr, true, false, List, Option, none, some, String, ◌==◌,
  ==_iff, arith, Option-cases, Bool-cases,
}
use aien.Prelude.Sql.{committed, refused, lost, exec, Commit, transact, ok, err, transact-cases}
use aien.Intent.Types.{Intent, Time, Bytes}
use aien.Intent.Table.{IntentRow, find_row, set_status}
use aien.Scheduler.{
  with_status_of, update_status, update_failed, Publish, acked, Pipeline, Answers, Wire, Outcome,
  publish_message, publish_task, republish, schedule, on_row, on_intent, handle_between,
  handle_submitted_intent, as_scheduled, task, expired, confirmed, then_publish, mark_failed,
}

publish_message_rows :
    (p : Publish) (msg : aien.Scheduler.Message) (s : Pipeline)
    → (publish_message p msg s).0.rows ≡ s.rows
unfolding publish_message
publish_message_rows p msg s = ground arith

republish_rows :
    (p : Publish) (intent : Intent) (bytes : Option Bytes) (s : Pipeline)
    → (republish p intent bytes s).rows ≡ s.rows
republish_rows p intent none s = refl
republish_rows p intent (some bytes) s = publish_message_rows p (task intent bytes) s

confirmed_rows : (r : Pipeline × _) → (confirmed r).0 ≡ r.0
confirmed_rows (s, true) = refl
confirmed_rows (s, false) = refl

publish_task_rows :
    (p : Publish) (intent : Intent) (bytes : Option Bytes) (s : Pipeline)
    → (publish_task p intent bytes s).0.rows ≡ s.rows
publish_task_rows p intent none s = refl
publish_task_rows p intent (some bytes) s = ground (
  arith,
  confirmed_rows (publish_message p (task intent bytes) s),
  publish_message_rows p (task intent bytes) s,
)

-- A delivery leaves the table as it was, or it sets the row of an id that was PENDING when it was
-- selected to SCHEDULED, or to FAILED if its deadline has passed.
pub data Rows (now : Time) (selected rows rows' : List IntentRow) : Type 0 where
  unchanged : rows' ≡ rows → Rows now selected rows rows'
  to_scheduled :
      (k : String) (r : IntentRow)
      → find_row k selected ≡ some r
      → r.status ≡ "INTENT_STATUS_PENDING"
      → expired now r.deadline ≡ false
      → rows' ≡ set_status k "INTENT_STATUS_SCHEDULED" now rows
      → Rows now selected rows rows'
  to_failed :
      (k : String) (r : IntentRow)
      → find_row k selected ≡ some r
      → r.status ≡ "INTENT_STATUS_PENDING"
      → expired now r.deadline ≡ true
      → rows' ≡ set_status k "INTENT_STATUS_FAILED" now rows
      → Rows now selected rows rows'

module _ (wire : Wire) where
  pub then_publish_rows :
      (p : Publish) (intent : Intent) (r : Outcome)
      → (then_publish wire p intent r).0.rows ≡ r.0.rows
  then_publish_rows p intent (s, err e) = refl
  then_publish_rows p intent (s, ok u) =
      publish_task_rows p intent (wire.marshal (as_scheduled intent)) s

  -- The transaction of `schedule`.
  abbrev scheduling : Answers → Intent → Pipeline → Outcome
  scheduling a intent s =
      transact a.server update_failed
        (exec (a.server.fails update_status) update_failed
          (with_status_of "INTENT_STATUS_SCHEDULED" a.now intent))
        s

  exec_state :
      (b : Bool) (a : Answers) (intent : Intent) (s : Pipeline) (p : Unit {0} × Pipeline)
      → exec b update_failed (with_status_of "INTENT_STATUS_SCHEDULED" a.now intent) s ≡ ok p
      → p.1.rows ≡ set_status intent.id "INTENT_STATUS_SCHEDULED" a.now s.rows
  exec_state true a intent s p h = ground arith
  exec_state false a intent s p h = ground arith

  pub schedule_rows :
      (a : Answers) (intent : Intent) (s : Pipeline)
      → ((schedule wire a intent s).0.rows ≡ s.rows)
        ⊎ ((schedule wire a intent s).0.rows
            ≡ set_status intent.id "INTENT_STATUS_SCHEDULED" a.now s.rows)
  unfolding schedule
  schedule_rows a intent s =
      rw (then_publish_rows a.publish intent (scheduling a intent s))
        (elim (transact-cases a.server update_failed
          (exec (a.server.fails update_status) update_failed
            (with_status_of "INTENT_STATUS_SCHEDULED" a.now intent))
          s) [
            | inl same ↦ inl (ap (λ (t : Pipeline). t.rows) same)
            | inr (p, done, e) ↦ inr (
                ap (λ (t : Pipeline). t.rows) e
                ∙ exec_state (a.server.fails update_status) a intent s p done)
          ])

  mark_failed_rows :
      (c : Commit) (now : Time) (intent : Intent) (s : Pipeline)
      → ((mark_failed c now intent s).0.rows ≡ s.rows)
        ⊎ ((mark_failed c now intent s).0.rows
            ≡ set_status intent.id "INTENT_STATUS_FAILED" now s.rows)
  mark_failed_rows committed now intent s = inr refl
  mark_failed_rows refused now intent s = inl refl
  mark_failed_rows lost now intent s = inr refl

  on_row-Rows :
      (a : Answers) (intent : Intent) (selected : List IntentRow) (s : Pipeline)
      → Rows a.now selected s.rows (on_row wire a intent (find_row intent.id selected) s).0.rows
  unfolding on_row
  on_row-Rows a intent selected s = elim (Option-cases (find_row intent.id selected)) [
    | inl missing ↦ rw missing (unchanged refl)
    | inr (r, found) ↦ elim (Bool-cases (r.status == "INTENT_STATUS_PENDING")) [
      | inl is_pending ↦
          let pending = (==_iff r.status "INTENT_STATUS_PENDING").0 is_pending in
          elim (Bool-cases (expired a.now r.deadline)) [
            | inl late ↦ elim (mark_failed_rows a.expire a.now intent s) [
              | inl same ↦ unchanged (rw (found, is_pending, late) same)
              | inr e ↦ to_failed intent.id r found pending late (rw (found, is_pending, late) e)
            ]
            | inr live ↦ elim (schedule_rows a intent s) [
              | inl same ↦ unchanged (rw (found, is_pending, live) same)
              | inr e ↦ to_scheduled intent.id r found pending live (rw (found, is_pending, live) e)
            ]
          ]
      | inr other ↦ elim (Bool-cases (r.status == "INTENT_STATUS_SCHEDULED")) [
        | inl again ↦ unchanged (
            rw (found, other, again)
              (republish_rows a.publish intent (wire.marshal (as_scheduled intent)) s))
        | inr done ↦ unchanged (rw (found, other, done) refl)
      ]
    ]
  ]

  seen_rows :
      (a : Answers) (data_of : Bytes) (table : List IntentRow) (s : Pipeline)
      → Rows a.now table s.rows (handle_between wire a data_of table s).0.rows
  unfolding on_row schedule
  seen_rows a data_of table s = elim (Option-cases (wire.unmarshal data_of)) [
    | inl none_given ↦ rw none_given (unchanged refl)
    | inr (intent, given) ↦ elim (Bool-cases a.select_fails) [
      | inl fails ↦ rw (given, fails) (unchanged refl)
      | inr answers ↦ rw (given, answers) (on_row-Rows a intent table s)
    ]
  ]

  -- One delivery, whatever its message and the answers are, and whatever other statements come between its
  -- SELECT and its later ones, leaves the table that these meet as it was, or it sets the rows of
  -- one id, whose first row the SELECT saw as PENDING: to SCHEDULED if the deadline that it saw has
  -- not passed, and to FAILED if it has. With nothing in between, the first row of that id is
  -- PENDING when it is set.
  pub handle_between-Rows :
      (a : Answers) (data_of : Bytes) (selected : List IntentRow) (s : Pipeline)
      → Rows a.now selected s.rows (handle_between wire a data_of selected s).0.rows
        × Rows a.now s.rows s.rows (handle_submitted_intent wire a data_of s).0.rows
  unfolding handle_submitted_intent
  handle_between-Rows a data_of selected s =
      (seen_rows a data_of selected s, seen_rows a data_of s.rows s)
