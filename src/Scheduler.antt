-- ===== src/Scheduler.antt =====
-- scheduler/main.go: `handleSubmittedIntent`, which answers one message of `intents.submitted.*`. Its
-- result decides between Ack and Nak, and a message that is not acknowledged is delivered again.
-- proto.Marshal and proto.Unmarshal are parameters; the database and the broker answer by `Answers`.
pub mod Status
pub mod Redelivery
use Prim.Native.String.{◌++◌ as append}
use aien.Prelude.{
  ◌≡◌, Bool, true, false, List, [], ◌∷◌, ◌++◌, Option, none, some, String, ◌==◌, ltb, not,
  if◌then◌else◌,
}
use aien.Prelude.Sql.{Result, ok, err, Commit, committed, refused, lost, Server, Tx, exec, transact}
use aien.Intent.Types.{Intent, IntentStatus, scheduled, Time, Bytes}
use aien.Intent.Names.{type_string}
use aien.Intent.Table.{IntentRow, find_row, set_status}

-- How `PublishMsg` ends: with an acknowledgement, with an error and nothing stored, or with an error
-- though the stream has stored the message.
pub data Publish : Type 0 where
  acked rejected unconfirmed : Publish

pub record Message : Type 0 where
  pub subject : String
  pub data_of : Bytes

-- The table `intents` and the streams.
pub record Pipeline : Type 0 where
  pub rows : List IntentRow
  pub published : List Message

pub data SchedulerError : Type 0 where
  unmarshal_failed query_failed update_failed marshal_failed publish_failed : SchedulerError

pub data Statement : Type 0 where
  update_status : Statement

pub record Answers : Type 0 where
  pub now : Time
  pub select_fails : Bool
  -- the UPDATE of an expired intent, which commits by itself
  pub expire : Commit
  -- the transaction that schedules
  pub server : Server Statement
  pub publish : Publish

pub record Wire : Type 0 where
  pub marshal : Intent → Option Bytes
  pub unmarshal : Bytes → Option Intent

abbrev pub Outcome : Type 0
Outcome = Pipeline × Result SchedulerError (Unit {0})

unfoldable pub publish_message : Publish → Message → Pipeline → Pipeline × Bool
publish_message acked msg s = (record s { published = s.published ++ msg ∷ [] }, true)
publish_message rejected msg s = (s, false)
publish_message unconfirmed msg s = (record s { published = s.published ++ msg ∷ [] }, false)

-- `deadline.Valid && time.Now().After(deadline.Time)`
abbrev pub expired : Time → Option Time → Bool
expired now none = false
expired now (some deadline) = ltb deadline now

-- The intent as it is published, and the subject "tasks.scheduled.%s".
abbrev pub as_scheduled : Intent → Intent
as_scheduled intent = record intent { status = scheduled }

abbrev pub task : Intent → Bytes → Message
task intent data_of = record {
  subject = append "tasks.scheduled." (type_string intent.type_of);
  data_of = data_of;
}

abbrev pub with_status_of : String → Time → Intent → Pipeline → Pipeline
with_status_of status now intent s = record s { rows = set_status intent.id status now s.rows }

-- An UPDATE outside of a transaction.
abbrev pub mark_failed : Commit → Time → Intent → Pipeline → Outcome
mark_failed committed now intent s = (with_status_of "INTENT_STATUS_FAILED" now intent s, ok tt)
mark_failed refused now intent s = (s, err update_failed)
mark_failed lost now intent s =
    (with_status_of "INTENT_STATUS_FAILED" now intent s, err update_failed)

abbrev pub confirmed : Pipeline × Bool → Outcome
confirmed (s, true) = (s, ok tt)
confirmed (s, false) = (s, err publish_failed)

abbrev pub publish_task : Publish → Intent → Option Bytes → Pipeline → Outcome
publish_task p intent none s = (s, err marshal_failed)
publish_task p intent (some bytes) s = confirmed (publish_message p (task intent bytes) s)

-- The second publication of a scheduled intent, whose errors are dropped.
abbrev pub republish : Publish → Intent → Option Bytes → Pipeline → Pipeline
republish p intent none s = s
republish p intent (some bytes) s = (publish_message p (task intent bytes) s).0

module _ (wire : Wire) where
  open wire use {marshal, unmarshal}

  abbrev pub then_publish : Publish → Intent → Outcome → Outcome
  then_publish p intent (s, err e) = (s, err e)
  then_publish p intent (s, ok u) = publish_task p intent (marshal (as_scheduled intent)) s

  -- Steps 4 and 5: the transaction, and the publication behind it.
  unfoldable pub schedule : Answers → Intent → Pipeline → Outcome
  schedule a intent s = then_publish a.publish intent (
      transact a.server update_failed
        (exec (a.server.fails update_status) update_failed
          (with_status_of "INTENT_STATUS_SCHEDULED" a.now intent))
        s)

  -- The steps after the SELECT, whose answer `row` may be older than the state `s`.
  unfoldable pub on_row : Answers → Intent → Option IntentRow → Pipeline → Outcome
  on_row a intent none s = (s, ok tt)
  on_row a intent (some row) s =
      if not (row.status == "INTENT_STATUS_PENDING")
      then (
        if row.status == "INTENT_STATUS_SCHEDULED"
            then republish a.publish intent (marshal (as_scheduled intent)) s
            else s,
        ok tt,
      )
      else if expired a.now row.deadline
      then mark_failed a.expire a.now intent s
      else schedule a intent s

  abbrev pub on_intent : Answers → Option Intent → (selected : List IntentRow) → Pipeline → Outcome
  on_intent a none selected s = (s, err unmarshal_failed)
  on_intent a (some intent) selected s =
      if a.select_fails
      then (s, err query_failed)
      else on_row a intent (find_row intent.id selected) s

  -- A delivery whose SELECT sees the table `selected`, and whose later statements the state `s`: the
  -- two are separate statements, and others may come between them.
  abbrev pub handle_between : Answers → Bytes → (selected : List IntentRow) → Pipeline → Outcome
  handle_between a data_of selected s = on_intent a (unmarshal data_of) selected s

  -- A delivery with no other statement between its own.
  unfoldable pub handle_submitted_intent : Answers → Bytes → Pipeline → Outcome
  handle_submitted_intent a data_of s = handle_between a data_of s.rows s
