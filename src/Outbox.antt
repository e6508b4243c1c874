-- ===== src/Outbox.antt =====
-- intent-service/outbox/worker.go: the worker that publishes the events of `outbox_events`. The database
-- and the broker answer by `Answers`.
pub mod Delivery
pub mod Lossless
pub mod Retries
use aien.Prelude.{
  ℕ, suc, ◌+◌, ◌-◌, ◌≡◌, Bool, true, false, List, [], ◌∷◌, ◌++◌, Option, none, some, String, ◌==◌,
  ◌&&◌, ◌||◌, leb, ltb, take, if◌then◌else◌,
}
use aien.Prelude.Sql.{
  Result, ok, err, Commit, committed, refused, lost, Server, Tx, query, exec, raise_if, transact,
  ◌>>=◌, ◌>>◌, pure,
}
use aien.Intent.Types.{Bytes, Time, ℤ, pos, negsuc}
use aien.Intent.Table.{OutboxRow}
use aien.Scheduler.{Publish, Message, publish_message, Pipeline}

-- The settings of `NewWorker`, with its defaults for what is not positive.
pub record Worker : Type 0 where
  pub poll_interval : ℕ  -- nanoseconds
  pub batch_size : ℕ
  pub max_retries : ℕ

abbrev positive_or : ℕ → ℤ → ℕ
positive_or default (pos n) = if leb n 0 then default else n
positive_or default (negsuc n) = default

unfoldable pub new_worker : (poll_interval batch_size max_retries : ℤ) → Worker
new_worker poll_interval batch_size max_retries = record {
  poll_interval = positive_or 250000000 poll_interval;
  batch_size = positive_or 50 batch_size;
  max_retries = positive_or 5 max_retries;
}

pub record Outbox : Type 0 where
  pub events : List OutboxRow
  pub published : List Message

pub data Statement : Type 0 where
  select_events : Statement
  set_processing : (id : String) → Statement

-- Why a batch ends before its events are published. Without events the deferred Rollback ends the
-- transaction, and that is no error of `processBatch`.
pub data WorkerError : Type 0 where
  claim_failed no_events : WorkerError

-- How the statements behind the claim are answered, for each event.
pub record Answers : Type 0 where
  pub now : Time
  pub server : Server Statement
  -- the rows that another transaction has locked
  pub locked : String → Bool
  pub publish : String → Publish
  pub update_ends : String → Commit

-- One minute, in nanoseconds.
abbrev pub minute : ℕ
minute = 60000000000

-- status = 'PENDING' OR (status = 'PROCESSING' AND updated_at < $1)
unfoldable pub is_claimable : (now : Time) → OutboxRow → Bool
is_claimable now r =
    r.status == "PENDING" || r.status == "PROCESSING" && ltb r.updated_at (now - minute)

-- WHERE ... FOR UPDATE SKIP LOCKED
unfoldable pub claimable : Time → (locked : String → Bool) → List OutboxRow → List OutboxRow
claimable now locked [] = []
claimable now locked (r ∷ rows) =
    let rest = claimable now locked rows in
    if is_claimable now r then (if locked r.id then rest else r ∷ rest) else rest

-- ORDER BY created_at ASC
unfoldable pub insert_event : OutboxRow → List OutboxRow → List OutboxRow
insert_event r [] = r ∷ []
insert_event r (q ∷ rows) =
    let rest = insert_event r rows in
    if leb r.created_at q.created_at then r ∷ q ∷ rows else q ∷ rest

unfoldable pub sort_events : List OutboxRow → List OutboxRow
sort_events [] = []
sort_events (r ∷ rows) = insert_event r (sort_events rows)

-- UPDATE outbox_events SET ... WHERE id = $1
unfoldable pub update_event :
    (id : String) → (OutboxRow → OutboxRow) → List OutboxRow → List OutboxRow
update_event id f [] = []
update_event id f (r ∷ rows) = (if r.id == id then f r else r) ∷ update_event id f rows

-- DELETE FROM outbox_events WHERE id = $1
unfoldable pub remove_event : String → List OutboxRow → List OutboxRow
remove_event id [] = []
remove_event id (r ∷ rows) =
    let rest = remove_event id rows in if r.id == id then rest else r ∷ rest

-- An event as the worker keeps it in memory.
pub record OutboxEvent : Type 0 where
  pub id : String
  pub topic : String
  pub payload : Bytes
  pub retry_count : ℕ

abbrev pub event_of : OutboxRow → OutboxEvent
event_of r = record { id = r.id; topic = r.topic; payload = r.payload; retry_count = r.retry_count }

abbrev pub as_processing : Time → OutboxRow → OutboxRow
as_processing now r = record r { status = "PROCESSING"; updated_at = now }

-- `updateEventStatus`
unfoldable pub update_event_status :
    (id status : String) → (retry_count : ℕ) → (now : Time) → List OutboxRow → List OutboxRow
update_event_status id status retry_count now =
    update_event id (λ r. record r { status = status; retry_count = retry_count; updated_at = now })

-- A statement outside of a transaction: only an answer that it was refused leaves the rows.
abbrev pub unless_refused : Commit → List OutboxRow → List OutboxRow → List OutboxRow
unless_refused refused old new = old
unless_refused committed old new = new
unless_refused lost old new = new

-- `newStatus`
abbrev pub new_status : (max_retries retry_count : ℕ) → String
new_status max_retries retry_count = if leb max_retries retry_count then "FAILED" else "PENDING"

abbrev pub message_of : OutboxEvent → Message
message_of ev = record { subject = ev.topic; data_of = ev.payload }

-- The rows after the publication of an event, by its answer.
abbrev pub settle : Worker → Answers → OutboxEvent → Bool → List OutboxRow → List OutboxRow
settle w a ev true rows = unless_refused (a.update_ends ev.id) rows (remove_event ev.id rows)
settle w a ev false rows = unless_refused (a.update_ends ev.id) rows (
    update_event_status ev.id (new_status w.max_retries ev.retry_count) (suc ev.retry_count) a.now
      rows)

abbrev pub sent : Publish → Message → List Message → List Message × Bool
sent Publish.acked msg ms = (ms ++ msg ∷ [], true)
sent Publish.rejected msg ms = (ms, false)
sent Publish.unconfirmed msg ms = (ms ++ msg ∷ [], false)

-- The body of the loop of `processBatch` that publishes.
unfoldable pub publish_event : Worker → Answers → OutboxEvent → Outbox → Outbox
publish_event w a ev s =
    let p = sent (a.publish ev.id) (message_of ev) s.published in
    record { events = settle w a ev p.1 s.events; published = p.0 }

unfoldable pub publish_events : Worker → Answers → List OutboxRow → Outbox → Outbox
publish_events w a [] s = s
publish_events w a (r ∷ rs) s = publish_events w a rs (publish_event w a (event_of r) s)

-- The updates of the claimed rows to PROCESSING.
unfoldable pub mark_processing :
    Answers → List OutboxRow → Tx WorkerError (List OutboxRow) (Unit {0})
mark_processing a [] = pure tt
mark_processing a (r ∷ rs) =
    exec (a.server.fails (set_processing r.id)) claim_failed
      (update_event r.id (as_processing a.now))
    >> mark_processing a rs

abbrev pub is_nil : List OutboxRow → Bool
is_nil [] = true
is_nil (r ∷ rows) = false

unfoldable pub claim_events : Worker → Answers → Tx WorkerError (List OutboxRow) (List OutboxRow)
claim_events w a = do
  events ←
      query (a.server.fails select_events) claim_failed
        (λ rows. take w.batch_size (sort_events (claimable a.now a.locked rows)))
  raise_if (is_nil events) no_events
  mark_processing a events
  pure events

abbrev pub after_claim :
    Worker
    → Answers
    → Outbox
    → List OutboxRow × Result WorkerError (List OutboxRow)
    → Outbox × Result WorkerError (Unit {0})
after_claim w a s (rows, err no_events) = (record s { events = rows }, ok tt)
after_claim w a s (rows, err claim_failed) = (record s { events = rows }, err claim_failed)
after_claim w a s (rows, ok claimed) =
    (publish_events w a claimed (record s { events = rows }), ok tt)

-- `processBatch`
unfoldable pub process_batch : Worker → Answers → Outbox → Outbox × Result WorkerError (Unit {0})
process_batch w a s = after_claim w a s (transact a.server claim_failed (claim_events w a) s.events)
