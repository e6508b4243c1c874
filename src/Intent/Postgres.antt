-- ===== src/Intent/Postgres.antt =====
-- `PostgresStore` of intent-service/store/postgres.go: `Create` and `Get`; Listing has
-- `List`. The new ids, the clock, proto.Marshal, the times that a column keeps and the format of the page tokens are
-- parameters.
pub mod Create
pub mod Listing
use Prim.Native.String.{◌++◌ as append}
use aien.Prelude.{
  ℕ, ◌≡◌, Bool, true, false, List, [], ◌∷◌, ◌++◌, Option, none, some, String, ◌==◌, ◌||◌, ◌&&◌, leb,
  ltb, nat_eq, map, length, take, not, if◌then◌else◌, is_some,
}
use aien.Prelude.Sql.{Result, ok, err, Tx, ◌>>=◌, ◌>>◌, pure, unless, Server, transact}
use aien.Intent.Types.{
  Intent, IntentConstraints, IntentStatus, IntentType, SubmitIntentRequest, status_unspecified,
  pending, Time, Bytes, ℤ, pos, negsuc,
}
use aien.Intent.Names.{type_string, status_string, parse_intent_type, parse_intent_status}
use aien.Intent.Filter.{matches, status_eq}
use aien.Intent.Memory.{effective_page_size}
use aien.Intent.Table.{IntentRow, OutboxRow, Database, find_row, has_event}

pub data Statement : Type 0 where
  insert_intent insert_event : Statement

pub data StoreError : Type 0 where
  -- "intent not found: %s"
  intent_not_found : String → StoreError
  -- "failed to marshal outbox event payload: %w"
  marshal_failed : StoreError
  -- an error of the driver or the server
  database : StoreError

pub record Formats : Type 0 where
  -- `proto.Marshal(intent)`
  pub marshal : Intent → Option Bytes
  -- A time after it was written to a TIMESTAMP WITH TIME ZONE column, which keeps microseconds.
  pub column_time : Time → Time
  -- `time.Parse` and `Format` with time.RFC3339Nano
  pub parse_time : String → Option Time
  pub format_time : Time → String

-- The constraints that a request without any gets.
abbrev pub default_constraints : IntentConstraints
default_constraints = record {
  deadline = none;
  priority = pos 5;
  max_retries = pos 3;
  idempotent = false;
}

unfoldable pub constraints_of : Option IntentConstraints → IntentConstraints
constraints_of none = default_constraints
constraints_of (some c) = c

-- "intents.submitted.%s"
abbrev pub submitted_topic : IntentType → String
submitted_topic t = append "intents.submitted." (type_string t)

-- The intent that `Create` returns and publishes.
unfoldable pub created_intent : (id : String) → (now : Time) → SubmitIntentRequest → Intent
created_intent id now req = record {
  id = id;
  type_of = req.type_of;
  status = pending;
  submitter_id = req.submitter_id;
  payload = req.payload;
  constraints = some (constraints_of req.constraints);
  signature = req.signature;
  submitter_public_key = req.submitter_public_key;
  created_at = now;
  updated_at = now;
}

module _ (formats : Formats) where
  open formats use {marshal, column_time, parse_time, format_time}

  -- A nullable time column.
  abbrev pub column_deadline : Option Time → Option Time
  column_deadline none = none
  column_deadline (some t) = some (column_time t)

  unfoldable pub created_row : (id : String) → (now : Time) → SubmitIntentRequest → IntentRow
  created_row id now req =
      let c = constraints_of req.constraints in
      record {
        id = id;
        type_name = type_string req.type_of;
        status = status_string pending;
        submitter_id = req.submitter_id;
        payload = req.payload;
        priority = c.priority;
        max_retries = c.max_retries;
        idempotent = c.idempotent;
        deadline = column_deadline c.deadline;
        signature = req.signature;
        submitter_public_key = req.submitter_public_key;
        created_at = column_time now;
        updated_at = column_time now;
      }

  unfoldable pub created_event :
      (outbox_id : String) → (now : Time) → IntentType → Bytes → OutboxRow
  created_event outbox_id now t event_data = record {
    id = outbox_id;
    topic = submitted_topic t;
    payload = event_data;
    status = "PENDING";
    retry_count = 0;
    created_at = column_time now;
    updated_at = column_time now;
  }

  -- INSERT INTO intents: the primary key refuses an id that is there.
  abbrev insert_row : Server Statement → IntentRow → Tx StoreError Database (Unit {0})
  insert_row server row db = unless (server.fails insert_intent) database (
      unless (is_some (find_row row.id db.intents)) database
        (ok (tt, record db { intents = db.intents ++ row ∷ [] })))

  -- INSERT INTO outbox_events
  abbrev insert_outbox : Server Statement → OutboxRow → Tx StoreError Database (Unit {0})
  insert_outbox server row db = unless (server.fails insert_event) database (
      unless (has_event row.id db.outbox) database
        (ok (tt, record db { outbox = db.outbox ++ row ∷ [] })))

  abbrev marshalled : Option Bytes → Tx StoreError Database Bytes
  marshalled none db = err marshal_failed
  marshalled (some bytes) db = ok (bytes, db)

  unfoldable pub create_body :
      Server Statement
      → (id outbox_id : String) → (now : Time) → SubmitIntentRequest
      → Tx StoreError Database Intent
  create_body server id outbox_id now req = do
    insert_row server (created_row id now req)
    event_data ← marshalled (marshal (created_intent id now req))
    insert_outbox server (created_event outbox_id now req.type_of event_data)
    pure (created_intent id now req)

  unfoldable pub create :
      Server Statement
      → (id outbox_id : String) → (now : Time) → SubmitIntentRequest
      → Database
      → Database × Result StoreError Intent
  create server id outbox_id now req =
      transact server database (create_body server id outbox_id now req)

  -- A row as `Scan` and the assignments behind it read it.
  unfoldable pub intent_of_row : IntentRow → Intent
  intent_of_row r = record {
    id = r.id;
    type_of = parse_intent_type r.type_name;
    status = parse_intent_status r.status;
    submitter_id = r.submitter_id;
    payload = r.payload;
    constraints = some (record {
      deadline = r.deadline;
      priority = r.priority;
      max_retries = r.max_retries;
      idempotent = r.idempotent;
    });
    signature = r.signature;
    submitter_public_key = r.submitter_public_key;
    created_at = r.created_at;
    updated_at = r.updated_at;
  }

  unfoldable pub get : (fails : Bool) → String → Database → Result StoreError Intent
  get fails id db = unless fails database (elim (find_row id db.intents) [
    | none ↦ err (intent_not_found id)
    | some r ↦ ok (intent_of_row r)
  ])
