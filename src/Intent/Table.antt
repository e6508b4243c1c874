-- ===== src/Intent/Table.antt =====
-- The tables of intent-service/store/schema.sql as lists of rows, and the SQL statements on `intents`
-- that the services share. The intent service, the scheduler, the execution engine and the validator
-- work on one database.
pub mod Laws
use aien.Prelude.{
  ℕ, Bool, true, false, List, [], ◌∷◌, ◌++◌, Option, none, some, String, ◌==◌, if◌then◌else◌,
}
use aien.Intent.Types.{Time, Bytes, ℤ}

pub record IntentRow : Type 0 where
  pub id : String
  pub type_name : String
  pub status : String
  pub submitter_id : String
  pub payload : Bytes
  pub priority : ℤ
  pub max_retries : ℤ
  pub idempotent : Bool
  pub deadline : Option Time
  pub signature : String
  pub submitter_public_key : String
  pub created_at : Time
  pub updated_at : Time

pub record OutboxRow : Type 0 where
  pub id : String
  pub topic : String
  pub payload : Bytes
  pub status : String
  pub retry_count : ℕ
  pub created_at : Time
  pub updated_at : Time

pub record Database : Type 0 where
  pub intents : List IntentRow
  pub outbox : List OutboxRow

-- SELECT ... FROM intents WHERE id = $1
unfoldable pub find_row : String → List IntentRow → Option IntentRow
find_row k [] = none
find_row k (r ∷ rows) = if r.id == k then some r else find_row k rows

-- UPDATE intents SET status = $1, updated_at = NOW() WHERE id = $2
unfoldable pub set_status : (k status : String) → (now : Time) → List IntentRow → List IntentRow
set_status k status now [] = []
set_status k status now (r ∷ rows) =
    (if r.id == k then record r { status = status; updated_at = now } else r)
    ∷ set_status k status now rows

-- The primary key of outbox_events.
unfoldable pub has_event : String → List OutboxRow → Bool
has_event k [] = false
has_event k (r ∷ rows) = if r.id == k then true else has_event k rows
