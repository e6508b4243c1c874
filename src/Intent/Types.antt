-- ===== src/Intent/Types.antt =====
-- The enums and messages of proto/intent/v1/intent.pb.go. A proto3 enum is open: a number with no
-- name is a value too. A time is a number of nanoseconds, a nil pointer is `none`.
pub use aien.Prelude.Decimal.{ℤ, pos, negsuc}
use aien.Prelude.{ℕ, Bool, List, Option, String}

pub data IntentType : Type 0 where
  type_unspecified transfer compute query scheduled_type : IntentType
  type_number : ℤ → IntentType

pub data IntentStatus : Type 0 where
  status_unspecified pending validated scheduled executing : IntentStatus
  completed failed rejected cancelled : IntentStatus
  status_number : ℤ → IntentStatus

abbrev pub Time : Type 0
Time = ℕ

abbrev pub Bytes : Type 0
Bytes = List ℕ

pub record IntentConstraints : Type 0 where
  pub deadline : Option Time
  pub priority : ℤ  -- int32
  pub max_retries : ℤ  -- int32
  pub idempotent : Bool

pub record Intent : Type 0 where
  pub id : String
  pub type_of : IntentType
  pub status : IntentStatus
  pub submitter_id : String
  pub payload : Bytes
  pub constraints : Option IntentConstraints
  pub signature : String
  pub submitter_public_key : String
  pub created_at : Time
  pub updated_at : Time

pub record SubmitIntentRequest : Type 0 where
  pub type_of : IntentType
  pub payload : Bytes
  pub constraints : Option IntentConstraints
  pub submitter_id : String
  pub signature : String
  pub submitter_public_key : String

pub record SubmitIntentResponse : Type 0 where
  pub intent_id : String
  pub status : IntentStatus
  pub created_at : Time

pub record ListIntentsRequest : Type 0 where
  pub status_filter : IntentStatus
  pub submitter_id_filter : String
  pub page_size : ℤ  -- int32
  pub page_token : String

pub record ListIntentsResponse : Type 0 where
  pub intents : List Intent
  pub next_page_token : String
  pub total_count : ℤ  -- int32
