-- ===== src/Intent/Names.antt =====
-- The names of the enums' values, as `String()` gives them, and the functions that read them back:
-- `parseIntentType` and `parseIntentStatus` of intent-service/store/postgres.go.
use aien.Prelude.{◌≡◌, refl, String, ◌==◌, if◌then◌else◌}
use aien.Prelude.Decimal.{decimal_ℤ}
use aien.Intent.Types.{
  IntentType, type_unspecified, transfer, compute, query, scheduled_type, type_number, IntentStatus,
  status_unspecified, pending, validated, scheduled, executing, completed, failed, rejected,
  cancelled, status_number,
}

unfoldable pub type_string : IntentType → String
type_string type_unspecified = "INTENT_TYPE_UNSPECIFIED"
type_string transfer = "INTENT_TYPE_TRANSFER"
type_string compute = "INTENT_TYPE_COMPUTE"
type_string query = "INTENT_TYPE_QUERY"
type_string scheduled_type = "INTENT_TYPE_SCHEDULED"
type_string (type_number n) = decimal_ℤ n

unfoldable pub status_string : IntentStatus → String
status_string status_unspecified = "INTENT_STATUS_UNSPECIFIED"
status_string pending = "INTENT_STATUS_PENDING"
status_string validated = "INTENT_STATUS_VALIDATED"
status_string scheduled = "INTENT_STATUS_SCHEDULED"
status_string executing = "INTENT_STATUS_EXECUTING"
status_string completed = "INTENT_STATUS_COMPLETED"
status_string failed = "INTENT_STATUS_FAILED"
status_string rejected = "INTENT_STATUS_REJECTED"
status_string cancelled = "INTENT_STATUS_CANCELLED"
status_string (status_number n) = decimal_ℤ n

unfoldable pub parse_intent_type : String → IntentType
parse_intent_type s =
    if s == "INTENT_TYPE_TRANSFER"
    then transfer
    else if s == "INTENT_TYPE_COMPUTE"
    then compute
    else if s == "INTENT_TYPE_QUERY"
    then query
    else if s == "INTENT_TYPE_SCHEDULED"
    then scheduled_type
    else type_unspecified

unfoldable pub parse_intent_status : String → IntentStatus
parse_intent_status s =
    if s == "INTENT_STATUS_PENDING"
    then pending
    else if s == "INTENT_STATUS_VALIDATED"
    then validated
    else if s == "INTENT_STATUS_SCHEDULED"
    then scheduled
    else if s == "INTENT_STATUS_EXECUTING"
    then executing
    else if s == "INTENT_STATUS_COMPLETED"
    then completed
    else if s == "INTENT_STATUS_FAILED"
    then failed
    else if s == "INTENT_STATUS_REJECTED"
    then rejected
    else if s == "INTENT_STATUS_CANCELLED"
    then cancelled
    else status_unspecified

-- The value has a name.
abbrev pub IsNamedType : IntentType → Type 0
IsNamedType (type_number n) = ⊥
IsNamedType _ = Unit

abbrev pub IsNamedStatus : IntentStatus → Type 0
IsNamedStatus (status_number n) = ⊥
IsNamedStatus _ = Unit

type_round_trip : (t : IntentType) → IsNamedType t → parse_intent_type (type_string t) ≡ t
unfolding parse_intent_type type_string
type_round_trip type_unspecified h = refl
type_round_trip transfer h = refl
type_round_trip compute h = refl
type_round_trip query h = refl
type_round_trip scheduled_type h = refl
type_round_trip (type_number n) h = absurd h

status_round_trip : (s : IntentStatus) → IsNamedStatus s → parse_intent_status (status_string s) ≡ s
unfolding parse_intent_status status_string
status_round_trip (status_number n) h = absurd h
status_round_trip _ h = refl

-- Every named type and status that is written to the database is read back as itself.
pub parse-string :
    (t : IntentType) (s : IntentStatus)
    → IsNamedType t
    → IsNamedStatus s
    → (parse_intent_type (type_string t) ≡ t) × (parse_intent_status (status_string s) ≡ s)
parse-string t s ht hs = (type_round_trip t ht, status_round_trip s hs)
