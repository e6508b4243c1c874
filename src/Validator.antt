-- ===== src/Validator.antt =====
-- validator/main.go: `handleExecutedIntent`, which answers one message of `intents.executed.*`, over the
-- table `intents` and the ledger's file. proto.Unmarshal, JSON, the hash and the answers of the
-- database and the operating system are parameters.
pub mod Audit
pub mod Startup
use aien.Prelude.{
  Bool, true, false, List, Option, none, some, String, ◌==◌, ◌||◌, ◌&&◌, not, if◌then◌else◌,
}
use aien.Prelude.Sql.{Result, ok, err}
use aien.Intent.Types.{Intent}
use aien.Intent.Table.{IntentRow, find_row}
use aien.Ledger.Scan.{Bytes}
use aien.Ledger.Block.{Block}
use aien.Ledger.Engine.{Codec, Disk, AppendError, append_block}

pub data ValidatorError : Type 0 where
  unmarshal_failed fetch_failed : ValidatorError
  -- "invalid transition state for ledger audit: …"
  invalid_state : (status : String) → ValidatorError
  ledger_failed : AppendError → ValidatorError

-- The file after the call, and what decides between Ack and Nak.
abbrev pub Outcome : Type 0
Outcome = Option Bytes × Result ValidatorError Block

abbrev pub is_final : String → Bool
is_final status = status == "INTENT_STATUS_COMPLETED" || status == "INTENT_STATUS_FAILED"

abbrev pub logged : Option Bytes × Result AppendError Block → Outcome
logged (file, ok block) = (file, ok block)
logged (file, err e) = (file, err (ledger_failed e))

module _ (unmarshal : Bytes → Option Intent) (codec : Codec) (digest : String → String) where
  abbrev pub audit_row :
      Disk → (timestamp : String) → Intent → Option IntentRow → Option Bytes → Outcome
  audit_row disk timestamp intent none file = (file, err fetch_failed)
  audit_row disk timestamp intent (some row) file =
      if not (is_final row.status)
      then (file, err (invalid_state row.status))
      else logged (append_block codec digest disk timestamp intent.id row.type_name row.status file)

  abbrev pub audit :
      (fails : Bool)
      → Disk
      → (timestamp : String) → List IntentRow
      → Option Intent
      → Option Bytes
      → Outcome
  audit fails disk timestamp rows none file = (file, err unmarshal_failed)
  audit fails disk timestamp rows (some intent) file =
      if fails
      then (file, err fetch_failed)
      else audit_row disk timestamp intent (find_row intent.id rows) file

  unfoldable pub handle_executed_intent :
      (fails : Bool)
      → Disk
      → (timestamp : String) → (data_of : Bytes) → List IntentRow
      → Option Bytes
      → Outcome
  handle_executed_intent fails disk timestamp data_of rows file =
      audit fails disk timestamp rows (unmarshal data_of) file
