-- ===== src/Engine.antt =====
-- execution-engine/main.go: `executeTask` and `runExecutionSimulation`, which answer one message of
-- `tasks.scheduled.*`. The wallet service is an interface with a state of its own; encoding/json, the
-- protobuf coding and the answers of the database and the broker are parameters.
pub mod Claim
pub mod Concurrent
pub mod WorkerPool
pub mod Answered
pub mod Once
pub mod Payment
use Prim.Native.String.{◌++◌ as append}
use aien.Prelude.{
  ℕ, suc, ◌≡◌, Bool, true, false, List, [], ◌∷◌, Option, none, some, String, ◌==◌, ◌&&◌, ◌||◌,
  if◌then◌else◌, nat_eq,
}
use aien.Prelude.Sql.{Result, ok, err, Commit, committed, refused, lost}
use aien.Intent.Types.{
  Intent, IntentStatus, IntentType, transfer, compute, completed, failed, type_unspecified, query,
  scheduled_type, type_number, Time, Bytes,
}
use aien.Intent.Names.{type_string}
use aien.Intent.Table.{IntentRow, set_status}
use aien.Scheduler.{Publish, Message, Pipeline, Wire, publish_message}

-- `UPDATE intents SET status = $1, updated_at = NOW() WHERE id = $2 AND status = $3`, with the number
-- of the rows that it changed.
unfoldable pub claim : (k to from : String) → (now : Time) → List IntentRow → List IntentRow × ℕ
claim k to from now [] = ([], 0)
claim k to from now (r ∷ rows) =
    let rest = claim k to from now rows in
    if r.id == k && r.status == from
    then (record r { status = to; updated_at = now } ∷ rest.0, suc rest.1)
    else (r ∷ rest.0, rest.1)

-- The JSON payload of a transfer.
pub record TransferPayload (A : Type 0) : Type 0 where
  pub from_account : String
  pub to_account : String
  pub amount : A

-- `walletv1.WalletServiceClient`, as far as the engine calls it, over the wallet's state `W`. A call
-- may fail at the client though the wallet has done it.
pub record Wallet (W A : Type 0) : Type 0 where
  pub transfer_call : TransferPayload A → (reference_id : String) → W → W × Bool
  pub parse_payload : Bytes → Option (TransferPayload A)

pub data EngineError : Type 0 where
  unmarshal_failed claim_failed final_status_failed : EngineError

pub data ExecutionError : Type 0 where
  payload_unparsed wallet_failed context_done : ExecutionError

pub record Answers : Type 0 where
  pub now : Time
  pub claim_ends : Commit
  -- the answer of `RowsAffected`
  pub rows_affected_fails : Bool
  -- the context ends before the two seconds of a computation do
  pub cancelled : Bool
  pub final_ends : Commit
  pub publish : Publish

pub record World (W : Type 0) : Type 0 where
  pub pipeline : Pipeline
  pub wallet : W

module _ {W A : Type 0} (wallet : Wallet W A) where
  open wallet use {transfer_call, parse_payload}

  abbrev pub called : W × Bool → W × Result ExecutionError (Unit {0})
  called (w, true) = (w, ok tt)
  called (w, false) = (w, err wallet_failed)

  abbrev pub transferred :
      Option (TransferPayload A) → String → W → W × Result ExecutionError (Unit {0})
  transferred none id w = (w, err payload_unparsed)
  transferred (some payload) id w = called (transfer_call payload id w)

  -- The switch over the type of the intent.
  abbrev pub simulated :
      IntentType → (cancelled : Bool) → Intent → W → W × Result ExecutionError (Unit {0})
  simulated transfer cancelled intent w = transferred (parse_payload intent.payload) intent.id w
  simulated compute cancelled intent w = (w, if cancelled then err context_done else ok tt)
  simulated _ cancelled intent w = (w, ok tt)

  -- `runExecutionSimulation`
  unfoldable pub run_execution_simulation :
      (cancelled : Bool) → Intent → W → W × Result ExecutionError (Unit {0})
  run_execution_simulation cancelled intent w = simulated intent.type_of cancelled intent w

-- `finalStatus` and `protoFinalStatus`
abbrev pub final_status : Result ExecutionError (Unit {0}) → String × IntentStatus
final_status (ok u) = ("INTENT_STATUS_COMPLETED", completed)
final_status (err e) = ("INTENT_STATUS_FAILED", failed)

-- An UPDATE outside of a transaction: the rows it leaves, and whether it was answered.
abbrev pub autocommit :
    Commit → (List IntentRow → List IntentRow) → List IntentRow → List IntentRow × Bool
autocommit committed f rows = (f rows, true)
autocommit refused f rows = (rows, false)
autocommit lost f rows = (f rows, false)

abbrev pub with_rows : {W : Type 0} → List IntentRow → World W → World W
with_rows rows s = record s { pipeline = record s.pipeline { rows = rows } }

-- "intents.executed.%s"
abbrev pub executed : Intent → Bytes → Message
executed intent data_of = record {
  subject = append "intents.executed." (type_string intent.type_of);
  data_of = data_of;
}

-- Step 5, whose errors are logged only.
abbrev pub publish_executed : {W : Type 0} → Publish → Intent → Option Bytes → World W → World W
publish_executed p intent none s = s
publish_executed p intent (some bytes) s = record s {
  pipeline = (publish_message p (executed intent bytes) s.pipeline).0;
}

abbrev pub claimed : String → Time → List IntentRow → List IntentRow × ℕ
claimed id now rows = claim id "INTENT_STATUS_EXECUTING" "INTENT_STATUS_SCHEDULED" now rows

-- `err != nil || rows == 0`
abbrev pub skips : (fails : Bool) → (affected : ℕ) → Bool
skips fails affected = fails || nat_eq affected 0

module _ (wire : Wire) {W A : Type 0} (wallet : Wallet W A) where
  abbrev pub EngineOutcome : Type 0
  EngineOutcome = World W × Result EngineError (Unit {0})

  abbrev pub finish :
      Answers → Intent → IntentStatus → World W → List IntentRow × Bool → EngineOutcome
  finish a intent st s (rows, false) = (with_rows rows s, err final_status_failed)
  finish a intent st s (rows, true) = (
    publish_executed a.publish intent (wire.marshal (record intent { status = st }))
        (with_rows rows s),
    ok tt,
  )

  -- Steps 4 and 5, after the execution.
  abbrev pub record_result :
      Answers → Intent → World W → W × Result ExecutionError (Unit {0}) → EngineOutcome
  record_result a intent s (w, r) =
      finish a intent (final_status r).1 (record s { wallet = w })
        (autocommit a.final_ends (set_status intent.id (final_status r).0 a.now) s.pipeline.rows)

  -- Steps 3 to 5 for a task that has been claimed.
  unfoldable pub execute_claimed : Answers → Intent → World W → EngineOutcome
  execute_claimed a intent s =
      record_result a intent s (run_execution_simulation wallet a.cancelled intent s.wallet)

  abbrev pub on_claim :
      Answers → Intent → (skip : Bool) → List IntentRow × Bool → World W → EngineOutcome
  on_claim a intent skip (rows, false) s = (with_rows rows s, err claim_failed)
  on_claim a intent true (rows, true) s = (with_rows rows s, ok tt)
  on_claim a intent false (rows, true) s = execute_claimed a intent (with_rows rows s)

  unfoldable pub execute_intent : Answers → Intent → World W → EngineOutcome
  execute_intent a intent s =
      on_claim a intent (skips a.rows_affected_fails (claimed intent.id a.now s.pipeline.rows).1)
        (autocommit a.claim_ends (λ rows. (claimed intent.id a.now rows).0) s.pipeline.rows) s

  abbrev unmarshalled : Answers → Option Intent → World W → EngineOutcome
  unmarshalled a none s = (s, err unmarshal_failed)
  unmarshalled a (some intent) s = execute_intent a intent s

  -- `executeTask`
  unfoldable pub execute_task : Answers → Bytes → World W → EngineOutcome
  execute_task a data_of s = unmarshalled a (wire.unmarshal data_of) s
