-- ===== src/Tests/Pipeline.antt =====
-- The scheduler, the execution engine and the validator on one intent.
use aien.Prelude.{◌+◌, ℕ, ◌≡◌, refl, ◌⊎◌, Bool, true, false, [], ◌∷◌, none, some, String}
use aien.Prelude.Sql.{up, up-IsUp, lost, committed, refused}
use aien.Intent.Types.{Intent, transfer, pending, pos}
use aien.Intent.Table.{IntentRow, find_row}
use aien.Scheduler.{
  handle_between, Publish, acked, unconfirmed, Pipeline, Wire, handle_submitted_intent,
}
use aien.Scheduler
use aien.Scheduler.Status.{Rows, handle_between-Rows}
use aien.Scheduler.Redelivery.{Queued, redelivery-Queued}
use aien.Engine.{Wallet, World, run_execution_simulation}
use aien.Engine
use aien.Engine.Once.{deliver, deliver_once}

abbrev pub intent : Intent
intent = record {
  id = "intent1";
  type_of = transfer;
  status = pending;
  submitter_id = "alice";
  payload = b'{' ∷ b'}' ∷ [];
  constraints = none;
  signature = "sig";
  submitter_public_key = "key";
  created_at = 1;
  updated_at = 1;
}

abbrev pub row_with : String → IntentRow
row_with status = record {
  id = "intent1";
  type_name = "INTENT_TYPE_TRANSFER";
  status = status;
  submitter_id = "alice";
  payload = b'{' ∷ b'}' ∷ [];
  priority = pos 5;
  max_retries = pos 3;
  idempotent = false;
  deadline = some 9;
  signature = "sig";
  submitter_public_key = "key";
  created_at = 1;
  updated_at = 1;
}

abbrev pub wire : Wire
wire = record { marshal = λ i. some i.payload; unmarshal = λ b. some intent }

-- The row after another delivery and the engine.
abbrev completed_one : Pipeline
completed_one = record { rows = row_with "INTENT_STATUS_COMPLETED" ∷ []; published = [] }

abbrev pending_one : Pipeline
pending_one = record { rows = row_with "INTENT_STATUS_PENDING" ∷ []; published = [] }

abbrev pub at_2 : Scheduler.Answers
at_2 = record { now = 2; select_fails = false; expire = committed; server = up; publish = acked }

-- The commit of this delivery is done, and its answer is lost.
abbrev lossy : Scheduler.Answers
lossy = record at_2 { server = record up { commit = lost } }

handle_between-Rows_example :
    Rows 2 pending_one.rows completed_one.rows
      (handle_between wire lossy [] pending_one.rows completed_one).0.rows
    × Rows 2 completed_one.rows completed_one.rows
        (handle_submitted_intent wire lossy [] completed_one).0.rows
handle_between-Rows_example = handle_between-Rows wire lossy [] pending_one.rows completed_one

redelivery-Queued_example :
    Queued intent
      (b'{' ∷ b'}' ∷ [])
      (handle_submitted_intent wire at_2 [] (handle_submitted_intent wire lossy [] pending_one).0).0
unfolding find_row
redelivery-Queued_example =
    redelivery-Queued wire lossy at_2 intent (b'{' ∷ b'}' ∷ []) [] pending_one
      (row_with "INTENT_STATUS_PENDING")
      (record { selects = refl; server_up = up-IsUp; publishes = refl }) refl refl refl refl refl
      refl

-- A wallet that counts the transfers.
abbrev counting : Wallet ℕ ℕ
counting = record {
  transfer_call = λ payload reference_id w. (w + 1, true);
  parse_payload = λ b. some (record { from_account = "alice"; to_account = "bob"; amount = 3 });
}

abbrev scheduled_one : World ℕ
scheduled_one = record {
  pipeline = record { rows = row_with "INTENT_STATUS_SCHEDULED" ∷ []; published = [] };
  wallet = 0;
}

-- The final status cannot be written.
abbrev broken : Engine.Answers
broken = record {
  now = 3;
  claim_ends = committed;
  rows_affected_fails = false;
  cancelled = false;
  final_ends = refused;
  publish = acked;
}

deliver_once_example :
    ((deliver wire counting (broken ∷ broken ∷ []) [] scheduled_one).wallet ≡ 0)
    ⊎ ((cancelled : Bool) × ((deliver wire counting (broken ∷ broken ∷ []) [] scheduled_one).wallet
          ≡ (run_execution_simulation counting cancelled intent 0).0))
deliver_once_example =
    deliver_once wire counting (broken ∷ broken ∷ []) [] intent scheduled_one refl

abbrev done : IntentRow
done = row_with "INTENT_STATUS_COMPLETED"
