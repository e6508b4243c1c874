-- ===== src/Tests/EndToEnd.antt =====
-- One transfer from the scheduler to the ledger, with a wire that knows three messages.
use aien.Prelude.{zero, suc, false, suc, ℕ, ◌≡◌, refl, [], ◌∷◌, ◌++◌, Option, none, some}
use aien.Prelude.Sql.{ok, up-IsUp}
use aien.Intent.Types.{Intent, IntentStatus, scheduled, completed, Bytes}
use aien.Intent.Table.{find_row}
use aien.Wallet.Money.{cents}
use aien.Wallet.Tables.{balance_of, has_reference, has_transaction}
use aien.Scheduler.{Wire, as_scheduled, task}
use aien.Engine.{World, TransferPayload, executed}
use aien.Engine.Payment.{Bank}
use aien.Engine.Payment.Completed.{IsCompleted}
use aien.Ledger.Engine.{verify}
use aien.Ledger.Append.{Holds, missing}
use aien.Validator.{handle_executed_intent}
use aien.Pipeline.Completes.{
  as_completed, IsCoded, IsPayable, paid, after_engine, pipeline-IsCompleted,
}
use aien.Tests.Ledger.{healthy, healthy-IsHealthy, digest, codec, first, first-IsWritable}
use aien.Tests.Payment.{parse, answered, answers}
use aien.Tests.Pipeline.{intent, row_with, at_2}
use aien.Tests.Wallet.{two_accounts}

abbrev code : IntentStatus → Bytes
code scheduled = 1 ∷ []
code completed = 2 ∷ []
code _ = 0 ∷ []

abbrev message : Bytes → Option Intent
message (zero ∷ []) = some intent
message (suc zero ∷ []) = some (as_scheduled intent)
message (suc (suc zero) ∷ []) = some (as_completed intent)
message _ = none

abbrev three : Wire
three = record { marshal = λ i. some (code i.status); unmarshal = message }

abbrev three-IsCoded : IsCoded three intent (0 ∷ []) (1 ∷ []) (2 ∷ [])
three-IsCoded = record {
  submitted_read = refl;
  scheduled_written = refl;
  scheduled_read = refl;
  done_written = refl;
  done_read = refl;
}

abbrev start : World (Bank cents)
start = record {
  pipeline = record { rows = row_with "INTENT_STATUS_PENDING" ∷ []; published = [] };
  wallet = record { tables = two_accounts; exchanges = answered ∷ [] };
}

abbrev payload : TransferPayload ℕ
payload = record { from_account = "alice"; to_account = "bob"; amount = 30 }

payable : IsPayable cents parse intent start.wallet payload answered 100 5
unfolding balance_of has_reference has_transaction
payable = record {
  is_transfer = refl;
  parsed = refl;
  later = [];
  exchanged = refl;
  arrives = refl;
  replies = refl;
  answers = up-IsUp;
  well_formed = record {
    from_given = refl;
    to_given = refl;
    positive = refl;
    reference_given = refl;
    distinct = refl;
  };
  fresh = refl;
  unused = refl;
  from = refl;
  to = refl;
  covered = refl;
}

pipeline-IsCompleted_example :
    let s' =
      after_engine cents parse three codec digest at_2 answers intent
        (0 ∷ [])
        (1 ∷ [])
        (2 ∷ [])
        start in
    let l =
      handle_executed_intent message codec digest false healthy "2026-01-01T00:00:00Z"
        (2 ∷ [])
        s'.pipeline.rows
        none in
    (s'.pipeline.published
      ≡ ([] ++ task intent (1 ∷ []) ∷ []) ++ executed (as_scheduled intent) (2 ∷ []) ∷ [])
    × (s'.wallet.tables ≡ paid cents parse "intent1" "tx2" payload 100 5 two_accounts)
    × IsCompleted "intent1" s'.pipeline.rows
    × (l.1 ≡ ok first)
    × Holds codec digest l.0 ([] ++ first ∷ [])
    × (verify codec digest healthy l.0 ≡ none)
unfolding find_row
pipeline-IsCompleted_example =
    pipeline-IsCompleted cents parse three codec digest at_2 answers intent (0 ∷ []) (1 ∷ [])
      (2 ∷ []) start (row_with "INTENT_STATUS_PENDING") payload answered 100 5 healthy
      "2026-01-01T00:00:00Z" none []
      (record { selects = refl; server_up = up-IsUp; publishes = refl })
      (record { claims = refl; counts = refl; writes = refl; publishes = refl }) three-IsCoded refl
      refl refl payable healthy-IsHealthy tt missing tt first-IsWritable
