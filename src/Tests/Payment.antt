-- ===== src/Tests/Payment.antt =====
-- The engine and the wallet on one transfer.
use aien.Prelude.{ℕ, ◌≡◌, refl, ◌⊎◌, true, false, [], ◌∷◌, Option, some, arith, differ}
use aien.Prelude.Sql.{up, committed}
use aien.Intent.Types.{Bytes}
use aien.Intent.Table.{find_row, set_status}
use aien.Wallet.Money.{cents}
use aien.Wallet.Tables.{balance_of, has_reference, has_transaction, insert_account}
use aien.Scheduler.{acked}
use aien.Engine.{TransferPayload, World, execute_task, Answers}
use aien.Engine.Payment.{Bank, Exchange, bank}
use aien.Engine.Payment.Paid.{Paid}
use aien.Engine.Payment.Completed.{IsCompleted, execute_task-Settled}
use aien.Pipeline.{Run, act, execute, schedule_step, execute_step, done, next}
use aien.Pipeline.Once.{run_once}
use aien.Pipeline.Stale.{stale_reschedules}
use aien.Scheduler.{on_row, Pipeline}
use aien.Intent.Table.Laws.{with_status}
use aien.Engine.Claim.{IsIdle}
use aien.Prelude.Sql.{up-IsUp}
use aien.Tests.Pipeline.{intent, row_with, wire, at_2}
use aien.Tests.Wallet.{two_accounts}

abbrev pub parse : Bytes → Option (TransferPayload ℕ)
parse b = some (record { from_account = "alice"; to_account = "bob"; amount = 30 })

-- The first reply is lost on the way, the second call is answered.
abbrev lost_reply : Exchange
lost_reply = record { request_arrives = true; server = up; tx_id = "tx1"; reply_arrives = false }

abbrev pub answered : Exchange
answered = record { request_arrives = true; server = up; tx_id = "tx2"; reply_arrives = true }

abbrev pub scheduled_row : World (Bank cents)
scheduled_row = record {
  pipeline = record { rows = row_with "INTENT_STATUS_SCHEDULED" ∷ []; published = [] };
  wallet = record { tables = two_accounts; exchanges = answered ∷ [] };
}

abbrev pub answers : Answers
answers = record {
  now = 3;
  claim_ends = committed;
  rows_affected_fails = false;
  cancelled = false;
  final_ends = committed;
  publish = acked;
}

scheduled_open : IsCompleted "intent1" (row_with "INTENT_STATUS_SCHEDULED" ∷ []) → ⊥
unfolding find_row
scheduled_open (q, found, ends) =
    ground (arith, found, ends, differ "INTENT_STATUS_SCHEDULED" "INTENT_STATUS_COMPLETED" refl)

execute_task-Settled_example :
    (p : TransferPayload ℕ) × (parse intent.payload ≡ some p)
    × Paid cents p "intent1" two_accounts
        (execute_task wire (bank cents parse) answers [] scheduled_row).0.wallet.tables
unfolding execute_task find_row set_status aien.Engine.execute_intent aien.Engine.claim
    aien.Engine.execute_claimed aien.Scheduler.publish_message aien.Engine.run_execution_simulation
    bank aien.Wallet.Handler.transfer_rpc aien.Wallet.Store.transfer aien.Wallet.Store.transfer_body
    has_reference balance_of insert_account aien.Wallet.Store.lock_order aien.Wallet.Store.locked
    has_transaction
execute_task-Settled_example =
    execute_task-Settled cents wire parse answers [] intent scheduled_row refl refl scheduled_open
      (_, refl, refl)

-- The first execution's reply is lost, a scheduler that has read the row as PENDING makes it SCHEDULED
-- again, and the engine executes the intent a second time.
abbrev lossy_row : World (Bank cents)
lossy_row = record scheduled_row {
  wallet = record { tables = two_accounts; exchanges = lost_reply ∷ answered ∷ [] };
}

abbrev first_run : World (Bank cents)
first_run = execute cents wire parse answers [] lossy_row

abbrev rescheduled : World (Bank cents)
rescheduled = act cents wire parse at_2 intent (some (row_with "INTENT_STATUS_PENDING")) first_run

abbrev second_run : World (Bank cents)
second_run = execute cents wire parse answers [] rescheduled

abbrev race : Run cents wire parse intent lossy_row second_run
race = next lossy_row first_run second_run (execute_step answers [] refl) (
    next first_run rescheduled second_run
      (schedule_step at_2 (some (row_with "INTENT_STATUS_PENDING")))
      (next rescheduled second_run second_run (execute_step answers [] refl) (done second_run)))

run_once_example :
    (second_run.wallet.tables ≡ two_accounts)
    ⊎ ((p : TransferPayload ℕ) × (parse intent.payload ≡ some p)
        × Paid cents p "intent1" two_accounts second_run.wallet.tables)
run_once_example = run_once cents wire parse intent lossy_row second_run race

abbrev completed_one : Pipeline
completed_one = record { rows = row_with "INTENT_STATUS_COMPLETED" ∷ []; published = [] }

stale_reschedules_example :
    let s' = (on_row wire at_2 intent (some (row_with "INTENT_STATUS_PENDING")) completed_one).0 in
    (find_row "intent1" s'.rows
      ≡ with_status "INTENT_STATUS_SCHEDULED" 2 (some (row_with "INTENT_STATUS_COMPLETED")))
    × (¬ IsIdle "intent1" s'.rows)
unfolding find_row
stale_reschedules_example =
    stale_reschedules wire at_2 intent completed_one (row_with "INTENT_STATUS_PENDING")
      (row_with "INTENT_STATUS_COMPLETED") refl refl up-IsUp refl
