-- ===== src/Tests/LoadTest.antt =====
-- The load test on a small file: two transfers and a payment.
use mathlib.Core.List.{Perm}
use aien.Prelude.{
  All, ℕ, ◌+◌, ◌*◌, ◌≤◌, ◌≡◌, refl, true, false, List, [], ◌∷◌, Option, none, some, String, ◌==◌,
  length, arith, if◌then◌else◌,
}
use aien.Prelude.Decimal.{pos}
use aien.Prelude.Sql.{ok, up}
use aien.Wallet.Money.{cents}
use aien.Wallet.Tables.{insert_account}
use aien.Workers.{Pool, Event, receive, finish, moved, step, run, done, stopped}
use aien.Workers.Ends.{all_stopped}
use aien.Scripts.LoadTest.{IntentPayload}
use aien.Scripts.LoadTest.Csv.{
  decode, read_rows, header_index, find_columns, Read, fields, malformed,
  read_transactions_from_csv,
}
use aien.Scripts.LoadTest.Csv.Transfers.{is_column, rows_of, is_broken, at_least_one}
use aien.Scripts.LoadTest.Csv.Reading.{first_of, transfers, read_transactions-first_of}
use aien.Scripts.LoadTest.Seed.{seed_accounts, accounts_of, preseed_balances}
use aien.Scripts.LoadTest.Submission.{
  lookup, login_to_gateway, start_workers, JobEnd, answered, unsent, raise_counters, replied,
  Answers, World, Ready, set_up,
}
use aien.Scripts.LoadTest.Submission.Counts.{no_counts, run-workers}

abbrev headers : List String
headers = "step" ∷ "type" ∷ "amount" ∷ "nameOrig" ∷ "nameDest" ∷ []

abbrev rows : List Read
rows =
    fields ("1" ∷ "TRANSFER" ∷ "5" ∷ "alice" ∷ "bob" ∷ [])
    ∷ fields ("1" ∷ "PAYMENT" ∷ "7" ∷ "bob" ∷ "shop" ∷ [])
    ∷ fields ("2" ∷ "TRANSFER" ∷ "7" ∷ "bob" ∷ "carol" ∷ [])
    ∷ malformed
    ∷ []

abbrev parse_float : String → Option ℕ
parse_float s = if s == "5" then some 5 else if s == "7" then some 7 else none

abbrev first_tx : IntentPayload ℕ
first_tx = record { from = "alice"; to = "bob"; amount = 5 }

abbrev second_tx : IntentPayload ℕ
second_tx = record { from = "bob"; to = "carol"; amount = 7 }

read_two :
    read_transactions_from_csv parse_float (some (fields headers ∷ rows)) (pos 2)
    ≡ ok (first_tx ∷ second_tx ∷ [])
unfolding read_transactions_from_csv find_columns header_index read_rows decode
read_two = refl

-- The limit 0 reads one transfer.
read_none :
    read_transactions_from_csv parse_float (some (fields headers ∷ rows)) (pos 0)
    ≡ ok (first_tx ∷ [])
unfolding read_transactions_from_csv find_columns header_index read_rows decode
read_none = refl

is_column_type : is_column "type" headers ≡ true
unfolding is_column
is_column_type = refl

is_column_amount : is_column "amount" headers ≡ true
unfolding is_column
is_column_amount = refl

is_column_from : is_column "nameOrig" headers ≡ true
unfolding is_column
is_column_from = refl

is_column_to : is_column "nameDest" headers ≡ true
unfolding is_column
is_column_to = refl

rectangular : All (λ row. length row ≡ length headers) (rows_of rows)
unfolding rows_of
rectangular = omega arith

read_transactions-first_of_example :
    read_transactions_from_csv parse_float (some (fields headers ∷ rows)) (pos 2)
    ≡ first_of parse_float
        (at_least_one (pos 2))
        (is_broken rows)
        (transfers parse_float headers (rows_of rows))
read_transactions-first_of_example =
    read_transactions-first_of parse_float headers rows (pos 2) is_column_type is_column_amount
      is_column_from is_column_to rectangular

abbrev answers : Answers cents
answers = record {
  limit = pos 2;
  clean = true;
  login_reply = replied 200 (some (("token", "t") ∷ []));
  file = some (fields headers ∷ rows);
  parse_float = parse_float;
  open_fails = false;
  truncate_fails = false;
  truncate_accounts_fails = false;
  server = up;
  seed_amount = 1000;
  range_of = accounts_of;
  key_pair = some ("public", "private");
}

abbrev world : World ℕ
world = record {
  intents = record { intents = []; outbox = [] };
  wallet = record { accounts = record { id = "bob"; balance = 3 } ∷ []; transactions = [] };
}

abbrev ready : Ready cents
ready = record {
  token = "t";
  transactions = first_tx ∷ second_tx ∷ [];
  public_key = "public";
  private_key = "private";
}

set_up_succeeds : (set_up cents answers world).1 ≡ ok ready
unfolding set_up login_to_gateway lookup read_transactions_from_csv find_columns header_index
    read_rows decode preseed_balances seed_accounts accounts_of insert_account
set_up_succeeds = refl

-- Two workers; the second one takes the second job and is done before the first.
abbrev interleaving : List (Event (IntentPayload ℕ) JobEnd)
interleaving =
    receive 0 ∷ receive 1 ∷ finish 1 (answered 201) ∷ receive 1 ∷ finish 0 unsent ∷ receive 0 ∷ []

abbrev at_end : Pool (IntentPayload ℕ) JobEnd
at_end = record {
  buffer = [];
  capacity = 2;
  is_closed = true;
  workers = stopped ∷ stopped ∷ [];
  finished = (second_tx, answered 201) ∷ (first_tx, unsent) ∷ [];
}

runs : run interleaving (start_workers (pos 2) (first_tx ∷ second_tx ∷ [])) ≡ moved at_end
unfolding run step
runs = refl

run-workers_example :
    (length interleaving ≤ 2 * length (first_tx ∷ second_tx ∷ []) + 2)
    × (all_stopped at_end.workers ≡ false
        → (e : Event (IntentPayload ℕ) JobEnd) × (p' : Pool (IntentPayload ℕ) JobEnd) × (step e
              at_end
            ≡ moved p'))
    × (all_stopped at_end.workers ≡ true
        → Perm (done at_end.finished) (first_tx ∷ second_tx ∷ [])
          × (let c = raise_counters at_end.finished no_counts in
              c.success_count + c.fail_count ≡ length (first_tx ∷ second_tx ∷ [])))
run-workers_example =
    run-workers (first_tx ∷ second_tx ∷ []) (pos 2) interleaving at_end (omega arith) runs
