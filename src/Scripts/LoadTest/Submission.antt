-- ===== src/Scripts/LoadTest/Submission.antt =====
-- scripts/load_test_csv.go: `loginToGateway`, the workers of `main` with their counters, and its steps
-- before them. The answers of the gateway and of the database are parameters.
pub mod Counts
use aien.Prelude.{
  ℕ, zero, suc, ◌≡◌, Bool, true, false, List, [], ◌∷◌, ◌++◌, Option, none, some, String, ◌==◌,
  nat_eq, if◌then◌else◌,
}
use aien.Prelude.Decimal.{ℤ, pos, negsuc}
use aien.Prelude.Sql.{Result, ok, err, Server}
use aien.Crypto.{CryptoError}
use aien.Gateway.Submit.{SubmitIntentHttpRequest}
use aien.Intent.Table.{Database}
use aien.Wallet.Money.{Money}
use aien.Wallet.Tables.{Tables}
use aien.Workers.{Pool, Event, Moved, loaded, run}
use aien.Scripts.LoadTest.{IntentPayload}
use aien.Scripts.LoadTest.Csv.{Read, CsvError, read_transactions_from_csv}
use aien.Scripts.LoadTest.Seed.{Statement, SeedError, preseed_balances}

-- What an HTTP call gives: an error, or a status and a body.
pub data Reply (Body : Type 0) : Type 0 where
  no_reply : Reply Body
  replied : (status : ℕ) → Body → Reply Body

pub data LoginError : Type 0 where
  post_failed body_undecoded token_missing : LoginError
  login_failed : (status : ℕ) → LoginError

-- `respJSON[k]`
unfoldable pub lookup : String → List (String × String) → Option String
lookup k [] = none
lookup k ((j, v) ∷ entries) = if j == k then some v else lookup k entries

abbrev token_of : Option String → Result LoginError String
token_of none = err token_missing
token_of (some token) = ok token

abbrev decoded : Option (List (String × String)) → Result LoginError String
decoded none = err body_undecoded
decoded (some entries) = token_of (lookup "token" entries)

-- The body is what the JSON decoder makes of it.
unfoldable pub login_to_gateway : Reply (Option (List (String × String))) → Result LoginError String
login_to_gateway no_reply = err post_failed
login_to_gateway (replied status body) =
    if nat_eq status 200 then decoded body else err (login_failed status)

-- How a worker's job ends: the message is not signed, the request is not made, it is not sent, or it is
-- answered with a status.
pub data JobEnd : Type 0 where
  unsigned unrequested unsent : JobEnd
  answered : (status : ℕ) → JobEnd

abbrev pub job_end :
    Result CryptoError SubmitIntentHttpRequest → (request_fails : Bool) → Reply (Unit {0}) → JobEnd
job_end (err e) request_fails reply = unsigned
job_end (ok req) true reply = unrequested
job_end (ok req) false no_reply = unsent
job_end (ok req) false (replied status body) = answered status

pub record Counters : Type 0 where
  pub success_count : ℕ
  pub fail_count : ℕ

-- The increment of each branch, under the mutex.
abbrev pub raise_counter : JobEnd → Counters → Counters
raise_counter unsigned c = record c { fail_count = suc c.fail_count }
raise_counter unrequested c = record c { fail_count = suc c.fail_count }
raise_counter unsent c = record c { fail_count = suc c.fail_count }
raise_counter (answered status) c =
    if nat_eq status 201
    then record c { success_count = suc c.success_count }
    else record c { fail_count = suc c.fail_count }

abbrev pub to_count : ℤ → ℕ
to_count (pos n) = n
to_count (negsuc n) = 0

module _ {Amount : Type 0} where
  -- `for w := 0; w < concurrency; w++ { go ... }` over the closed channel of the transactions.
  abbrev pub start_workers :
      (concurrency : ℤ) → List (IntentPayload Amount) → Pool (IntentPayload Amount) JobEnd
  start_workers concurrency transactions = loaded transactions (to_count concurrency)

  -- The counters after jobs that ended one by one.
  unfoldable pub raise_counters : List (IntentPayload Amount × JobEnd) → Counters → Counters
  raise_counters [] c = c
  raise_counters ((tx, e) ∷ finished) c = raise_counters finished (raise_counter e c)

pub record World (A : Type 0) : Type 0 where
  pub intents : Database
  pub wallet : Tables A

pub data SetUpError : Type 0 where
  not_logged_in : LoginError → SetUpError
  csv : CsvError → SetUpError
  database_unopened truncate_failed key_pair_failed : SetUpError
  seed : SeedError → SetUpError

module _ (m : Money) where
  open m use {Amount}

  -- The flags, and the answers of what `main` calls.
  pub record Answers : Type 0 where
    pub limit : ℤ
    pub clean : Bool
    pub login_reply : Reply (Option (List (String × String)))
    pub file : Option (List Read)
    pub parse_float : String → Option Amount
    pub open_fails : Bool
    pub truncate_fails : Bool
    pub truncate_accounts_fails : Bool
    pub server : Server Statement
    pub seed_amount : Amount
    -- the accounts as Go ranges over their map
    pub range_of : List (IntentPayload Amount) → List String
    pub key_pair : Option (String × String)

  -- TRUNCATE TABLE intents, outbox_events, wallet_transactions CASCADE
  abbrev pub without_transactions : World Amount → World Amount
  without_transactions s = record {
    intents = record { intents = []; outbox = [] };
    wallet = record s.wallet { transactions = [] };
  }

  -- TRUNCATE TABLE wallet_accounts CASCADE
  abbrev pub without_accounts : World Amount → World Amount
  without_accounts s = record s { wallet = record s.wallet { accounts = [] } }

  abbrev pub cleaned : Answers → World Amount → World Amount × Result SetUpError (Unit {0})
  cleaned a s =
      if a.truncate_fails
      then (s, err truncate_failed)
      else if a.truncate_accounts_fails
      then (without_transactions s, err truncate_failed)
      else (without_accounts (without_transactions s), ok tt)

  abbrev pub cleaned_if : Answers → World Amount → World Amount × Result SetUpError (Unit {0})
  cleaned_if a s = if a.clean then cleaned a s else (s, ok tt)

  -- What the workers need: the token, the transactions and the keys.
  pub record Ready : Type 0 where
    pub token : String
    pub transactions : List (IntentPayload Amount)
    pub public_key : String
    pub private_key : String

  abbrev pub with_keys :
      (token : String)
      → List (IntentPayload Amount)
      → Option (String × String)
      → World Amount
      → World Amount × Result SetUpError Ready
  with_keys token txs none s = (s, err key_pair_failed)
  with_keys token txs (some (public_key, private_key)) s = (
    s,
    ok (record {
      token = token;
      transactions = txs;
      public_key = public_key;
      private_key = private_key;
    }),
  )

  abbrev pub after_seed :
      Answers
      → (token : String) → List (IntentPayload Amount)
      → World Amount
      → Tables Amount × Result SeedError (Unit {0})
      → World Amount × Result SetUpError Ready
  after_seed a token txs s (t, err e) = (record s { wallet = t }, err (seed e))
  after_seed a token txs s (t, ok u) = with_keys token txs a.key_pair (record s { wallet = t })

  abbrev pub after_clean :
      Answers
      → (token : String) → List (IntentPayload Amount)
      → World Amount × Result SetUpError (Unit {0})
      → World Amount × Result SetUpError Ready
  after_clean a token txs (s, err e) = (s, err e)
  after_clean a token txs (s, ok u) =
      after_seed a token txs s (preseed_balances m a.server a.seed_amount (a.range_of txs) s.wallet)

  abbrev pub after_csv :
      Answers
      → (token : String) → World Amount
      → Result CsvError (List (IntentPayload Amount))
      → World Amount × Result SetUpError Ready
  after_csv a token s (err e) = (s, err (csv e))
  after_csv a token s (ok txs) =
      if a.open_fails then (s, err database_unopened) else after_clean a token txs (cleaned_if a s)

  abbrev pub after_login :
      Answers → World Amount → Result LoginError String → World Amount × Result SetUpError Ready
  after_login a s (err e) = (s, err (not_logged_in e))
  after_login a s (ok token) =
      after_csv a token s (read_transactions_from_csv a.parse_float a.file a.limit)

  -- `main` up to its fourth step; an error ends the process.
  unfoldable pub set_up : Answers → World Amount → World Amount × Result SetUpError Ready
  set_up a s = after_login a s (login_to_gateway a.login_reply)
