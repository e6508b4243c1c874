-- ===== src/Tests/Wallet.antt =====
-- The wallet on two accounts.
use mathlib.Core.List.{Memᴰ}
use aien.Prelude.{
  arith, ℕ, ◌≡◌, refl, ◌⊎◌, Bool, false, [], ◌∷◌, Option, none, some, ltb, leb, ◌==◌,
}
use aien.Prelude.Sql.{ok, Server, up, up-IsUp, lost}
use aien.Wallet.Money.{IsExactAt, Money, cents, cents-IsOrdered}
use aien.Wallet.Tables.Laws.{or_else}
use aien.Wallet.Tables.{Tables, balance_of, has_reference, has_transaction}
use aien.Wallet.Store.{Statement, transfer}
use aien.Wallet.Store.Transfer.{Moves, transfer-cases}
use aien.Wallet.Store.Conservation.{total, total-transfer}
use aien.Wallet.Store.Requests.{Call, Attempt, attempts, attempt, call_with}
use aien.Wallet.Store.Once.{attempts_once}
use aien.Wallet.Store.Validity.{IsValid, call_with-IsValid}
use aien.Wallet.Handler.{TransferRequest, transfer_rpc}
use aien.Wallet.Handler.Replies.{IsWellFormed, transfer_rpc_unordered}

abbrev pub two_accounts : Tables ℕ
two_accounts = record {
  accounts = record { id = "alice"; balance = 100 } ∷ record { id = "bob"; balance = 5 } ∷ [];
  transactions = [];
}

-- The commit of this server succeeds, but its answer does not arrive.
abbrev lossy : Server Statement
lossy = record { begin_fails = false; fails = λ _. false; commit = lost }

abbrev first_attempt : Attempt cents
first_attempt = record {
  server = lossy;
  tx_id = "tx1";
  reference_id = "intent1";
  call = Call.transfer_call "alice" "bob" 30;
}

abbrev second_attempt : Attempt cents
second_attempt = record {
  server = up;
  tx_id = "tx2";
  reference_id = "intent1";
  call = Call.transfer_call "alice" "bob" 30;
}

attempts_once_example :
    (attempts cents (first_attempt ∷ second_attempt ∷ []) two_accounts ≡ two_accounts)
    ⊎ ((at : Attempt cents) × Memᴰ at (first_attempt ∷ second_attempt ∷ [])
        × (attempts cents (first_attempt ∷ second_attempt ∷ []) two_accounts
            ≡ attempt cents at two_accounts))
attempts_once_example =
    attempts_once cents "intent1" (first_attempt ∷ second_attempt ∷ []) two_accounts
      (refl, (refl, tt))

cents_exact :
    (u v : ℕ)
    → balance_of "alice" two_accounts.accounts ≡ some u
    → or_else (balance_of "carol" two_accounts.accounts) 0 ≡ some v
    → ltb u 30 ≡ false
    → IsExactAt cents (λ w. w) u v 30
cents_exact u v from to covered = record { subtracts = ground arith; adds = refl }

-- Cents from alice's hundred to the new account of carol.
total-transfer_example :
    total cents
      (λ v. v)
      refl
      (transfer cents lossy "tx1" "alice" "carol" 30 "r1" two_accounts).0.accounts
    ≡ total cents (λ v. v) refl two_accounts.accounts
unfolding balance_of has_reference has_transaction
total-transfer_example =
    total-transfer cents (λ v. v) refl lossy "tx1" "alice" "carol" 30 "r1" two_accounts
      (refl, (refl, tt)) cents_exact

call_with-IsValid_example :
    IsValid cents (call_with cents up "tx1" "r1" (Call.transfer_call "alice" "bob" 30) two_accounts)
unfolding balance_of has_reference has_transaction
call_with-IsValid_example =
    call_with-IsValid cents cents-IsOrdered up "tx1" "r1" (Call.transfer_call "alice" "bob" 30)
      two_accounts refl (record { sound = (refl, refl, (refl, refl, tt)); unique = tt })

transfer-cases_example :
    ((transfer cents up "tx1" "alice" "bob" 30 "r1" two_accounts).0 ≡ two_accounts)
    ⊎ ((("alice" == "bob") ≡ false)
        × Moves cents "tx1" "alice" "bob" 30 "r1" two_accounts
            (transfer cents up "tx1" "alice" "bob" 30 "r1" two_accounts).0)
transfer-cases_example = transfer-cases cents up "tx1" "alice" "bob" 30 "r1" two_accounts

abbrev request : TransferRequest ℕ
request = record {
  from_account_id = "alice";
  to_account_id = "bob";
  amount = 30;
  reference_id = "r1";
}

abbrev request-IsWellFormed : IsWellFormed cents request
request-IsWellFormed = record {
  from_given = refl;
  to_given = refl;
  positive = refl;
  reference_given = refl;
  distinct = refl;
}

abbrev less_nan : Option ℕ → Option ℕ → Bool
less_nan none b = false
less_nan (some a) none = false
less_nan (some a) (some b) = ltb a b

abbrev at_most_nan : Option ℕ → Option ℕ → Bool
at_most_nan none b = false
at_most_nan (some a) none = false
at_most_nan (some a) (some b) = leb a b

-- Amounts with a NaN, `none`.
abbrev with_nan : Money
with_nan = record {
  Amount = Option ℕ;
  zero = some 0;
  plus = λ a b. none;
  minus = λ a b. none;
  less = less_nan;
  at_most = at_most_nan;
  column = λ a. a;
}

abbrev empty_account : Tables (Option ℕ)
empty_account = record {
  accounts = record { id = "alice"; balance = some 0 } ∷ [];
  transactions = [];
}

abbrev nan_request : TransferRequest (Option ℕ)
nan_request = record {
  from_account_id = "alice";
  to_account_id = "bob";
  amount = none;
  reference_id = "r1";
}

less_nan_right : (w : Option ℕ) → less_nan w none ≡ false
less_nan_right none = refl
less_nan_right (some a) = refl

transfer_rpc_unordered_example :
    (t' : Tables (Option ℕ)) × (transfer_rpc with_nan up "tx1" nan_request empty_account ≡ (
      t',
      ok (record {
        from_account_id = "alice";
        to_account_id = "bob";
        from_new_balance = none;
        to_new_balance = none;
      }),
    ))
unfolding balance_of has_reference has_transaction
transfer_rpc_unordered_example =
    transfer_rpc_unordered with_nan up "tx1" nan_request empty_account up-IsUp
      (record {
        from_given = refl;
        to_given = refl;
        positive = refl;
        reference_given = refl;
        distinct = refl;
      })
      refl refl refl refl less_nan_right
