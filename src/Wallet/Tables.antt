-- ===== src/Wallet/Tables.antt =====
-- The tables of wallet/store/schema.sql as lists of rows, and the SQL statements of
-- wallet/store/postgres.go as functions on them. `created_at` and `updated_at`, which no code
-- reads, are left out.
pub mod Laws
use aien.Prelude.{Bool, true, false, List, [], ◌∷◌, Option, none, some, String, ◌==◌, if◌then◌else◌}

pub record Account (A : Type 0) : Type 0 where
  pub id : String
  pub balance : A

-- A null account is `none`.
pub record Transaction (A : Type 0) : Type 0 where
  pub id : String
  pub from_account : Option String
  pub to_account : Option String
  pub amount : A
  pub reference_id : String

pub record Tables (A : Type 0) : Type 0 where
  pub accounts : List (Account A)
  pub transactions : List (Transaction A)

module _ {A : Type 0} where
  -- SELECT balance FROM wallet_accounts WHERE id = $1
  unfoldable pub balance_of : String → List (Account A) → Option A
  balance_of k [] = none
  balance_of k (r ∷ rows) = if r.id == k then some r.balance else balance_of k rows

  -- INSERT INTO wallet_accounts ... ON CONFLICT (id) DO NOTHING
  unfoldable pub insert_account : String → A → List (Account A) → List (Account A)
  insert_account k v [] = record { id = k; balance = v } ∷ []
  insert_account k v (r ∷ rows) = if r.id == k then r ∷ rows else r ∷ insert_account k v rows

  -- UPDATE wallet_accounts SET balance = $1 WHERE id = $2
  unfoldable pub update_balance : String → A → List (Account A) → List (Account A)
  update_balance k v [] = []
  update_balance k v (r ∷ rows) =
      (if r.id == k then record { id = r.id; balance = v } else r) ∷ update_balance k v rows

  -- SELECT EXISTS(SELECT 1 FROM wallet_transactions WHERE reference_id = $1)
  unfoldable pub has_reference : String → List (Transaction A) → Bool
  has_reference k [] = false
  has_reference k (r ∷ rows) = if r.reference_id == k then true else has_reference k rows

  -- The primary key of wallet_transactions.
  unfoldable pub has_transaction : String → List (Transaction A) → Bool
  has_transaction k [] = false
  has_transaction k (r ∷ rows) = if r.id == k then true else has_transaction k rows
