-- ===== src/Scripts/LoadTest/Seed.antt =====
-- scripts/load_test_csv.go: `preseedBalances`, which gives the accounts of the transactions a balance in
-- the wallet's table. The order in which Go ranges over the map of the accounts is an argument.
use aien.Prelude.{false, Bool, List, [], ◌∷◌, String, ◌==◌, ◌||◌}
use aien.Prelude.Sql.{Result, Tx, ◌>>◌, pure, exec, Server, transact}
use aien.Wallet.Money.{Money}
use aien.Wallet.Tables.{Tables, insert_account}
use aien.Scripts.LoadTest.{IntentPayload}

pub data Statement : Type 0 where
  prepare : Statement
  -- the INSERT of an account
  seed_account : String → Statement

pub data SeedError : Type 0 where
  database : SeedError

-- The accounts that are set in `uniqueAccounts`, in the order of the loop.
unfoldable pub accounts_of : {Amount : Type 0} → List (IntentPayload Amount) → List String
accounts_of [] = []
accounts_of (t ∷ txs) = t.from ∷ t.to ∷ accounts_of txs

unfoldable pub is_account : String → List String → Bool
is_account k [] = false
is_account k (a ∷ accounts) = a == k || is_account k accounts

module _ (m : Money) where
  open m use {Amount, column}

  abbrev seeded : (seed : Amount) → String → Tables Amount → Tables Amount
  seeded seed acc t = record t { accounts = insert_account acc (column seed) t.accounts }

  unfoldable pub seed_accounts :
      (server : Server Statement)
      → (seed : Amount) → (accounts : List String) → Tx SeedError (Tables Amount) (Unit {0})
  seed_accounts server seed [] = pure tt
  seed_accounts server seed (acc ∷ accounts) =
      exec (server.fails (seed_account acc)) database (seeded seed acc)
      >> seed_accounts server seed accounts

  -- `unique` is what the loop `for acc := range uniqueAccounts` goes through.
  unfoldable pub preseed_balances :
      (server : Server Statement)
      → (seed : Amount) → (unique : List String) → Tables Amount
      → Tables Amount × Result SeedError (Unit {0})
  preseed_balances server seed unique =
      transact server database
        (exec (server.fails prepare) database (λ t. t) >> seed_accounts server seed unique)
