-- ===== src/Wallet/Store.antt =====
-- wallet/store/postgres.go: `GetBalance`, `Credit`, `Debit` and `Transfer`, statement by
-- statement. Error texts are constructors that carry what the text shows. The new row's id,
-- `uuid.New()`, is an argument.
pub mod Locks
pub mod Transfer
pub mod Conservation
pub mod Single
pub mod Requests
pub mod Once
pub mod Validity
use aien.Prelude.{
  Bool, List, [], ◌∷◌, ◌++◌, Option, none, some, String, ◌==◌, text_gt, if◌then◌else◌, ◌||◌,
}
use aien.Prelude.Sql.{
  Result, ok, err, Tx, ◌>>=◌, ◌>>◌, pure, raise_if, unless, query, exec, Server, transact,
}
use aien.Wallet.Money.{Money}
use aien.Wallet.Tables.{
  Transaction, Tables, balance_of, insert_account, update_balance, has_reference, has_transaction,
}

-- The statements of the methods, by what they do.
pub data Statement : Type 0 where
  check_reference create_account lock lock_first lock_second : Statement
  update update_source update_destination log_audit : Statement

pub data StoreError (A : Type 0) : Type 0 where
  -- "source and destination accounts must be different"
  same_account : StoreError A
  -- "transaction with reference_id %s already processed"
  already_processed : String → StoreError A
  -- "account not found: %s"
  account_not_found : String → StoreError A
  -- "insufficient funds: available %.4f, required %.4f"
  insufficient_funds : A → A → StoreError A
  -- an error of the driver or the server
  database : StoreError A

module _ (m : Money) where
  open m use {Amount, zero, plus, minus, less, column}

  abbrev Action : Type 0 → Type 0
  Action = Tx (StoreError Amount) (Tables Amount)

  unfoldable pub get_balance :
      (fails : Bool) → String → Tables Amount → Result (StoreError Amount) Amount
  get_balance fails account_id t = unless fails database (elim (balance_of account_id t.accounts) [
    | none ↦ err (account_not_found account_id)
    | some balance ↦ ok balance
  ])

  -- The duplicate check that opens `Credit`, `Debit` and `Transfer`.
  abbrev reject_duplicate : Server Statement → String → Action (Unit {0})
  reject_duplicate server reference_id = do
    exists ←
        query (server.fails check_reference) database
          (λ t. has_reference reference_id t.transactions)
    raise_if exists (already_processed reference_id)

  -- INSERT INTO wallet_accounts (id, balance) VALUES ($1, 0.0) ON CONFLICT (id) DO NOTHING
  abbrev create : Server Statement → String → Action (Unit {0})
  create server k =
      exec (server.fails create_account) database
        (λ t. record t { accounts = insert_account k zero t.accounts })

  -- SELECT balance ... FOR UPDATE, with the answer for `sql.ErrNoRows`.
  abbrev select_for_update : Bool → StoreError Amount → String → Action Amount
  select_for_update fails missing k t =
      unless fails database
        (elim (balance_of k t.accounts) [ none ↦ err missing | some v ↦ ok (v, t) ])

  abbrev set_balance : Bool → String → Amount → Action (Unit {0})
  set_balance fails k v =
      exec fails database (λ t. record t { accounts = update_balance k (column v) t.accounts })

  -- INSERT INTO wallet_transactions; its primary key and its unique index on reference_id refuse.
  abbrev log_transaction : Server Statement → Transaction Amount → Action (Unit {0})
  log_transaction server row t = unless (server.fails log_audit) database (
      unless (has_transaction row.id t.transactions) database (
        unless (has_reference row.reference_id t.transactions) database
          (ok (tt, record t { transactions = t.transactions ++ row ∷ [] }))))

  unfoldable pub credit_body : Server Statement → String → String → Amount → String → Action Amount
  credit_body server tx_id account_id amount reference_id = do
    reject_duplicate server reference_id
    create server account_id
    current_balance ← select_for_update (server.fails lock) database account_id
    let new_balance = plus current_balance amount
    set_balance (server.fails update) account_id new_balance
    log_transaction server (record {
      id = tx_id;
      from_account = none;
      to_account = some account_id;
      amount = column amount;
      reference_id = reference_id;
    })
    pure new_balance

  unfoldable pub credit :
      Server Statement
      → String
      → String
      → Amount
      → String
      → Tables Amount
      → Tables Amount × Result (StoreError Amount) Amount
  credit server tx_id account_id amount reference_id =
      transact server database (credit_body server tx_id account_id amount reference_id)

  unfoldable pub debit_body : Server Statement → String → String → Amount → String → Action Amount
  debit_body server tx_id account_id amount reference_id = do
    reject_duplicate server reference_id
    current_balance ←
        select_for_update (server.fails lock) (account_not_found account_id) account_id
    raise_if (less current_balance amount) (insufficient_funds current_balance amount)
    let new_balance = minus current_balance amount
    set_balance (server.fails update) account_id new_balance
    log_transaction server (record {
      id = tx_id;
      from_account = some account_id;
      to_account = none;
      amount = column amount;
      reference_id = reference_id;
    })
    pure new_balance

  unfoldable pub debit :
      Server Statement
      → String
      → String
      → Amount
      → String
      → Tables Amount
      → Tables Amount × Result (StoreError Amount) Amount
  debit server tx_id account_id amount reference_id =
      transact server database (debit_body server tx_id account_id amount reference_id)

  -- The two accounts in the order in which `Transfer` locks them.
  unfoldable pub lock_order : String → String → String × String
  lock_order from_account to_account =
      if text_gt from_account to_account
      then (to_account, from_account)
      else (from_account, to_account)

  -- `locks[k]` of a `map[string]float64`: a missing key reads as 0.
  unfoldable pub locked : String → List (String × Amount) → Amount
  locked k [] = zero
  locked k ((j, v) ∷ locks) = if j == k then v else locked k locks

  unfoldable pub transfer_body :
      Server Statement → String → String → String → Amount → String → Action (Amount × Amount)
  transfer_body server tx_id from_account to_account amount reference_id = do
    reject_duplicate server reference_id
    create server to_account
    let order = lock_order from_account to_account
    bal1 ← select_for_update (server.fails lock_first) (account_not_found order.0) order.0
    bal2 ← select_for_update (server.fails lock_second) (account_not_found order.1) order.1
    let locks = (order.1, bal2) ∷ (order.0, bal1) ∷ []
    let from_balance = locked from_account locks
    let to_balance = locked to_account locks
    raise_if (less from_balance amount) (insufficient_funds from_balance amount)
    let from_new_balance = minus from_balance amount
    let to_new_balance = plus to_balance amount
    set_balance (server.fails update_source) from_account from_new_balance
    set_balance (server.fails update_destination) to_account to_new_balance
    log_transaction server (record {
      id = tx_id;
      from_account = some from_account;
      to_account = some to_account;
      amount = column amount;
      reference_id = reference_id;
    })
    pure (from_new_balance, to_new_balance)

  unfoldable pub transfer :
      Server Statement
      → String
      → String
      → String
      → Amount
      → String
      → Tables Amount
      → Tables Amount × Result (StoreError Amount) (Amount × Amount)
  transfer server tx_id from_account to_account amount reference_id t =
      if from_account == to_account
      then (t, err same_account)
      else transact server database
          (transfer_body server tx_id from_account to_account amount reference_id) t
