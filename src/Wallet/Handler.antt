-- ===== src/Wallet/Handler.antt =====
-- wallet/handler/handler.go: the four gRPC methods over the store, with their guards and the status
-- code of each error.
pub mod Replies
use aien.Prelude.{Bool, String, ◌||◌, ◌==◌, if◌then◌else◌}
use aien.Prelude.Sql.{Result, ok, err, Server}
use aien.Grpc.{Status, Code, invalid_argument, not_found, internal, failed_precondition}
use aien.Wallet.Money.{Money}
use aien.Wallet.Tables.{Tables}
use aien.Wallet.Store.{Statement, StoreError, get_balance, credit, debit, transfer}

-- The message of a status: a text of the handler, or the store's error.
pub data Message (A : Type 0) : Type 0 where
  text : String → Message A
  store_error : StoreError A → Message A

pub record AccountRequest (A : Type 0) : Type 0 where
  pub account_id : String
  pub amount : A
  pub reference_id : String

pub record TransferRequest (A : Type 0) : Type 0 where
  pub from_account_id : String
  pub to_account_id : String
  pub amount : A
  pub reference_id : String

pub record BalanceResponse (A : Type 0) : Type 0 where
  pub account_id : String
  pub balance : A

pub record TransferResponse (A : Type 0) : Type 0 where
  pub from_account_id : String
  pub to_account_id : String
  pub from_new_balance : A
  pub to_new_balance : A

module _ (m : Money) where
  open m use {Amount, zero, at_most}

  abbrev pub Reply : Type 0 → Type 0
  Reply B = Result (Status (Message Amount)) B

  -- `return nil, status.Error(code, msg)`
  abbrev refuse : {B : Type 0} → Code → String → Reply B
  refuse code msg = err (record { code = code; message = text msg })

  -- `status.Error(code, err.Error())` where the store failed, and the response where it did not.
  abbrev pub reply : {B C : Type 0} → Code → (B → C) → Result (StoreError Amount) B → Reply C
  reply code f (ok b) = ok (f b)
  reply code f (err e) = err (record { code = code; message = store_error e })

  unfoldable pub get_balance_rpc :
      (fails : Bool) → String → Tables Amount → Reply (BalanceResponse Amount)
  get_balance_rpc fails account_id t =
      if account_id == ""
      then refuse invalid_argument "account_id cannot be empty"
      else reply not_found (λ balance. record { account_id = account_id; balance = balance })
          (get_balance m fails account_id t)

  unfoldable pub credit_rpc :
      Server Statement
      → String
      → AccountRequest Amount
      → Tables Amount
      → Tables Amount × Reply (BalanceResponse Amount)
  credit_rpc server tx_id req t =
      if req.account_id == ""
      then (t, refuse invalid_argument "account_id cannot be empty")
      else if at_most req.amount zero
      then (t, refuse invalid_argument "amount must be greater than zero")
      else if req.reference_id == ""
      then (t, refuse invalid_argument "reference_id cannot be empty")
      else (let (t', result) = credit m server tx_id req.account_id req.amount req.reference_id t in
          (t', reply internal (λ b. record { account_id = req.account_id; balance = b }) result))

  unfoldable pub debit_rpc :
      Server Statement
      → String
      → AccountRequest Amount
      → Tables Amount
      → Tables Amount × Reply (BalanceResponse Amount)
  debit_rpc server tx_id req t =
      if req.account_id == ""
      then (t, refuse invalid_argument "account_id cannot be empty")
      else if at_most req.amount zero
      then (t, refuse invalid_argument "amount must be greater than zero")
      else if req.reference_id == ""
      then (t, refuse invalid_argument "reference_id cannot be empty")
      else (let (t', result) = debit m server tx_id req.account_id req.amount req.reference_id t in
          (
            t',
            reply failed_precondition (λ b. record { account_id = req.account_id; balance = b })
                result,
          ))

  unfoldable pub transfer_rpc :
      Server Statement
      → String
      → TransferRequest Amount
      → Tables Amount
      → Tables Amount × Reply (TransferResponse Amount)
  transfer_rpc server tx_id req t =
      if req.from_account_id == "" || req.to_account_id == ""
      then (t, refuse invalid_argument "from_account_id and to_account_id cannot be empty")
      else if at_most req.amount zero
      then (t, refuse invalid_argument "amount must be greater than zero")
      else if req.reference_id == ""
      then (t, refuse invalid_argument "reference_id cannot be empty")
      else (let (t', result) =
            transfer m server tx_id req.from_account_id req.to_account_id req.amount
              req.reference_id t in
          (
            t',
            reply failed_precondition
                (λ (balances : Amount × Amount). record {
                  from_account_id = req.from_account_id;
                  to_account_id = req.to_account_id;
                  from_new_balance = balances.0;
                  to_new_balance = balances.1;
                })
                result,
          ))
