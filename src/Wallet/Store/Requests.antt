-- ===== src/Wallet/Store/Requests.antt =====
-- The three calls that move money, in one type, and a history of attempts: what the callers of the
-- wallet send, in the order in which the server runs their transactions.
use aien.Prelude.{List, [], ◌∷◌, String}
use aien.Prelude.Sql.{Server}
use aien.Wallet.Money.{Money}
use aien.Wallet.Tables.{Tables}
use aien.Wallet.Store.{Statement, credit, debit, transfer}

module _ (m : Money) where
  open m use {Amount}

  pub data Call : Type 0 where
    credit_call : (account_id : String) (amount : Amount) → Call
    debit_call : (account_id : String) (amount : Amount) → Call
    transfer_call : (from_account to_account : String) (amount : Amount) → Call

  abbrev pub amount_of : Call → Amount
  amount_of (credit_call a x) = x
  amount_of (debit_call a x) = x
  amount_of (transfer_call a b x) = x

  pub record Attempt : Type 0 where
    pub server : Server Statement
    pub tx_id : String
    pub reference_id : String
    pub call : Call

  -- The tables after one call.
  unfoldable pub call_with :
      Server Statement → String → String → Call → Tables Amount → Tables Amount
  call_with server tx_id reference_id (credit_call a x) t =
      (credit m server tx_id a x reference_id t).0
  call_with server tx_id reference_id (debit_call a x) t =
      (debit m server tx_id a x reference_id t).0
  call_with server tx_id reference_id (transfer_call a b x) t =
      (transfer m server tx_id a b x reference_id t).0

  abbrev pub attempt : Attempt → Tables Amount → Tables Amount
  attempt at t = call_with at.server at.tx_id at.reference_id at.call t

  unfoldable pub attempts : List Attempt → Tables Amount → Tables Amount
  attempts [] t = t
  attempts (at ∷ rest) t = attempts rest (attempt at t)
