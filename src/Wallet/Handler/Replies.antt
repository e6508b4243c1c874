-- ===== src/Wallet/Handler/Replies.antt =====
-- What a client of the wallet may conclude from a reply.
use aien.Prelude.{◌≡◌, ◌≢◌, false, some, [], ◌∷◌, ◌++◌, String, ◌==◌, arith}
use aien.Prelude.Sql.{ok, err, Server, IsUp, lost, transact, Tx}
use aien.Grpc.{Status}
use aien.Wallet.Money.{Money}
use aien.Wallet.Tables.{Tables, balance_of, has_reference, has_transaction}
use aien.Wallet.Store.{Statement, credit, debit, transfer}
use aien.Wallet.Store.Transfer.{moved, transfer_row}
use aien.Wallet.Store.Transfer.Covered.{transfer_ok}
use aien.Wallet.Tables.Laws.{or_else}
use aien.Wallet.Handler.{
  AccountRequest, TransferRequest, Message, credit_rpc, debit_rpc, transfer_rpc,
}

-- A failed transaction has written nothing, unless the answer to its commit was lost.
transact_failed :
    {C E S A : Type 0} (server : Server C) (e x : E) (body : Tx E S A) (s : S)
    → server.commit ≢ lost
    → (transact server e body s).1 ≡ err x
    → (transact server e body s).0 ≡ s
transact_failed server e x body s not_lost h = ground arith

module _ (m : Money) where
  open m use {Amount, zero, plus, minus, less, at_most}

  module _ (server : Server Statement) (tx_id : String) (t : Tables Amount)
      (e : Status (Message Amount)) (not_lost : server.commit ≢ lost) where
    credit_rpc_failed :
        (req : AccountRequest Amount)
        → (credit_rpc m server tx_id req t).1 ≡ err e
        → (credit_rpc m server tx_id req t).0 ≡ t
    unfolding credit_rpc credit
    credit_rpc_failed req h = ground arith

    debit_rpc_failed :
        (req : AccountRequest Amount)
        → (debit_rpc m server tx_id req t).1 ≡ err e
        → (debit_rpc m server tx_id req t).0 ≡ t
    unfolding debit_rpc debit
    debit_rpc_failed req h = ground arith

    pub transfer_rpc_failed :
        (req : TransferRequest Amount)
        → (transfer_rpc m server tx_id req t).1 ≡ err e
        → (transfer_rpc m server tx_id req t).0 ≡ t
    unfolding transfer_rpc transfer
    transfer_rpc_failed req h = ground arith

  -- Each of the three calls that move money: an error reply means that the tables are unchanged,
  -- unless the answer to the commit was lost.
  pub rpc_failed_unchanged :
      (server : Server Statement) (tx_id : String) (t : Tables Amount) (e : Status (Message Amount))
      (req : AccountRequest Amount) (move : TransferRequest Amount)
      → server.commit ≢ lost
      → ((credit_rpc m server tx_id req t).1 ≡ err e → (credit_rpc m server tx_id req t).0 ≡ t)
        × ((debit_rpc m server tx_id req t).1 ≡ err e → (debit_rpc m server tx_id req t).0 ≡ t)
        × ((transfer_rpc m server tx_id move t).1 ≡ err e
            → (transfer_rpc m server tx_id move t).0 ≡ t)
  rpc_failed_unchanged server tx_id t e req move not_lost = (
    credit_rpc_failed server tx_id t e not_lost req,
    debit_rpc_failed server tx_id t e not_lost req,
    transfer_rpc_failed server tx_id t e not_lost move,
  )

  -- The request passes the guards of `Transfer`, and names two accounts.
  pub record IsWellFormed (req : TransferRequest Amount) : Type 0 where
    pub from_given : (req.from_account_id == "") ≡ false
    pub to_given : (req.to_account_id == "") ≡ false
    pub positive : at_most req.amount zero ≡ false
    pub reference_given : (req.reference_id == "") ≡ false
    pub distinct : (req.from_account_id == req.to_account_id) ≡ false

  -- If the server answers, a transfer that passes the guards, between two accounts, with a new
  -- reference and a new id, from a source that holds the amount, is answered with the two new
  -- balances; it moves exactly the amount and is logged.
  pub transfer_rpc_ok :
      (server : Server Statement) (tx_id : String) (req : TransferRequest Amount)
      (t : Tables Amount) {u v : Amount}
      → IsUp server
      → IsWellFormed req
      → has_reference req.reference_id t.transactions ≡ false
      → has_transaction tx_id t.transactions ≡ false
      → balance_of req.from_account_id t.accounts ≡ some u
      → or_else (balance_of req.to_account_id t.accounts) zero ≡ some v
      → less u req.amount ≡ false
      → let a = req.from_account_id in
        let b = req.to_account_id in
        transfer_rpc m server tx_id req t ≡ (
          record {
            accounts = moved m a b u v req.amount t.accounts;
            transactions =
                t.transactions ++ transfer_row m tx_id a b req.amount req.reference_id ∷ [];
          },
          ok (record {
            from_account_id = a;
            to_account_id = b;
            from_new_balance = minus u req.amount;
            to_new_balance = plus v req.amount;
          }),
        )
  unfolding transfer_rpc
  transfer_rpc_ok server tx_id req t up good fresh unused from to covered = rw (
    good.from_given,
    good.to_given,
    good.positive,
    good.reference_given,
    transfer_ok m server tx_id req.from_account_id req.to_account_id req.amount req.reference_id t
        up good.distinct fresh from to unused covered,
  )

  -- If the server answers, a transfer with a new reference and a new id, of an amount that no
  -- balance is less than, as with a NaN, and that passes the guards, goes through whatever the
  -- source holds.
  pub transfer_rpc_unordered :
      (server : Server Statement) (tx_id : String) (req : TransferRequest Amount)
      (t : Tables Amount) {u v : Amount}
      → IsUp server
      → IsWellFormed req
      → has_reference req.reference_id t.transactions ≡ false
      → has_transaction tx_id t.transactions ≡ false
      → balance_of req.from_account_id t.accounts ≡ some u
      → or_else (balance_of req.to_account_id t.accounts) zero ≡ some v
      → ((w : Amount) → less w req.amount ≡ false)
      → (t' : Tables Amount) × (transfer_rpc m server tx_id req t ≡ (
        t',
        ok (record {
          from_account_id = req.from_account_id;
          to_account_id = req.to_account_id;
          from_new_balance = minus u req.amount;
          to_new_balance = plus v req.amount;
        }),
      ))
  transfer_rpc_unordered server tx_id req t {u = u} up good fresh unused from to unordered =
      (_, transfer_rpc_ok server tx_id req t up good fresh unused from to (unordered u))
