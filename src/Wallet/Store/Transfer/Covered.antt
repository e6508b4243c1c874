-- ===== src/Wallet/Store/Transfer/Covered.antt =====
-- A transfer that goes through: two accounts, a new reference and a source that holds the amount.
use aien.Prelude.{◌≡◌, false, [], ◌∷◌, ◌++◌, some, String, ◌==◌, ==_iff, arith}
use aien.Prelude.Sql.{ok, Server, IsUp}
use aien.Wallet.Money.{Money}
use aien.Wallet.Tables.{Tables, balance_of, has_reference, has_transaction}
use aien.Wallet.Tables.Laws.{or_else, balance_of-insert_account}
use aien.Wallet.Store.{
  Statement, check_reference, create_account, lock_first, lock_second, update_source,
  update_destination, log_audit, transfer, transfer_body, lock_order, locked,
}
use aien.Wallet.Store.Transfer.{moved, transfer_row}

module _ (m : Money) where
  open m use {Amount, zero, plus, minus, less, column}

  module _ (server : Server Statement) (tx_id a b : String) (x : Amount) (reference_id : String)
      (t : Tables Amount) {u v : Amount} (up : IsUp server) (ne : (a == b) ≡ false)
      (fresh : has_reference reference_id t.transactions ≡ false)
      (from : balance_of a t.accounts ≡ some u)
      (to : or_else (balance_of b t.accounts) zero ≡ some v) where
    pub transfer_ok :
        has_transaction tx_id t.transactions ≡ false
        → less u x ≡ false
        → transfer m server tx_id a b x reference_id t ≡ (
          record {
            accounts = moved m a b u v x t.accounts;
            transactions = t.transactions ++ transfer_row m tx_id a b x reference_id ∷ [];
          },
          ok (minus u x, plus v x),
        )
    unfolding transfer transfer_body lock_order locked
    transfer_ok unused covered = ground (
      arith,
      up.begins,
      up.commits,
      up.answers check_reference,
      up.answers create_account,
      up.answers lock_first,
      up.answers lock_second,
      up.answers update_source,
      up.answers update_destination,
      up.answers log_audit,
      balance_of-insert_account a b zero t.accounts,
      balance_of-insert_account b b zero t.accounts,
      ==_iff a b,
      ==_iff b b,
      ==_iff b a,
      ==_iff a a,
    )
