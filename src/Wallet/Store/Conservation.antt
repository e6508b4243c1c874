-- ===== src/Wallet/Store/Conservation.antt =====
-- The sum of all balances under the methods of wallet/store/postgres.go.
use aien.Prelude.{
  ℕ, ◌+◌, ◌≡◌, refl, false, List, [], ◌∷◌, Option, none, some, String, ◌==◌, ==_iff, arith, inl,
  inr,
}
use aien.Prelude.Sql.{Server}
use aien.Wallet.Money.{Money, IsExactAt}
use aien.Wallet.Tables.{Account, Tables, balance_of, insert_account, update_balance}
use aien.Wallet.Tables.Laws.{or_else, balance_of-insert_account, balance_of-update_balance}
use aien.Wallet.Store.{Statement, transfer}
use aien.Wallet.Store.Transfer.{Moves, transfer-cases, locked_rows}

module _ (m : Money) (units : m.Amount → ℕ) (units_zero : units m.zero ≡ 0) where
  open m use {Amount, zero, plus, minus, less, column}

  -- The primary key: no id has two rows.
  abbrev pub IsKeyed : List (Account Amount) → Type 0
  IsKeyed [] = Unit
  IsKeyed (r ∷ rows) = (balance_of r.id rows ≡ none) × IsKeyed rows

  -- SELECT SUM(balance), in units.
  unfoldable pub total : List (Account Amount) → ℕ
  total [] = 0
  total (r ∷ rows) = units r.balance + total rows

  -- An account's units; a missing account holds none.
  abbrev pub held : Option Amount → ℕ
  held none = 0
  held (some v) = units v

  pub total-insert_account :
      (k : String) (rows : List (Account Amount)) → total (insert_account k zero rows) ≡ total rows
  unfolding total insert_account
  total-insert_account k [] = omega (arith, units_zero)
  total-insert_account k (r ∷ rows) = ground (arith, total-insert_account k rows)

  pub insert_account-IsKeyed :
      (k : String) (rows : List (Account Amount))
      → IsKeyed rows
      → IsKeyed (insert_account k zero rows)
  unfolding insert_account balance_of
  insert_account-IsKeyed k [] h = (refl, tt)
  insert_account-IsKeyed k (r ∷ rows) h = ground (
    arith,
    insert_account-IsKeyed k rows h.1,
    balance_of-insert_account r.id k zero rows,
    ==_iff k r.id,
    ==_iff r.id k,
  )

  pub update_balance-IsKeyed :
      (k : String) (v : Amount) (rows : List (Account Amount))
      → IsKeyed rows
      → IsKeyed (update_balance k v rows)
  unfolding update_balance
  update_balance-IsKeyed k v [] h = tt
  update_balance-IsKeyed k v (r ∷ rows) h = ground (
    arith,
    update_balance-IsKeyed k v rows h.1,
    balance_of-update_balance r.id k v rows,
    ==_iff k r.id,
    ==_iff r.id k,
  )

  update_balance_absent :
      (k : String) (v : Amount) (rows : List (Account Amount))
      → balance_of k rows ≡ none
      → update_balance k v rows ≡ rows
  unfolding update_balance balance_of
  update_balance_absent k v [] h = refl
  update_balance_absent k v (r ∷ rows) h =
      ground (arith, update_balance_absent k v rows, ==_iff r.id k)

  pub total-update_balance :
      (k : String) (v w : Amount) (rows : List (Account Amount))
      → IsKeyed rows
      → balance_of k rows ≡ some w
      → total (update_balance k v rows) + units w ≡ total rows + units v
  unfolding total update_balance balance_of
  total-update_balance k v w [] h e = ground arith
  total-update_balance k v w (r ∷ rows) h e =
      ground
        (arith, total-update_balance k v w rows h.1, update_balance_absent k v rows, ==_iff r.id k)

  -- A transfer changes no total: what left the source has arrived at the destination.
  total-Moves :
      (tx_id a b : String) (x : Amount) (reference_id : String) (t t' : Tables Amount)
      → (a == b) ≡ false
      → IsKeyed t.accounts
      → (mv : Moves m tx_id a b x reference_id t t') → IsExactAt m units mv.u mv.v x
      → total t'.accounts ≡ total t.accounts
  total-Moves tx_id a b x reference_id t t' ne keyed mv exact =
      let (from, to) = locked_rows m a b t.accounts ne mv.from mv.to in
      let rows : List (Account Amount) = insert_account b zero t.accounts in
      let u' : Amount = column (minus mv.u x) in
      let v' : Amount = column (plus mv.v x) in
      let keyed' = insert_account-IsKeyed b t.accounts keyed in
      let still : balance_of b (update_balance a u' rows) ≡ some mv.v =
        ground (arith, to, balance_of-update_balance b a u' rows, ==_iff a b) in
      rw (mv.accounts) (
        omega (
          arith,
          total-insert_account b t.accounts,
          total-update_balance a u' mv.u rows keyed' from,
          total-update_balance b v' mv.v (update_balance a u' rows)
              (update_balance-IsKeyed a u' rows keyed') still,
          exact.subtracts,
          exact.adds,
        ))

  -- Let the transfer's own subtraction and addition be exact if the source covers the amount, and let each
  -- account have at most one row. Then the sum of all balances stays the same, however the server
  -- answers and however `Transfer` ends.
  pub total-transfer :
      (server : Server Statement) (tx_id a b : String) (x : Amount) (reference_id : String)
      (t : Tables Amount)
      → IsKeyed t.accounts
      → ((u v : Amount)
          → balance_of a t.accounts ≡ some u
          → or_else (balance_of b t.accounts) zero ≡ some v
          → less u x ≡ false
          → IsExactAt m units u v x)
      → total (transfer m server tx_id a b x reference_id t).0.accounts ≡ total t.accounts
  total-transfer server tx_id a b x reference_id t keyed exact =
      elim (transfer-cases m server tx_id a b x reference_id t) [
        | inl kept ↦ rw kept
        | inr (ne, mv) ↦
            total-Moves tx_id a b x reference_id t (transfer m server tx_id a b x reference_id t).0
              ne keyed mv (exact mv.u mv.v mv.from mv.to mv.covered)
      ]
