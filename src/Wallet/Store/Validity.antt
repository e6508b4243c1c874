-- ===== src/Wallet/Store/Validity.antt =====
-- The invariant of the wallet's tables, which every call keeps: each account has one row and a
-- balance that is not below zero, and no reference and no id is logged twice.
use aien.Prelude.{
  ◌≡◌, inl, inr, List, [], ◌∷◌, ◌++◌, String, ◌==◌, ==_iff, false, arith, none, some,
}
use aien.Prelude.Sql.{Server}
use aien.Wallet.Money.{Money, IsOrdered}
use aien.Wallet.Tables.{
  Account, Tables, Transaction, balance_of, insert_account, update_balance, has_reference,
  has_transaction,
}
use aien.Wallet.Tables.Laws.{
  or_else, balance_of-insert_account, balance_of-update_balance, has_reference-append,
}
use aien.Wallet.Store.{Statement}
use aien.Wallet.Store.Transfer.{transfer-cases}
use aien.Wallet.Store.Single.{credit-cases, debit-cases}
use aien.Wallet.Store.Requests.{Call, credit_call, debit_call, transfer_call, call_with, amount_of}

module _ (m : Money) where
  open m use {Amount, zero, plus, minus, less, at_most, column}

  -- Rows with distinct ids, none with a balance below zero.
  abbrev pub IsSound : List (Account Amount) → Type 0
  IsSound [] = Unit
  IsSound (r ∷ rows) = (less r.balance zero ≡ false) × (balance_of r.id rows ≡ none) × IsSound rows

  -- Rows with distinct ids and distinct references.
  abbrev pub IsUnique : List (Transaction Amount) → Type 0
  IsUnique [] = Unit
  IsUnique (r ∷ rows) =
      (has_reference r.reference_id rows ≡ false)
      × (has_transaction r.id rows ≡ false)
      × IsUnique rows

  pub record IsValid (t : Tables Amount) : Type 0 where
    pub sound : IsSound t.accounts
    pub unique : IsUnique t.transactions

  has_transaction-append :
      (k : String) (rows : List (Transaction Amount)) (r : Transaction Amount)
      → has_transaction k rows ≡ false
      → (r.id == k) ≡ false
      → has_transaction k (rows ++ r ∷ []) ≡ false
  unfolding has_transaction
  has_transaction-append k [] r h ne = ground arith
  has_transaction-append k (q ∷ rows) r h ne = ground (arith, has_transaction-append k rows r)

  append-IsUnique :
      (rows : List (Transaction Amount)) (r : Transaction Amount)
      → IsUnique rows
      → has_reference r.reference_id rows ≡ false
      → has_transaction r.id rows ≡ false
      → IsUnique (rows ++ r ∷ [])
  unfolding has_reference has_transaction
  append-IsUnique [] r h fresh unused = ground arith
  append-IsUnique (q ∷ rows) r h fresh unused = ground (
    arith,
    append-IsUnique rows r h.2,
    has_reference-append q.reference_id rows r,
    has_transaction-append q.id rows r h.1,
    ==_iff r.reference_id q.reference_id,
    ==_iff q.reference_id r.reference_id,
    ==_iff r.id q.id,
    ==_iff q.id r.id,
  )

  insert_account-IsSound :
      (k : String) (v : Amount) (rows : List (Account Amount))
      → less v zero ≡ false
      → IsSound rows
      → IsSound (insert_account k v rows)
  unfolding insert_account balance_of
  insert_account-IsSound k v [] p h = ground arith
  insert_account-IsSound k v (r ∷ rows) p h = ground (
    arith,
    insert_account-IsSound k v rows p h.2,
    balance_of-insert_account r.id k v rows,
    ==_iff k r.id,
    ==_iff r.id k,
  )

  update_balance-IsSound :
      (k : String) (v : Amount) (rows : List (Account Amount))
      → less v zero ≡ false
      → IsSound rows
      → IsSound (update_balance k v rows)
  unfolding update_balance
  update_balance-IsSound k v [] p h = tt
  update_balance-IsSound k v (r ∷ rows) p h = ground (
    arith,
    update_balance-IsSound k v rows p h.2,
    balance_of-update_balance r.id k v rows,
    ==_iff k r.id,
    ==_iff r.id k,
  )

  -- No balance that the tables show is below zero.
  pub balance_of-nonneg :
      (k : String) (v : Amount) (rows : List (Account Amount))
      → IsSound rows
      → balance_of k rows ≡ some v
      → less v zero ≡ false
  unfolding balance_of
  balance_of-nonneg k v [] h e = ground arith
  balance_of-nonneg k v (r ∷ rows) h e = ground (arith, balance_of-nonneg k v rows h.2)

  module _ (ordered : IsOrdered m) where
    open ordered use {zero_nonneg, minus_nonneg, plus_nonneg, column_nonneg}

    or_else-nonneg :
        (k : String) (v : Amount) (rows : List (Account Amount))
        → IsSound rows
        → or_else (balance_of k rows) zero ≡ some v
        → less v zero ≡ false
    or_else-nonneg k v rows h e = ground (arith, balance_of-nonneg k v rows h, zero_nonneg)

    -- Every call with an amount above zero keeps the invariant, whatever the server answers,
    -- where the comparisons of amounts agree with the signs of sums and differences.
    pub call_with-IsValid :
        (server : Server Statement) (tx_id k : String) (c : Call m) (t : Tables Amount)
        → at_most (amount_of m c) zero ≡ false
        → IsValid t
        → IsValid (call_with m server tx_id k c t)
    unfolding call_with
    call_with-IsValid server tx_id k (credit_call a x) t p h =
        elim (credit-cases m server tx_id a x k t) [
          | inl kept ↦ rw kept h
          | inr w ↦ record {
            sound = rw w.accounts (
                update_balance-IsSound a (column (plus w.u x)) _
                  (column_nonneg _
                    (plus_nonneg w.u x (or_else-nonneg a w.u t.accounts h.sound w.before) p))
                  (insert_account-IsSound a zero t.accounts zero_nonneg h.sound));
            unique = rw w.transactions (append-IsUnique t.transactions _ h.unique w.fresh w.unused);
          }
        ]
    call_with-IsValid server tx_id k (debit_call a x) t p h =
        elim (debit-cases m server tx_id a x k t) [
          | inl kept ↦ rw kept h
          | inr w ↦ record {
            sound = rw w.accounts (
                update_balance-IsSound a (column (minus w.u x)) _
                  (column_nonneg _ (minus_nonneg w.u x w.covered)) h.sound);
            unique = rw w.transactions (append-IsUnique t.transactions _ h.unique w.fresh w.unused);
          }
        ]
    call_with-IsValid server tx_id k (transfer_call a b x) t p h =
        elim (transfer-cases m server tx_id a b x k t) [
          | inl kept ↦ rw kept h
          | inr (ne, w) ↦ record {
            sound = rw w.accounts (
                update_balance-IsSound b (column (plus w.v x)) _
                  (column_nonneg _
                    (plus_nonneg w.v x (or_else-nonneg b w.v t.accounts h.sound w.to) p))
                  (update_balance-IsSound a (column (minus w.u x)) _
                    (column_nonneg _ (minus_nonneg w.u x w.covered))
                    (insert_account-IsSound b zero t.accounts zero_nonneg h.sound)));
            unique = rw w.transactions (append-IsUnique t.transactions _ h.unique w.fresh w.unused);
          }
        ]
