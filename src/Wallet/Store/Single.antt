-- ===== src/Wallet/Store/Single.antt =====
-- What `Credit` and `Debit` of wallet/store/postgres.go do: the checks that a call which went
-- through has passed, and what it has written.
use aien.Prelude.{
  ◌≡◌, ◌≢◌, ◌⊎◌, [], ◌∷◌, ◌++◌, none, some, String, ==_iff, arith, Option-cases, inl, inr, false,
  Option,
}
use aien.Prelude.Sql.{ok, Server, transact-cases}
use aien.Wallet.Money.{Money}
use aien.Wallet.Tables.{
  Transaction, Tables, balance_of, insert_account, update_balance, has_reference, has_transaction,
}
use aien.Wallet.Tables.Laws.{or_else, balance_of-insert_account}
use aien.Wallet.Store.{Statement, database, credit, credit_body, debit, debit_body}
use aien.Wallet.Store.Transfer.{or_else-some}

module _ (m : Money) where
  open m use {Amount, zero, plus, minus, less, column}

  -- A row of wallet_transactions for one account.
  abbrev pub entry : String → Option String → Option String → Amount → String → Transaction Amount
  entry tx_id from to x reference_id = record {
    id = tx_id;
    from_account = from;
    to_account = to;
    amount = column x;
    reference_id = reference_id;
  }

  pub record Credited (tx_id a : String) (x : Amount) (reference_id : String) (t t' : Tables Amount)
      : Type 0 where
    pub u : Amount
    pub before : or_else (balance_of a t.accounts) zero ≡ some u
    pub fresh : has_reference reference_id t.transactions ≡ false
    pub unused : has_transaction tx_id t.transactions ≡ false
    pub accounts :
        t'.accounts ≡ update_balance a (column (plus u x)) (insert_account a zero t.accounts)
    pub transactions :
        t'.transactions ≡ t.transactions ++ entry tx_id none (some a) x reference_id ∷ []

  pub record Debited (tx_id a : String) (x : Amount) (reference_id : String) (t t' : Tables Amount)
      : Type 0 where
    pub u : Amount
    pub before : balance_of a t.accounts ≡ some u
    pub covered : less u x ≡ false
    pub fresh : has_reference reference_id t.transactions ≡ false
    pub unused : has_transaction tx_id t.transactions ≡ false
    pub accounts : t'.accounts ≡ update_balance a (column (minus u x)) t.accounts
    pub transactions :
        t'.transactions ≡ t.transactions ++ entry tx_id (some a) none x reference_id ∷ []

  credit_body-Credited :
      (server : Server Statement) (tx_id a : String) (x : Amount) (reference_id : String)
      (t t' : Tables Amount) (r : Amount)
      → credit_body m server tx_id a x reference_id t ≡ ok (r, t')
      → Credited tx_id a x reference_id t t'
  unfolding credit_body
  credit_body-Credited server tx_id a x reference_id t t' r h =
      let (u, before) = or_else-some m (balance_of a t.accounts) zero in
      let there : balance_of a (insert_account a zero t.accounts) ≡ some u =
        ground (arith, before, balance_of-insert_account a a zero t.accounts, ==_iff a a) in
      record {
        u = u;
        before = before;
        fresh = ground arith;
        unused = ground arith;
        accounts = ground (arith, there);
        transactions = ground (arith, there);
      }

  debit_body_missing :
      (server : Server Statement) (tx_id a : String) (x : Amount) (reference_id : String)
      (t t' : Tables Amount) (r : Amount)
      → balance_of a t.accounts ≡ none
      → debit_body m server tx_id a x reference_id t ≢ ok (r, t')
  unfolding debit_body
  debit_body_missing server tx_id a x reference_id t t' r missing h = ground arith

  debit_body-Debited :
      (server : Server Statement) (tx_id a : String) (x : Amount) (reference_id : String)
      (t t' : Tables Amount) (r : Amount)
      → debit_body m server tx_id a x reference_id t ≡ ok (r, t')
      → Debited tx_id a x reference_id t t'
  unfolding debit_body
  debit_body-Debited server tx_id a x reference_id t t' r h =
      elim (Option-cases (balance_of a t.accounts)) [
        | inl missing ↦ absurd (debit_body_missing server tx_id a x reference_id t t' r missing h)
        | inr (u, before) ↦ record {
          u = u;
          before = before;
          covered = ground arith;
          fresh = ground arith;
          unused = ground arith;
          accounts = ground arith;
          transactions = ground arith;
        }
      ]

  pub credit-cases :
      (server : Server Statement) (tx_id a : String) (x : Amount) (reference_id : String)
      (t : Tables Amount)
      → let t' = (credit m server tx_id a x reference_id t).0 in
        (t' ≡ t) ⊎ Credited tx_id a x reference_id t t'
  unfolding credit
  credit-cases server tx_id a x reference_id t =
      elim (transact-cases server database (credit_body m server tx_id a x reference_id) t) [
        | inl kept ↦ inl kept
        | inr (p, done, e) ↦
            inr (rw e (credit_body-Credited server tx_id a x reference_id t p.1 p.0 done))
      ]

  pub debit-cases :
      (server : Server Statement) (tx_id a : String) (x : Amount) (reference_id : String)
      (t : Tables Amount)
      → let t' = (debit m server tx_id a x reference_id t).0 in
        (t' ≡ t) ⊎ Debited tx_id a x reference_id t t'
  unfolding debit
  debit-cases server tx_id a x reference_id t =
      elim (transact-cases server database (debit_body m server tx_id a x reference_id) t) [
        | inl kept ↦ inl kept
        | inr (p, done, e) ↦
            inr (rw e (debit_body-Debited server tx_id a x reference_id t p.1 p.0 done))
      ]
