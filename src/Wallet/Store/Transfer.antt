-- ===== src/Wallet/Store/Transfer.antt =====
-- What `Transfer` of wallet/store/postgres.go does on each branch.
pub mod Covered
use aien.Prelude.{
  ◌≡◌, refl, ◌≢◌, ◌⊎◌, false, List, [], ◌∷◌, ◌++◌, Option, none, some, String, ◌==◌, ==_iff,
  if◌then◌else◌, arith, Option-cases, inl, inr, Bool-cases,
}
use aien.Prelude.Sql.{transact_done, transact-cases, ok, Server, IsUp}
use aien.Wallet.Money.{Money}
use aien.Wallet.Tables.{
  Account, Transaction, Tables, balance_of, insert_account, update_balance, has_reference,
  has_transaction,
}
use aien.Wallet.Tables.Laws.{balance_of-update_balance, or_else, balance_of-insert_account}
use aien.Wallet.Store.{
  database, Statement, check_reference, create_account, lock_first, lock_second, update_source,
  update_destination, log_audit, transfer, transfer_body, lock_order, locked,
}

module _ (m : Money) where
  open m use {Amount, zero, plus, minus, less, column}

  -- The accounts after a transfer of `x` from `a`, which held `u`, to `b`, which held `v`.
  abbrev pub moved :
      String → String → Amount → Amount → Amount → List (Account Amount) → List (Account Amount)
  moved a b u v x rows =
      update_balance b (column (plus v x))
        (update_balance a (column (minus u x)) (insert_account b zero rows))

  abbrev pub transfer_row : String → String → String → Amount → String → Transaction Amount
  transfer_row tx_id a b x reference_id = record {
    id = tx_id;
    from_account = some a;
    to_account = some b;
    amount = column x;
    reference_id = reference_id;
  }

  -- What a transfer that went through has done, and what it has checked.
  pub record Moves (tx_id a b : String) (x : Amount) (reference_id : String) (t t' : Tables Amount)
      : Type 0 where
    pub u : Amount
    pub v : Amount
    pub from : balance_of a t.accounts ≡ some u
    pub to : or_else (balance_of b t.accounts) zero ≡ some v
    pub covered : less u x ≡ false
    pub fresh : has_reference reference_id t.transactions ≡ false
    pub unused : has_transaction tx_id t.transactions ≡ false
    pub accounts : t'.accounts ≡ moved a b u v x t.accounts
    pub transactions :
        t'.transactions ≡ t.transactions ++ transfer_row tx_id a b x reference_id ∷ []

  pub or_else-some : (o : Option Amount) (w : Amount) → (v : Amount) × (or_else o w ≡ some v)
  or_else-some none w = (w, refl)
  or_else-some (some v) w = (v, refl)

  -- What the two locked rows read, once the recipient's row is there.
  pub locked_rows :
      (a b : String) (rows : List (Account Amount)) {u v : Amount}
      → (a == b) ≡ false
      → balance_of a rows ≡ some u
      → or_else (balance_of b rows) zero ≡ some v
      → (balance_of a (insert_account b zero rows) ≡ some u)
        × (balance_of b (insert_account b zero rows) ≡ some v)
  locked_rows a b rows ne from to = ground (
    arith,
    balance_of-insert_account a b zero rows,
    balance_of-insert_account b b zero rows,
    ==_iff a b,
    ==_iff b b,
    ==_iff b a,
  )

  transfer_body_inv :
      (server : Server Statement) (tx_id a b : String) (x : Amount) (reference_id : String)
      (t t' : Tables Amount) (r : Amount × Amount) {u v : Amount}
      → (a == b) ≡ false
      → balance_of a (insert_account b zero t.accounts) ≡ some u
      → balance_of b (insert_account b zero t.accounts) ≡ some v
      → transfer_body m server tx_id a b x reference_id t ≡ ok (r, t')
      → (less u x ≡ false)
        × (has_reference reference_id t.transactions ≡ false)
        × (has_transaction tx_id t.transactions ≡ false)
        × (t'.accounts ≡ moved a b u v x t.accounts)
        × (t'.transactions ≡ t.transactions ++ transfer_row tx_id a b x reference_id ∷ [])
  unfolding transfer_body lock_order locked
  transfer_body_inv server tx_id a b x reference_id t t' r ne from to h =
      ground (arith, ==_iff a b, ==_iff b b, ==_iff b a, ==_iff a a)

  missing_source :
      (server : Server Statement) (tx_id a b : String) (x : Amount) (reference_id : String)
      (t t' : Tables Amount) (r : Amount × Amount)
      → (a == b) ≡ false
      → balance_of a t.accounts ≡ none
      → transfer_body m server tx_id a b x reference_id t ≢ ok (r, t')
  unfolding transfer_body lock_order
  missing_source server tx_id a b x reference_id t t' r ne missing h =
      ground (arith, balance_of-insert_account a b zero t.accounts, ==_iff a b, ==_iff b a)

  -- A transfer whose statements all succeed has passed every check and moved the amount.
  transfer_body-Moves :
      (server : Server Statement) (tx_id a b : String) (x : Amount) (reference_id : String)
      (t t' : Tables Amount) (r : Amount × Amount)
      → (a == b) ≡ false
      → transfer_body m server tx_id a b x reference_id t ≡ ok (r, t')
      → Moves tx_id a b x reference_id t t'
  transfer_body-Moves server tx_id a b x reference_id t t' r ne h =
      elim (Option-cases (balance_of a t.accounts)) [
        | inl missing ↦ absurd (missing_source server tx_id a b x reference_id t t' r ne missing h)
        | inr (u, from) ↦
            let (v, to) = or_else-some (balance_of b t.accounts) zero in
            let (from', to') = locked_rows a b t.accounts ne from to in
            let inv = transfer_body_inv server tx_id a b x reference_id t t' r ne from' to' h in
            record {
              u = u;
              v = v;
              from = from;
              to = to;
              covered = inv.0;
              fresh = inv.1;
              unused = inv.2;
              accounts = inv.3;
              transactions = inv.4;
            }
      ]

  -- However the server answers, a transfer leaves the tables alone, or the two accounts differ,
  -- every check has passed, the amount has moved once and one row has been logged.
  pub transfer-cases :
      (server : Server Statement) (tx_id a b : String) (x : Amount) (reference_id : String)
      (t : Tables Amount)
      → let t' = (transfer m server tx_id a b x reference_id t).0 in
        (t' ≡ t) ⊎ (((a == b) ≡ false) × Moves tx_id a b x reference_id t t')
  unfolding transfer
  transfer-cases server tx_id a b x reference_id t = elim (Bool-cases (a == b)) [
    | inl same ↦ rw same (inl refl)
    | inr ne ↦
        rw ne
          (elim (transact-cases server database (transfer_body m server tx_id a b x reference_id)
            t) [
              | inl kept ↦ inl kept
              | inr (p, done, e) ↦ inr (
                refl,
                rw e (transfer_body-Moves server tx_id a b x reference_id t p.1 p.0 ne done),
              )
            ])
  ]

  -- A transfer that is answered with the new balances has moved the amount.
  pub transfer-Moves :
      (server : Server Statement) (tx_id a b : String) (x : Amount) (reference_id : String)
      (t : Tables Amount) (r : Amount × Amount)
      → (transfer m server tx_id a b x reference_id t).1 ≡ ok r
      → Moves tx_id a b x reference_id t (transfer m server tx_id a b x reference_id t).0
  unfolding transfer
  transfer-Moves server tx_id a b x reference_id t r h = elim (Bool-cases (a == b)) [
    | inl same ↦ absurd (ground (arith, same, h))
    | inr ne ↦
        let body = transfer_body m server tx_id a b x reference_id in
        rw ne (
          transfer_body-Moves server tx_id a b x reference_id t _ r ne
            (transact_done server database body t r (ground (arith, ne, h))))
  ]

  -- What an account holds after a transfer of `x` from `a` to `b`: the two balances change by the
  -- amount, and every other account reads as before.
  pub balance_of-Moves :
      (tx_id a b : String) (x : Amount) (reference_id : String) (t t' : Tables Amount)
      → (a == b) ≡ false
      → (mv : Moves tx_id a b x reference_id t t') → (k : String)
      → balance_of k t'.accounts ≡ (
          if b == k
          then some (column (plus mv.v x))
          else if a == k
          then some (column (minus mv.u x))
          else balance_of k t.accounts)
  balance_of-Moves tx_id a b x reference_id t t' ne mv k = ground (
    arith,
    mv.from,
    mv.to,
    mv.accounts,
    balance_of-insert_account k b zero t.accounts,
    balance_of-update_balance k a (column (minus mv.u x)) (insert_account b zero t.accounts),
    balance_of-update_balance k b (column (plus mv.v x))
        (update_balance a (column (minus mv.u x)) (insert_account b zero t.accounts)),
    ==_iff a b,
    ==_iff a k,
    ==_iff b k,
  )
