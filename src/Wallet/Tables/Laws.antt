-- ===== src/Wallet/Tables/Laws.antt =====
-- How the statements on the wallet's tables read back what they write.
use aien.Prelude.{
  ◌≡◌, refl, true, List, [], ◌∷◌, ◌++◌, Option, none, some, String, ◌==◌, ==_iff, if◌then◌else◌,
  arith,
}
use aien.Wallet.Tables.{
  Account, Transaction, balance_of, insert_account, update_balance, has_reference,
}

module _ {A : Type 0} where
  -- What an account reads after an insertion that leaves an existing row alone.
  abbrev pub or_else : Option A → A → Option A
  or_else none v = some v
  or_else (some w) v = some w

  pub balance_of-insert_account :
      (j k : String) (v : A) (rows : List (Account A))
      → balance_of j (insert_account k v rows)
        ≡ (if k == j then or_else (balance_of j rows) v else balance_of j rows)
  unfolding balance_of insert_account
  balance_of-insert_account j k v [] = ground (arith, ==_iff k j)
  balance_of-insert_account j k v (r ∷ rows) =
      ground (arith, ==_iff k j, ==_iff r.id k, ==_iff r.id j, balance_of-insert_account j k v rows)

  -- What a present account reads after an update.
  abbrev pub replaced : Option A → A → Option A
  replaced none v = none
  replaced (some w) v = some v

  pub balance_of-update_balance :
      (j k : String) (v : A) (rows : List (Account A))
      → balance_of j (update_balance k v rows)
        ≡ (if k == j then replaced (balance_of j rows) v else balance_of j rows)
  unfolding balance_of update_balance
  balance_of-update_balance j k v [] = ground (arith, ==_iff k j)
  balance_of-update_balance j k v (r ∷ rows) =
      ground (arith, ==_iff k j, ==_iff r.id k, ==_iff r.id j, balance_of-update_balance j k v rows)

  pub has_reference-append :
      (k : String) (rows : List (Transaction A)) (r : Transaction A)
      → has_reference k (rows ++ r ∷ [])
        ≡ (if r.reference_id == k then true else has_reference k rows)
  unfolding has_reference
  has_reference-append k [] r = refl
  has_reference-append k (q ∷ rows) r = ground (arith, has_reference-append k rows r)
