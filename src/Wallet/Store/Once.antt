-- ===== src/Wallet/Store/Once.antt =====
-- Idempotency by `reference_id`: however often a request is sent again, and however each attempt
-- ends for its caller, the money moves at most once.
use mathlib.Core.List.{Memᴰ}
use aien.Prelude.{
  ◌≡◌, refl, ◌⊎◌, inl, inr, List, [], ◌∷◌, ◌++◌, String, ==_iff, true, false, arith, All, sym,
}
use aien.Prelude.Sql.{Server}
use aien.Wallet.Money.{Money}
use aien.Wallet.Tables.{Tables, Transaction, has_reference}
use aien.Wallet.Tables.Laws.{has_reference-append}
use aien.Wallet.Store.{Statement}
use aien.Wallet.Store.Transfer.{transfer-cases}
use aien.Wallet.Store.Single.{credit-cases, debit-cases}
use aien.Wallet.Store.Requests.{
  Call, credit_call, debit_call, transfer_call, Attempt, call_with, attempt, attempts,
}

module _ (m : Money) where
  open m use {Amount}

  abbrev pub IsProcessed : String → Tables Amount → Type 0
  IsProcessed reference_id t = has_reference reference_id t.transactions ≡ true

  pub logged :
      (k : String) (r : Transaction Amount) (rows : List (Transaction Amount))
      → r.reference_id ≡ k
      → has_reference k (rows ++ r ∷ []) ≡ true
  logged k r rows e = ground (arith, has_reference-append k rows r, ==_iff r.reference_id k)

  -- A call changes nothing, or its reference was new before it and is logged after it.
  pub call_with-cases :
      (server : Server Statement) (tx_id k : String) (c : Call m) (t : Tables Amount)
      → let t' = call_with m server tx_id k c t in
        (t' ≡ t) ⊎ ((has_reference k t.transactions ≡ false) × IsProcessed k t')
  unfolding call_with
  call_with-cases server tx_id k (credit_call a x) t = elim (credit-cases m server tx_id a x k t) [
    | inl kept ↦ inl kept
    | inr w ↦ inr (w.fresh, rw w.transactions (logged k _ t.transactions refl))
  ]
  call_with-cases server tx_id k (debit_call a x) t = elim (debit-cases m server tx_id a x k t) [
    | inl kept ↦ inl kept
    | inr w ↦ inr (w.fresh, rw w.transactions (logged k _ t.transactions refl))
  ]
  call_with-cases server tx_id k (transfer_call a b x) t =
      elim (transfer-cases m server tx_id a b x k t) [
        | inl kept ↦ inl kept
        | inr (ne, w) ↦ inr (w.fresh, rw w.transactions (logged k _ t.transactions refl))
      ]

  -- A call whose reference is logged changes nothing.
  pub call_with_processed :
      (server : Server Statement) (tx_id k : String) (c : Call m) (t : Tables Amount)
      → IsProcessed k t
      → call_with m server tx_id k c t ≡ t
  call_with_processed server tx_id k c t h = elim (call_with-cases server tx_id k c t) [
    | inl kept ↦ kept
    | inr (fresh, done) ↦ absurd (ground arith)
  ]

  attempts_processed :
      (k : String) (ats : List (Attempt m)) (t : Tables Amount)
      → All (λ (at : Attempt m). at.reference_id ≡ k) ats
      → IsProcessed k t
      → attempts m ats t ≡ t
  unfolding attempts
  attempts_processed k [] t same h = refl
  attempts_processed k (at ∷ ats) t same h =
      rw (call_with_processed at.server at.tx_id at.reference_id at.call t (rw same.0 h))
        (attempts_processed k ats t same.1 h)

  -- Of any attempts of credits, debits and transfers under one reference, in any order and
  -- however each of them ends, at most one has an effect on the tables.
  pub attempts_once :
      (k : String) (ats : List (Attempt m)) (t : Tables Amount)
      → All (λ (at : Attempt m). at.reference_id ≡ k) ats
      → (attempts m ats t ≡ t)
        ⊎ ((at : Attempt m) × Memᴰ at ats × (attempts m ats t ≡ attempt m at t))
  unfolding attempts
  attempts_once k [] t same = inl refl
  attempts_once k (at ∷ ats) t same =
      elim (call_with-cases at.server at.tx_id at.reference_id at.call t) [
        | inl kept ↦ rw kept (elim (attempts_once k ats t same.1) [
          | inl none_did ↦ inl none_did
          | inr (by, at_place, e) ↦ inr (by, Memᴰ.tail at_place, e)
        ])
        | inr (fresh, done) ↦ inr (
          at,
          Memᴰ.head refl,
          attempts_processed k ats (attempt m at t) same.1 (rw (sym same.0) done),
        )
      ]
