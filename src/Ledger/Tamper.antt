-- ===== src/Ledger/Tamper.antt =====
-- What the hash chain protects, and what it does not.
use Prim.Native.String.{count, ◌++◌ as append}
use text.Mathlib.TextLemmas.{append_inj, append_assoc, length-append}
use aien.Prelude.{
  differ, ==_iff, ◌==◌, inl, inr, Bool-cases, ◌⊎◌, ◌≢◌, ℕ, ◌≡◌, refl, List, [], ◌∷◌, String, arith,
  sym, ap, length, ◌∙◌,
}
use aien.Ledger.Block.{Block, genesis_hash, next_index, calculate_hash, hash_input}
use aien.Prelude.Decimal.{decimal}
use aien.Ledger.Chain.{IsChain}

-- At one place of the two lists, blocks with different hashed texts have one hash.
abbrev pub Collide : (digest : String → String) → List Block → List Block → Type 0
Collide digest [] cs = ⊥
Collide digest (b ∷ bs) [] = ⊥
Collide digest (b ∷ bs) (c ∷ cs) =
    ((hash_input b ≢ hash_input c) × (digest (hash_input b) ≡ digest (hash_input c)))
    ⊎ Collide digest bs cs

same_or_differ : (s t : String) → (s ≡ t) ⊎ (s ≢ t)
same_or_differ s t = elim (Bool-cases (s == t)) [
  | inl same ↦ inl ((==_iff s t).0 same)
  | inr other ↦ inr (differ s t other)
]

-- The fields before `prev_hash`, joined.
unfoldable pub front : Block → String
front b =
    append (decimal b.index) (append b.timestamp (append b.intent_id (append b.type_name b.status)))

hash_input-front : (b : Block) → hash_input b ≡ append (front b) b.prev_hash
unfolding hash_input front
hash_input-front b = simp append_assoc

-- Texts that end in parts of one length agree on these parts.
append_inj_right :
    (s s' t t' : String) → append s t ≡ append s' t' → count t ≡ count t' → (s ≡ s') × (t ≡ t')
append_inj_right s s' t t' e n =
    append_inj e (omega (arith, ap count e, length-append s t, length-append s' t'))

-- The two lists have the same hashes, links, indices and joined fields, block by block.
abbrev pub Agree : List Block → List Block → Type 0
Agree [] [] = Unit
Agree [] (c ∷ cs) = ⊥
Agree (b ∷ bs) [] = ⊥
Agree (b ∷ bs) (c ∷ cs) =
    (b.index ≡ c.index)
    × (b.prev_hash ≡ c.prev_hash)
    × (b.hash ≡ c.hash)
    × (front b ≡ front c)
    × Agree bs cs

-- The hash of the last block, or `prev`.
abbrev pub final_hash : String → List Block → String
final_hash prev [] = prev
final_hash prev (b ∷ bs) = final_hash b.hash bs

module _ (digest : String → String) (digits : (s : String) → count (digest s) ≡ 64) where
  -- The same from any two hashes and any index.
  Agree-from :
      (p q : String) (i : ℕ) (bs cs : List Block)
      → count p ≡ 64
      → count q ≡ 64
      → IsChain digest p i bs
      → IsChain digest q i cs
      → length bs ≡ length cs
      → final_hash p bs ≡ final_hash q cs
      → Collide digest bs cs ⊎ ((p ≡ q) × Agree bs cs)
  unfolding calculate_hash
  Agree-from p q i [] [] np nq hb hc n e = inr (e, tt)
  Agree-from p q i [] (c ∷ cs) np nq hb hc n e = absurd (omega arith)
  Agree-from p q i (b ∷ bs) [] np nq hb hc n e = absurd (omega arith)
  Agree-from p q i (b ∷ bs) (c ∷ cs) np nq hb hc n e =
      elim (Agree-from b.hash c.hash (next_index i) bs cs (ap count hb.2 ∙ digits (hash_input b))
        (ap count hc.2 ∙ digits (hash_input c)) hb.3 hc.3 (omega arith) e) [
          | inl found ↦ inl (inr found)
          | inr (hashes, rest) ↦ elim (same_or_differ (hash_input b) (hash_input c)) [
            | inr other ↦ inl (inl (other, sym hb.2 ∙ hashes ∙ hc.2))
            | inl inputs ↦
                let (fronts, prevs) =
                  append_inj_right (front b) (front c) b.prev_hash c.prev_hash
                    (sym (hash_input-front b) ∙ inputs ∙ hash_input-front c)
                    (ap count hb.1 ∙ np ∙ sym nq ∙ sym (ap count hc.1)) in
                inr (sym hb.1 ∙ prevs ∙ hc.1, (hb.0 ∙ sym hc.0, prevs, hashes, fronts, rest))
          ]
        ]

  -- If hashes have 64 digits, two chains of one length that end in the same hash agree, block by
  -- block, on the index, both hashes and the joined fields, or at one place the two chains
  -- have blocks whose hashed texts differ and have the same hash.
  pub chains-Agree :
      (bs cs : List Block)
      → IsChain digest genesis_hash 0 bs
      → IsChain digest genesis_hash 0 cs
      → length bs ≡ length cs
      → final_hash genesis_hash bs ≡ final_hash genesis_hash cs
      → Collide digest bs cs ⊎ Agree bs cs
  chains-Agree bs cs hb hc n e =
      elim (Agree-from genesis_hash genesis_hash 0 bs cs refl refl hb hc n e) [
        | inl found ↦ inl found
        | inr (same, agree) ↦ inr agree
      ]
