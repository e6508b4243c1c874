-- ===== src/Ledger/Chain.antt =====
-- The specification of the ledger: a list of blocks in which each is linked to the one before it.
use aien.Prelude.{
  ◌∙◌, ℕ, ◌≡◌, refl, List, [], ◌∷◌, ◌++◌, Option, none, some, String, arith, sym, ap, take, zero,
  suc,
}
use aien.Ledger.Block.{Block, genesis_hash, next_index, calculate_hash, hash_input}
use aien.Ledger.Engine.{next_block}

-- The last block of a list, or the one before it.
abbrev pub last_block : Option Block → List Block → Option Block
last_block last [] = last
last_block last (b ∷ bs) = last_block (some b) bs

-- Where the next block has to link to.
abbrev pub tip_hash : Option Block → String
tip_hash none = genesis_hash
tip_hash (some b) = b.hash

abbrev pub tip_index : Option Block → ℕ
tip_index none = 0
tip_index (some b) = next_index b.index

module _ (digest : String → String) where
  -- The blocks follow a block with hash `prev`, the first of them with index `index`.
  abbrev pub IsChain : (prev : String) → (index : ℕ) → List Block → Type 0
  IsChain prev index [] = Unit
  IsChain prev index (b ∷ bs) =
      (b.index ≡ index)
      × (b.prev_hash ≡ prev)
      × (b.hash ≡ calculate_hash digest b)
      × IsChain b.hash (next_index index) bs

  abbrev pub IsLinked : Option Block → Block → Type 0
  IsLinked last b =
      (b.index ≡ tip_index last)
      × (b.prev_hash ≡ tip_hash last)
      × (b.hash ≡ calculate_hash digest b)

  pub IsChain-append :
      (last : Option Block) (prev : String) (index : ℕ) (bs : List Block) (b : Block)
      → prev ≡ tip_hash last
      → index ≡ tip_index last
      → IsChain prev index bs
      → IsLinked (last_block last bs) b
      → IsChain prev index (bs ++ b ∷ [])
  IsChain-append last prev index [] b p q h k = ground arith
  IsChain-append last prev index (c ∷ bs) b p q h k = (
    h.0,
    h.1,
    h.2,
    IsChain-append (some c) c.hash (next_index index) bs b refl (ap next_index (sym h.0)) h.3 k,
  )

  -- The block that `Append` builds is linked to the last one.
  pub next_block-IsLinked :
      (last : Option Block) (timestamp intent_id intent_type status : String)
      → IsLinked last (next_block digest last timestamp intent_id intent_type status)
  unfolding next_block calculate_hash hash_input
  next_block-IsLinked none timestamp intent_id intent_type status = (refl, refl, refl)
  next_block-IsLinked (some b) timestamp intent_id intent_type status = (refl, refl, refl)

  -- Truncation keeps a chain: the ledger does not show that blocks are missing at its end.
  pub IsChain-take :
      (n : ℕ) (prev : String) (index : ℕ) (bs : List Block)
      → IsChain prev index bs
      → IsChain prev index (take n bs)
  IsChain-take zero prev index bs h = tt
  IsChain-take (suc n) prev index [] h = tt
  IsChain-take (suc n) prev index (b ∷ bs) h =
      (h.0, h.1, h.2, IsChain-take n b.hash (next_index index) bs h.3)

  -- Another block in the place of `b`, with the same index, the same hashes and the same input
  -- to the hash function, keeps the chain, whatever its other fields are.
  pub IsChain-replace :
      (prev : String) (index : ℕ) (bs cs : List Block) (b b' : Block)
      → b'.index ≡ b.index
      → b'.prev_hash ≡ b.prev_hash
      → b'.hash ≡ b.hash
      → hash_input b' ≡ hash_input b
      → IsChain prev index (bs ++ b ∷ cs)
      → IsChain prev index (bs ++ b' ∷ cs)
  unfolding calculate_hash
  IsChain-replace prev index [] cs b b' i p h e c =
      (i ∙ c.0, p ∙ c.1, h ∙ c.2 ∙ ap digest (sym e), rw h c.3)
  IsChain-replace prev index (d ∷ bs) cs b b' i p h e c =
      (c.0, c.1, c.2, IsChain-replace d.hash (next_index index) bs cs b b' i p h e c.3)
