-- ===== src/Ledger/Print.antt =====
-- What the ledger relies on in encoding/json, and the file that a list of blocks is written to.
use aien.Prelude.{
  ◌≤◌, ◌<◌, ◌^◌, ℕ, ◌≡◌, refl, ◌≢◌, ◌↔◌, List, [], ◌∷◌, Option, none, some, String, arith, map, All,
  false, ==_iff, nat_eq_iff,
}
use Prim.Native.String.{count}
use aien.Ledger.Scan.{Bytes, scan}
use aien.Ledger.Scan.Laws.{IsLine, unlines, scan-unlines}
use aien.Ledger.Block.{Block, genesis_hash, next_index, calculate_hash}
use aien.Ledger.Engine.{Codec, Disk, whole, last_of, verify_lines, verify, check_block}
use aien.Ledger.Chain.{IsChain, last_block}

-- The index is a uint64, and no text of the block has more than 1000 characters.
pub record IsShort (b : Block) : Type 0 where
  pub index : b.index < 2 ^ 64
  pub timestamp : count b.timestamp ≤ 1000
  pub intent_id : count b.intent_id ≤ 1000
  pub type_name : count b.type_name ≤ 1000
  pub status : count b.status ≤ 1000
  pub prev_hash : count b.prev_hash ≤ 1000
  pub hash : count b.hash ≤ 1000

-- Decoding undoes encoding, and the encoding of a short block is one line: JSON escapes the control
-- characters, an object ends in `}`, and a character takes six bytes at most.
pub record IsJson (codec : Codec) : Type 0 where
  pub unmarshal-marshal :
      (b : Block) → b.index < 2 ^ 64 → codec.unmarshal (codec.marshal b) ≡ some b
  pub fits : (b : Block) → IsShort b → IsLine (codec.marshal b)

module _ (codec : Codec) where
  open codec use {marshal, unmarshal}

  -- The index is a uint64, and the block's line is one that is read back as the block.
  pub record IsWritable (b : Block) : Type 0 where
    pub index : b.index < 2 ^ 64
    pub line : IsLine (marshal b)
    pub read_back : unmarshal (marshal b) ≡ some b

  -- The file that holds the blocks, a line for each.
  abbrev pub print : List Block → Bytes
  print bs = unlines (map marshal bs)

  lines-IsLine : (bs : List Block) → All IsWritable bs → All IsLine (map marshal bs)
  lines-IsLine [] h = tt
  lines-IsLine (b ∷ bs) h = (h.0.line, lines-IsLine bs h.1)

  pub scan-print : (bs : List Block) → All IsWritable bs → scan (print bs) ≡ (map marshal bs, false)
  scan-print bs h = scan-unlines (map marshal bs) (lines-IsLine bs h)

  last_of_line :
      (last : Option Block) (l : Bytes) (ls : List Bytes) (b : Block)
      → l ≢ []
      → unmarshal l ≡ some b
      → last_of codec last (l ∷ ls) ≡ last_of codec (some b) ls
  unfolding last_of
  last_of_line last [] ls b ne e = absurd (ne refl)
  last_of_line last (c ∷ l) ls b ne e = rw e

  pub last_of-map :
      (last : Option Block) (bs : List Block)
      → All IsWritable bs
      → last_of codec last (map marshal bs) ≡ last_block last bs
  last_of-map last [] h = unfold last_of in refl
  last_of-map last (b ∷ bs) h =
      rw (last_of_line last (marshal b) (map marshal bs) b h.0.line.some_bytes h.0.read_back)
        (last_of-map (some b) bs h.1)

module _ (codec : Codec) (digest : String → String) where
  open codec use {marshal, unmarshal}

  verify_lines_line :
      (prev : String) (index : ℕ) (l : Bytes) (ls : List Bytes) (b : Block)
      → l ≢ []
      → unmarshal l ≡ some b
      → verify_lines codec digest false prev index (l ∷ ls)
        ≡ elim (check_block digest prev index b) [
          | some e ↦ some e
          | none ↦ verify_lines codec digest false b.hash (next_index index) ls
        ]
  unfolding verify_lines
  verify_lines_line prev index [] ls b ne e = absurd (ne refl)
  verify_lines_line prev index (c ∷ l) ls b ne e = rw (e, verify_lines)

  pub verify_lines-IsChain :
      (prev : String) (index : ℕ) (bs : List Block)
      → All (IsWritable codec) bs
      → (verify_lines codec digest false prev index (map marshal bs) ≡ none)
        ↔ IsChain digest prev index bs
  verify_lines-IsChain prev index [] h = unfold verify_lines in (λ _. tt, λ _. refl)
  verify_lines-IsChain prev index (b ∷ bs) h =
      rw
        (verify_lines_line prev index (marshal b) (map marshal bs) b h.0.line.some_bytes
          h.0.read_back)
        (ground (
          arith,
          verify_lines-IsChain b.hash (next_index index) bs h.1,
          ==_iff b.prev_hash prev,
          ==_iff b.hash (calculate_hash digest b),
          nat_eq_iff b.index index,
        ))

  -- On a file of blocks that can be written, and a disk that opens and reads it, `Verify`
  -- accepts exactly if the blocks form a chain from the genesis hash and index 0.
  pub verify-print :
      (disk : Disk) (bs : List Block)
      → disk.open_read_fails ≡ false
      → disk.read ≡ whole
      → All (IsWritable codec) bs
      → (verify codec digest disk (some (print codec bs)) ≡ none) ↔ IsChain digest genesis_hash 0 bs
  unfolding verify
  verify-print disk bs opens reads h =
      rw (opens, reads, scan-print codec bs h) (verify_lines-IsChain genesis_hash 0 bs h)
