-- ===== src/Ledger/Append.antt =====
-- `Append` against the specification: the file stays the text of a chain.
use aien.Prelude.{
  All-append, ◌≡◌, refl, List, [], ◌∷◌, ◌++◌, Option, none, some, String, arith, map, All, false,
}
use mathlib.Core.List.{map-append}
use aien.Prelude.Sql.{ok}
use aien.Ledger.Scan.{Bytes, newline}
use aien.Ledger.Scan.Laws.{unlines, unlines-append}
use aien.Ledger.Block.{Block, genesis_hash}
use aien.Ledger.Engine.{
  Codec, Disk, whole, written, verify, read_last_block, next_block, append_block, contents,
}
use aien.Ledger.Chain.{IsChain, last_block, IsChain-append, next_block-IsLinked}
use aien.Ledger.Print.{IsWritable, print, scan-print, last_of-map, verify-print}

-- No call to the operating system fails.
pub record IsHealthy (disk : Disk) : Type 0 where
  pub opens : disk.open_read_fails ≡ false
  pub reads : disk.read ≡ whole
  pub opens_append : disk.open_append_fails ≡ false
  pub writes : disk.write ≡ written
  pub syncs : disk.sync_fails ≡ false

module _ (codec : Codec) (digest : String → String) where
  open codec use {marshal, unmarshal}

  -- The file holds the blocks; with none of them it may be missing.
  pub data Holds : Option Bytes → List Block → Type 0 where
    missing : Holds none []
    text : (bs : List Block) → Holds (some (print codec bs)) bs

  read_last_block-Holds :
      (disk : Disk) {file : Option Bytes} {bs : List Block}
      → disk.open_read_fails ≡ false
      → disk.read ≡ whole
      → All (IsWritable codec) bs
      → Holds file bs
      → read_last_block codec disk file ≡ ok (last_block none bs)
  unfolding read_last_block
  read_last_block-Holds disk opens reads h missing = rw opens
  read_last_block-Holds disk opens reads h (text bs) =
      rw (opens, reads, scan-print codec bs h) (rw (last_of-map codec none bs h))

  contents-Holds :
      {file : Option Bytes} {bs : List Block} → Holds file bs → contents file ≡ print codec bs
  unfolding unlines
  contents-Holds missing = refl
  contents-Holds (text bs) = refl

  pub print-append :
      (bs : List Block) (b : Block)
      → print codec (bs ++ b ∷ []) ≡ print codec bs ++ (marshal b ++ newline ∷ [])
  print-append bs b =
      rw (map-append marshal bs (b ∷ [])) (unlines-append (map marshal bs) (marshal b))

  -- On a healthy disk, `Append` adds the line of the next block and returns that block.
  pub append_block-print :
      (disk : Disk) (timestamp intent_id intent_type status : String) {file : Option Bytes}
      (bs : List Block)
      → IsHealthy disk
      → All (IsWritable codec) bs
      → Holds file bs
      → let b = next_block digest (last_block none bs) timestamp intent_id intent_type status in
        append_block codec digest disk timestamp intent_id intent_type status file
        ≡ (some (print codec (bs ++ b ∷ [])), ok b)
  unfolding append_block
  append_block-print disk timestamp intent_id intent_type status {file = file} bs healthy h holds =
      let b = next_block digest (last_block none bs) timestamp intent_id intent_type status in
      ground (
        arith,
        read_last_block-Holds disk healthy.opens healthy.reads h holds,
        healthy.opens_append,
        healthy.writes,
        healthy.syncs,
        contents-Holds holds,
        print-append bs b,
      )

  -- `Verify` accepts a ledger that holds a chain.
  pub verify-Holds :
      (disk : Disk) {file : Option Bytes} {bs : List Block}
      → IsHealthy disk
      → All (IsWritable codec) bs
      → Holds file bs
      → IsChain digest genesis_hash 0 bs
      → verify codec digest disk file ≡ none
  unfolding verify
  verify-Holds disk healthy h missing chain = rw healthy.opens
  verify-Holds disk healthy h (text bs) chain =
      (verify-print codec digest disk bs healthy.opens healthy.reads h).1 chain

  -- On a healthy disk, let the file hold the lines of a chain of blocks that can be written, the
  -- next one included: each line fits the scanner and is read back as its block. Then `Append`
  -- returns the next block with the given fields, the file holds the chain with that block
  -- behind it, and `Verify` accepts it.
  pub append_block-verify :
      (disk : Disk) (timestamp intent_id intent_type status : String) {file : Option Bytes}
      (bs : List Block)
      → IsHealthy disk
      → All (IsWritable codec) bs
      → Holds file bs
      → IsChain digest genesis_hash 0 bs
      → IsWritable codec
          (next_block digest (last_block none bs) timestamp intent_id intent_type status)
      → let b = next_block digest (last_block none bs) timestamp intent_id intent_type status in
        let (file', result) =
          append_block codec digest disk timestamp intent_id intent_type status file in
        (result ≡ ok b)
        × Holds file' (bs ++ b ∷ [])
        × IsChain digest genesis_hash 0 (bs ++ b ∷ [])
        × (verify codec digest disk file' ≡ none)
  append_block-verify disk timestamp intent_id intent_type status bs healthy h holds chain w =
      let b = next_block digest (last_block none bs) timestamp intent_id intent_type status in
      let chain' =
        IsChain-append digest none genesis_hash 0 bs b refl refl chain (
          next_block-IsLinked digest (last_block none bs) timestamp intent_id intent_type status) in
      rw (append_block-print disk timestamp intent_id intent_type status bs healthy h holds) (
        refl,
        text (bs ++ b ∷ []),
        chain',
        (verify-print codec digest disk (bs ++ b ∷ []) healthy.opens healthy.reads
              (All-append (IsWritable codec) bs (b ∷ []) h (w, tt))).1
            chain',
      )
