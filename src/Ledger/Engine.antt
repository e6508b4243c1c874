-- ===== src/Ledger/Engine.antt =====
-- `Engine.Append`, `Engine.Verify` and `readLastBlock` of validator/ledger/ledger.go. The file is
-- its bytes, or `none` where it does not exist; the mutex is held during each call, so a call is
-- one step. JSON (encoding/json on `Block`) and the hash are parameters, and the operating system
-- decides by `Disk` which calls fail, and how much of a failed write has reached the file.
use aien.Prelude.{
  ℕ, Bool, true, false, List, [], ◌∷◌, ◌++◌, Option, none, some, String, ◌==◌, nat_eq, not,
  if◌then◌else◌, take,
}
use aien.Prelude.Sql.{Result, ok, err}
use aien.Ledger.Scan.{Bytes, newline, scan}
use aien.Ledger.Block.{Block, genesis_hash, next_index, calculate_hash}

-- `json.Marshal(block)` and `json.Unmarshal(line, &block)`.
pub record Codec : Type 0 where
  pub marshal : Block → Bytes
  pub unmarshal : Bytes → Option Block

pub data Write : Type 0 where
  written : Write
  -- Only so many bytes reached the file before the error.
  partial : ℕ → Write

pub data Read : Type 0 where
  whole : Read
  -- An error came after so many bytes.
  broken : ℕ → Read

pub record Disk : Type 0 where
  pub open_read_fails : Bool
  pub read : Read
  pub open_append_fails : Bool
  pub write : Write
  pub sync_fails : Bool

pub data AppendError : Type 0 where
  read_last open_file write_block sync_file : AppendError

pub data VerifyError : Type 0 where
  open_ledger parse_line scan_failed : VerifyError
  sequence_break : (index expected : ℕ) → VerifyError
  chain_broken : (index : ℕ) (expected got : String) → VerifyError
  tampered : (index : ℕ) (hash recalculated : String) → VerifyError

-- What a scanner sees of a file, and `scanner.Err()` at its end.
abbrev pub scan_disk : Read → Bytes → List Bytes × Bool
scan_disk whole file = scan file
scan_disk (broken n) file = ((scan (take n file)).0, true)

module _ (digest : String → String) where
  -- The block that follows `last`, with its hash.
  unfoldable pub next_block : Option Block → (timestamp : String) → String → String → String → Block
  next_block last timestamp intent_id intent_type status =
      let index : ℕ = elim last [ none ↦ 0 | some b ↦ next_index b.index ] in
      let prev_hash : String = elim last [ none ↦ genesis_hash | some b ↦ b.hash ] in
      let block : Block = record {
        index = index;
        timestamp = timestamp;
        intent_id = intent_id;
        type_name = intent_type;
        status = status;
        prev_hash = prev_hash;
        hash = "";
      } in
      record block { hash = calculate_hash digest block }

  -- The checks of `Verify` on one block.
  abbrev pub check_block : (prev : String) → ℕ → Block → Option VerifyError
  check_block prev index block =
      if not (nat_eq block.index index)
      then some (sequence_break block.index index)
      else if not (block.prev_hash == prev)
      then some (chain_broken block.index prev block.prev_hash)
      else if not (block.hash == calculate_hash digest block)
      then some (tampered block.index block.hash (calculate_hash digest block))
      else none

-- `return lastBlock, scanner.Err()`
abbrev pub scanned : Bool → Option Block → Result AppendError (Option Block)
scanned true last = err read_last
scanned false last = ok last

-- The bytes of a file that may not exist yet.
abbrev pub contents : Option Bytes → Bytes
contents none = []
contents (some file) = file

-- `file.Write(append(data, '\n'))` and `file.Sync()` on the file opened with O_APPEND.
abbrev pub write_line : Disk → Bytes → Block → Bytes → Option Bytes × Result AppendError Block
write_line disk file block line = elim disk.write [
  | written ↦ (some (file ++ line), if disk.sync_fails then err sync_file else ok block)
  | partial n ↦ (some (file ++ take n line), err write_block)
]

module _ (codec : Codec) where
  open codec use {unmarshal}

  -- The loop of `readLastBlock`: empty lines and lines that do not parse are passed over.
  unfoldable pub last_of : Option Block → List Bytes → Option Block
  last_of last [] = last
  last_of last ([] ∷ lines) = last_of last lines
  last_of last ((c ∷ cs) ∷ lines) =
      last_of (elim (unmarshal (c ∷ cs)) [ none ↦ last | some block ↦ some block ]) lines

  unfoldable pub read_last_block : Disk → Option Bytes → Result AppendError (Option Block)
  unfolding last_of
  read_last_block disk none = if disk.open_read_fails then err read_last else ok none
  read_last_block disk (some file) =
      if disk.open_read_fails
      then err read_last
      else (let (lines, failed) = scan_disk disk.read file in scanned failed (last_of none lines))

module _ (codec : Codec) (digest : String → String) where
  open codec use {marshal, unmarshal}

  unfoldable pub append_block :
      Disk
      → (timestamp : String) → (intent_id intent_type status : String) → Option Bytes
      → Option Bytes × Result AppendError Block
  append_block disk timestamp intent_id intent_type status file =
      elim (read_last_block codec disk file) [
        | err e ↦ (file, err e)
        | ok last ↦
            let block = next_block digest last timestamp intent_id intent_type status in
            if disk.open_append_fails
            then (file, err open_file)
            else write_line disk (contents file) block (marshal block ++ newline ∷ [])
      ]

  -- The loop of `Verify` over the lines; `too_long` is `scanner.Err()` at its end.
  unfoldable pub verify_lines : Bool → (prev : String) → ℕ → List Bytes → Option VerifyError
  verify_lines too_long prev index [] = if too_long then some scan_failed else none
  verify_lines too_long prev index ([] ∷ lines) = verify_lines too_long prev index lines
  verify_lines too_long prev index ((c ∷ cs) ∷ lines) = elim (unmarshal (c ∷ cs)) [
    | none ↦ some parse_line
    | some block ↦ elim (check_block digest prev index block) [
      | some e ↦ some e
      | none ↦ verify_lines too_long block.hash (next_index index) lines
    ]
  ]

  -- `Verify`: `none` where the ledger is accepted.
  unfoldable pub verify : Disk → Option Bytes → Option VerifyError
  unfolding verify_lines
  verify disk none = if disk.open_read_fails then some open_ledger else none
  verify disk (some file) =
      if disk.open_read_fails
      then some open_ledger
      else (let (lines, failed) = scan_disk disk.read file in
          verify_lines failed genesis_hash 0 lines)
