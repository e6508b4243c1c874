-- ===== src/Ledger/Block.antt =====
-- `Block` and `calculateHash` of validator/ledger/ledger.go. The hash, SHA-256 in hexadecimal, is a
-- parameter `digest` of the definitions that use it.
use Prim.Native.String.{◌++◌ as append}
use aien.Prelude.{ℕ, ◌+◌, ◌%◌, ◌^◌, String}
use aien.Prelude.Decimal.{decimal}

pub record Block : Type 0 where
  pub index : ℕ  -- uint64
  pub timestamp : String
  pub intent_id : String
  pub type_name : String
  pub status : String
  pub prev_hash : String
  pub hash : String

-- "0000000000000000000000000000000000000000000000000000000000000000"
abbrev pub genesis_hash : String
genesis_hash = "0000000000000000000000000000000000000000000000000000000000000000"

-- `index + 1` on a uint64.
abbrev pub next_index : ℕ → ℕ
next_index i = (i + 1) % 2 ^ 64

-- fmt.Sprintf("%d%s%s%s%s%s", ...)
unfoldable pub hash_input : Block → String
hash_input b =
    append (decimal b.index)
      (append b.timestamp (append b.intent_id (append b.type_name (append b.status b.prev_hash))))

-- `calculateHash`
unfoldable pub calculate_hash : (digest : String → String) → Block → String
calculate_hash digest b = digest (hash_input b)
