-- ===== src/Tests/Ledger.antt =====
-- A ledger of one block.
use aien.Prelude.{arith, false, ◌≡◌, refl, ◌⊎◌, [], ◌∷◌, none, some, String, ◌↔◌}
use aien.Prelude.Sql.{ok}
use aien.Ledger.Scan.{drop_return}
use aien.Ledger.Block.{Block, genesis_hash, calculate_hash}
use aien.Ledger.Engine.{Codec, Disk, whole, written, append_block, next_block, verify}
use aien.Ledger.Chain.{IsChain}
use aien.Ledger.Print.{IsWritable, print, verify-print}
use aien.Ledger.Append.{IsHealthy, Holds, missing, append_block-verify}
use aien.Ledger.Tamper.{Collide, Agree, chains-Agree}

abbrev pub healthy : Disk
healthy = record {
  open_read_fails = false;
  read = whole;
  open_append_fails = false;
  write = written;
  sync_fails = false;
}

abbrev pub healthy-IsHealthy : IsHealthy healthy
healthy-IsHealthy = record {
  opens = refl;
  reads = refl;
  opens_append = refl;
  writes = refl;
  syncs = refl;
}

-- A hash of 64 digits.
abbrev pub digest : String → String
digest s = "1111111111111111111111111111111111111111111111111111111111111111"

abbrev pub first : Block
first =
    next_block digest none "2026-01-01T00:00:00Z" "intent1" "INTENT_TYPE_TRANSFER"
      "INTENT_STATUS_COMPLETED"

-- A codec that knows one block.
abbrev pub codec : Codec
codec = record { marshal = λ b. b'{' ∷ b'}' ∷ []; unmarshal = λ line. some first }

pub first-IsWritable : IsWritable codec first
unfolding next_block drop_return
first-IsWritable = record {
  index = ground arith;
  line = record {
    no_newline = ground arith;
    some_bytes = λ (e : b'{' ∷ b'}' ∷ [] ≡ []). ground arith;
    no_return = refl;
    short = ground arith;
  };
  read_back = refl;
}

append_block-verify_example :
    let b = first in
    let (file', result) =
      append_block codec digest healthy "2026-01-01T00:00:00Z" "intent1" "INTENT_TYPE_TRANSFER"
        "INTENT_STATUS_COMPLETED" none in
    (result ≡ ok b)
    × Holds codec digest file' (b ∷ [])
    × IsChain digest genesis_hash 0 (b ∷ [])
    × (verify codec digest healthy file' ≡ none)
append_block-verify_example =
    append_block-verify codec digest healthy "2026-01-01T00:00:00Z" "intent1" "INTENT_TYPE_TRANSFER"
      "INTENT_STATUS_COMPLETED" [] healthy-IsHealthy tt missing tt first-IsWritable

verify-print_example :
    (verify codec digest healthy (some (print codec (first ∷ []))) ≡ none)
    ↔ IsChain digest genesis_hash 0 (first ∷ [])
verify-print_example =
    verify-print codec digest healthy (first ∷ []) refl refl (first-IsWritable, tt)

-- A letter has moved from the type to the intent's id.
abbrev forged : Block
forged = record first { intent_id = "intent1I"; type_name = "NTENT_TYPE_TRANSFER" }

chains-Agree_example : Collide digest (first ∷ []) (forged ∷ []) ⊎ Agree (first ∷ []) (forged ∷ [])
unfolding next_block calculate_hash
chains-Agree_example =
    chains-Agree digest (λ (s : String). refl) (first ∷ []) (forged ∷ []) (refl, refl, refl, tt)
      (refl, refl, refl, tt) refl refl
