-- ===== src/Ledger/History.antt =====
-- Any number of appends: the ledger records exactly what was appended, in order.
use Prim.Native.String.{count}
use mathlib.Core.List.{append_assoc, append-nil, map-append}
use aien.Prelude.{
  ap, ◌∙◌, ◌≤◌, ◌≡◌, refl, List, [], ◌∷◌, ◌++◌, Option, none, some, String, arith, map, All, sym,
  All-append,
}
use aien.Ledger.Scan.{Bytes}
use aien.Ledger.Block.{hash_input, calculate_hash, Block, genesis_hash}
use aien.Ledger.Engine.{Codec, Disk, verify, next_block, append_block}
use aien.Ledger.Chain.{tip_hash, IsChain, last_block}
use aien.Ledger.Print.{IsJson, IsWritable}
use aien.Ledger.Append.{IsHealthy, Holds, missing, append_block-verify, verify-Holds}

-- What `Append` is called with, and the clock at that call.
pub record Entry : Type 0 where
  pub timestamp : String
  pub intent_id : String
  pub intent_type : String
  pub status : String

last_block-append :
    (last : Option Block) (bs : List Block) (b : Block) → last_block last (bs ++ b ∷ []) ≡ some b
last_block-append last [] b = refl
last_block-append last (c ∷ bs) b = last_block-append (some c) bs b

module _ (codec : Codec) (digest : String → String) where
  -- Calls of `Append` one after another.
  unfoldable pub append_all : Disk → List Entry → Option Bytes → Option Bytes
  append_all disk [] file = file
  append_all disk (e ∷ es) file =
      append_all disk es
        (append_block codec digest disk e.timestamp e.intent_id e.intent_type e.status file).0

  -- The fields of a block that the caller of `Append` gives.
  abbrev pub entry_of : Block → Entry
  entry_of b = record {
    timestamp = b.timestamp;
    intent_id = b.intent_id;
    intent_type = b.type_name;
    status = b.status;
  }

  -- The given fields have at most 1000 characters each.
  abbrev pub IsShortEntry : Entry → Type 0
  IsShortEntry e =
      (count e.timestamp ≤ 1000)
      × (count e.intent_id ≤ 1000)
      × (count e.intent_type ≤ 1000)
      × (count e.status ≤ 1000)

  module _ (json : IsJson codec) (digits : (s : String) → count (digest s) ≡ 64) where
    -- The block after one with a hash of 64 digits is written to one line.
    next_block-IsWritable :
        (last : Option Block) (e : Entry)
        → count (tip_hash last) ≡ 64
        → IsShortEntry e
        → IsWritable codec (next_block digest last e.timestamp e.intent_id e.intent_type e.status)
    unfolding next_block calculate_hash hash_input
    next_block-IsWritable none e h short =
        let b = next_block digest none e.timestamp e.intent_id e.intent_type e.status in
        record {
          index = omega arith;
          read_back = json.unmarshal-marshal b (omega arith);
          line = json.fits b (record {
            index = omega arith;
            timestamp = short.0;
            intent_id = short.1;
            type_name = short.2;
            status = short.3;
            prev_hash = omega arith;
            hash = omega (arith, digits (hash_input (record b { hash = "" })));
          });
        }
    next_block-IsWritable (some c) e h short =
        let b = next_block digest (some c) e.timestamp e.intent_id e.intent_type e.status in
        record {
          index = omega arith;
          read_back = json.unmarshal-marshal b (omega arith);
          line = json.fits b (record {
            index = omega arith;
            timestamp = short.0;
            intent_id = short.1;
            type_name = short.2;
            status = short.3;
            prev_hash = omega arith;
            hash = omega (arith, digits (hash_input (record b { hash = "" })));
          });
        }

    next_block-digits :
        (last : Option Block) (e : Entry)
        → count (next_block digest last e.timestamp e.intent_id e.intent_type e.status).hash ≡ 64
    unfolding next_block calculate_hash
    next_block-digits none e = digits _
    next_block-digits (some c) e = digits _

    entry_of-next_block :
        (last : Option Block) (e : Entry)
        → entry_of (next_block digest last e.timestamp e.intent_id e.intent_type e.status) ≡ e
    unfolding next_block
    entry_of-next_block none e = refl
    entry_of-next_block (some c) e = refl

    -- A ledger that the appends so far have left.
    record IsLedger (file : Option Bytes) (bs : List Block) : Type 0 where
      holds : Holds codec digest file bs
      chain : IsChain digest genesis_hash 0 bs
      writable : All (IsWritable codec) bs
      digits_tip : count (tip_hash (last_block none bs)) ≡ 64

    append_all_from :
        (disk : Disk) (es : List Entry) (file : Option Bytes) (bs : List Block)
        → IsHealthy disk
        → All IsShortEntry es
        → IsLedger file bs
        → (cs : List Block) × IsLedger (append_all disk es file) cs
          × (map entry_of cs ≡ map entry_of bs ++ es)
    unfolding append_all
    append_all_from disk [] file bs healthy short l = (bs, l, sym (append-nil (map entry_of bs)))
    append_all_from disk (e ∷ es) file bs healthy short l =
        let last = last_block none bs in
        let b = next_block digest last e.timestamp e.intent_id e.intent_type e.status in
        let w = next_block-IsWritable last e l.digits_tip short.0 in
        let (_, holds, chain, _) =
          append_block-verify codec digest disk e.timestamp e.intent_id e.intent_type e.status bs
            healthy l.writable l.holds l.chain w in
        let (cs, ledger, entries) =
          append_all_from disk es _ (bs ++ b ∷ []) healthy short.1 (record {
            holds = holds;
            chain = chain;
            writable = All-append (IsWritable codec) bs (b ∷ []) l.writable (w, tt);
            digits_tip = rw (last_block-append none bs b) (next_block-digits last e);
          }) in
        (
          cs,
          ledger,
          entries
              ∙ ap (λ (xs : List Entry). xs ++ es) (map-append entry_of bs (b ∷ []))
              ∙ ap (λ (x : Entry). (map entry_of bs ++ x ∷ []) ++ es) (entry_of-next_block last e)
              ∙ append_assoc (map entry_of bs) (e ∷ []) es,
        )

    -- Starting with no ledger file, any number of appends on a healthy disk leaves a file of a chain
    -- of blocks with exactly the given entries, in order, which `Verify` accepts.
    pub append_all_records :
        (disk : Disk) (es : List Entry)
        → IsHealthy disk
        → All IsShortEntry es
        → (bs : List Block) × Holds codec digest (append_all disk es none) bs
          × IsChain digest genesis_hash 0 bs
          × (map entry_of bs ≡ es)
          × (verify codec digest disk (append_all disk es none) ≡ none)
    append_all_records disk es healthy short =
        let (bs, l, entries) =
          append_all_from disk es none [] healthy short
            (record { holds = missing; chain = tt; writable = tt; digits_tip = refl }) in
        (
          bs,
          l.holds,
          l.chain,
          entries,
          verify-Holds codec digest disk healthy l.writable l.holds l.chain,
        )
