-- ===== src/Gateway/LedgerView/Latest.antt =====
-- The ledger as the gateway shows it, while the validator appends to it.
use mathlib.Core.List.{reverse, reverse_aux, map-append}
use aien.Prelude.{
  ◌≡◌, refl, List, [], ◌∷◌, ◌++◌, Option, none, some, String, map, All, ◌∙◌, ap, All-append,
}
use aien.Ledger.Scan.{Bytes}
use aien.Ledger.Scan.Laws.{IsLine}
use aien.Ledger.Block.{Block}
use aien.Ledger.Engine.{Codec, Disk, whole, next_block, append_block}
use aien.Ledger.Chain.{last_block}
use aien.Ledger.Print.{IsWritable, print, scan-print}
use aien.Ledger.Append.{IsHealthy, Holds, missing, text, append_block-print}
use aien.Gateway.Reversal.Mirror.{reverse_blocks-reverse}
use aien.Gateway.LedgerView.{Opened, no_file, opened, blocks, collect, handle_api_ledger}

-- What `os.Open` finds.
abbrev pub at_path : Option Bytes → Opened
at_path none = no_file
at_path (some file) = opened whole file

reverse_aux-append :
    {A : Type 0} (xs : List A) (x : A) (ys : List A)
    → reverse_aux (xs ++ x ∷ []) ys ≡ x ∷ reverse_aux xs ys
reverse_aux-append [] x ys = refl
reverse_aux-append (z ∷ xs) x ys = reverse_aux-append xs x (z ∷ ys)

module _ (codec : Codec) where
  open codec use {marshal}

  collect-lines : (ls : List Bytes) → All IsLine ls → collect ls ≡ ls
  unfolding collect
  collect-lines [] h = refl
  collect-lines ([] ∷ ls) h = absurd (h.0.some_bytes refl)
  collect-lines ((c ∷ l) ∷ ls) h = ap (λ (rest : List Bytes). (c ∷ l) ∷ rest) (collect-lines ls h.1)

  marshal-IsLine : (bs : List Block) → All (IsWritable codec) bs → All IsLine (map marshal bs)
  marshal-IsLine [] h = tt
  marshal-IsLine (b ∷ bs) h = (h.0.line, marshal-IsLine bs h.1)

  view-print :
      (bs : List Block)
      → All (IsWritable codec) bs
      → handle_api_ledger "GET" (opened whole (print codec bs)) ≡ blocks (reverse (map marshal bs))
  unfolding handle_api_ledger
  view-print bs h =
      rw (scan-print codec bs h, collect-lines (map marshal bs) (marshal-IsLine bs h))
        (ap blocks (reverse_blocks-reverse (map marshal bs)))

  view-Holds :
      (digest : String → String) {file : Option Bytes} {bs : List Block}
      → All (IsWritable codec) bs
      → Holds codec digest file bs
      → handle_api_ledger "GET" (at_path file) ≡ blocks (reverse (map marshal bs))
  unfolding handle_api_ledger
  view-Holds digest h missing = refl
  view-Holds digest h (text bs) = view-print bs h

  -- A ledger that holds blocks that can be written is shown with the last block first. After a further
  -- `Append` on a healthy disk, of a block that can be written, the view is the new block's line in
  -- front of the old view.
  pub view-append :
      (digest : String → String) (disk : Disk) (timestamp intent_id intent_type status : String)
      (file : Option Bytes) (bs : List Block)
      → IsHealthy disk
      → All (IsWritable codec) bs
      → Holds codec digest file bs
      → IsWritable codec
          (next_block digest (last_block none bs) timestamp intent_id intent_type status)
      → let b = next_block digest (last_block none bs) timestamp intent_id intent_type status in
        let file' =
          (append_block codec digest disk timestamp intent_id intent_type status file).0 in
        (handle_api_ledger "GET" (at_path file) ≡ blocks (reverse (map marshal bs)))
        × (handle_api_ledger "GET" (at_path file') ≡ blocks (marshal b ∷ reverse (map marshal bs)))
  view-append digest disk timestamp intent_id intent_type status file bs healthy h holds w =
      let b = next_block digest (last_block none bs) timestamp intent_id intent_type status in
      (
        view-Holds digest h holds,
        rw
            (append_block-print codec digest disk timestamp intent_id intent_type status bs healthy
              h holds)
            (view-print (bs ++ b ∷ []) (All-append _ bs (b ∷ []) h (w, tt))
              ∙ ap blocks (
                  ap reverse (map-append marshal bs (b ∷ []))
                  ∙ reverse_aux-append (map marshal bs) (marshal b) [])),
      )
