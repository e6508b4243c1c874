-- ===== src/Gateway/LedgerView.antt =====
-- `handleAPILedger` of gateway/main.go: the lines of the ledger file as a JSON array, the latest block
-- first. Its answer keeps the raw lines; what the encoder makes of a line that is no JSON is not modelled.
pub mod Latest
use aien.Prelude.{Bool, true, false, List, [], ◌∷◌, String, ◌==◌, not, if◌then◌else◌}
use aien.Ledger.Scan.{Bytes}
use aien.Ledger.Engine.{Read, scan_disk}
use aien.Gateway.Reversal.{reverse_blocks}

-- How `os.Open` answers.
pub data Opened : Type 0 where
  no_file : Opened
  open_failed : Opened
  opened : Read → Bytes → Opened

pub data View : Type 0 where
  method_not_allowed : View
  -- 500
  failed_to_open failed_to_scan : View
  -- 200 with an array, which is written as "[]" where it is empty
  blocks : List Bytes → View

abbrev is_nil : Bytes → Bool
is_nil [] = true
is_nil (c ∷ cs) = false

-- The lines that are not empty, in the order of the file.
unfoldable pub collect : List Bytes → List Bytes
collect [] = []
collect (l ∷ ls) = let rest = collect ls in if is_nil l then rest else l ∷ rest

abbrev pub shown : List Bytes × Bool → View
shown (lines, true) = failed_to_scan
shown (lines, false) = blocks (reverse_blocks (collect lines))

abbrev pub view_opened : Opened → View
view_opened no_file = blocks []
view_opened open_failed = failed_to_open
view_opened (opened read file) = shown (scan_disk read file)

unfoldable pub handle_api_ledger : (method : String) → Opened → View
handle_api_ledger method file =
    if not (method == "GET") then method_not_allowed else view_opened file
