-- ===== src/Ledger/Scan.antt =====
-- `bufio.Scanner` with its default split function and buffer, as ledger.go and gateway/main.go use
-- it: the lines of a file without their line ends, up to the first line that is too long.
pub mod Laws
use aien.Prelude.{ℕ, Bool, true, false, List, [], ◌∷◌, ◌++◌, nat_eq, leb, length, if◌then◌else◌}

abbrev pub Bytes : Type 0
Bytes = List ℕ

abbrev pub newline : ℕ
newline = 10

-- `bufio.MaxScanTokenSize`: the scanner gives up on a line that fills its buffer.
abbrev pub max_token : ℕ
max_token = 65536

is_empty : Bytes → Bool
is_empty [] = true
is_empty (c ∷ cs) = false

-- The lines of a file; a last line with no line end counts unless it is empty.
unfoldable pub raw_lines : Bytes → Bytes → List Bytes
unfolding is_empty
raw_lines line [] = if is_empty line then [] else line ∷ []
raw_lines line (c ∷ cs) = elim (nat_eq c newline) [
  | true ↦ line ∷ raw_lines [] cs
  | false ↦ raw_lines (line ++ c ∷ []) cs
]

-- A carriage return before the line end is dropped.
unfoldable pub drop_return : Bytes → Bytes
drop_return [] = []
drop_return (c ∷ []) = if nat_eq c 13 then [] else c ∷ []
drop_return (c ∷ d ∷ cs) = c ∷ drop_return (d ∷ cs)

-- The lines that `Scan` yields, and whether it stopped with `bufio.ErrTooLong`.
unfoldable pub bounded : List Bytes → List Bytes × Bool
bounded [] = ([], false)
bounded (l ∷ ls) =
    let rest = bounded ls in
    if leb max_token (length l) then ([], true) else (drop_return l ∷ rest.0, rest.1)

unfoldable pub scan : Bytes → List Bytes × Bool
unfolding bounded raw_lines
scan file = bounded (raw_lines [] file)
