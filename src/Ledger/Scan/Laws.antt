-- ===== src/Ledger/Scan/Laws.antt =====
-- The scanner reads back the lines that were written.
use aien.Prelude.{ℕ, ◌≡◌, refl, ◌≢◌, ◌<◌, false, List, [], ◌∷◌, ◌++◌, length, arith, All, sym}
use mathlib.Core.List.{append_assoc, append-nil}
use aien.Ledger.Scan.{Bytes, newline, max_token, raw_lines, drop_return, bounded, scan}

-- A line of a text file: no line end inside, not empty, no carriage return at its end, and short
-- enough for the scanner.
pub record IsLine (l : Bytes) : Type 0 where
  pub no_newline : All (λ (c : ℕ). c ≢ newline) l
  pub some_bytes : l ≢ []
  pub no_return : drop_return l ≡ l
  pub short : length l < max_token

-- Lines, each with its line end.
unfoldable pub unlines : List Bytes → Bytes
unlines [] = []
unlines (l ∷ ls) = l ++ newline ∷ unlines ls

raw_lines_line :
    (start l rest : Bytes)
    → All (λ (c : ℕ). c ≢ newline) l
    → raw_lines start (l ++ newline ∷ rest) ≡ (start ++ l) ∷ raw_lines [] rest
unfolding raw_lines
raw_lines_line start [] rest h = rw append-nil refl
raw_lines_line start (c ∷ l) rest h =
    ground (arith, raw_lines_line (start ++ c ∷ []) l rest h.1, append_assoc start (c ∷ []) l)

raw_lines_last :
    (start l : Bytes)
    → All (λ (c : ℕ). c ≢ newline) l
    → raw_lines start l ≡ raw_lines (start ++ l) []
unfolding raw_lines
raw_lines_last start [] h = rw append-nil refl
raw_lines_last start (c ∷ l) h =
    ground (arith, raw_lines_last (start ++ c ∷ []) l h.1, append_assoc start (c ∷ []) l)

raw_lines-unlines : (ls : List Bytes) → All IsLine ls → raw_lines [] (unlines ls) ≡ ls
unfolding unlines raw_lines
raw_lines-unlines [] h = refl
raw_lines-unlines (l ∷ ls) h =
    rw (raw_lines_line [] l (unlines ls) h.0.no_newline, raw_lines-unlines ls h.1)

bounded-lines : (ls : List Bytes) → All IsLine ls → bounded ls ≡ (ls, false)
unfolding bounded
bounded-lines [] h = refl
bounded-lines (l ∷ ls) h = ground (arith, bounded-lines ls h.1, h.0.short, h.0.no_return)

-- Scanning a file of well-formed lines gives the lines.
pub scan-unlines : (ls : List Bytes) → All IsLine ls → scan (unlines ls) ≡ (ls, false)
unfolding scan
scan-unlines ls h = rw (raw_lines-unlines ls h, bounded-lines ls h)

pub unlines-append :
    (ls : List Bytes) (l : Bytes) → unlines (ls ++ l ∷ []) ≡ unlines ls ++ (l ++ newline ∷ [])
unfolding unlines
unlines-append [] l = refl
unlines-append (k ∷ ls) l =
    rw (unlines-append ls l) (sym (append_assoc k (newline ∷ unlines ls) (l ++ newline ∷ [])))
