-- ===== src/Gateway/Reversal.antt =====
-- The loop of `handleAPILedger` in gateway/main.go that reverses the blocks in place, from both ends.
pub mod Mirror
use mathlib.Core.List.{reverse, reverse_aux}
use aien.Prelude.{
  false, nat_eq_iff, sym, true, ltb→lt, ◌∙◌, ℕ, zero, suc, ◌+◌, ◌-◌, ◌<◌, ◌≤◌, ◌≡◌, refl, List, [],
  ◌∷◌, Option, none, some, arith, ltb, leb, nat_eq, ◌&&◌, length, if◌then◌else◌, Bool-cases, inl,
  inr,
}

module _ {A : Type 0} where
  -- `xs[k]`; `none` is out of range.
  unfoldable pub nth : ℕ → List A → Option A
  nth k [] = none
  nth zero (x ∷ xs) = some x
  nth (suc k) (x ∷ xs) = nth k xs

  -- `xs[k] = a`
  unfoldable pub set : ℕ → A → List A → List A
  set k a [] = []
  set zero a (x ∷ xs) = a ∷ xs
  set (suc k) a (x ∷ xs) = x ∷ set k a xs

  abbrev exchanged : ℕ → ℕ → Option A → Option A → List A → List A
  exchanged i j (some a) (some b) xs = set j a (set i b xs)
  exchanged i j _ _ xs = xs

  -- `xs[i], xs[j] = xs[j], xs[i]`; both indices are in range where the loop calls it.
  unfoldable pub swap : ℕ → ℕ → List A → List A
  swap i j xs = exchanged i j (nth i xs) (nth j xs) xs

  -- for i < j; i, j = i+1, j-1
  unfoldable pub swap_loop : (fuel i j : ℕ) → List A → List A
  swap_loop zero i j xs = xs
  swap_loop (suc fuel) i j xs =
      let rest = swap_loop fuel (suc i) (j - 1) (swap i j xs) in if ltb i j then rest else xs

  -- The loop from 0 and len-1 on; without blocks it ends at once, as with Go's -1.
  unfoldable pub reverse_blocks : List A → List A
  reverse_blocks xs = swap_loop (length xs) 0 (length xs - 1) xs
