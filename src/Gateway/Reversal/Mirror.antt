-- ===== src/Gateway/Reversal/Mirror.antt =====
-- The loop from both ends gives the reversed list: where it finds what it leaves at each index.
use mathlib.Core.List.{reverse, reverse_aux}
use aien.Prelude.{
  false, nat_eq_iff, sym, true, ltb→lt, ◌∙◌, ℕ, zero, suc, ◌+◌, ◌-◌, ◌<◌, ◌≤◌, ◌≡◌, refl, List, [],
  ◌∷◌, none, some, arith, ltb, leb, nat_eq, ◌&&◌, length, if◌then◌else◌, Bool-cases, inl, inr,
}
use aien.Gateway.Reversal.{nth, set, swap, swap_loop, reverse_blocks}

-- Where the loop from `i` and `j` on finds what it leaves at `k`.
abbrev mirror : (i j k : ℕ) → ℕ
mirror i j k = if leb i k && leb k j then i + j - k else k

-- Where one exchange finds it.
abbrev other : (i j k : ℕ) → ℕ
other i j k = if nat_eq k j then i else if nat_eq k i then j else k

mirror_done : (i j k : ℕ) → j ≤ i → mirror i j k ≡ k
mirror_done i j k h = ground arith

mirror_step : (i j k : ℕ) → i < j → other i j (mirror (suc i) (j - 1) k) ≡ mirror i j k
mirror_step i j k h = ground arith

module _ {A : Type 0} where
  length-set : (k : ℕ) (a : A) (xs : List A) → length (set k a xs) ≡ length xs
  unfolding set
  length-set k a [] = refl
  length-set zero a (x ∷ xs) = refl
  length-set (suc k) a (x ∷ xs) = ground (arith, length-set k a xs)

  nth-set :
      (k n : ℕ) (a : A) (xs : List A)
      → n < length xs
      → nth k (set n a xs) ≡ (if nat_eq k n then some a else nth k xs)
  unfolding set nth
  nth-set k n a [] h = absurd (omega arith)
  nth-set zero zero a (x ∷ xs) h = refl
  nth-set (suc k) zero a (x ∷ xs) h = ground arith
  nth-set zero (suc n) a (x ∷ xs) h = ground arith
  nth-set (suc k) (suc n) a (x ∷ xs) h = ground (arith, nth-set k n a xs)

  nth-some : (k : ℕ) (xs : List A) → k < length xs → (a : A) × (nth k xs ≡ some a)
  unfolding nth
  nth-some k [] h = absurd (omega arith)
  nth-some zero (x ∷ xs) h = (x, refl)
  nth-some (suc k) (x ∷ xs) h = nth-some k xs (omega arith)

  swap_set :
      (i j : ℕ) (xs : List A)
      → i < length xs
      → j < length xs
      → (a : A) × (b : A) × (nth i xs ≡ some a)
        × (nth j xs ≡ some b)
        × (swap i j xs ≡ set j a (set i b xs))
  unfolding swap
  swap_set i j xs hi hj =
      let (a, ea) = nth-some i xs hi in
      let (b, eb) = nth-some j xs hj in (a, b, ea, eb, rw (ea, eb) refl)

  length-swap :
      (i j : ℕ) (xs : List A) → i < length xs → j < length xs → length (swap i j xs) ≡ length xs
  length-swap i j xs hi hj =
      let (a, b, ea, eb, e) = swap_set i j xs hi hj in
      rw (e, length-set j a (set i b xs)) (length-set i b xs)

  nth-swap :
      (k i j : ℕ) (xs : List A)
      → i < length xs
      → j < length xs
      → nth k (swap i j xs) ≡ nth (other i j k) xs
  nth-swap k i j xs hi hj =
      let (a, b, ea, eb, e) = swap_set i j xs hi hj in
      rw (e, nth-set k j a (set i b xs) (omega (arith, hj, length-set i b xs)), nth-set k i b xs hi)
        (ground (arith, ea, eb))

  nth-swap_loop :
      (fuel i j k : ℕ) (xs : List A)
      → j < length xs
      → j < i + fuel
      → nth k (swap_loop fuel i j xs) ≡ nth (mirror i j k) xs
  unfolding swap_loop
  nth-swap_loop zero i j k xs hj enough = rw (mirror_done i j k (omega arith)) refl
  nth-swap_loop (suc fuel) i j k xs hj enough = elim (Bool-cases (ltb i j)) [
    | inl less ↦
        let hi : i < length xs = omega (arith, ltb→lt i j less) in
        rw less (
          nth-swap_loop fuel (suc i) (j - 1) k (swap i j xs)
            (omega (arith, hj, length-swap i j xs hi hj)) (omega (arith, enough, ltb→lt i j less))
          ∙ nth-swap (mirror (suc i) (j - 1) k) i j xs hi hj
          ∙ rw (mirror_step i j k (ltb→lt i j less)) refl)
    | inr done ↦ rw (done, mirror_done i j k (ground (arith, done))) refl
  ]

  length-swap_loop :
      (fuel i j : ℕ) (xs : List A) → j < length xs → length (swap_loop fuel i j xs) ≡ length xs
  unfolding swap_loop
  length-swap_loop zero i j xs hj = refl
  length-swap_loop (suc fuel) i j xs hj = elim (Bool-cases (ltb i j)) [
    | inl less ↦
        let same = length-swap i j xs (omega (arith, hj, ltb→lt i j less)) hj in
        rw less
          (length-swap_loop fuel (suc i) (j - 1) (swap i j xs) (omega (arith, hj, same)) ∙ same)
    | inr done ↦ rw done refl
  ]

  nth_out : (k : ℕ) (xs : List A) → length xs ≤ k → nth k xs ≡ none
  unfolding nth
  nth_out k [] h = refl
  nth_out zero (x ∷ xs) h = absurd (omega arith)
  nth_out (suc k) (x ∷ xs) h = nth_out k xs (omega arith)

  nth_moved :
      (k n : ℕ) (x : A) (xs ys : List A)
      → (if ltb k n then nth (n - 1 - k) xs else nth (k - n) (x ∷ ys))
        ≡ (if ltb k (suc n) then nth (suc n - 1 - k) (x ∷ xs) else nth (k - suc n) ys)
  unfolding nth
  nth_moved k n x xs ys = elim (Bool-cases (ltb k n)) [
    | inl less ↦
        let inside : ltb k (suc n) ≡ true = ground (arith, less) in
        let next : suc n - 1 - k ≡ suc (n - 1 - k) = omega (arith, ltb→lt k n less) in
        rw (less, inside, next) refl
    | inr more ↦ elim (Bool-cases (nat_eq k n)) [
      | inl same ↦
          let e = (nat_eq_iff k n).0 same in
          let first : suc n - 1 - k ≡ 0 = omega (arith, e) in
          let last : k - n ≡ 0 = omega (arith, e) in
          let inside : ltb k (suc n) ≡ true = ground (arith, e) in
          rw (more, inside, first, last) refl
      | inr differ ↦
          let outside : ltb k (suc n) ≡ false = ground (arith, more, differ) in
          let next : k - n ≡ suc (k - suc n) = ground (arith, more, differ) in
          rw (more, outside, next) refl
    ]
  ]

  nth-reverse_aux :
      (k : ℕ) (xs ys : List A)
      → nth k (reverse_aux xs ys)
        ≡ (if ltb k (length xs) then nth (length xs - 1 - k) xs else nth (k - length xs) ys)
  unfolding nth
  nth-reverse_aux k [] ys = ground arith
  nth-reverse_aux k (x ∷ xs) ys =
      rw (nth-reverse_aux k xs (x ∷ ys)) (nth_moved k (length xs) x xs ys)

  nth_mirrored :
      (k : ℕ) (xs : List A) (n : ℕ)
      → length xs ≡ suc n
      → nth (mirror 0 n k) xs
        ≡ (if ltb k (length xs) then nth (length xs - 1 - k) xs else nth (k - length xs) [])
  unfolding nth
  nth_mirrored k xs n e = elim (Bool-cases (ltb k (length xs))) [
    | inl less ↦
        let inside : mirror 0 n k ≡ length xs - 1 - k = ground (arith, less, e) in
        rw (less, inside) refl
    | inr more ↦
        let outside : mirror 0 n k ≡ k = ground (arith, more, e) in
        rw (more, outside) (nth_out k xs (ground (arith, more)))
  ]

  same-nth : (xs ys : List A) → ((k : ℕ) → nth k xs ≡ nth k ys) → xs ≡ ys
  unfolding nth
  same-nth [] [] h = refl
  same-nth [] (y ∷ ys) h = absurd (ground (arith, h 0))
  same-nth (x ∷ xs) [] h = absurd (ground (arith, h 0))
  same-nth (x ∷ xs) (y ∷ ys) h = ground (arith, h 0, same-nth xs ys (λ (k : ℕ). h (suc k)))

  -- Exchanging the blocks from both ends inwards reverses them, whether their number is even or odd.
  pub reverse_blocks-reverse : (xs : List A) → reverse_blocks xs ≡ reverse xs
  unfolding reverse_blocks swap_loop
  reverse_blocks-reverse [] = refl
  reverse_blocks-reverse (x ∷ xs) =
      let last : suc (length xs) - 1 ≡ length xs = omega arith in
      rw last (
        same-nth (swap_loop (suc (length xs)) 0 (length xs) (x ∷ xs)) _ (λ (k : ℕ).
          nth-swap_loop (suc (length xs)) 0 (length xs) k (x ∷ xs) (omega arith) (omega arith)
          ∙ nth_mirrored k (x ∷ xs) (length xs) refl
          ∙ sym (nth-reverse_aux k (x ∷ xs) [])))
