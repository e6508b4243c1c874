-- ===== src/Intent/Postgres/Listing/Order.antt =====
-- Rows in descending order of their times.
use aien.Prelude.{
  ℕ, zero, suc, ◌≡◌, ◌≢◌, ◌<◌, refl, ◌⊎◌, inl, inr, ◌↔◌, Bool, true, false, List, [], ◌∷◌, All,
  arith, ltb, lt→ltb, Bool-cases, ◌≤◌, take, drop, length, ap, sym, ◌∙◌, some,
}
use mathlib.Core.Path.{subst}
use aien.Intent.Types.{Time}
use aien.Intent.Table.{IntentRow}
use aien.Intent.Postgres.Listing.{select, before, last_created_at}

-- The row is one of the list.
abbrev pub In : IntentRow → List IntentRow → Type 0
In r [] = ⊥
In r (q ∷ rows) = (q ≡ r) ⊎ In r rows

-- No two rows have one time.
abbrev pub IsDistinct : List IntentRow → Type 0
IsDistinct [] = Unit
IsDistinct (r ∷ rows) = All (λ (q : IntentRow). q.created_at ≢ r.created_at) rows × IsDistinct rows

-- The times descend, each below the one before it.
abbrev pub IsStrict : List IntentRow → Type 0
IsStrict [] = Unit
IsStrict (r ∷ rows) = All (λ (q : IntentRow). q.created_at < r.created_at) rows × IsStrict rows

-- What ORDER BY created_at DESC promises: the same rows, and descending times, where no two are equal.
pub record IsOrder (order : List IntentRow → List IntentRow) : Type 0 where
  pub members : (r : IntentRow) (rows : List IntentRow) → In r (order rows) ↔ In r rows
  pub strict : (rows : List IntentRow) → IsDistinct rows → IsStrict (order rows)

pub In-All :
    (P : IntentRow → Type 0) (r : IntentRow) (rows : List IntentRow) → All P rows → In r rows → P r
In-All P r [] h i = absurd i
In-All P r (q ∷ rows) h (inl e) = subst P e h.0
In-All P r (q ∷ rows) h (inr i) = In-All P r rows h.1 i

All-select :
    (P : IntentRow → Type 0) (keep : IntentRow → Bool) (rows : List IntentRow)
    → All P rows
    → All P (select keep rows)
unfolding select
All-select P keep [] h = tt
All-select P keep (r ∷ rows) h = elim (Bool-cases (keep r)) [
  | inl kept ↦ rw kept (h.0, All-select P keep rows h.1)
  | inr dropped ↦ rw dropped (All-select P keep rows h.1)
]

pub In-select :
    (keep : IntentRow → Bool) (r : IntentRow) (rows : List IntentRow)
    → In r (select keep rows) ↔ (In r rows × (keep r ≡ true))
unfolding select
In-select keep r [] = (λ (i : ⊥). absurd i, λ (p : ⊥ × (keep r ≡ true)). absurd p.0)
In-select keep r (q ∷ rows) = elim (Bool-cases (keep q)) [
  | inl kept ↦ rw kept (ground (arith, kept, In-select keep r rows))
  | inr dropped ↦ rw dropped (ground (arith, dropped, In-select keep r rows))
]

pub select-IsDistinct :
    (keep : IntentRow → Bool) (rows : List IntentRow)
    → IsDistinct rows
    → IsDistinct (select keep rows)
unfolding select
select-IsDistinct keep [] h = tt
select-IsDistinct keep (r ∷ rows) h = elim (Bool-cases (keep r)) [
  | inl kept ↦ rw kept (All-select _ keep rows h.0, select-IsDistinct keep rows h.1)
  | inr dropped ↦ rw dropped (select-IsDistinct keep rows h.1)
]

pub select-IsStrict :
    (keep : IntentRow → Bool) (rows : List IntentRow) → IsStrict rows → IsStrict (select keep rows)
unfolding select
select-IsStrict keep [] h = tt
select-IsStrict keep (r ∷ rows) h = elim (Bool-cases (keep r)) [
  | inl kept ↦ rw kept (All-select _ keep rows h.0, select-IsStrict keep rows h.1)
  | inr dropped ↦ rw dropped (select-IsStrict keep rows h.1)
]

-- A row of both lists below their heads is no head.
tail_member :
    (x y : IntentRow) (xs ys : List IntentRow) (r : IntentRow)
    → x ≡ y
    → All (λ (q : IntentRow). q.created_at < x.created_at) xs
    → In r (y ∷ ys)
    → In r xs
    → In r ys
tail_member x y xs ys r e h (inr i) j = i
tail_member x y xs ys r e h (inl y≡r) j =
    let below = In-All (λ (q : IntentRow). q.created_at < x.created_at) r xs h j in
    let same : r.created_at ≡ x.created_at = ap (λ (q : IntentRow). q.created_at) (sym (e ∙ y≡r)) in
    absurd (omega arith)

heads_agree :
    (x y : IntentRow) (xs ys : List IntentRow)
    → IsStrict (x ∷ xs)
    → IsStrict (y ∷ ys)
    → In x (y ∷ ys)
    → In y (x ∷ xs)
    → x ≡ y
heads_agree x y xs ys hx hy (inl e) j = sym e
heads_agree x y xs ys hx hy (inr i) (inl e) = e
heads_agree x y xs ys hx hy (inr i) (inr j) =
    let a = In-All (λ (q : IntentRow). q.created_at < y.created_at) x ys hy.0 i in
    let b = In-All (λ (q : IntentRow). q.created_at < x.created_at) y xs hx.0 j in
    absurd (omega arith)

-- Two descending lists of the same rows are equal.
pub IsStrict-unique :
    (xs ys : List IntentRow)
    → IsStrict xs
    → IsStrict ys
    → ((r : IntentRow) → In r xs ↔ In r ys)
    → xs ≡ ys
IsStrict-unique [] [] hx hy same = refl
IsStrict-unique [] (y ∷ ys) hx hy same = absurd ((same y).1 (inl refl))
IsStrict-unique (x ∷ xs) [] hx hy same = absurd ((same x).0 (inl refl))
IsStrict-unique (x ∷ xs) (y ∷ ys) hx hy same =
    let e = heads_agree x y xs ys hx hy ((same x).0 (inl refl)) ((same y).1 (inl refl)) in
    let tails = IsStrict-unique xs ys hx.1 hy.1 (λ (r : IntentRow). (
      λ (i : In r xs). tail_member x y xs ys r e hx.0 ((same r).0 (inr i)) i,
      λ (i : In r ys). tail_member y x ys xs r (sym e) hy.0 ((same r).1 (inr i)) i,
    )) in
    rw (e, tails) refl

select-before :
    (t : Time) (rows : List IntentRow)
    → All (λ (q : IntentRow). q.created_at < t) rows
    → select (before (some t)) rows ≡ rows
unfolding select
select-before t [] h = refl
select-before t (r ∷ rows) h = rw (lt→ltb r.created_at t h.0, select-before t rows h.1) refl

-- The rows below the last of a page are those behind the page.
pub select-page :
    (n : ℕ) (t : Time) (rows : List IntentRow)
    → All (λ (q : IntentRow). q.created_at < t) rows
    → IsStrict rows
    → length (take n rows) ≡ n
    → (select (before (some (last_created_at t (take n rows)))) rows ≡ drop n rows)
      × (last_created_at t (take n rows) ≤ t)
unfolding select last_created_at
select-page zero t rows below h full = (select-before t rows below, omega arith)
select-page (suc n) t [] below h full = absurd (omega arith)
select-page (suc n) t (r ∷ rows) below h full =
    let (rest, bound) = select-page n r.created_at rows h.0 h.1 (omega arith) in
    let dropped : ltb r.created_at (last_created_at r.created_at (take n rows)) ≡ false =
      ground (arith, bound) in
    (rw dropped rest, omega (arith, below.0))
