-- ===== src/Intent/Postgres/Listing/Behind.antt =====
-- The rows behind a cursor of `List`: a later cursor seen from an earlier one.
use aien.Prelude.{
  ℕ, zero, suc, ◌≡◌, ◌≢◌, ◌<◌, refl, inl, inr, ◌↔◌, true, false, List, [], ◌∷◌, All, arith, ltb,
  nat_eq, take, drop, length, ap, sym, ◌∙◌, ◌&&◌, Option, none, some, String,
}
use mathlib.Core.Path.{subst}
use aien.Intent.Types.{IntentStatus, Time}
use aien.Intent.Table.{IntentRow, Database}
use aien.Intent.Postgres.Listing.{row_matches, before, select, last_created_at, behind}
use aien.Intent.Postgres.Listing.Order.{
  In-All, In, IsDistinct, IsStrict, IsOrder, In-select, select-IsDistinct, select-IsStrict,
  IsStrict-unique, select-page,
}

pub last-In :
    (t : Time) (r : IntentRow) (rows : List IntentRow)
    → (q : IntentRow) × In q (r ∷ rows) × (last_created_at t (r ∷ rows) ≡ q.created_at)
unfolding last_created_at
last-In t r [] = (r, inl refl, refl)
last-In t r (q ∷ rows) = let (last, i, e) = last-In r.created_at q rows in (last, inr i, e)

pub In-take : (n : ℕ) (r : IntentRow) (rows : List IntentRow) → In r (take n rows) → In r rows
In-take zero r rows i = absurd i
In-take (suc n) r [] i = absurd i
In-take (suc n) r (q ∷ rows) (inl e) = inl e
In-take (suc n) r (q ∷ rows) (inr i) = inr (In-take n r rows i)

before_mono :
    (cursor : Option Time) (r q : IntentRow)
    → before cursor q ≡ true
    → ltb r.created_at q.created_at ≡ true
    → before cursor r ≡ true
before_mono none r q h k = refl
before_mono (some t) r q h k = ground arith

pub take_all :
    (n : ℕ) (rows : List IntentRow) → nat_eq (length (take n rows)) n ≡ false → take n rows ≡ rows
take_all zero rows h = absurd (ground arith)
take_all (suc n) [] h = refl
take_all (suc n) (r ∷ rows) h = ap (λ (l : List IntentRow). r ∷ l) (take_all n rows (ground arith))

All-suc :
    (t : ℕ) (rows : List IntentRow)
    → All (λ (q : IntentRow). q.created_at < t) rows
    → All (λ (q : IntentRow). q.created_at < suc t) rows
All-suc t [] h = tt
All-suc t (r ∷ rows) h = (omega (arith, h.0), All-suc t rows h.1)

pub differs : (a b : ℕ) → a ≢ b → nat_eq a b ≡ false
differs a b h = ground (arith, h)

pub is_suc : (m : ℕ) → 0 < m → (n : ℕ) × (m ≡ suc n)
is_suc zero h = absurd (omega arith)
is_suc (suc n) h = (n, refl)

pub last_tied :
    (t : Time) (n : ℕ) (rows : List IntentRow)
    → All (λ (q : IntentRow). q.created_at ≡ t) rows
    → last_created_at t (take n rows) ≡ t
unfolding last_created_at
last_tied t zero rows h = refl
last_tied t (suc n) [] h = refl
last_tied t (suc n) (r ∷ rows) h = rw h.0 (last_tied t n rows h.1)

none_In : (rows : List IntentRow) → ((q : IntentRow) → In q rows → ⊥) → rows ≡ []
none_In [] h = refl
none_In (r ∷ rows) h = absurd (h r (inl refl))

module _ (order : List IntentRow → List IntentRow) (status_filter : IntentStatus)
    (submitter_filter : String) (db : Database) where
  abbrev pub rest_of : Option Time → List IntentRow
  rest_of cursor = behind order status_filter submitter_filter cursor db.intents

  In-rest_of :
      (law : IsOrder order) (cursor : Option Time) (q : IntentRow)
      → In q (rest_of cursor) ↔ (
          In q db.intents
          × (row_matches status_filter submitter_filter q ≡ true)
          × (before cursor q ≡ true))
  unfolding behind
  In-rest_of law cursor q = ground (
    arith,
    law.members q (
        select (λ (r : IntentRow). row_matches status_filter submitter_filter r && before cursor r)
          db.intents),
    In-select (λ (r : IntentRow). row_matches status_filter submitter_filter r && before cursor r) q
        db.intents,
  )

  rest_of-IsStrict :
      IsOrder order → IsDistinct db.intents → (cursor : Option Time) → IsStrict (rest_of cursor)
  unfolding behind
  rest_of-IsStrict law distinct cursor = law.strict _ (select-IsDistinct _ db.intents distinct)

  pub In-earlier :
      (law : IsOrder order) (cursor : Option Time) (rest : List IntentRow) (x : IntentRow)
      → rest_of cursor ≡ rest
      → In x rest ↔ (
          In x db.intents
          × (row_matches status_filter submitter_filter x ≡ true)
          × (before cursor x ≡ true))
  In-earlier law cursor rest x e =
      subst
        (λ (l : List IntentRow). In x l ↔ (
          In x db.intents
          × (row_matches status_filter submitter_filter x ≡ true)
          × (before cursor x ≡ true)))
        e (In-rest_of law cursor x)

  -- The rows behind a later cursor, seen from those behind an earlier one.
  In-later :
      (law : IsOrder order) (cursor : Option Time) (rest : List IntentRow) (q x : IntentRow)
      → rest_of cursor ≡ rest
      → In q rest
      → In x (rest_of (some q.created_at)) ↔ In x (select (before (some q.created_at)) rest)
  In-later law cursor rest q x e i =
      let q_there = (In-rest_of law cursor q).0 (subst (In q) (sym e) i) in
      ground (
        arith,
        q_there.2,
        In-rest_of law (some q.created_at) x,
        In-earlier law cursor rest x e,
        In-select (before (some q.created_at)) x rest,
        before_mono cursor x q,
      )

  -- What is behind the last row of a full page is what the page has left.
  pub rest-page :
      (cursor : Option Time) (r : IntentRow) (rest : List IntentRow) (n : ℕ)
      → IsOrder order
      → IsDistinct db.intents
      → rest_of cursor ≡ r ∷ rest
      → length (take (suc n) (r ∷ rest)) ≡ suc n
      → rest_of (some (last_created_at 0 (take (suc n) (r ∷ rest)))) ≡ drop (suc n) (r ∷ rest)
  unfolding last_created_at
  rest-page cursor r rest n law distinct e full =
      let strict = subst IsStrict e (rest_of-IsStrict law distinct cursor) in
      let (q, i, at) = last-In 0 r (take n rest) in
      let there = In-take (suc n) q (r ∷ rest) i in
      let page =
        select-page (suc n) (suc r.created_at) (r ∷ rest)
          (omega arith, All-suc r.created_at rest strict.0) strict full in
      rw at (
        IsStrict-unique (rest_of (some q.created_at))
          (select (before (some q.created_at)) (r ∷ rest))
          (rest_of-IsStrict law distinct (some q.created_at))
          (select-IsStrict (before (some q.created_at)) (r ∷ rest) strict)
          (λ (x : IntentRow). In-later law cursor (r ∷ rest) q x e there)
        ∙ rw (← at) page.0)

  -- No row is behind the time that all rows have.
  pub rest-tied :
      (t : Time)
      → IsOrder order
      → All (λ (q : IntentRow). q.created_at ≡ t) (rest_of none)
      → rest_of (some t) ≡ []
  rest-tied t law ties =
      none_In (rest_of (some t)) (λ (q : IntentRow) (i : In q (rest_of (some t))).
        let later = (In-rest_of law (some t) q).0 i in
        let same =
          In-All (λ (p : IntentRow). p.created_at ≡ t) q (rest_of none) ties
            ((In-rest_of law none q).1 (later.0, later.1, refl)) in
        ground (arith, later.2, same))
