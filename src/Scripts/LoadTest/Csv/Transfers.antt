-- ===== src/Scripts/LoadTest/Csv/Transfers.antt =====
-- `readTransactionsFromCSV` against a description by the names of the columns.
use mathlib.Core.List.{append_assoc}
use mathlib.Core.Option.{some-injective}
use mathlib.Core.Path.{subst}
use aien.Prelude.{
  ℕ, zero, suc, ◌<◌, ◌≡◌, refl, ap, ◌∙◌, ◌⊎◌, inl, inr, Bool, true, false, ◌||◌, List, [], ◌∷◌,
  ◌++◌, Option, none, some, String, ◌==◌, leb, length, take, arith, Bool-cases, if◌then◌else◌,
  length-append,
}
use aien.Prelude.Decimal.{ℤ, pos, negsuc}
use aien.Workers.{get_elem?}
use aien.Scripts.LoadTest.Csv.{Read, fields, malformed, header_index, reaches}

-- The value of a row in the last column of a name.
unfoldable pub field : String → (headers row : List String) → Option String
field name [] row = none
field name (h ∷ hs) [] = none
field name (h ∷ hs) (v ∷ vs) =
    let rest = field name hs vs in
    elim rest [ some w ↦ some w | none ↦ if h == name then some v else none ]

unfoldable pub is_column : String → List String → Bool
is_column name [] = false
is_column name (h ∷ hs) = h == name || is_column name hs

-- The rows in front of the first malformed one, and whether there is one.
unfoldable pub rows_of : List Read → List (List String)
rows_of [] = []
rows_of (malformed ∷ reads) = []
rows_of (fields row ∷ reads) = row ∷ rows_of reads

unfoldable pub is_broken : List Read → Bool
is_broken [] = false
is_broken (malformed ∷ reads) = true
is_broken (fields row ∷ reads) = is_broken reads

-- Nothing stops the loop in front of the first transaction.
abbrev pub at_least_one : ℤ → ℕ
at_least_one (pos zero) = 1
at_least_one (pos (suc n)) = suc n
at_least_one (negsuc n) = 1

pub reaches_one : (limit : ℤ) (m : ℕ) → reaches limit (suc m) ≡ leb (at_least_one limit) (suc m)
reaches_one (pos zero) m = ground arith
reaches_one (pos (suc n)) m = refl
reaches_one (negsuc n) m = ground arith

pub at_least_one_pos : (limit : ℤ) → 0 < at_least_one limit
at_least_one_pos (pos zero) = omega arith
at_least_one_pos (pos (suc n)) = omega arith
at_least_one_pos (negsuc n) = omega arith

module _ {A : Type 0} where
  get_middle : (xs ys : List A) (v : A) → get_elem? (xs ++ v ∷ ys) (length xs) ≡ some v
  get_middle [] ys v = refl
  get_middle (x ∷ xs) ys v = get_middle xs ys v

  pub take_front : (xs ys : List A) → take (length xs) (xs ++ ys) ≡ xs
  take_front [] ys = refl
  take_front (x ∷ xs) ys = ap (λ (l : List A). x ∷ l) (take_front xs ys)

-- What an index that the loop over the headers has found says of a row.
abbrev Found : Option String → Option ℕ → (row : List String) → ℕ → Type 0
Found (some v) found row k = get_elem? row k ≡ some v
Found none found row k = found ≡ some k

Found-here :
    (name h v : String) (o : Option String) (found : Option ℕ) (row : List String) (i k : ℕ)
    → get_elem? row i ≡ some v
    → Found o (if h == name then some i else found) row k
    → Found (elim o [ some w ↦ some w | none ↦ if h == name then some v else none ]) found row k
Found-here name h v (some w) found row i k at f = f
Found-here name h v none found row i k at f = elim (Bool-cases (h == name)) [
  | inl same ↦ rw same (
      subst (λ (x : ℕ). get_elem? row x ≡ some v)
        (some-injective i k (subst (λ b. (if b then some i else found) ≡ some k) same f)) at)
  | inr other ↦ rw other (subst (λ b. (if b then some i else found) ≡ some k) other f)
]

header_index-Found :
    (name : String) (hs vs before : List String) (found : Option ℕ) (k : ℕ)
    → length vs ≡ length hs
    → header_index name (length before) hs found ≡ some k
    → Found (field name hs vs) found (before ++ vs) k
unfolding header_index field
header_index-Found name [] vs before found k len h = h
header_index-Found name (x ∷ hs) [] before found k len h = absurd (omega (arith, len))
header_index-Found name (x ∷ hs) (v ∷ vs) before found k len h =
    let longer : length (before ++ v ∷ []) ≡ suc (length before) =
      omega (arith, length-append before (v ∷ [])) in
    let found' = if x == name then some (length before) else found in
    let ih =
      header_index-Found name hs vs (before ++ v ∷ []) found' k (omega (arith, len))
        (ap (λ (i : ℕ). header_index name i hs found') longer ∙ h) in
    Found-here name x v (field name hs vs) found (before ++ v ∷ vs) (length before) k
      (get_middle before vs v)
      (subst (λ l. Found (field name hs vs) found' l k) (append_assoc before (v ∷ []) vs) ih)

without :
    (name x : String) (i : ℕ) (hs : List String) (found : Option ℕ)
    → (x == name) ≡ false
    → (is_column name (x ∷ hs) ≡ true) ⊎ ((k : ℕ) × (found ≡ some k))
    → (is_column name hs ≡ true) ⊎ ((k : ℕ) × ((if x == name then some i else found) ≡ some k))
unfolding is_column
without name x i hs found other (inl h) = inl (ground (arith, other))
without name x i hs found other (inr (k, e)) = inr (k, rw other e)

header_index-some :
    (name : String) (i : ℕ) (hs : List String) (found : Option ℕ)
    → (is_column name hs ≡ true) ⊎ ((k : ℕ) × (found ≡ some k))
    → (k : ℕ) × (header_index name i hs found ≡ some k)
unfolding header_index is_column
header_index-some name i [] found (inl h) = absurd (ground arith)
header_index-some name i [] found (inr h) = h
header_index-some name i (x ∷ hs) found h = elim (Bool-cases (x == name)) [
  | inl same ↦ header_index-some name (suc i) hs _ (inr (i, rw same refl))
  | inr other ↦ header_index-some name (suc i) hs _ (without name x i hs found other h)
]

value :
    (name : String) (headers row : List String) (k : ℕ)
    → Found (field name headers row) none row k
    → (v : String) × (field name headers row ≡ some v) × (get_elem? row k ≡ some v)
value name headers row k f = go (field name headers row) refl f
  where
    go :
        (o : Option String)
        → field name headers row ≡ o
        → Found o none row k
        → (v : String) × (field name headers row ≡ some v) × (get_elem? row k ≡ some v)
    go none e h = absurd (ground arith)
    go (some v) e h = (v, e, h)

-- The index that is found for a column leads to the column's value in every row of the header's length.
pub field-header_index :
    (name : String) (headers : List String)
    → is_column name headers ≡ true
    → (k : ℕ) × (header_index name 0 headers none ≡ some k)
      × ((row : List String)
          → length row ≡ length headers
          → (v : String) × (field name headers row ≡ some v) × (get_elem? row k ≡ some v))
field-header_index name headers named =
    let (k, found) = header_index-some name 0 headers none (inl named) in
    (
      k,
      found,
      λ row len. value name headers row k (header_index-Found name headers row [] none k len found),
    )
