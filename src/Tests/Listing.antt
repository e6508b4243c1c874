-- ===== src/Tests/Listing.antt =====
-- The PostgreSQL store with two rows, in pages of one.
use aien.Prelude.{
  ℕ, ◌≤◌, ◌<◌, ◌≢◌, ◌↔◌, ltb→lt, String, take, ◌≡◌, refl, false, List, [], ◌∷◌, none, some, All,
  arith, Bool-cases, ltb, inl, inr, if◌then◌else◌, suc, length, map, nat_eq, ◌==◌,
}
use aien.Intent.Types.{status_unspecified, pos, Time}
use aien.Intent.Table.{IntentRow, Database}
use aien.Intent.Postgres.{Formats, intent_of_row}
use aien.Intent.Postgres.Listing.{row_matches, select, behind}
use aien.Intent.Postgres.Listing.Order.{In, IsDistinct, IsStrict, IsOrder}
use aien.Intent.Memory.{effective_page_size}
use aien.Intent.Postgres.Listing.Walk.{walk_tied, walk, walk-behind}

abbrev insert : IntentRow → List IntentRow → List IntentRow
insert r [] = r ∷ []
insert r (q ∷ rows) =
    let rest = insert r rows in if ltb r.created_at q.created_at then q ∷ rest else r ∷ q ∷ rows

abbrev newest_first : List IntentRow → List IntentRow
newest_first [] = []
newest_first (r ∷ rows) = insert r (newest_first rows)

In-insert : (r q : IntentRow) (rows : List IntentRow) → In q (insert r rows) ↔ In q (r ∷ rows)
In-insert r q [] = ground arith
In-insert r q (p ∷ rows) = elim (Bool-cases (ltb r.created_at p.created_at)) [
  | inl later ↦ rw later (ground (arith, In-insert r q rows))
  | inr first ↦ rw first (ground arith)
]

In-newest_first : (q : IntentRow) (rows : List IntentRow) → In q (newest_first rows) ↔ In q rows
In-newest_first q [] = ground arith
In-newest_first q (r ∷ rows) =
    ground (arith, In-insert r q (newest_first rows), In-newest_first q rows)

All-insert :
    (P : IntentRow → Type 0) (r : IntentRow) (rows : List IntentRow)
    → P r
    → All P rows
    → All P (insert r rows)
All-insert P r [] h hs = (h, tt)
All-insert P r (q ∷ rows) h hs = elim (Bool-cases (ltb r.created_at q.created_at)) [
  | inl later ↦ rw later (hs.0, All-insert P r rows h hs.1)
  | inr first ↦ rw first (h, hs)
]

All-newest_first :
    (P : IntentRow → Type 0) (rows : List IntentRow) → All P rows → All P (newest_first rows)
All-newest_first P [] h = tt
All-newest_first P (r ∷ rows) h =
    All-insert P r (newest_first rows) h.0 (All-newest_first P rows h.1)

All-below :
    (s t : ℕ) (rows : List IntentRow)
    → s ≤ t
    → All (λ (q : IntentRow). q.created_at < s) rows
    → All (λ (q : IntentRow). q.created_at < t) rows
All-below s t [] h hs = tt
All-below s t (r ∷ rows) h hs = (omega (arith, h, hs.0), All-below s t rows h hs.1)

insert-IsStrict :
    (r : IntentRow) (rows : List IntentRow)
    → All (λ (q : IntentRow). q.created_at ≢ r.created_at) rows
    → IsStrict rows
    → IsStrict (insert r rows)
insert-IsStrict r [] h hs = (tt, tt)
insert-IsStrict r (q ∷ rows) h hs = elim (Bool-cases (ltb r.created_at q.created_at)) [
  | inl later ↦
      rw later (All-insert _ r rows (ltb→lt _ _ later) hs.0, insert-IsStrict r rows h.1 hs.1)
  | inr first ↦
      let below : q.created_at < r.created_at = ground (arith, first, h.0) in
      rw first ((below, All-below q.created_at r.created_at rows (omega (arith, below)) hs.0), hs)
]

newest_first-IsStrict : (rows : List IntentRow) → IsDistinct rows → IsStrict (newest_first rows)
newest_first-IsStrict [] h = tt
newest_first-IsStrict (r ∷ rows) h =
    insert-IsStrict r (newest_first rows) (All-newest_first _ rows h.0)
      (newest_first-IsStrict rows h.1)

newest_first-IsOrder : IsOrder newest_first
newest_first-IsOrder = record {
  members = λ r rows. In-newest_first r rows;
  strict = newest_first-IsStrict;
}

abbrev row : (id : String) → Time → IntentRow
row id t = record {
  id = id;
  type_name = "INTENT_TYPE_TRANSFER";
  status = "INTENT_STATUS_PENDING";
  submitter_id = "alice";
  payload = [];
  priority = pos 5;
  max_retries = pos 3;
  idempotent = false;
  deadline = none;
  signature = "sig";
  submitter_public_key = "key";
  created_at = t;
  updated_at = t;
}

abbrev formats : Formats
formats = record {
  marshal = λ i. some i.payload;
  column_time = λ t. t;
  parse_time = λ s. if s == "one" then some 1 else some 2;
  format_time = λ t. if nat_eq t 1 then "one" else "two";
}

abbrev db : Database
db = record { intents = row "id1" 1 ∷ row "id2" 2 ∷ []; outbox = [] }

walk-behind_example :
    let all = behind newest_first status_unspecified "" none db.intents in
    walk formats newest_first status_unspecified "" (pos 1) db (suc (length all)) ""
    ≡ some (map (intent_of_row formats) all)
walk-behind_example =
    walk-behind formats newest_first status_unspecified "" (pos 1) db newest_first-IsOrder
      ((λ (e : 2 ≡ 1). omega arith, tt), (tt, tt))
      (
        record { nonzero = λ (e : 1 ≡ 0). omega arith; not_empty = refl; parse-format = refl },
        (
          record { nonzero = λ (e : 2 ≡ 0). omega arith; not_empty = refl; parse-format = refl },
          tt,
        ),
      )

abbrev tied : Database
tied = record { intents = row "id1" 1 ∷ row "id2" 1 ∷ []; outbox = [] }

walk_tied_example :
    walk formats newest_first status_unspecified "" (pos 1) tied 2 ""
    ≡ some (
        map (intent_of_row formats) (
          take
            (effective_page_size (pos 1))
            (behind newest_first status_unspecified "" none tied.intents)))
unfolding select row_matches effective_page_size behind aien.Intent.Filter.status_eq
walk_tied_example =
    walk_tied formats newest_first status_unspecified "" (pos 1) tied 0 (row "id1" 1)
      newest_first-IsOrder refl
      (record { nonzero = λ (e : 1 ≡ 0). omega arith; not_empty = refl; parse-format = refl })
      (refl, (refl, tt))
