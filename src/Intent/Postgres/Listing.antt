-- ===== src/Intent/Postgres/Listing.antt =====
-- `List` of intent-service/store/postgres.go: keyset pagination over `created_at`. A time is a number of
-- nanoseconds since the zero time of Go. The order that the server gives rows of one time is not
-- fixed by the query: ORDER BY is a parameter.
pub mod Order
pub mod Behind
pub mod Walk
use aien.Prelude.{
  ℕ, Bool, true, false, List, [], ◌∷◌, Option, none, some, String, ◌==◌, ◌||◌, ◌&&◌, ltb, nat_eq,
  map, length, take, not, if◌then◌else◌,
}
use aien.Prelude.Sql.{Result, ok, err, unless}
use aien.Intent.Types.{Intent, IntentStatus, status_unspecified, Time, ℤ}
use aien.Intent.Names.{status_string}
use aien.Intent.Filter.{status_eq}
use aien.Intent.Memory.{effective_page_size}
use aien.Intent.Table.{IntentRow, Database}
use aien.Intent.Postgres.{Formats, StoreError, database, intent_of_row}

-- `AND status = $n` and `AND submitter_id = $n`, each added only for a filter that is given.
unfoldable pub row_matches : IntentStatus → (submitter_filter : String) → IntentRow → Bool
row_matches status_filter submitter_filter r =
    (status_eq status_filter status_unspecified || r.status == status_string status_filter)
    && (submitter_filter == "" || r.submitter_id == submitter_filter)

-- `AND created_at < $n`, added only for a page token that parses.
abbrev pub before : Option Time → IntentRow → Bool
before none r = true
before (some cursor) r = ltb r.created_at cursor

-- WHERE
unfoldable pub select : (IntentRow → Bool) → List IntentRow → List IntentRow
select keep [] = []
select keep (r ∷ rows) = let rest = select keep rows in if keep r then r ∷ rest else rest

-- `lastCreatedAt`, which starts as the zero time.
unfoldable pub last_created_at : Time → List IntentRow → Time
last_created_at last [] = last
last_created_at last (r ∷ rows) = last_created_at r.created_at rows

-- Which of the queries fail: the count, the page, and the iteration over its rows.
pub record ListAnswers : Type 0 where
  pub count_fails : Bool
  pub query_fails : Bool
  pub rows_fail : Bool

-- The rows behind the cursor, in the order of the query.
unfoldable pub behind :
    (order : List IntentRow → List IntentRow)
    → IntentStatus
    → (submitter_filter : String) → Option Time
    → List IntentRow
    → List IntentRow
behind order status_filter submitter_filter cursor rows =
    order (select (λ r. row_matches status_filter submitter_filter r && before cursor r) rows)

module _ (formats : Formats) where
  open formats use {parse_time, format_time}

  unfoldable pub cursor_of : (page_token : String) → Option Time
  cursor_of page_token = if page_token == "" then none else parse_time page_token

  abbrev pub next_token : (page_size : ℕ) → List IntentRow → String
  next_token page_size page =
      if nat_eq (length page) page_size && not (nat_eq (last_created_at 0 page) 0)
      then format_time (last_created_at 0 page)
      else ""

module _ (formats : Formats) (order : List IntentRow → List IntentRow) where
  unfoldable pub list :
      ListAnswers
      → IntentStatus
      → (submitter_filter : String) → (page_size : ℤ) → (page_token : String) → Database
      → Result StoreError (List Intent × String × ℕ)
  list answers status_filter submitter_filter page_size page_token db =
      unless answers.count_fails database (
        unless answers.query_fails database (
          unless answers.rows_fail database (
            let size = effective_page_size page_size in
            let page = take size (
              behind order status_filter submitter_filter (cursor_of formats page_token)
                db.intents) in
            ok (
              map (intent_of_row formats) page,
              next_token formats size page,
              length (select (row_matches status_filter submitter_filter) db.intents),
            ))))
