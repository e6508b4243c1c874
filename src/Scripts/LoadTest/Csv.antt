-- ===== src/Scripts/LoadTest/Csv.antt =====
-- scripts/load_test_csv.go: `readTransactionsFromCSV`. What csv.Reader's `Read` answers is a list, and
-- strconv.ParseFloat is a parameter.
pub mod Transfers
pub mod Reading
use aien.Prelude.{
  true, ℕ, zero, suc, ◌≡◌, Bool, List, [], ◌∷◌, ◌++◌, Option, none, some, String, ◌==◌, leb, not,
  length, if◌then◌else◌,
}
use aien.Prelude.Decimal.{ℤ, pos, negsuc}
use aien.Prelude.Sql.{Result, ok, err}
use aien.Workers.{get_elem?}
use aien.Scripts.LoadTest.{IntentPayload}

-- One call of `Read`; io.EOF is the end of the list.
pub data Read : Type 0 where
  fields : List String → Read
  malformed : Read

pub data CsvError : Type 0 where
  not_opened header_unread headers_missing row_malformed : CsvError
  -- the panic of an index that is out of range
  index_panic : CsvError

pub record Columns : Type 0 where
  pub type_idx : ℕ
  pub amount_idx : ℕ
  pub from_idx : ℕ
  pub to_idx : ℕ

-- `headerMap[name]` after the loop `headerMap[h] = i`: the last column of the name.
unfoldable pub header_index : String → (i : ℕ) → List String → Option ℕ → Option ℕ
header_index name i [] found = found
header_index name i (h ∷ hs) found =
    header_index name (suc i) hs (if h == name then some i else found)

abbrev pub columns_of : Option ℕ → Option ℕ → Option ℕ → Option ℕ → Option Columns
columns_of (some t) (some a) (some f) (some o) =
    some (record { type_idx = t; amount_idx = a; from_idx = f; to_idx = o })
columns_of _ _ _ _ = none

unfoldable pub find_columns : List String → Option Columns
find_columns headers =
    columns_of (header_index "type" 0 headers none) (header_index "amount" 0 headers none)
      (header_index "nameOrig" 0 headers none) (header_index "nameDest" 0 headers none)

-- `len(list) >= limit`
abbrev pub reaches : ℤ → ℕ → Bool
reaches (pos limit) n = leb limit n
reaches (negsuc limit) n = true

-- What the loop does with a row.
pub data Decoded (Amount : Type 0) : Type 0 where
  out_of_range skipped : Decoded Amount
  taken : IntentPayload Amount → Decoded Amount

module _ {Amount : Type 0} (parse_float : String → Option Amount) where
  abbrev with_parties : Amount → Option String → Option String → Decoded Amount
  with_parties amount (some from) (some to) =
      taken (record { from = from; to = to; amount = amount })
  with_parties amount _ _ = out_of_range

  abbrev with_amount : Columns → List String → Option Amount → Decoded Amount
  with_amount c row none = skipped
  with_amount c row (some amount) =
      with_parties amount (get_elem? row c.from_idx) (get_elem? row c.to_idx)

  abbrev with_amount_text : Columns → List String → Option String → Decoded Amount
  with_amount_text c row none = out_of_range
  with_amount_text c row (some text) = with_amount c row (parse_float text)

  abbrev with_type : Columns → List String → Option String → Decoded Amount
  with_type c row none = out_of_range
  with_type c row (some name) =
      if not (name == "TRANSFER")
      then skipped
      else with_amount_text c row (get_elem? row c.amount_idx)

  unfoldable pub decode : Columns → List String → Decoded Amount
  decode c row = with_type c row (get_elem? row c.type_idx)

  abbrev pub Transactions : Type 0
  Transactions = List (IntentPayload Amount)

  -- A row's part of the loop; `continue_with` is the rest of the loop.
  abbrev pub on_row :
      ℤ
      → Decoded Amount
      → Transactions
      → (continue_with : Transactions → Result CsvError Transactions) → Result CsvError Transactions
  on_row limit out_of_range list continue_with = err index_panic
  on_row limit skipped list continue_with = continue_with list
  on_row limit (taken tx) list continue_with =
      if reaches limit (length (list ++ tx ∷ []))
      then ok (list ++ tx ∷ [])
      else continue_with (list ++ tx ∷ [])

  unfoldable pub read_rows : ℤ → Columns → List Read → Transactions → Result CsvError Transactions
  read_rows limit c [] list = ok list
  read_rows limit c (malformed ∷ reads) list = err row_malformed
  read_rows limit c (fields row ∷ reads) list =
      on_row limit (decode c row) list (read_rows limit c reads)

  abbrev pub with_columns : ℤ → List Read → Option Columns → Result CsvError Transactions
  with_columns limit reads none = err headers_missing
  with_columns limit reads (some c) = read_rows limit c reads []

  abbrev pub with_header : ℤ → List Read → Result CsvError Transactions
  with_header limit [] = err header_unread
  with_header limit (malformed ∷ reads) = err header_unread
  with_header limit (fields headers ∷ reads) = with_columns limit reads (find_columns headers)

  -- `none` is a file that cannot be opened.
  unfoldable pub read_transactions_from_csv :
      Option (List Read) → (limit : ℤ) → Result CsvError Transactions
  read_transactions_from_csv none limit = err not_opened
  read_transactions_from_csv (some reads) limit = with_header limit reads
