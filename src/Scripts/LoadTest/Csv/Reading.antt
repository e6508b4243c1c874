-- ===== src/Scripts/LoadTest/Csv/Reading.antt =====
-- `readTransactionsFromCSV` reads the transfers of a file, up to its limit.
use mathlib.Core.List.{append_assoc, append-nil}
use mathlib.Core.Path.{subst}
use aien.Prelude.{
  ℕ, suc, ◌<◌, ◌≡◌, refl, sym, ap, ◌∙◌, inl, inr, Bool, true, false, List, [], ◌∷◌, ◌++◌, Option,
  none, some, String, ◌==◌, leb, length, take, All, arith, Bool-cases, Option-cases, if◌then◌else◌,
  length-append, leb→le,
}
use aien.Prelude.Decimal.{ℤ}
use aien.Prelude.Sql.{Result, ok, err}
use aien.Workers.{get_elem?}
use aien.Scripts.LoadTest.{IntentPayload}
use aien.Scripts.LoadTest.Csv.{
  Read, fields, malformed, CsvError, row_malformed, Columns, find_columns, reaches, Decoded,
  skipped, taken, decode, on_row, read_rows, read_transactions_from_csv,
}
use aien.Scripts.LoadTest.Csv.Transfers.{
  field, is_column, rows_of, is_broken, at_least_one, reaches_one, at_least_one_pos, take_front,
  field-header_index,
}

module _ {Amount : Type 0} (parse_float : String → Option Amount) where
  abbrev payload : (from to : String) → Option Amount → Option (IntentPayload Amount)
  payload from to none = none
  payload from to (some amount) = some (record { from = from; to = to; amount = amount })

  abbrev transfer_from : (name amount from to : Option String) → Option (IntentPayload Amount)
  transfer_from (some name) (some amount) (some from) (some to) =
      if name == "TRANSFER" then payload from to (parse_float amount) else none
  transfer_from _ _ _ _ = none

  -- The transfer that a row says, by the names of its columns.
  abbrev pub transfer_of : (headers row : List String) → Option (IntentPayload Amount)
  transfer_of headers row =
      transfer_from (field "type" headers row) (field "amount" headers row)
        (field "nameOrig" headers row) (field "nameDest" headers row)

  abbrev kept : Option (IntentPayload Amount) → List (IntentPayload Amount)
  kept none = []
  kept (some tx) = tx ∷ []

  unfoldable pub transfers :
      (headers : List String) → List (List String) → List (IntentPayload Amount)
  transfers headers [] = []
  transfers headers (row ∷ rows) = kept (transfer_of headers row) ++ transfers headers rows

  abbrev shown : Option (IntentPayload Amount) → Decoded Amount
  shown none = skipped
  shown (some tx) = taken tx

  -- The first `n` transfers, or all of them if the file ends before; a malformed row in front of the
  -- end is an error.
  abbrev pub first_of :
      (n : ℕ)
      → (broken : Bool) → List (IntentPayload Amount)
      → Result CsvError (List (IntentPayload Amount))
  first_of n broken txs =
      if leb n (length txs) then ok (take n txs) else if broken then err row_malformed else ok txs

  decode_row :
      (c : Columns) (row : List String) (name amount from to : String)
      → get_elem? row c.type_idx ≡ some name
      → get_elem? row c.amount_idx ≡ some amount
      → get_elem? row c.from_idx ≡ some from
      → get_elem? row c.to_idx ≡ some to
      → decode parse_float c row
        ≡ shown (transfer_from (some name) (some amount) (some from) (some to))
  unfolding decode
  decode_row c row name amount from to n a f t = elim (Bool-cases (name == "TRANSFER")) [
    | inr other ↦ rw (decode, n, other) refl
    | inl transfer ↦ elim (Option-cases (parse_float amount)) [
      | inl unparsed ↦ rw (decode, n, transfer, a, unparsed) refl
      | inr (x, parsed) ↦ rw (decode, n, transfer, a, parsed, f, t) refl
    ]
  ]

  -- The columns that are found lead to the transfer of each row.
  find_columns-decode :
      (headers : List String)
      → is_column "type" headers ≡ true
      → is_column "amount" headers ≡ true
      → is_column "nameOrig" headers ≡ true
      → is_column "nameDest" headers ≡ true
      → (c : Columns) × (find_columns headers ≡ some c)
        × ((row : List String)
            → length row ≡ length headers
            → decode parse_float c row ≡ shown (transfer_of headers row))
  unfolding find_columns decode
  find_columns-decode headers h1 h2 h3 h4 =
      let (t, t_found, t_value) = field-header_index "type" headers h1 in
      let (a, a_found, a_value) = field-header_index "amount" headers h2 in
      let (f, f_found, f_value) = field-header_index "nameOrig" headers h3 in
      let (o, o_found, o_value) = field-header_index "nameDest" headers h4 in
      let c : Columns = record { type_idx = t; amount_idx = a; from_idx = f; to_idx = o } in
      (
        c,
        rw (t_found, a_found, f_found, o_found) refl,
        λ row len.
            let (name, name_field, name_at) = t_value row len in
            let (amount, amount_field, amount_at) = a_value row len in
            let (from, from_field, from_at) = f_value row len in
            let (to, to_field, to_at) = o_value row len in
            decode_row c row name amount from to name_at amount_at from_at to_at
            ∙ sym (rw (name_field, amount_field, from_field, to_field) refl),
      )

  module _ (headers : List String) (c : Columns)
      (reads_row : (row : List String)
        → length row ≡ length headers
        → decode parse_float c row ≡ shown (transfer_of headers row))
      (limit : ℤ) where
    abbrev result :
        (list : List (IntentPayload Amount))
        → List Read
        → Result CsvError (List (IntentPayload Amount))
    result list reads =
        first_of (at_least_one limit) (is_broken reads) (list ++ transfers headers (rows_of reads))

    first_of_fewer :
        (broken : Bool) (list : List (IntentPayload Amount))
        → length list < at_least_one limit
        → first_of (at_least_one limit) broken (list ++ [])
          ≡ (if broken then err row_malformed else ok list)
    first_of_fewer broken list h = rw (append-nil list) (ground arith)

    first_of_full :
        (n : ℕ) (broken : Bool) (xs ys : List (IntentPayload Amount))
        → length xs ≡ n
        → first_of n broken (xs ++ ys) ≡ ok xs
    first_of_full n broken xs ys e =
        let test : leb (length xs) (length (xs ++ ys)) ≡ true =
          ground (arith, length-append xs ys) in
        subst (λ m. first_of m broken (xs ++ ys) ≡ ok xs) e (rw (test, take_front xs ys) refl)

    on_row-result :
        (o : Option (IntentPayload Amount)) (list : List (IntentPayload Amount)) (reads : List Read)
        → length list < at_least_one limit
        → ((list' : List (IntentPayload Amount))
            → length list' < at_least_one limit
            → read_rows parse_float limit c reads list' ≡ result list' reads)
        → on_row parse_float limit (shown o) list (read_rows parse_float limit c reads)
          ≡ first_of
              (at_least_one limit)
              (is_broken reads)
              (list ++ (kept o ++ transfers headers (rows_of reads)))
    on_row-result none list reads h ih = ih list h
    on_row-result (some tx) list reads h ih =
        let list' = list ++ tx ∷ [] in
        let more : length list' ≡ suc (length list) = omega (arith, length-append list (tx ∷ [])) in
        let rest = transfers headers (rows_of reads) in
        let reach : reaches limit (length list') ≡ leb (at_least_one limit) (suc (length list)) =
          ap (reaches limit) more ∙ reaches_one limit (length list) in
        let joined : list' ++ rest ≡ list ++ tx ∷ rest = append_assoc list (tx ∷ []) rest in
        elim (Bool-cases (leb (at_least_one limit) (suc (length list)))) [
          | inl full ↦
              ap (λ b. if b then ok list' else read_rows parse_float limit c reads list')
                (reach ∙ full)
              ∙ sym (
                  first_of_full (at_least_one limit) (is_broken reads) list' rest
                    (omega (arith, more, h, leb→le _ _ full)))
              ∙ ap (first_of (at_least_one limit) (is_broken reads)) joined
          | inr room ↦
              ap (λ b. if b then ok list' else read_rows parse_float limit c reads list')
                (reach ∙ room)
              ∙ ih list' (ground (arith, more, room))
              ∙ ap (first_of (at_least_one limit) (is_broken reads)) joined
        ]

    read_rows-result :
        (list : List (IntentPayload Amount)) (reads : List Read)
        → length list < at_least_one limit
        → All (λ row. length row ≡ length headers) (rows_of reads)
        → read_rows parse_float limit c reads list ≡ result list reads
    unfolding read_rows rows_of is_broken transfers
    read_rows-result list [] h rect = sym (first_of_fewer false list h)
    read_rows-result list (malformed ∷ reads) h rect = sym (first_of_fewer true list h)
    read_rows-result list (fields row ∷ reads) h rect =
        ap (λ d. on_row parse_float limit d list (read_rows parse_float limit c reads))
          (reads_row row rect.0)
        ∙ on_row-result (transfer_of headers row) list reads h
            (λ list' h'. read_rows-result list' reads h' rect.1)

  -- Of a file whose header has the four columns and whose rows have the header's length, the script
  -- reads the transfers in the order of the rows: as many as the limit says, and one at least. A
  -- malformed row is an error if the limit is not reached before it.
  pub read_transactions-first_of :
      (headers : List String) (reads : List Read) (limit : ℤ)
      → is_column "type" headers ≡ true
      → is_column "amount" headers ≡ true
      → is_column "nameOrig" headers ≡ true
      → is_column "nameDest" headers ≡ true
      → All (λ row. length row ≡ length headers) (rows_of reads)
      → read_transactions_from_csv parse_float (some (fields headers ∷ reads)) limit
        ≡ first_of (at_least_one limit) (is_broken reads) (transfers headers (rows_of reads))
  unfolding read_transactions_from_csv
  read_transactions-first_of headers reads limit h1 h2 h3 h4 rect =
      let (c, found, reads_row) = find_columns-decode headers h1 h2 h3 h4 in
      rw (read_transactions_from_csv, found)
        (read_rows-result headers c reads_row limit [] reads (at_least_one_pos limit) rect)
