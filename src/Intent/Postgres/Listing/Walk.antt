-- ===== src/Intent/Postgres/Listing/Walk.antt =====
-- A client that follows the page tokens of `List`.
use aien.Prelude.{
  ℕ, zero, suc, ◌≡◌, ◌≢◌, ◌<◌, refl, inl, inr, true, false, List, [], ◌∷◌, ◌++◌, All, arith, nat_eq,
  Bool-cases, if◌then◌else◌, take, drop, length, ap, sym, ◌∙◌, Option, none, some, String, ◌==◌,
  map, length-drop, take-append-drop, nat_eq_iff,
}
use mathlib.Core.List.{append-nil, map-append}
use aien.Prelude.Sql.{Result, ok, err}
use aien.Intent.Types.{Intent, IntentStatus, Time, ℤ}
use aien.Intent.Memory.{effective_page_size}
use aien.Intent.Table.{IntentRow, Database}
use aien.Intent.Postgres.{Formats, StoreError, intent_of_row}
use aien.Intent.Postgres.Listing.{last_created_at, ListAnswers, cursor_of, behind, next_token, list}
use aien.Intent.Postgres.Listing.Behind.{
  last-In, In-take, take_all, differs, is_suc, In-earlier, rest-page, last_tied, rest-tied,
  last_tied, rest-tied,
}
use aien.Intent.Postgres.Listing.Order.{IsDistinct, IsOrder, In-All}

abbrev pub answered : ListAnswers
answered = record { count_fails = false; query_fails = false; rows_fail = false }

abbrev and_rest : List Intent → Option (List Intent) → Option (List Intent)
and_rest page none = none
and_rest page (some rest) = some (page ++ rest)

abbrev visit :
    Result StoreError (List Intent × String × ℕ)
    → (String → Option (List Intent))
    → Option (List Intent)
visit (err e) next_page = none
visit (ok (page, next, total)) next_page =
    if next == "" then some page else and_rest page (next_page next)

-- The time of the row is not the zero time, and its text is not empty and is parsed back.
pub record IsFormatted (formats : Formats) (r : IntentRow) : Type 0 where
  pub nonzero : r.created_at ≢ 0
  pub not_empty : (formats.format_time r.created_at == "") ≡ false
  pub parse-format : formats.parse_time (formats.format_time r.created_at) ≡ some r.created_at

module _ (formats : Formats) (order : List IntentRow → List IntentRow)
    (status_filter : IntentStatus) (submitter_filter : String) (page_size : ℤ) (db : Database) where
  -- Page after page, until the next token is empty; `none` where the last page has not come after
  -- `fuel` pages.
  unfoldable pub walk : ℕ → (page_token : String) → Option (List Intent)
  walk zero page_token = none
  walk (suc fuel) page_token =
      visit (list formats order answered status_filter submitter_filter page_size page_token db)
        (λ next. walk fuel next)

  abbrev all_behind : Option Time → List IntentRow
  all_behind cursor = behind order status_filter submitter_filter cursor db.intents

  walk_step :
      (fuel : ℕ) (page_token : String) (page : List IntentRow)
      → take (effective_page_size page_size) (all_behind (cursor_of formats page_token)) ≡ page
      → walk (suc fuel) page_token ≡ (
          let next = next_token formats (effective_page_size page_size) page in
          if next == ""
          then some (map (intent_of_row formats) page)
          else and_rest (map (intent_of_row formats) page) (walk fuel next))
  unfolding walk list
  walk_step fuel page_token page e = rw e refl

  -- The page is short: it is the last one.
  walk_short :
      (fuel : ℕ) (page_token : String) (rest : List IntentRow)
      → all_behind (cursor_of formats page_token) ≡ rest
      → nat_eq (length (take (effective_page_size page_size) rest)) (effective_page_size page_size)
        ≡ false
      → walk (suc fuel) page_token ≡ some (map (intent_of_row formats) rest)
  walk_short fuel page_token rest e short =
      walk_step fuel page_token (take (effective_page_size page_size) rest)
        (ap (take (effective_page_size page_size)) e)
      ∙ rw (short, take_all (effective_page_size page_size) rest short) refl

  -- The page is full: its last row `q` is the cursor of the next one.
  walk_full :
      (fuel : ℕ) (page_token : String) (rest : List IntentRow) (q : IntentRow)
      → all_behind (cursor_of formats page_token) ≡ rest
      → IsFormatted formats q
      → nat_eq (length (take (effective_page_size page_size) rest)) (effective_page_size page_size)
        ≡ true
      → last_created_at 0 (take (effective_page_size page_size) rest) ≡ q.created_at
      → walk (suc fuel) page_token
        ≡ and_rest
            (map (intent_of_row formats) (take (effective_page_size page_size) rest))
            (walk fuel (formats.format_time q.created_at))
  walk_full fuel page_token rest q e good full at =
      walk_step fuel page_token (take (effective_page_size page_size) rest)
        (ap (take (effective_page_size page_size)) e)
      ∙ rw (full, at, differs q.created_at 0 good.nonzero, good.not_empty) refl

  join_page :
      (n : ℕ) (rows : List IntentRow)
      → length (take n rows) ≡ n
      → map (intent_of_row formats) (take n rows) ++ map (intent_of_row formats) (drop n rows)
        ≡ map (intent_of_row formats) rows
  join_page n rows full =
      sym (map-append (intent_of_row formats) (take n rows) (drop n rows))
      ∙ ap (map (intent_of_row formats))
          (ap (λ (k : ℕ). take n rows ++ drop k rows) (sym full) ∙ take-append-drop n rows)

  walk_from :
      (fuel : ℕ) (page_token : String) (rest : List IntentRow) (n : ℕ)
      → IsOrder order
      → IsDistinct db.intents
      → All (IsFormatted formats) db.intents
      → effective_page_size page_size ≡ suc n
      → all_behind (cursor_of formats page_token) ≡ rest
      → length rest < fuel
      → walk fuel page_token ≡ some (map (intent_of_row formats) rest)
  unfolding cursor_of
  walk_from zero page_token rest n law distinct formatted size e enough = absurd (omega arith)
  walk_from (suc fuel) page_token [] n law distinct formatted size e enough =
      walk_short fuel page_token [] e (rw size (ground arith))
  walk_from (suc fuel) page_token (r ∷ rest) n law distinct formatted size e enough =
      elim (Bool-cases (nat_eq (length (take (suc n) (r ∷ rest))) (suc n))) [
        | inr short ↦ walk_short fuel page_token (r ∷ rest) e (rw size short)
        | inl full ↦
            let count = (nat_eq_iff (length (take (suc n) (r ∷ rest))) (suc n)).0 full in
            let (q, i, at) = last-In 0 r (take n rest) in
            let cursor = cursor_of formats page_token in
            let there = In-take (suc n) q (r ∷ rest) i in
            let kept =
              (In-earlier order status_filter submitter_filter db law cursor (r ∷ rest) q e).0
                there in
            let good = In-All (IsFormatted formats) q db.intents formatted kept.0 in
            let next = formats.format_time q.created_at in
            let later : all_behind (cursor_of formats next) ≡ drop n rest =
              rw (good.not_empty, good.parse-format)
                (ap (λ (t : Time). all_behind (some t)) (sym at)
                  ∙ rest-page order status_filter submitter_filter db cursor r rest n law distinct e
                      count) in
            walk_full fuel page_token (r ∷ rest) q e good (rw size full) (rw size at)
            ∙ ap
                (and_rest
                  (map (intent_of_row formats) (take (effective_page_size page_size) (r ∷ rest))))
                (walk_from fuel next (drop n rest) n law distinct formatted size later
                  (omega (arith, length-drop n rest)))
            ∙ rw size (ap some (join_page (suc n) (r ∷ rest) count))
      ]

  size_pos : 0 < effective_page_size page_size
  unfolding effective_page_size
  size_pos = ground arith

  -- Let no two intents have one creation time. Then a client that follows the page tokens from the
  -- first page on comes to an end, and has seen every intent that passes the filters exactly once,
  -- the newest first.
  pub walk-behind :
      IsOrder order
      → IsDistinct db.intents
      → All (IsFormatted formats) db.intents
      → let all = all_behind none in
        walk (suc (length all)) "" ≡ some (map (intent_of_row formats) all)
  unfolding cursor_of
  walk-behind law distinct formatted =
      let (n, size) = is_suc (effective_page_size page_size) size_pos in
      walk_from (suc (length (all_behind none))) "" (all_behind none) n law distinct formatted size
        refl (omega arith)

  last_of_ties :
      (t : Time) (n : ℕ) (rows : List IntentRow)
      → nat_eq (length (take (suc n) rows)) (suc n) ≡ true
      → All (λ (q : IntentRow). q.created_at ≡ t) rows
      → last_created_at 0 (take (suc n) rows) ≡ t
  unfolding last_created_at
  last_of_ties t n [] full ties = absurd (ground arith)
  last_of_ties t n (r ∷ rows) full ties = rw ties.0 (last_tied t n rows ties.1)

  -- Let all intents that pass the filters have one creation time, and the first page be full. Then the
  -- client that follows the page tokens sees this page and no other intent.
  pub walk_tied :
      (fuel : ℕ) (r : IntentRow)
      → IsOrder order
      → nat_eq
          (length (take (effective_page_size page_size) (all_behind none)))
          (effective_page_size page_size)
        ≡ true
      → IsFormatted formats r
      → All (λ (q : IntentRow). q.created_at ≡ r.created_at) (all_behind none)
      → walk (suc (suc fuel)) ""
        ≡ some
            (map (intent_of_row formats) (take (effective_page_size page_size) (all_behind none)))
  unfolding cursor_of
  walk_tied fuel r law full good ties =
      let (n, size) = is_suc (effective_page_size page_size) size_pos in
      let at : last_created_at 0 (take (effective_page_size page_size) (all_behind none))
          ≡ r.created_at =
        rw size (last_of_ties r.created_at n (all_behind none) (rw (← size) full) ties) in
      let rest : all_behind (cursor_of formats (formats.format_time r.created_at)) ≡ [] =
        rw (good.not_empty, good.parse-format)
          (rest-tied order status_filter submitter_filter db r.created_at law ties) in
      walk_full (suc fuel) "" (all_behind none) r refl good full at
      ∙ ap
          (and_rest
            (map (intent_of_row formats) (take (effective_page_size page_size) (all_behind none))))
          (walk_short fuel (formats.format_time r.created_at) [] rest (rw size (ground arith)))
      ∙ ap some (append-nil _)
