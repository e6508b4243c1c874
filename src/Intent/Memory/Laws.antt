-- ===== src/Intent/Memory/Laws.antt =====
-- `Create` and `Get` of the memory store, and a walk over its pages.
use mathlib.Core.List.{append-nil}
use aien.Prelude.{
  ℕ, zero, suc, ◌+◌, ◌-◌, ◌<◌, ◌≡◌, refl, false, List, [], ◌∷◌, ◌++◌, Option, none, some, String,
  ◌==◌, ==_iff, ltb, length, take, drop, if◌then◌else◌, arith, Bool-cases, inl, inr, sym, ap,
  ltb→lt, length-take, length-drop, take-append-drop, drop-drop, drop_all, ◌∙◌,
}
use aien.Prelude.Sql.{ok}
use aien.Intent.Types.{Intent, IntentStatus, SubmitIntentRequest, Time, ℤ, pos}
use aien.Intent.Filter.{matches}
use aien.Intent.Memory.{
  MemoryStore, find_intent, new_intent, create, get, Tokens, effective_page_size, start_of,
  list_intents,
}
use aien.Intent.Memory.Pages.{filter_by, Resolves, IsStore, list_intents-page}

-- After `Create`, `Get` finds the new intent under its id and every other id as before.
pub get-create :
    (id k : String) (now : Time) (req : SubmitIntentRequest) (m : MemoryStore)
    → get k (create id now req m).0 ≡ (if id == k then ok (new_intent id now req) else get k m)
unfolding get create find_intent
get-create id k now req m = ground (arith, ==_iff id k)

Resolves-fresh :
    (id : String) (r : Intent) (intents : List (String × Intent)) (ids : List String)
    (rows : List Intent)
    → find_intent id intents ≡ none
    → Resolves intents ids rows
    → Resolves ((id, r) ∷ intents) (ids ++ id ∷ []) (rows ++ r ∷ [])
unfolding find_intent
Resolves-fresh id r intents [] [] fresh h = ground (arith, ==_iff id id)
Resolves-fresh id r intents [] (s ∷ rows) fresh h = absurd h
Resolves-fresh id r intents (k ∷ ids) [] fresh h = absurd h
Resolves-fresh id r intents (k ∷ ids) (s ∷ rows) fresh h =
    (ground (arith, ==_iff id k), Resolves-fresh id r intents ids rows fresh h.1)

-- `Create` with a new id adds the intent at the end of the list and keeps the invariant.
pub create-IsStore :
    (id : String) (now : Time) (req : SubmitIntentRequest) (m : MemoryStore) (rows : List Intent)
    → find_intent id m.intents ≡ none
    → IsStore m rows
    → IsStore (create id now req m).0 (rows ++ new_intent id now req ∷ [])
unfolding create
create-IsStore id now req m rows fresh h = record {
  resolves = Resolves-fresh id (new_intent id now req) m.intents m.ordered rows fresh h.resolves;
}

-- What the store relies on in fmt: a printed offset is scanned back, and is not empty.
pub record IsToken (tokens : Tokens) : Type 0 where
  pub scan-print : (n : ℕ) → tokens.scan_token (tokens.print_token (pos n)) ≡ some (pos n)
  pub not_empty : (n : ℕ) → (tokens.print_token (pos n) == "") ≡ false

-- The page, and behind it the pages from its next token on.
abbrev and_rest : List Intent → Option (List Intent) → Option (List Intent)
and_rest page none = none
and_rest page (some rest) = some (page ++ rest)

abbrev follow :
    Option (List Intent × String × ℕ) → (String → Option (List Intent)) → Option (List Intent)
follow none visit = none
follow (some (page, next, total)) visit =
    if next == "" then some page else and_rest page (visit next)

module _ (tokens : Tokens) (status_filter : IntentStatus) (submitter_filter : String)
    (page_size : ℤ) where
  -- A client that asks for page after page, until the next token is empty; `none` where it has not
  -- come to the last page after `fuel` pages.
  unfoldable pub walk : ℕ → (page_token : String) → MemoryStore → Option (List Intent)
  walk zero page_token m = none
  walk (suc fuel) page_token m =
      follow (list_intents tokens status_filter submitter_filter page_size page_token m)
        (λ next. walk fuel next m)

  effective_page_size_pos : 0 < effective_page_size page_size
  unfolding effective_page_size
  effective_page_size_pos = ground arith

  start_of-print :
      (law : IsToken tokens) (n : ℕ) → start_of tokens (tokens.print_token (pos n)) ≡ pos n
  unfolding start_of
  start_of-print law n = rw (law.not_empty n, law.scan-print n)

  walk_from :
      (law : IsToken tokens) (m : MemoryStore) (rows : List Intent) (fuel start : ℕ)
      (page_token : String)
      → IsStore m rows
      → start_of tokens page_token ≡ pos start
      → length (filter_by (matches status_filter submitter_filter) rows) - start < fuel
      → walk fuel page_token m
        ≡ some (drop start (filter_by (matches status_filter submitter_filter) rows))
  unfolding walk
  walk_from law m rows zero start page_token h e lt = absurd (omega arith)
  walk_from law m rows (suc fuel) start page_token h e lt =
      let all = filter_by (matches status_filter submitter_filter) rows in
      let size = effective_page_size page_size in
      let page = take size (drop start all) in
      let next : ℕ = start + length page in
      let listed =
        list_intents-page tokens status_filter submitter_filter page_size page_token m rows start h
          e in
      let joined : page ++ drop next all ≡ drop start all =
        ap (λ (r : List Intent). page ++ r) (drop-drop start (length page) all)
        ∙ take-append-drop size (drop start all) in
      elim (Bool-cases (ltb next (length all))) [
        | inl more ↦
            let shorter : length all - next < fuel = omega (
              arith,
              ltb→lt next (length all) more,
              length-take size (drop start all),
              length-drop start all,
              effective_page_size_pos,
            ) in
            rw listed (
              rw
                (
                  more,
                  law.not_empty next,
                  walk_from law m rows fuel next (tokens.print_token (pos next)) h
                      (start_of-print law next) shorter,
                )
                (ap some joined))
        | inr last ↦
            let rest : drop next all ≡ [] = drop_all next all (ground arith) in
            let whole : page ≡ drop start all =
              sym (append-nil page) ∙ ap (λ (r : List Intent). page ++ r) (sym rest) ∙ joined in
            rw listed (rw last (ap some whole))
      ]

  -- Following the next tokens from the first page on, a client sees every matching intent exactly
  -- once, in the order of creation, and comes to an end.
  pub walk-behind :
      (m : MemoryStore) (rows : List Intent)
      → IsToken tokens
      → IsStore m rows
      → let all = filter_by (matches status_filter submitter_filter) rows in
        walk (suc (length all)) "" m ≡ some all
  walk-behind m rows law h =
      let all = filter_by (matches status_filter submitter_filter) rows in
      walk_from law m rows (suc (length all)) 0 "" h (unfold start_of in refl) (omega arith)
