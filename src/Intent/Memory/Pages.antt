-- ===== src/Intent/Memory/Pages.antt =====
-- `List` of the memory store against its specification: a page of the matching intents.
use mathlib.Core.List.{append_assoc, append-nil}
use aien.Prelude.{
  ℕ, zero, suc, ◌+◌, ◌-◌, ◌≡◌, refl, Bool, List, [], ◌∷◌, ◌++◌, some, String, ltb, leb, not, ◌&&◌,
  length, take, drop, if◌then◌else◌, arith, Bool-cases, inl, inr, length-append,
}
use aien.Intent.Types.{Intent, IntentStatus, ℤ, pos}
use aien.Intent.Filter.{matches}
use aien.Intent.Memory.{
  MemoryStore, find_intent, list_loop, Tokens, effective_page_size, start_of, list_intents,
}

-- The intents that pass the filter, in order.
abbrev pub filter_by : (Intent → Bool) → List Intent → List Intent
filter_by keep [] = []
filter_by keep (r ∷ rows) = if keep r then r ∷ filter_by keep rows else filter_by keep rows

-- The map holds these intents under these ids.
abbrev pub Resolves : List (String × Intent) → List String → List Intent → Type 0
Resolves intents [] [] = Unit
Resolves intents [] (r ∷ rows) = ⊥
Resolves intents (id ∷ ids) [] = ⊥
Resolves intents (id ∷ ids) (r ∷ rows) =
    (find_intent id intents ≡ some r) × Resolves intents ids rows

-- The intents of the store in the order of their creation.
pub record IsStore (m : MemoryStore) (rows : List Intent) : Type 0 where
  pub resolves : Resolves m.intents m.ordered rows

drop-nil : (n : ℕ) → drop {A = Intent} n [] ≡ []
drop-nil zero = refl
drop-nil (suc n) = refl

take-nil : (n : ℕ) → take {A = Intent} n [] ≡ []
take-nil zero = refl
take-nil (suc n) = refl

-- The page after `results`, where `total` matching intents have been passed.
page_after : ℕ → ℕ → List Intent → ℕ → List Intent → List Intent
page_after start page_size results total all =
    results ++ take (page_size - length results) (drop (start - total) all)

-- One matching intent more: it is skipped, taken, or does not fit.
page_after-cons :
    (start page_size : ℕ) (results : List Intent) (total : ℕ) (r : Intent) (all : List Intent)
    → page_after start page_size
        (if not (leb (suc total) start) && ltb (length results) page_size
          then results ++ r ∷ []
          else results)
        (suc total)
        all
      ≡ page_after start page_size results total (r ∷ all)
unfolding page_after
page_after-cons start page_size results total r all = elim (Bool-cases (leb (suc total) start)) [
  | inl skip ↦ let e : start - total ≡ suc (start - suc total) = ground arith in rw (skip, e)
  | inr past ↦
      let e : start - total ≡ 0 = ground arith in
      let e' : start - suc total ≡ 0 = ground arith in
      elim (Bool-cases (ltb (length results) page_size)) [
        | inl room ↦
            let k : page_size - length results ≡ suc (page_size - suc (length results)) =
              ground arith in
            let n : length (results ++ r ∷ []) ≡ suc (length results) =
              omega (arith, length-append results (r ∷ [])) in
            rw (past, room, e, e', k, n)
              (append_assoc results (r ∷ []) (take (page_size - suc (length results)) all))
        | inr full ↦
            let k : page_size - length results ≡ 0 = ground arith in rw (past, full, e, e', k)
      ]
]

page_after-nil :
    (start page_size : ℕ) (results : List Intent) (total : ℕ)
    → page_after start page_size results total [] ≡ results
unfolding page_after
page_after-nil start page_size results total =
    rw (drop-nil (start - total), take-nil (page_size - length results)) (append-nil results)

list_loop-page :
    (intents : List (String × Intent)) (keep : Intent → Bool) (start page_size : ℕ)
    (ids : List String) (rows results : List Intent) (total : ℕ)
    → Resolves intents ids rows
    → list_loop intents keep (pos start) page_size ids results total
      ≡ some (
        page_after start page_size results total (filter_by keep rows),
        total + length (filter_by keep rows),
      )
unfolding list_loop
list_loop-page intents keep start page_size [] [] results total h =
    ground (arith, page_after-nil start page_size results total)
list_loop-page intents keep start page_size [] (r ∷ rows) results total h = absurd h
list_loop-page intents keep start page_size (id ∷ ids) [] results total h = absurd h
list_loop-page intents keep start page_size (id ∷ ids) (r ∷ rows) results total h =
    elim (Bool-cases (keep r)) [
      | inl kept ↦
          rw (h.0, list_loop, kept)
            (rw (list_loop-page intents keep start page_size ids rows _ (suc total) h.1) (
              rw (page_after-cons start page_size results total r (filter_by keep rows))
                (ground arith)))
      | inr dropped ↦
          rw (h.0, list_loop, dropped)
            (list_loop-page intents keep start page_size ids rows results total h.1)
    ]

-- On a store that keeps its invariant, with a page token that stands for the offset `start`,
-- `List` returns the matching intents from `start` on, as many as fit on a page; their number;
-- and the token of the next offset while there are more.
pub list_intents-page :
    (tokens : Tokens) (status_filter : IntentStatus) (submitter_filter : String) (page_size : ℤ)
    (page_token : String) (m : MemoryStore) (rows : List Intent) (start : ℕ)
    → IsStore m rows
    → start_of tokens page_token ≡ pos start
    → let all = filter_by (matches status_filter submitter_filter) rows in
      let page = take (effective_page_size page_size) (drop start all) in
      list_intents tokens status_filter submitter_filter page_size page_token m
      ≡ some (
        page,
        (if ltb (start + length page) (length all)
            then tokens.print_token (pos (start + length page))
            else ""),
        length all,
      )
unfolding list_intents page_after
list_intents-page tokens status_filter submitter_filter page_size page_token m rows start h e =
    rw e (
      rw
        (list_loop-page m.intents (matches status_filter submitter_filter) start
          (effective_page_size page_size) m.ordered rows [] 0 h.resolves)
        (ground arith))
