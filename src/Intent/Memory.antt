-- ===== src/Intent/Memory.antt =====
-- `MemoryStore` of intent-service/store/memory.go. The mutex is held during each call, so a call is
-- one step. The map is an association list whose newest entry for a key counts; the new id, the
-- clock and fmt's reading and printing of page tokens are arguments.
pub mod Pages
pub mod Laws
use aien.Prelude.{
  ℕ, suc, ◌+◌, ◌-◌, ◌≡◌, Bool, true, false, List, [], ◌∷◌, ◌++◌, Option, none, some, String, ◌==◌,
  ltb, leb, not, ◌&&◌, length, if◌then◌else◌,
}
use aien.Prelude.Sql.{Result, ok, err}
use aien.Intent.Types.{
  Intent, IntentStatus, SubmitIntentRequest, status_unspecified, pending, Time, ℤ, pos, negsuc,
}
use aien.Intent.Filter.{matches, status_eq}

pub record MemoryStore : Type 0 where
  pub intents : List (String × Intent)
  pub ordered : List String

unfoldable pub new_memory_store : MemoryStore
new_memory_store = record { intents = []; ordered = [] }

-- `m.intents[id]`
unfoldable pub find_intent : String → List (String × Intent) → Option Intent
find_intent id [] = none
find_intent id ((k, intent) ∷ rest) = if k == id then some intent else find_intent id rest

unfoldable pub new_intent : (id : String) (now : Time) → SubmitIntentRequest → Intent
new_intent id now req = record {
  id = id;
  type_of = req.type_of;
  status = pending;
  submitter_id = req.submitter_id;
  payload = req.payload;
  constraints = req.constraints;
  signature = req.signature;
  submitter_public_key = req.submitter_public_key;
  created_at = now;
  updated_at = now;
}

unfoldable pub create :
    (id : String) (now : Time) → SubmitIntentRequest → MemoryStore → MemoryStore × Intent
create id now req m =
    let intent = new_intent id now req in
    (record { intents = (id, intent) ∷ m.intents; ordered = m.ordered ++ id ∷ [] }, intent)

-- "intent not found: %s"
pub data NotFound : Type 0 where
  not_found : String → NotFound

unfoldable pub get : String → MemoryStore → Result NotFound Intent
get id m = elim (find_intent id m.intents) [ none ↦ err (not_found id) | some i ↦ ok i ]

-- `%d` of fmt.Sscanf and fmt.Sprintf, on the page token. A token that does not parse leaves the
-- offset at 0.
pub record Tokens : Type 0 where
  pub scan_token : String → Option ℤ
  pub print_token : ℤ → String

-- `n <= start`
abbrev pub reached : ℕ → ℤ → Bool
reached n (pos s) = leb n s
reached n (negsuc s) = false

-- `start + n`
abbrev pub advance : ℤ → ℕ → ℤ
advance (pos s) n = pos (s + n)
advance (negsuc s) n = if ltb s n then pos (n - suc s) else negsuc (s - n)

-- `a < n`
abbrev pub before : ℤ → ℕ → Bool
before (pos a) n = ltb a n
before (negsuc a) n = true

-- `if pageSize <= 0 { pageSize = 20 }`
unfoldable pub effective_page_size : ℤ → ℕ
effective_page_size (pos n) = if leb n 0 then 20 else n
effective_page_size (negsuc n) = 20

-- The loop of `List` over the ids in order, with its results so far and `totalMatching`. `none`: an id
-- that the map lacks, which the invariant of the store excludes.
unfoldable pub list_loop :
    (intents : List (String × Intent)) (keep : Intent → Bool) (start : ℤ) (page_size : ℕ)
    → List String
    → List Intent
    → ℕ
    → Option (List Intent × ℕ)
list_loop intents keep start page_size [] results total = some (results, total)
list_loop intents keep start page_size (id ∷ ids) results total = elim (find_intent id intents) [
  | none ↦ none
  | some intent ↦
      list_loop intents keep start page_size ids
        (if keep intent && not (reached (suc total) start) && ltb (length results) page_size
          then results ++ intent ∷ []
          else results)
        (if keep intent then suc total else total)
]

module _ (tokens : Tokens) where
  unfoldable pub start_of : String → ℤ
  start_of page_token =
      if page_token == ""
      then pos 0
      else elim (tokens.scan_token page_token) [ none ↦ pos 0 | some n ↦ n ]

  -- The results with the next page token, which is empty on the last page.
  abbrev pub with_next : ℤ → Option (List Intent × ℕ) → Option (List Intent × String × ℕ)
  with_next start none = none
  with_next start (some (results, total)) =
      let next = advance start (length results) in
      some (results, if before next total then tokens.print_token next else "", total)

  -- The page, the next token and the number of matching intents.
  unfoldable pub list_intents :
      (status_filter : IntentStatus) (submitter_filter : String) (page_size : ℤ)
      (page_token : String)
      → MemoryStore
      → Option (List Intent × String × ℕ)
  list_intents status_filter submitter_filter page_size page_token m =
      with_next (start_of page_token) (
        list_loop m.intents (matches status_filter submitter_filter) (start_of page_token)
          (effective_page_size page_size) m.ordered [] 0)
