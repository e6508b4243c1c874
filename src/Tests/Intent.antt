-- ===== src/Tests/Intent.antt =====
-- The intent service on one request.
use aien.Prelude.{
  ◌+◌, ◌==◌, ◌≡◌, refl, ◌⊎◌, true, [], ◌∷◌, ◌++◌, none, some, differ, length, take, drop, ltb,
  if◌then◌else◌,
}
use aien.Prelude.Sql.{ok, err, up}
use aien.Grpc.{Status}
use aien.Crypto.{Bytes, Primitives}
use aien.Intent.Types.{transfer, SubmitIntentRequest, pending, status_unspecified, pos}
use aien.Intent.Filter.{matches}
use aien.Intent.Memory.{
  MemoryStore, new_memory_store, Tokens, new_intent, create, list_intents, effective_page_size,
  NotFound,
}
use aien.Intent.Memory.Pages.{filter_by, list_intents-page}
use aien.Intent.Table.{Database}
use aien.Intent.Postgres.{Formats}
use aien.Intent.Postgres
use aien.Intent.Postgres.Create.{Written, create-Written}
use aien.Intent.Handler.{Message, submit_intent, get_intent, memory_store}
use aien.Intent.Handler.Submit.{IsSigned, submit_intent-cases, submit_then_get}

abbrev pub zeros_32 : Bytes
zeros_32 =
    0 ∷ 0 ∷ 0 ∷ 0 ∷ 0 ∷ 0 ∷ 0 ∷ 0 ∷ 0 ∷ 0 ∷ 0 ∷ 0 ∷ 0 ∷ 0 ∷ 0 ∷ 0 ∷ 0 ∷ 0 ∷ 0 ∷ 0 ∷ 0 ∷ 0 ∷ 0 ∷ 0
    ∷ 0 ∷ 0 ∷ 0 ∷ 0 ∷ 0 ∷ 0 ∷ 0 ∷ 0 ∷ []

-- The text "key" stands for a key of 32 bytes, any other for a signature of 64.
abbrev toy : Primitives
toy = record {
  encode = λ b. "hex";
  decode = λ s. some (if s == "key" then zeros_32 else zeros_32 ++ zeros_32);
  ed_sign = λ key m. zeros_32 ++ zeros_32;
  ed_verify = λ key m sig. true;
}

abbrev request : SubmitIntentRequest
request = record {
  type_of = transfer;
  payload = b'{' ∷ b'}' ∷ [];
  constraints = none;
  submitter_id = "alice";
  signature = "sig";
  submitter_public_key = "key";
}

abbrev pub tokens : Tokens
tokens = record { scan_token = λ s. none; print_token = λ n. "token" }

request-IsSigned : IsSigned toy request
unfolding aien.Crypto.verify
request-IsSigned = record {
  typed = refl;
  submitter = differ "alice" "" refl;
  keyed = differ "key" "" refl;
  signed = differ "sig" "" refl;
  verified = refl;
}

submit_intent-cases_example :
    let r = submit_intent toy (memory_store tokens "id1" 7) request new_memory_store in
    ((r.0 ≡ new_memory_store) × ((st : Status (Message NotFound)) × (r.1 ≡ err st)))
    ⊎ (IsSigned toy request
        × (r.0 ≡ ((memory_store tokens "id1" 7).create request new_memory_store).0))
submit_intent-cases_example =
    submit_intent-cases toy (memory_store tokens "id1" 7) request new_memory_store

submit_then_get_example :
    let store = memory_store tokens "id1" 7 in
    let r = submit_intent toy store request new_memory_store in
    (r.1 ≡ ok (record { intent_id = "id1"; status = pending; created_at = 7 }))
    × (get_intent store "id1" r.0 ≡ ok (new_intent "id1" 7 request))
submit_then_get_example =
    submit_then_get toy tokens "id1" 7 request new_memory_store request-IsSigned
      (differ "id1" "" refl)

abbrev pub formats : Formats
formats = record {
  marshal = λ i. some i.payload;
  column_time = λ t. t;
  parse_time = λ s. none;
  format_time = λ t. "";
}

abbrev pub empty : Database
empty = record { intents = []; outbox = [] }

create-Written_example :
    let db' = (Postgres.create formats up "id1" "ev1" 7 request empty).0 in
    (db' ≡ empty) ⊎ Written formats "id1" "ev1" 7 request empty db'
create-Written_example = create-Written formats up "id1" "ev1" 7 request empty

abbrev one_intent : MemoryStore
one_intent = record { intents = ("id1", new_intent "id1" 7 request) ∷ []; ordered = "id1" ∷ [] }

list_intents-page_example :
    let all = filter_by (matches status_unspecified "") (new_intent "id1" 7 request ∷ []) in
    let page = take (effective_page_size (pos 1)) (drop 0 all) in
    list_intents tokens status_unspecified "" (pos 1) "" one_intent
    ≡ some (
      page,
      (if ltb (0 + length page) (length all)
          then tokens.print_token (pos (0 + length page))
          else ""),
      length all,
    )
unfolding aien.Intent.Memory.find_intent aien.Intent.Memory.start_of
list_intents-page_example =
    list_intents-page tokens status_unspecified "" (pos 1) "" one_intent
      (new_intent "id1" 7 request ∷ []) 0 (record { resolves = (refl, tt) }) refl
