-- ===== src/Intent/Handler.antt =====
-- intent-service/handler/handler.go: the three gRPC methods over the interface `Store` of
-- intent-service/store/store.go. A store with the state `S` is a record of its operations.
pub mod Submit
use aien.Prelude.{Option, none, some, ℕ, Bool, true, false, List, String, ◌==◌, if◌then◌else◌}
use aien.Prelude.Decimal.{int32}
use aien.Prelude.Sql.{Result, ok, err, unless, Server}
use aien.Grpc.{Status, Code, invalid_argument, not_found, internal, unauthenticated}
use aien.Crypto.{Primitives, CryptoError, get_sign_bytes, verify}
use aien.Intent.Types.{
  Intent, IntentStatus, IntentType, type_unspecified, transfer, compute, query, scheduled_type,
  type_number, SubmitIntentRequest, SubmitIntentResponse, ListIntentsRequest, ListIntentsResponse,
  Time, ℤ,
}
use aien.Intent.Names.{type_string}
use aien.Intent.Memory.{MemoryStore, NotFound, Tokens}
use aien.Intent.Memory
use aien.Intent.Postgres.{Formats, StoreError, Statement}
use aien.Intent.Postgres
use aien.Intent.Table.{Database}

-- `E` is the type of the store's errors.
pub record Store (S E : Type 0) : Type 0 where
  pub create : SubmitIntentRequest → S → S × Result E Intent
  pub get : String → S → Result E Intent
  pub list :
      (status_filter : IntentStatus) (submitter_filter : String) (page_size : ℤ)
      (page_token : String)
      → S
      → Result E (List Intent × String × ℕ)

-- The messages of the handler: a text of its own, or an error that it passes on.
pub data Message (E : Type 0) : Type 0 where
  text : String → Message E
  failed_to_decode : CryptoError → Message E
  failed_to_create failed_to_list : E → Message E
  intent_not_found : String → Message E

abbrev pub is_unspecified : IntentType → Bool
is_unspecified type_unspecified = true
is_unspecified _ = false

module _ {E : Type 0} where
  abbrev pub refusal : Code → Message E → Status (Message E)
  refusal c msg = record { code = c; message = msg }

  abbrev checked : Result CryptoError Bool → Result (Status (Message E)) (Unit {0})
  checked (err e) = err (refusal invalid_argument (failed_to_decode e))
  checked (ok false) = err (refusal unauthenticated (text "invalid cryptographic signature"))
  checked (ok true) = ok tt

  -- The part of `SubmitIntent` before the store is called.
  unfoldable pub check_request :
      Primitives → SubmitIntentRequest → Result (Status (Message E)) (Unit {0})
  check_request prim req =
      unless (is_unspecified req.type_of)
        (refusal invalid_argument (text "intent type is required"))
        (unless (req.submitter_id == "")
          (refusal invalid_argument (text "submitter_id is required"))
          (unless (req.submitter_public_key == "")
            (refusal invalid_argument (text "submitter_public_key is required"))
            (unless (req.signature == "") (refusal invalid_argument (text "signature is required"))
              (checked (
                verify prim (get_sign_bytes (type_string req.type_of) req.submitter_id req.payload)
                  req.signature req.submitter_public_key)))))

module _ {E : Type 0} where
  abbrev found : String → Result E Intent → Result (Status (Message E)) Intent
  found id (ok intent) = ok intent
  found id (err e) = err (refusal not_found (intent_not_found id))

  abbrev listed :
      Result E (List Intent × String × ℕ) → Result (Status (Message E)) ListIntentsResponse
  listed (err e) = err (refusal internal (failed_to_list e))
  listed (ok (intents, next, total)) =
      ok (record { intents = intents; next_page_token = next; total_count = int32 total })

module _ {S E : Type 0} where
  abbrev pub submitted : S × Result E Intent → S × Result (Status (Message E)) SubmitIntentResponse
  submitted (s, ok intent) = (
    s,
    ok (record { intent_id = intent.id; status = intent.status; created_at = intent.created_at }),
  )
  submitted (s, err e) = (s, err (refusal internal (failed_to_create e)))

  abbrev pub when_checked :
      Result (Status (Message E)) (Unit {0})
      → S
      → (S × Result E Intent)
      → S × Result (Status (Message E)) SubmitIntentResponse
  when_checked (err st) s r = (s, err st)
  when_checked (ok u) s r = submitted r

  -- `SubmitIntent`
  unfoldable pub submit_intent :
      Primitives
      → Store S E
      → SubmitIntentRequest
      → S
      → S × Result (Status (Message E)) SubmitIntentResponse
  submit_intent prim store req s = when_checked (check_request prim req) s (store.create req s)

  -- `GetIntent`
  unfoldable pub get_intent : Store S E → String → S → Result (Status (Message E)) Intent
  get_intent store id s =
      unless (id == "") (refusal invalid_argument (text "intent_id is required"))
        (found id (store.get id s))

  -- `ListIntents`
  unfoldable pub list_intents :
      Store S E → ListIntentsRequest → S → Result (Status (Message E)) ListIntentsResponse
  list_intents store req s =
      listed (store.list req.status_filter req.submitter_id_filter req.page_size req.page_token s)

-- The in-memory store. Its `List` gives no error; the store's invariant excludes the `none` of the
-- model, which is answered here like a missing intent.
abbrev memory_page : Option (List Intent × String × ℕ) → Result NotFound (List Intent × String × ℕ)
memory_page none = err (Memory.not_found "")
memory_page (some page) = ok page

abbrev with_ok : MemoryStore × Intent → MemoryStore × Result NotFound Intent
with_ok (m, intent) = (m, ok intent)

unfoldable pub memory_store : Tokens → (id : String) → (now : Time) → Store MemoryStore NotFound
memory_store tokens id now = record {
  create = λ req m. with_ok (Memory.create id now req m);
  get = Memory.get;
  list = λ st sub size token m. memory_page (Memory.list_intents tokens st sub size token m);
}
