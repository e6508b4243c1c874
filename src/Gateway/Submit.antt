-- ===== src/Gateway/Submit.antt =====
-- gateway/main.go: `handleIntents`, `submitIntent`, `handleIntentByID` and `listIntents`. Redis and the
-- gRPC client of the intent service are parameters, with the states `R` and `S`; reading the body
-- and encoding/json are parameters too.
pub mod Twice
use Prim.Native.String.{◌++◌ as append}
use aien.Prelude.{
  ap, ℕ, ◌≡◌, ◌≢◌, refl, Bool, true, false, List, Option, none, some, String, ◌==◌, ==_iff, not,
  ◌&&◌, if◌then◌else◌, arith,
}
use aien.Prelude.Sql.{Result, ok, err}
use aien.Grpc.{Status}
use aien.Intent.Types.{
  Intent, IntentConstraints, IntentType, SubmitIntentRequest, SubmitIntentResponse,
  ListIntentsRequest, ListIntentsResponse, status_unspecified, Bytes, ℤ, pos,
}
use aien.Intent.Handler.{is_unspecified}
use aien.Gateway.Http.{parse_http_type, handle_grpc_error}

pub record ConstraintsHttp : Type 0 where
  pub priority : ℤ
  pub max_retries : ℤ
  pub idempotent : Bool
  pub deadline : String

pub record SubmitIntentHttpRequest : Type 0 where
  pub type_name : String
  pub payload : Bytes
  pub submitter_id : String
  pub signature : String
  pub submitter_public_key : String
  pub constraints : Option ConstraintsHttp

abbrev pub translate_constraints : Option ConstraintsHttp → Option IntentConstraints
translate_constraints none = none
translate_constraints (some c) = some (record {
  deadline = none;
  priority = c.priority;
  max_retries = c.max_retries;
  idempotent = c.idempotent;
})

unfoldable pub translate : IntentType → SubmitIntentHttpRequest → SubmitIntentRequest
translate t req = record {
  type_of = t;
  payload = req.payload;
  constraints = translate_constraints req.constraints;
  submitter_id = req.submitter_id;
  signature = req.signature;
  submitter_public_key = req.submitter_public_key;
}

-- The answers of the gateway: a cached body, the JSON of a response, or an error with its status.
pub data Reply (A : Type 0) : Type 0 where
  hit : (body : String) → Reply A
  answer : (status : ℕ) → A → Reply A
  failure : (status : ℕ) → (message : String) → Reply A

-- A gRPC call ends with a response or an error, which is a status or not.
abbrev pub Call : Type 0 → Type 0
Call A = Result (Option (Status String)) A

abbrev pub grpc_failure : {A : Type 0} → Option (Status String) → Reply A
grpc_failure e = failure (handle_grpc_error e).0 (handle_grpc_error e).1

pub record Redis (R : Type 0) : Type 0 where
  -- `none`: an error, or no such key
  pub get : String → R → Option String
  -- with a life of 24 hours, whose errors are dropped
  pub set : (key body : String) → R → R

abbrev pub idempotency_key : String → String
idempotency_key signature = append "idempotency:" signature

-- `err == nil && cachedResp != ""`
abbrev pub usable : Option String → Option String
usable none = none
usable (some body) = if body == "" then none else some body

module _ {R S : Type 0} (redis : Redis R)
    (submit_rpc : SubmitIntentRequest → S → S × Call SubmitIntentResponse)
    (render : SubmitIntentResponse → Option String) where
  -- The body is kept in the cache if it could be encoded.
  abbrev pub remember : (signature : String) → Option String → R → R
  remember signature none r = r
  remember signature (some body) r =
      if signature == "" then r else redis.set (idempotency_key signature) body r

  abbrev pub submitted :
      (signature : String) → R → S × Call SubmitIntentResponse → R × S × Reply SubmitIntentResponse
  submitted signature r (s, err e) = (r, s, grpc_failure e)
  submitted signature r (s, ok response) =
      (remember signature (render response) r, s, answer 201 response)

  -- The cache is not asked for a request without a signature.
  abbrev pub cached : (signature : String) → R → Option String
  cached signature r =
      if signature == "" then none else usable (redis.get (idempotency_key signature) r)

  abbrev pub unless_cached :
      Option String → SubmitIntentRequest → R → S → R × S × Reply SubmitIntentResponse
  unless_cached (some body) req r s = (r, s, hit body)
  unless_cached none req r s = submitted req.signature r (submit_rpc req s)

  -- `submitIntent` on the parsed body, or the message that it could not be read or parsed.
  unfoldable pub submit_intent :
      Result String SubmitIntentHttpRequest → R → S → R × S × Reply SubmitIntentResponse
  submit_intent (err message) r s = (r, s, failure 400 message)
  submit_intent (ok req) r s =
      let t = parse_http_type req.type_name in
      if is_unspecified t
      then (r, s, failure 400 (append "invalid intent type: " req.type_name))
      else unless_cached (cached req.signature r) (translate t req) r s

-- `handleIntents`
pub data Route : Type 0 where
  to_submit to_list method_not_allowed : Route

unfoldable pub handle_intents : (method : String) → Route
handle_intents method =
    if method == "POST" then to_submit else if method == "GET" then to_list else method_not_allowed

module _ {S : Type 0} (get_rpc : String → S → Call Intent)
    (list_rpc : ListIntentsRequest → S → Call ListIntentsResponse) where
  abbrev pub reply : {A : Type 0} → Call A → Reply A
  reply (ok a) = answer 200 a
  reply (err e) = grpc_failure e

  -- `handleIntentByID`, with the part of the path behind "/intents/".
  unfoldable pub handle_intent_by_id : (method id : String) → S → Reply Intent
  handle_intent_by_id method id s =
      if not (method == "GET")
      then failure 405 "Method not allowed"
      else if id == ""
      then failure 400 "intent_id is required in path"
      else reply (get_rpc id s)

  -- `listIntents`: no filter by status, and no page size.
  unfoldable pub list_intents : (submitter_id page_token : String) → S → Reply ListIntentsResponse
  list_intents submitter_id page_token s = reply (
      list_rpc
        (record {
          status_filter = status_unspecified;
          submitter_id_filter = submitter_id;
          page_size = pos 0;
          page_token = page_token;
        })
        s)
