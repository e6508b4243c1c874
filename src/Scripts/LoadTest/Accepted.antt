-- ===== src/Scripts/LoadTest/Accepted.antt =====
-- The load test's request on its way: it passes the gateway's middlewares and its handler
-- and the intent service, over any store.
use aien.Prelude.{
  ℕ, ◌+◌, ltb, Bool, false, ◌≡◌, refl, ◌≢◌, ap, ◌∙◌, Option, none, some, String, arith,
}
use aien.Prelude.Sql.{Result, ok, err}
use aien.Grpc.{Status}
use aien.Crypto.{Bytes, Primitives, get_sign_bytes}
use aien.Crypto.Laws.{IsSignature, sign-encode, verify-encode}
use aien.Intent.Types.{SubmitIntentRequest, SubmitIntentResponse, Intent, transfer}
use aien.Intent.Names.{type_string}
use aien.Intent.Handler.{Store, Message, submit_intent}
use aien.Intent.Handler.Submit.{IsSigned, IsSigned-check_request}
use aien.Gateway.Http.{parse_http_type}
use aien.Gateway.Submit.{
  SubmitIntentHttpRequest, handle_intents, to_submit, Redis, Call, Reply, answer, translate, cached,
  submitted,
}
use aien.Gateway.Submit
use aien.Gateway.Jwt.{Coding}
use aien.Gateway.Jwt.RoundTrip.{IsCoding}
use aien.Gateway.Limit.{next, rate_limit}
use aien.Gateway.Server.{intents, reached, serve}
use aien.Gateway.Server.Authorized.{submission, serve-submission}
use aien.Scripts.LoadTest.{IntentPayload, make_request}

-- What the gateway's client makes of an answer of the intent service.
abbrev pub as_call :
    {S E A : Type 0} → (Message E → String) → S × Result (Status (Message E)) A → S × Call A
as_call message (s, ok a) = (s, ok a)
as_call message (s, err st) =
    (s, err (some (record { code = st.code; message = message st.message })))

-- The intent service on a store, as the gateway's client calls it.
abbrev pub service :
    {S E : Type 0}
    → Primitives
    → Store S E
    → (Message E → String)
    → SubmitIntentRequest
    → S
    → S × Call SubmitIntentResponse
service prim store message req s = as_call message (submit_intent prim store req s)

answered_call :
    {S E R : Type 0} (redis : Redis R)
    (rpc : SubmitIntentRequest → S → S × Call SubmitIntentResponse)
    (render : SubmitIntentResponse → Option String) (message : Message E → String)
    (signature : String) (r : R) (p : S × Result (Status (Message E)) SubmitIntentResponse)
    (response : SubmitIntentResponse)
    → p.1 ≡ ok response
    → let c = submitted redis rpc render signature r (as_call message p) in
      (c.2 ≡ answer 201 response) × (c.1 ≡ p.0)
answered_call redis rpc render message signature r (s, ok a) response h = (ground (arith, h), refl)
answered_call redis rpc render message signature r (s, err st) response h = absurd (ground arith)

abbrev pub response_of : Intent → SubmitIntentResponse
response_of intent = record {
  intent_id = intent.id;
  status = intent.status;
  created_at = intent.created_at;
}

submit_stored :
    {S E : Type 0} (prim : Primitives) (store : Store S E) (req : SubmitIntentRequest) (s s' : S)
    (intent : Intent)
    → IsSigned prim req
    → store.create req s ≡ (s', ok intent)
    → ((submit_intent prim store req s).1 ≡ ok (response_of intent))
      × ((submit_intent prim store req s).0 ≡ s')
unfolding submit_intent
submit_stored {E = E} prim store req s s' intent signed created =
    rw (IsSigned-check_request {E = E} prim req signed, created) (refl, refl)

module _ {Amount : Type 0} (marshal : IntentPayload Amount → Bytes) (prim : Primitives)
    (public private : Bytes) (tx : IntentPayload Amount) where
  abbrev pub request : SubmitIntentHttpRequest
  request = record {
    type_name = "TRANSFER";
    payload = marshal tx;
    submitter_id = tx.from;
    signature =
        prim.encode
          (prim.ed_sign private (get_sign_bytes "INTENT_TYPE_TRANSFER" tx.from (marshal tx)));
    submitter_public_key = prim.encode public;
    constraints = none;
  }

  make_request-request :
      IsSignature prim public private
      → make_request marshal prim (prim.encode public) (prim.encode private) tx ≡ ok request
  unfolding make_request
  make_request-request h =
      rw
        (sign-encode prim public private
          (get_sign_bytes "INTENT_TYPE_TRANSFER" tx.from (marshal tx)) h)
        refl

  request-IsSigned :
      IsSignature prim public private
      → tx.from ≢ ""
      → prim.encode public ≢ ""
      → request.signature ≢ ""
      → IsSigned prim (translate transfer request)
  unfolding translate type_string
  request-IsSigned h named keyed signed =
      let message = get_sign_bytes "INTENT_TYPE_TRANSFER" tx.from (marshal tx) in
      record {
        typed = refl;
        submitter = named;
        keyed = keyed;
        signed = signed;
        verified =
            verify-encode prim public private message message h ∙ ap ok (h.verify-sign message);
      }

  -- Let the key pair sign, let the sender, the key and the signature not be empty, and let the store take the
  -- intent. Let the load test's token be one that the gateway made at most a day ago, the limiter let the
  -- request pass, and the idempotency cache have no answer. Then the request that the load test makes
  -- reaches the submissions as the token's user, the gateway answers 201 with what the store gave, and
  -- the store has taken the request with the sender as its submitter.
  pub request-accepted :
      {S E R Q : Type 0} (incr : String → Q → Q × Option ℕ) (coding : Coding) (disabled : Bool)
      (made clock : ℕ) (minute_key : String) (username : Bytes) (q : Q) (remaining : Option ℕ)
      (redis : Redis R) (render : SubmitIntentResponse → Option String) (store : Store S E)
      (message : Message E → String) (r : R) (s s' : S) (intent : Intent)
      → IsCoding coding
      → ltb (made + 86400) clock ≡ false
      → (rate_limit incr disabled "POST" "/intents" minute_key q).1 ≡ next remaining
      → IsSignature prim public private
      → tx.from ≢ ""
      → prim.encode public ≢ ""
      → request.signature ≢ ""
      → cached redis (service prim store message) render request.signature r ≡ none
      → store.create (translate transfer request) s ≡ (s', ok intent)
      → let gw = Submit.submit_intent redis (service prim store message) render (ok request) r s in
        (make_request marshal prim (prim.encode public) (prim.encode private) tx ≡ ok request)
        × ((serve incr coding disabled clock minute_key (submission coding made username) q).1
            ≡ reached (some username) intents)
        × (handle_intents "POST" ≡ to_submit)
        × (gw.2 ≡ answer 201 (response_of intent))
        × (gw.1 ≡ s')
  unfolding Submit.submit_intent parse_http_type translate handle_intents
  request-accepted incr coding disabled made clock minute_key username q remaining redis render
        store message r s s' intent law live left h named keyed signed miss created =
      let req = translate transfer request in
      let (answered, stored) =
        submit_stored prim store req s s' intent (request-IsSigned h named keyed signed) created in
      let (replied, kept) =
        answered_call redis (service prim store message) render message request.signature r
          (submit_intent prim store req s) _ answered in
      (
        make_request-request h,
        serve-submission incr coding disabled made clock minute_key username q remaining law live
            left,
        refl,
        rw miss replied,
        rw miss (kept ∙ stored),
      )
