-- ===== src/Gateway/Submit/Twice.antt =====
-- The idempotency filter of the gateway: a signature that has been accepted is answered from the cache.
use Prim.Native.String.{◌++◌ as append}
use aien.Prelude.{
  ◌≡◌, ◌≢◌, refl, Bool, true, false, Option, none, some, String, ==_iff, if◌then◌else◌, arith, ap,
  ◌∙◌,
}
use aien.Prelude.Sql.{ok, err}
use aien.Intent.Types.{SubmitIntentRequest, SubmitIntentResponse}
use aien.Intent.Handler.{is_unspecified}
use aien.Gateway.Http.{parse_http_type}
use aien.Gateway.Submit.{
  SubmitIntentHttpRequest, translate, hit, answer, failure, Call, Redis, idempotency_key, remember,
  submitted, cached, unless_cached, submit_intent,
}

-- What the gateway relies on in Redis, until a key expires.
pub record IsCache {R : Type 0} (redis : Redis R) : Type 0 where
  pub get-set : (k body : String) (r : R) → redis.get k (redis.set k body r) ≡ some body

module _ {R S : Type 0} (redis : Redis R)
    (submit_rpc : SubmitIntentRequest → S → S × Call SubmitIntentResponse)
    (render : SubmitIntentResponse → Option String) where
  submitted_remembers :
      (signature : String) (r : R) (p : S × Call SubmitIntentResponse)
      (response : SubmitIntentResponse)
      → (submitted redis submit_rpc render signature r p).2 ≡ answer 201 response
      → (submitted redis submit_rpc render signature r p).0
        ≡ remember redis submit_rpc render signature (render response) r
  submitted_remembers signature r (s, err e) response h = absurd (ground arith)
  submitted_remembers signature r (s, ok given) response h = ground (arith, h)

  unless_cached_remembers :
      (o : Option String) (req : SubmitIntentRequest) (r : R) (s : S)
      (response : SubmitIntentResponse)
      → (unless_cached redis submit_rpc render o req r s).2 ≡ answer 201 response
      → (unless_cached redis submit_rpc render o req r s).0
        ≡ remember redis submit_rpc render req.signature (render response) r
  unless_cached_remembers none req r s response h =
      submitted_remembers req.signature r (submit_rpc req s) response h
  unless_cached_remembers (some body) req r s response h = absurd (ground arith)

  submit_intent_remembers :
      (req : SubmitIntentHttpRequest) (r : R) (s : S) (response : SubmitIntentResponse)
      → (submit_intent redis submit_rpc render (ok req) r s).2 ≡ answer 201 response
      → (submit_intent redis submit_rpc render (ok req) r s).0
        ≡ remember redis submit_rpc render req.signature (render response) r
  unfolding submit_intent translate
  submit_intent_remembers req r s response = branch (is_unspecified (parse_http_type req.type_name))
    where
      branch :
          (b : Bool)
          → (if b
              then (r, s, failure 400 (append "invalid intent type: " req.type_name))
              else unless_cached redis submit_rpc render
                  (cached redis submit_rpc render req.signature r)
                  (translate (parse_http_type req.type_name) req)
                  r
                  s).2
            ≡ answer 201 response
          → (if b
              then (r, s, failure 400 (append "invalid intent type: " req.type_name))
              else unless_cached redis submit_rpc render
                  (cached redis submit_rpc render req.signature r)
                  (translate (parse_http_type req.type_name) req)
                  r
                  s).0
            ≡ remember redis submit_rpc render req.signature (render response) r
      branch true h = absurd (ground arith)
      branch false h =
          unless_cached_remembers (cached redis submit_rpc render req.signature r)
            (translate (parse_http_type req.type_name) req) r s response h

  cached_after :
      (again signature body : String) (r r' : R)
      → IsCache redis
      → signature ≢ ""
      → again ≡ signature
      → body ≢ ""
      → r' ≡ remember redis submit_rpc render signature (some body) r
      → cached redis submit_rpc render again r' ≡ some body
  cached_after again signature body r r' h signed same full e = ground (
    arith,
    e,
    same,
    ==_iff signature "",
    ==_iff body "",
    h.get-set (idempotency_key signature) body r,
  )

  submit_intent-cached :
      (req : SubmitIntentHttpRequest) (r : R) (s : S) (body : String)
      → is_unspecified (parse_http_type req.type_name) ≡ false
      → cached redis submit_rpc render req.signature r ≡ some body
      → submit_intent redis submit_rpc render (ok req) r s ≡ (r, s, hit body)
  unfolding submit_intent
  submit_intent-cached req r s body typed found = rw (typed, found) refl

  -- After a submission with a signature that the intent service has accepted, and whose response
  -- could be encoded as a text that is not empty, a second request with the same signature and a
  -- known type does not reach the service while the cache has the entry: it changes nothing and
  -- is answered with the first response's text.
  pub submit_intent_twice :
      (req again : SubmitIntentHttpRequest) (r : R) (s : S) (response : SubmitIntentResponse)
      (body : String)
      → IsCache redis
      → req.signature ≢ ""
      → again.signature ≡ req.signature
      → is_unspecified (parse_http_type again.type_name) ≡ false
      → render response ≡ some body
      → body ≢ ""
      → (submit_intent redis submit_rpc render (ok req) r s).2 ≡ answer 201 response
      → let first = submit_intent redis submit_rpc render (ok req) r s in
        submit_intent redis submit_rpc render (ok again) first.0 first.1
        ≡ (first.0, first.1, hit body)
  submit_intent_twice req again r s response body h signed same typed rendered full done =
      let first = submit_intent redis submit_rpc render (ok req) r s in
      submit_intent-cached again first.0 first.1 body typed (
        cached_after again.signature req.signature body r first.0 h signed same full (
          submit_intent_remembers req r s response done
          ∙ ap (λ (o : Option String). remember redis submit_rpc render req.signature o r)
              rendered))
