-- ===== src/Tests/Signing.antt =====
-- The scripts' requests with a toy cipher, whose signatures tell the first byte of the message.
use aien.Prelude.{
  suc, ℕ, ◌≡◌, refl, Bool, true, false, [], ◌∷◌, ◌++◌, Option, none, some, String, ◌==◌, nat_eq,
  differ, drop, if◌then◌else◌,
}
use aien.Prelude.Sql.{ok, err, up}
use aien.Grpc.{unauthenticated}
use aien.Crypto.{Bytes, Primitives, get_sign_bytes, utf8}
use aien.Crypto.Laws.{IsSignature}
use aien.Intent.Types.{SubmitIntentResponse, transfer}
use aien.Intent.Memory.{NotFound}
use aien.Intent.Handler.{Message, text, check_request, refusal, Store}
use aien.Gateway.Http.{parse_http_type}
use aien.Gateway.Submit.{
  SubmitIntentHttpRequest, handle_intents, to_submit, Redis, answer, translate,
}
use aien.Gateway.Submit
use aien.Scripts.Keygen.{sign_request}
use aien.Scripts.Keygen.Refused.{sign_request-refused}
use aien.Scripts.LoadTest.{IntentPayload, make_request}
use aien.Scripts.LoadTest.Accepted.{service, response_of, request, request-accepted}
use aien.Intent.Postgres.{database, StoreError, created_intent}
use aien.Intent.Postgres
use aien.Intent.Table.{Database, find_row, has_event}
use aien.Gateway.Limit.{rate_limit}
use aien.Gateway.Server.{intents, reached, serve}
use aien.Gateway.Server.Authorized.{submission}
use aien.Tests.Intent.{zeros_32, formats, empty}
use aien.Tests.Gateway.{coding, coding-IsCoding}

abbrev public : Bytes
public = 1 ∷ drop 1 zeros_32

abbrev private : Bytes
private = 2 ∷ drop 1 zeros_32 ++ public

abbrev begins : ℕ → Bytes → Bool
begins c [] = false
begins c (b ∷ bs) = nat_eq b c

-- Whether a message begins with "I".
abbrev tag : Bool → ℕ
tag true = 4
tag false = 5

abbrev toy_signature : Bool → Bytes
toy_signature b = tag b ∷ (drop 1 zeros_32 ++ zeros_32)

abbrev to_text : Bytes → String
to_text b =
    if begins 1 b
    then "public"
    else if begins 2 b
    then "private"
    else if begins 4 b
    then "full"
    else "short"

abbrev of_text : String → Option Bytes
of_text s =
    if s == "public"
    then some public
    else if s == "private"
    then some private
    else if s == "full"
    then some (toy_signature true)
    else some (toy_signature false)

abbrev toy : Primitives
toy = record {
  encode = to_text;
  decode = of_text;
  ed_sign = λ key m. toy_signature (begins b'I' m);
  ed_verify = λ key m sig. begins (tag (begins b'I' m)) sig;
}

signature_text : (b : Bool) → of_text (to_text (toy_signature b)) ≡ some (toy_signature b)
signature_text true = refl
signature_text false = refl

own_tag : (b : Bool) → begins (tag b) (toy_signature b) ≡ true
own_tag true = refl
own_tag false = refl

toy-IsSignature : IsSignature toy public private
toy-IsSignature = record {
  public-decoded = refl;
  private-decoded = refl;
  signature-decoded = λ m. signature_text (begins b'I' m);
  public_size = refl;
  private_size = refl;
  signed_size = λ m. refl;
  verify-sign = λ m. own_tag (begins b'I' m);
}

sign_request-refused_example :
    (req : SubmitIntentHttpRequest) × (sign_request toy
        ("private" ∷ "TRANSFER" ∷ "alice" ∷ "{}" ∷ [])
      ≡ ok req)
    × (check_request {E = NotFound} toy (translate (parse_http_type req.type_name) req)
        ≡ err (refusal unauthenticated (text "invalid cryptographic signature")))
unfolding get_sign_bytes utf8 parse_http_type aien.Intent.Names.type_string
sign_request-refused_example =
    sign_request-refused toy public private "TRANSFER" "alice" "{}" toy-IsSignature refl refl
      (differ "alice" "" refl) (differ "public" "" refl) (differ "short" "" refl) (λ apart. refl)

abbrev tx : IntentPayload ℕ
tx = record { from = "alice"; to = "bob"; amount = 100 }

abbrev marshal : IntentPayload ℕ → Bytes
marshal p = p.amount ∷ []

abbrev no_cache : Redis ℕ
no_cache = record { get = λ k r. none; set = λ k body r. r }

abbrev render : SubmitIntentResponse → Option String
render response = some "body"

abbrev message : Message StoreError → String
message m = "error"

-- The PostgreSQL store with every statement answered.
abbrev postgres : Store Database StoreError
postgres = record {
  create = Postgres.create formats up "id1" "ev1" 7;
  get = Postgres.get formats false;
  list = λ st sub size token db. err database;
}

abbrev loaded_request : SubmitIntentHttpRequest
loaded_request = request marshal toy public private tx

request-accepted_example :
    let gw =
      Submit.submit_intent no_cache
        (service toy postgres message)
        render
        (ok loaded_request)
        0
        empty in
    (make_request marshal toy "public" "private" tx ≡ ok loaded_request)
    × ((serve
          (λ (k : String) (r : ℕ). (suc r, some (suc r)))
          coding
          false
          90000
          "rate:1.2.3.4:0"
          (submission coding 5000 (utf8 "admin"))
          3).1
        ≡ reached (some (utf8 "admin")) intents)
    × (handle_intents "POST" ≡ to_submit)
    × (gw.2 ≡ answer 201 (response_of (created_intent "id1" 7 (translate transfer loaded_request))))
    × (gw.1 ≡ (postgres.create (translate transfer loaded_request) empty).0)
unfolding get_sign_bytes utf8 rate_limit Postgres.create Postgres.create_body created_intent
    find_row has_event
request-accepted_example =
    request-accepted marshal toy public private tx (λ (k : String) (r : ℕ). (suc r, some (suc r)))
      coding false 5000 90000 "rate:1.2.3.4:0" (utf8 "admin") 3 (some 6) no_cache render postgres
      message 0 empty _ _ coding-IsCoding refl refl toy-IsSignature (differ "alice" "" refl)
      (differ "public" "" refl) (differ "full" "" refl) refl refl
