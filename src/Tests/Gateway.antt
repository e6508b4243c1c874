-- ===== src/Tests/Gateway.antt =====
-- The gateway with a toy coding, a counter and a cache of one entry.
use Prim.Native.Nat.{min}
use aien.Prelude.{
  ℕ, suc, ◌+◌, ◌-◌, ◌≡◌, ◌≢◌, refl, [], ◌∷◌, ◌++◌, Option, none, some, String, differ, arith, All,
  ap,
}
use aien.Prelude.Sql.{ok}
use aien.Crypto.{Bytes, utf8}
use aien.Intent.Types.{SubmitIntentRequest, SubmitIntentResponse, pending}
use aien.Gateway.Http.{parse_http_type}
use aien.Gateway.Jwt.{Claims, Coding, dot, generate_jwt}
use aien.Gateway.Jwt.RoundTrip.{IsCoding}
use aien.Gateway.Limit.{passed, passed-limit}
use aien.Gateway.Submit.{SubmitIntentHttpRequest, Redis, Call, submit_intent, hit}
use aien.Gateway.Submit.Twice.{submit_intent_twice}

-- Every byte is moved behind the dot.
abbrev pub shift : Bytes → Bytes
shift [] = []
shift (c ∷ s) = (c + 47) ∷ shift s

abbrev pub unshift : Bytes → Bytes
unshift [] = []
unshift (c ∷ s) = (c - 47) ∷ unshift s

abbrev pub read_claims : Bytes → Option Claims
read_claims [] = none
read_claims (exp ∷ sub) = some (record { sub = sub; exp = exp })

abbrev pub coding : Coding
coding = record {
  encode = shift;
  decode = λ s. some (unshift s);
  mac = λ s. 1 ∷ 2 ∷ [];
  header = 7 ∷ [];
  marshal_claims = λ claims. claims.exp ∷ claims.sub;
  unmarshal_claims = read_claims;
}

shift_dots : (b : Bytes) → All (λ (c : ℕ). c ≢ dot) (shift b)
shift_dots [] = tt
shift_dots (c ∷ b) = (λ (e : c + 47 ≡ dot). omega arith, shift_dots b)

unshift-shift : (b : Bytes) → unshift (shift b) ≡ b
unshift-shift [] = refl
unshift-shift (c ∷ b) = ground (arith, unshift-shift b)

pub coding-IsCoding : IsCoding coding
coding-IsCoding = record {
  no_dots = shift_dots;
  decode-encode = λ b. ap (λ (s : Bytes). some s) (unshift-shift b);
  unmarshal-marshal = λ claims. refl;
}

abbrev pub header : Bytes
header = utf8 "Bearer " ++ generate_jwt coding 5000 (b'a' ∷ [])

passed-limit_example : passed (λ k r. (suc r, some (suc r))) "rate:1.2.3.4:0" 30 0 ≡ min 30 (10 - 0)
passed-limit_example =
    passed-limit (λ (k : String) (r : ℕ). (suc r, some (suc r))) (λ (k : String) (r : ℕ). r)
      "rate:1.2.3.4:0" 30 0 (record { answers = λ k r. refl; counts = λ k r. refl })

abbrev one_entry : Redis String
one_entry = record { get = λ k r. some r; set = λ k body r. body }

-- The state of the service is the number of its calls.
abbrev accept : SubmitIntentRequest → ℕ → ℕ × Call SubmitIntentResponse
accept req s = (suc s, ok (record { intent_id = "id1"; status = pending; created_at = 1 }))

abbrev render : SubmitIntentResponse → Option String
render response = some "body"

abbrev request : SubmitIntentHttpRequest
request = record {
  type_name = "TRANSFER";
  payload = [];
  submitter_id = "alice";
  signature = "sig";
  submitter_public_key = "key";
  constraints = none;
}

submit_intent_twice_example :
    let first = submit_intent one_entry accept render (ok request) "" 0 in
    submit_intent one_entry accept render (ok request) first.0 first.1
    ≡ (first.0, first.1, hit "body")
unfolding submit_intent parse_http_type
submit_intent_twice_example =
    submit_intent_twice one_entry accept render request request "" 0
      (record { intent_id = "id1"; status = pending; created_at = 1 }) "body"
      (record { get-set = λ k body r. refl }) (differ "sig" "" refl) refl refl refl
      (differ "body" "" refl) refl
