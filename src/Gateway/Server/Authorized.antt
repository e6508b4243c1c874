-- ===== src/Gateway/Server/Authorized.antt =====
-- A submission with a token of the gateway's own, in the middlewares.
use aien.Prelude.{ℕ, ◌+◌, ◌≡◌, refl, Bool, false, ◌++◌, Option, some, String, ltb, arith}
use aien.Crypto.{Bytes, utf8}
use aien.Gateway.Jwt.{Coding, generate_jwt}
use aien.Gateway.Jwt.RoundTrip.{IsCoding, validate-generate}
use aien.Gateway.Limit.{
  Decision, next, too_many_requests, user, authorize, strip_prefix, rate_limit,
}
use aien.Gateway.Server.{Request, intents, reached, route, serve, after_limit}

-- POST /intents with a token that was made for a user.
abbrev pub submission : Coding → (made : ℕ) → (username : Bytes) → Request
submission coding made username = record {
  method = "POST";
  path = "/intents";
  auth_header = utf8 "Bearer " ++ generate_jwt coding made username;
}

module _ {R : Type 0} (incr : String → R → R × Option ℕ) (coding : Coding) where
  authorize-generate :
      (made now : ℕ) (username : Bytes)
      → IsCoding coding
      → ltb (made + 86400) now ≡ false
      → authorize coding now "/intents" (utf8 "Bearer " ++ generate_jwt coding made username)
        ≡ user username
  unfolding authorize strip_prefix utf8
  authorize-generate made now username law live =
      rw (validate-generate coding made now username law, live) refl

  limit_passed :
      (u : Option Bytes) (path : String) (p : R × Decision) (remaining : Option ℕ)
      → p.1 ≡ next remaining
      → (after_limit incr coding u path p).1 ≡ reached u (route path)
  limit_passed u path (r, too_many_requests) remaining h = absurd (ground arith)
  limit_passed u path (r, next left) remaining h = refl

  -- It reaches the submissions, for its user, while the token lives and the limiter lets it pass.
  pub serve-submission :
      (disabled : Bool) (made now : ℕ) (minute_key : String) (username : Bytes) (r : R)
      (remaining : Option ℕ)
      → IsCoding coding
      → ltb (made + 86400) now ≡ false
      → (rate_limit incr disabled "POST" "/intents" minute_key r).1 ≡ next remaining
      → (serve incr coding disabled now minute_key (submission coding made username) r).1
        ≡ reached (some username) intents
  unfolding serve route strip_prefix utf8
  serve-submission disabled made now minute_key username r remaining law live left =
      rw (authorize-generate made now username law live)
        (limit_passed (some username) "/intents" _ remaining left)
