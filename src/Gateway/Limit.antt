-- ===== src/Gateway/Limit.antt =====
-- gateway/main.go: `rateLimitMiddleware` and `authMiddleware`. The INCR of Redis is a parameter with a
-- state of its own; EXPIRE, which ends the life of a key after its minute, is left to Redis.
use Prim.Native.Nat.{min}
use aien.Prelude.{
  sym, ◌∙◌, ℕ, zero, suc, ◌+◌, ◌-◌, ◌≤◌, ◌≡◌, refl, Bool, true, false, [], ◌∷◌, ◌++◌, Option, none,
  some, String, ◌==◌, ◌&&◌, ◌||◌, ltb, nat_eq, if◌then◌else◌, arith, ap,
}
use aien.Prelude.Sql.{Result, ok, err}
use aien.Crypto.{Bytes, utf8}
use aien.Gateway.Jwt.{Claims, TokenError, Coding, validate_jwt, signed}
use aien.Gateway.Jwt.Sound.{Carries, validate_jwt-Carries, validate_jwt_sound}

-- The request goes on to the next handler, with the remaining number of requests where it is told, or
-- is answered with 429.
pub data Decision : Type 0 where
  next : Option ℕ → Decision
  too_many_requests : Decision

-- `r.Method == http.MethodPost && r.URL.Path == "/intents"`
abbrev pub is_submission : (method path : String) → Bool
is_submission method path = method == "POST" && path == "/intents"

limit_step :
    (n v : ℕ) → (if ltb 10 (suc v) then 0 else 1) + min n (10 - suc v) ≡ min (suc n) (10 - v)
limit_step n v = ground arith

module _ {R : Type 0} (incr : String → R → R × Option ℕ) where
  -- The part behind `Incr`; `none` is an error of Redis.
  abbrev pub counted : R × Option ℕ → R × Decision
  counted (r, none) = (r, next none)
  counted (r, some count) =
      (r, if ltb 10 count then too_many_requests else next (some (10 - count)))

  unfoldable pub rate_limit : (disabled : Bool) (method path minute_key : String) → R → R × Decision
  rate_limit disabled method path minute_key r =
      if disabled
      then (r, next none)
      else if is_submission method path
      then counted (incr minute_key r)
      else (r, next none)

  abbrev pub passes : Decision → ℕ
  passes (next remaining) = 1
  passes too_many_requests = 0

  -- How many of `n` submissions under one key go on.
  unfoldable pub passed : (minute_key : String) → ℕ → R → ℕ
  passed minute_key zero r = 0
  passed minute_key (suc n) r =
      let answer = rate_limit false "POST" "/intents" minute_key r in
      passes answer.1 + passed minute_key n answer.0

  -- What INCR promises, where `value` reads a key: it adds one and answers with the new number.
  pub record IsCounter (value : String → R → ℕ) : Type 0 where
    pub answers : (k : String) (r : R) → (incr k r).1 ≡ some (suc (value k r))
    pub counts : (k : String) (r : R) → value k (incr k r).0 ≡ suc (value k r)

  counted_answer :
      (p : R × Option ℕ) (count : ℕ)
      → p.1 ≡ some count
      → ((counted p).0 ≡ p.0) × (passes (counted p).1 ≡ (if ltb 10 count then 0 else 1))
  counted_answer (r, none) count h = absurd (ground arith)
  counted_answer (r, some c) count h = (refl, ground arith)

  -- With a Redis that counts, exactly the first ten submissions of a key go on, those included that
  -- the key has counted before: of `n` more, `min n (10 - value)`.
  pub passed-limit :
      (value : String → R → ℕ) (minute_key : String) (n : ℕ) (r : R)
      → IsCounter value
      → passed minute_key n r ≡ min n (10 - value minute_key r)
  unfolding passed rate_limit
  passed-limit value k zero r h = omega arith
  passed-limit value k (suc n) r h =
      let a = counted_answer (incr k r) (suc (value k r)) (h.answers k r) in
      rw (a.1, a.0, passed-limit value k n (incr k r).0 h, h.counts k r) (limit_step n (value k r))

-- What follows a prefix, if the bytes begin with it.
unfoldable pub strip_prefix : Bytes → Bytes → Option Bytes
strip_prefix [] s = some s
strip_prefix (p ∷ prefix) [] = none
strip_prefix (p ∷ prefix) (c ∷ s) =
    let rest = strip_prefix prefix s in if nat_eq p c then rest else none

pub data Access : Type 0 where
  -- a path that needs no token, or the verified user
  exempt : Access
  user : Bytes → Access
  -- 401
  malformed_header : Access
  unauthorized : TokenError → Access

abbrev pub is_some_prefix : Option Bytes → Bool
is_some_prefix none = false
is_some_prefix (some s) = true

-- The paths that need no token.
abbrev pub is_exempt : String → Bool
is_exempt path =
    path == "/health"
    || path == "/metrics"
    || path == "/api/login"
    || is_some_prefix (strip_prefix (utf8 "/dashboard/") (utf8 path))

module _ (coding : Coding) where
  abbrev pub validated : Result TokenError Claims → Access
  validated (err e) = unauthorized e
  validated (ok claims) = user claims.sub

  abbrev pub bearer : ℕ → Option Bytes → Access
  bearer now none = malformed_header
  bearer now (some token) = validated (validate_jwt coding now token)

  -- `authMiddleware`; an empty header has no prefix "Bearer ".
  unfoldable pub authorize : (now : ℕ) → (path : String) → (auth_header : Bytes) → Access
  authorize now path auth_header =
      if is_exempt path then exempt else bearer now (strip_prefix (utf8 "Bearer ") auth_header)

strip_prefix_sound :
    (prefix s rest : Bytes) → strip_prefix prefix s ≡ some rest → s ≡ prefix ++ rest
unfolding strip_prefix
strip_prefix_sound [] s rest h = ground arith
strip_prefix_sound (p ∷ prefix) [] rest h = absurd (ground arith)
strip_prefix_sound (p ∷ prefix) (c ∷ s) rest h = ground (arith, strip_prefix_sound prefix s rest)

module _ (coding : Coding) where
  validated_user :
      (r : Result TokenError Claims) (u : Bytes)
      → validated coding r ≡ user u
      → (claims : Claims) × (r ≡ ok claims) × (claims.sub ≡ u)
  validated_user (err e) u h = absurd (ground arith)
  validated_user (ok claims) u h = (claims, refl, ground arith)

  bearer_user :
      (now : ℕ) (token : Option Bytes) (u : Bytes)
      → bearer coding now token ≡ user u
      → (t : Bytes) × (token ≡ some t)
        × (claims : Claims) × (validate_jwt coding now t ≡ ok claims)
        × (claims.sub ≡ u)
  bearer_user now none u h = absurd (ground arith)
  bearer_user now (some t) u h =
      let (claims, valid, name) = validated_user (validate_jwt coding now t) u h in
      (t, refl, claims, valid, name)

  after_exempt :
      (now : ℕ) (path : String) (auth_header u : Bytes)
      → is_exempt path ≡ false
      → authorize coding now path auth_header ≡ user u
      → bearer coding now (strip_prefix (utf8 "Bearer ") auth_header) ≡ user u
  unfolding authorize
  after_exempt now path auth_header u guarded h = ground (arith, guarded, h)

  -- A request for a path that is not exempt is given a user only with the header "Bearer " and a
  -- token that ends in the signature, under the gateway's secret, of what stands before it, at a
  -- time when the claims that it carries have not expired; they name the user.
  pub authorize_sound :
      (now : ℕ) (path : String) (auth_header u : Bytes)
      → is_exempt path ≡ false
      → authorize coding now path auth_header ≡ user u
      → (input : Bytes) × (auth_header ≡ utf8 "Bearer " ++ signed coding input)
        × ((claims : Claims) × Carries coding (signed coding input) claims
            × (now ≤ claims.exp)
            × (claims.sub ≡ u))
  authorize_sound now path auth_header u guarded h =
      let (t, found, claims, valid, name) =
        bearer_user now (strip_prefix (utf8 "Bearer ") auth_header) u
          (after_exempt now path auth_header u guarded h) in
      let (input, same, live) = validate_jwt_sound coding now t claims valid in
      (
        input,
        strip_prefix_sound (utf8 "Bearer ") auth_header t found
            ∙ ap (λ (x : Bytes). utf8 "Bearer " ++ x) same,
        (claims, rw (sym same) (validate_jwt-Carries coding now t claims valid), live, name),
      )
