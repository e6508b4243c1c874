-- ===== src/Gateway/Server.antt =====
-- The handler that `main` of gateway/main.go serves: loggingMiddleware around authMiddleware around
-- rateLimitMiddleware around the routes. `http.ServeMux` is taken at paths that it does not redirect:
-- its patterns without a slash at their end match one path, the others each path that they are a prefix of.
use aien.Prelude.{
  ℕ, ◌≤◌, ◌≡◌, refl, Bool, true, false, Option, none, some, String, ◌==◌, sym, ap, ◌∙◌, ◌⊎◌, inl,
  inr, if◌then◌else◌, arith, ◌++◌,
}
use aien.Prelude.Sql.{Result, ok, err}
use aien.Crypto.{Bytes, utf8}
use aien.Gateway.Jwt.{validate_jwt, Coding, Claims, TokenError, signed}
use aien.Gateway.Jwt.Sound.{Carries}
use aien.Gateway.Limit.{
  Decision, next, too_many_requests, Access, exempt, user, malformed_header, unauthorized,
  is_exempt, authorize, strip_prefix, authorize_sound, rate_limit, is_some_prefix, validated,
  bearer,
}
pub mod Authorized

pub data Endpoint : Type 0 where
  dashboard ledger login health metrics intents : Endpoint
  -- with the part of the path behind "/intents/"
  intent_by_id : Bytes → Endpoint
  not_found : Endpoint

abbrev pub below_intents : Option Bytes → Endpoint
below_intents none = not_found
below_intents (some id) = intent_by_id id

unfoldable pub route : (path : String) → Endpoint
route path =
    if path == "/health"
    then health
    else if path == "/metrics"
    then metrics
    else if path == "/api/login"
    then login
    else if is_some_prefix (strip_prefix (utf8 "/dashboard/") (utf8 path))
    then dashboard
    else if path == "/api/ledger"
    then ledger
    else if path == "/intents"
    then intents
    else below_intents (strip_prefix (utf8 "/intents/") (utf8 path))

pub record Request : Type 0 where
  pub method : String
  pub path : String
  pub auth_header : Bytes

-- Where a request ends: at an endpoint, perhaps for a verified user, or in a middleware.
pub data Outcome : Type 0 where
  reached : Option Bytes → Endpoint → Outcome
  -- 401 and 429
  rejected limited : Outcome

module _ {R : Type 0} (incr : String → R → R × Option ℕ) (coding : Coding) where
  abbrev pub after_limit : Option Bytes → (path : String) → R × Decision → R × Outcome
  after_limit u path (r, too_many_requests) = (r, limited)
  after_limit u path (r, next remaining) = (r, reached u (route path))

  abbrev pub after_auth :
      (disabled : Bool) → Request → (minute_key : String) → R → Access → R × Outcome
  after_auth disabled q minute_key r exempt =
      after_limit none q.path (rate_limit incr disabled q.method q.path minute_key r)
  after_auth disabled q minute_key r (user u) =
      after_limit (some u) q.path (rate_limit incr disabled q.method q.path minute_key r)
  after_auth disabled q minute_key r malformed_header = (r, rejected)
  after_auth disabled q minute_key r (unauthorized e) = (r, rejected)

  -- `gw.authMiddleware(gw.rateLimitMiddleware(mux))`
  unfoldable pub serve :
      (disabled : Bool) → (now : ℕ) → (minute_key : String) → Request → R → R × Outcome
  serve disabled now minute_key q r =
      after_auth disabled q minute_key r (authorize coding now q.path q.auth_header)

-- The endpoints that need no token.
abbrev pub is_public : Endpoint → Bool
is_public dashboard = true
is_public login = true
is_public health = true
is_public metrics = true
is_public _ = false

below-is_public : (o : Option Bytes) → is_public (below_intents o) ≡ false
below-is_public none = refl
below-is_public (some id) = refl

route-is_exempt : (path : String) → is_public (route path) ≡ is_exempt path
unfolding route
route-is_exempt path = ground (arith, below-is_public (strip_prefix (utf8 "/intents/") (utf8 path)))

module _ (coding : Coding) where
  validated_exempt : (r : Result TokenError Claims) → validated coding r ≡ exempt → ⊥
  validated_exempt (ok claims) h = ground arith
  validated_exempt (err e) h = ground arith

  bearer_exempt : (now : ℕ) (t : Option Bytes) → bearer coding now t ≡ exempt → ⊥
  bearer_exempt now none h = ground arith
  bearer_exempt now (some t) h = validated_exempt (validate_jwt coding now t) h

  exempt_path :
      (now : ℕ) (path : String) (auth_header : Bytes)
      → authorize coding now path auth_header ≡ exempt
      → is_exempt path ≡ true
  unfolding authorize
  exempt_path now path auth_header h =
      ground (arith, bearer_exempt now (strip_prefix (utf8 "Bearer ") auth_header))

module _ {R : Type 0} (incr : String → R → R × Option ℕ) (coding : Coding) where
  limit_reached :
      (u u' : Option Bytes) (path : String) (p : R × Decision) (e : Endpoint)
      → (after_limit incr coding u path p).1 ≡ reached u' e
      → (u ≡ u') × (route path ≡ e)
  limit_reached u u' path (r, too_many_requests) e h = absurd (ground arith)
  limit_reached u u' path (r, next remaining) e h = ground arith

  -- How an endpoint is reached, by the decision of the authentication.
  auth_reached :
      (disabled : Bool) (q : Request) (minute_key : String) (r : R) (a : Access) (u : Option Bytes)
      (e : Endpoint)
      → (after_auth incr coding disabled q minute_key r a).1 ≡ reached u e
      → (route q.path ≡ e) × ((a ≡ exempt) ⊎ ((name : Bytes) × (a ≡ user name) × (u ≡ some name)))
  auth_reached disabled q minute_key r exempt u e h =
      ((limit_reached none u q.path _ e h).1, inl refl)
  auth_reached disabled q minute_key r (user name) u e h =
      let (who, at) = limit_reached (some name) u q.path _ e h in (at, inr (name, refl, sym who))
  auth_reached disabled q minute_key r malformed_header u e h = absurd (ground arith)
  auth_reached disabled q minute_key r (unauthorized x) u e h = absurd (ground arith)

  -- A request reaches an endpoint that is not public only for a user whom its bearer token names: the
  -- header is "Bearer " and what the gateway's secret signs, and the claims in the token, which
  -- name the user, have not expired.
  pub serve_guarded :
      (disabled : Bool) (now : ℕ) (minute_key : String) (q : Request) (r : R) (u : Option Bytes)
      (e : Endpoint)
      → (serve incr coding disabled now minute_key q r).1 ≡ reached u e
      → is_public e ≡ false
      → (input : Bytes) × (q.auth_header ≡ utf8 "Bearer " ++ signed coding input)
        × ((claims : Claims) × Carries coding (signed coding input) claims
            × (now ≤ claims.exp)
            × (u ≡ some claims.sub))
  unfolding serve
  serve_guarded disabled now minute_key q r u e h guarded =
      let (at, how) =
        auth_reached disabled q minute_key r (authorize coding now q.path q.auth_header) u e h in
      let closed : is_exempt q.path ≡ false =
        sym (route-is_exempt q.path) ∙ ap is_public at ∙ guarded in
      elim how [
        | inl public ↦
            absurd (ground (arith, closed, exempt_path coding now q.path q.auth_header public))
        | inr (name, verified, who) ↦
            let (input, header, (claims, carried, live, named)) =
              authorize_sound coding now q.path q.auth_header name closed verified in
            (input, header, (claims, carried, live, who ∙ ap (λ (n : Bytes). some n) (sym named)))
      ]
