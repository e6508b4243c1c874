-- ===== src/Gateway/Login.antt =====
-- `handleLogin` of gateway/main.go. `generateJWT` returns no error, so that the answer 500 is never
-- given.
use aien.Prelude.{
  Bool, ◌∷◌, ℕ, ◌+◌, ◌≡◌, refl, Bool, true, false, [], ◌∷◌, ==_iff, ap, ◌∙◌, Option, none, some,
  String, ◌==◌, ◌||◌, not, ltb, if◌then◌else◌, arith, ◌++◌,
}
use aien.Prelude.Sql.{ok, err}
use aien.Crypto.{Bytes, utf8}
use aien.Gateway.Jwt.{Claims, Coding, generate_jwt, token_expired, day_claims}
use aien.Gateway.Jwt.RoundTrip.{IsCoding, validate-generate}
use aien.Gateway.Limit.{validated, user, unauthorized, is_exempt, authorize, strip_prefix}

pub record Credentials : Type 0 where
  pub username : String
  pub password : String

pub data Login : Type 0 where
  -- 200
  token : Bytes → Login
  -- 405, 400 and 401
  method_not_allowed invalid_body invalid_credentials : Login

module _ (coding : Coding) (now : ℕ) where
  abbrev pub login : Credentials → Login
  login req =
      if not (req.username == "admin") || not (req.password == "aien-admin-2026")
      then invalid_credentials
      else token (generate_jwt coding now (utf8 req.username))

  abbrev pub login_body : Option Credentials → Login
  login_body none = invalid_body
  login_body (some req) = login req

  -- The body is what encoding/json has decoded, or nothing.
  unfoldable pub handle_login : (method : String) → Option Credentials → Login
  handle_login method body = if not (method == "POST") then method_not_allowed else login_body body

strip_prefix-append : (p s : Bytes) → strip_prefix p (p ++ s) ≡ some s
unfolding strip_prefix
strip_prefix-append [] s = refl
strip_prefix-append (c ∷ p) s = ground (arith, strip_prefix-append p s)

validated_if :
    (coding : Coding) (late : Bool) (claims : Claims)
    → validated coding (if late then err token_expired else ok claims)
      ≡ (if late then unauthorized token_expired else user claims.sub)
validated_if coding true claims = refl
validated_if coding false claims = refl

module _ (coding : Coding) where
  -- A login with the pre-configured credentials is answered with a token. As a bearer token it opens
  -- every guarded path for `admin` until 24 hours have passed, and is refused as expired after that.
  pub login_then_authorize :
      (made now : ℕ) (path : String)
      → IsCoding coding
      → is_exempt path ≡ false
      → (t : Bytes) × (handle_login coding made "POST"
            (some (record { username = "admin"; password = "aien-admin-2026" }))
          ≡ token t)
        × (authorize coding now path (utf8 "Bearer " ++ t)
            ≡ (if ltb (made + 86400) now then unauthorized token_expired else user (utf8 "admin")))
  unfolding handle_login authorize
  login_then_authorize made now path law guarded = (
    generate_jwt coding made (utf8 "admin"),
    refl,
    rw (guarded, strip_prefix-append (utf8 "Bearer ") (generate_jwt coding made (utf8 "admin")))
        (rw (validate-generate coding made now (utf8 "admin") law)
          (validated_if coding (ltb (made + 86400) now) (day_claims made (utf8 "admin")))),
  )

  -- A token is given only for a POST with the pre-configured credentials.
  pub handle_login_sound :
      (now : ℕ) (method : String) (body : Option Credentials) (t : Bytes)
      → handle_login coding now method body ≡ token t
      → (req : Credentials) × (method ≡ "POST")
        × (body ≡ some req)
        × (req.username ≡ "admin")
        × (req.password ≡ "aien-admin-2026")
        × (t ≡ generate_jwt coding now (utf8 "admin"))
  unfolding handle_login
  handle_login_sound now method none t h = absurd (ground arith)
  handle_login_sound now method (some req) t h =
      let post : method ≡ "POST" = ground (arith, ==_iff method "POST") in
      let named : req.username ≡ "admin" = ground (arith, ==_iff req.username "admin") in
      let proved : req.password ≡ "aien-admin-2026" =
        ground (arith, ==_iff req.password "aien-admin-2026") in
      let made : t ≡ generate_jwt coding now (utf8 req.username) = ground arith in
      (
        req,
        post,
        refl,
        named,
        proved,
        made ∙ ap (λ (name : String). generate_jwt coding now (utf8 name)) named,
      )
