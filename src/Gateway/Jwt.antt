-- ===== src/Gateway/Jwt.antt =====
-- gateway/main.go: `generateJWT` and `validateJWT`, over bytes. The base64 and JSON coding and
-- HMAC-SHA256 are parameters; a clock reads seconds.
pub mod RoundTrip
pub mod Sound
use mathlib.Core.List.{append_assoc}
use aien.Prelude.{
  ℕ, ◌+◌, ◌≤◌, ◌≡◌, ◌≢◌, refl, Bool, true, false, List, [], ◌∷◌, ◌++◌, Option, none, some, ltb,
  nat_eq, nat_eq_iff, not, if◌then◌else◌, arith, All, sym, ap, ◌∙◌,
}
use aien.Prelude.Sql.{Result, ok, err}
use aien.Crypto.{Bytes}

abbrev pub dot : ℕ
dot = b'.'

pub record Claims : Type 0 where
  pub sub : Bytes
  pub exp : ℕ

pub data TokenError : Type 0 where
  invalid_format invalid_signature claims_undecoded claims_unparsed token_expired : TokenError

pub record Coding : Type 0 where
  -- base64.RawURLEncoding
  pub encode : Bytes → Bytes
  pub decode : Bytes → Option Bytes
  -- HMAC-SHA256 under the secret of the gateway
  pub mac : Bytes → Bytes
  -- json.Marshal of the header {"alg": "HS256", "typ": "JWT"}
  pub header : Bytes
  pub marshal_claims : Claims → Bytes
  pub unmarshal_claims : Bytes → Option Claims

abbrev pub push_part : ℕ → List Bytes → List Bytes
push_part c [] = (c ∷ []) ∷ []
push_part c (p ∷ parts) = (c ∷ p) ∷ parts

-- strings.Split(s, ".")
unfoldable pub split_dots : Bytes → List Bytes
split_dots [] = [] ∷ []
split_dots (c ∷ s) = let rest = split_dots s in if nat_eq c dot then [] ∷ rest else push_part c rest

-- `==` on byte sequences.
unfoldable pub bytes_eq : Bytes → Bytes → Bool
bytes_eq [] [] = true
bytes_eq (a ∷ xs) (b ∷ ys) = let rest = bytes_eq xs ys in if nat_eq a b then rest else false
bytes_eq _ _ = false

-- The claims of a token that is made at a time: it expires 24 hours later.
abbrev pub day_claims : (now : ℕ) → (username : Bytes) → Claims
day_claims now username = record { sub = username; exp = now + 86400 }

module _ (coding : Coding) where
  open coding use {encode, decode, mac, header, marshal_claims, unmarshal_claims}

  -- `signingInput` and the signature behind it.
  abbrev pub signed : Bytes → Bytes
  signed input = input ++ dot ∷ encode (mac input)

  unfoldable pub generate_jwt : (now : ℕ) → (username : Bytes) → Bytes
  generate_jwt now username =
      signed (encode header ++ dot ∷ encode (marshal_claims (day_claims now username)))

  abbrev pub live : ℕ → Option Claims → Result TokenError Claims
  live now none = err claims_unparsed
  live now (some claims) = if ltb claims.exp now then err token_expired else ok claims

  abbrev pub decoded : ℕ → Option Bytes → Result TokenError Claims
  decoded now none = err claims_undecoded
  decoded now (some bytes) = live now (unmarshal_claims bytes)

  abbrev pub validate_parts : ℕ → List Bytes → Result TokenError Claims
  validate_parts now (p0 ∷ p1 ∷ p2 ∷ []) =
      if not (bytes_eq p2 (encode (mac (p0 ++ dot ∷ p1))))
      then err invalid_signature
      else decoded now (decode p1)
  validate_parts now _ = err invalid_format

  unfoldable pub validate_jwt : (now : ℕ) → Bytes → Result TokenError Claims
  validate_jwt now token = validate_parts now (split_dots token)
