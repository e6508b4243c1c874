-- ===== src/Gateway/Jwt/RoundTrip.antt =====
-- A token that `generateJWT` has made, read by `validateJWT`.
use mathlib.Core.List.{append_assoc}
use aien.Prelude.{
  ℕ, ◌+◌, ◌≡◌, ◌≢◌, refl, true, List, [], ◌∷◌, ◌++◌, some, ltb, if◌then◌else◌, arith, All, ap, ◌∙◌,
}
use aien.Prelude.Sql.{ok, err}
use aien.Crypto.{Bytes}
use aien.Gateway.Jwt.{
  dot, Claims, Coding, split_dots, bytes_eq, day_claims, signed, generate_jwt, validate_parts,
  validate_jwt, token_expired,
}

-- What the gateway relies on in the coding: no dots, and what is written is read back.
pub record IsCoding (coding : Coding) : Type 0 where
  pub no_dots : (b : Bytes) → All (λ (c : ℕ). c ≢ dot) (coding.encode b)
  pub decode-encode : (b : Bytes) → coding.decode (coding.encode b) ≡ some b
  pub unmarshal-marshal :
      (claims : Claims) → coding.unmarshal_claims (coding.marshal_claims claims) ≡ some claims

split_part :
    (p s : Bytes) → All (λ (c : ℕ). c ≢ dot) p → split_dots (p ++ dot ∷ s) ≡ p ∷ split_dots s
unfolding split_dots
split_part [] s h = refl
split_part (c ∷ p) s h = ground (arith, split_part p s h.1, h.0)

split_last : (p : Bytes) → All (λ (c : ℕ). c ≢ dot) p → split_dots p ≡ p ∷ []
unfolding split_dots
split_last [] h = refl
split_last (c ∷ p) h = ground (arith, split_last p h.1, h.0)

bytes_eq_refl : (b : Bytes) → bytes_eq b b ≡ true
unfolding bytes_eq
bytes_eq_refl [] = refl
bytes_eq_refl (c ∷ b) = ground (arith, bytes_eq_refl b)

module _ (coding : Coding) where
  open coding use {encode, mac}

  validate_signed :
      (now : ℕ) (p1 : Bytes) (p0 : Bytes)
      → IsCoding coding
      → All (λ (c : ℕ). c ≢ dot) p0
      → All (λ (c : ℕ). c ≢ dot) p1
      → validate_jwt coding now (signed coding (p0 ++ dot ∷ p1))
        ≡ validate_parts coding now (p0 ∷ p1 ∷ encode (mac (p0 ++ dot ∷ p1)) ∷ [])
  unfolding validate_jwt
  validate_signed now p1 p0 h h0 h1 =
      let sig = encode (mac (p0 ++ dot ∷ p1)) in
      ap (validate_parts coding now) (
        ap split_dots (append_assoc p0 (dot ∷ p1) (dot ∷ sig))
        ∙ split_part p0 (p1 ++ dot ∷ sig) h0
        ∙ ap (λ (l : List Bytes). p0 ∷ l)
            (split_part p1 sig h1 ∙ ap (λ (l : List Bytes). p1 ∷ l) (split_last sig (h.no_dots _))))

  -- With a coding that has no dots and is read back, a token that the gateway has made is
  -- accepted with its claims until 24 hours have passed, and is refused as expired after that.
  pub validate-generate :
      (made now : ℕ) (username : Bytes)
      → IsCoding coding
      → validate_jwt coding now (generate_jwt coding made username)
        ≡ (if ltb (made + 86400) now then err token_expired else ok (day_claims made username))
  unfolding generate_jwt
  validate-generate made now username h =
      let claims = day_claims made username in
      let p0 = encode coding.header in
      let p1 = encode (coding.marshal_claims claims) in
      validate_signed now p1 p0 h (h.no_dots _) (h.no_dots _)
      ∙ rw
          (
            bytes_eq_refl (encode (mac (p0 ++ dot ∷ p1))),
            h.decode-encode (coding.marshal_claims claims),
            h.unmarshal-marshal claims,
          )
          refl
