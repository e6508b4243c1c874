-- ===== src/Gateway/Jwt/Sound.antt =====
-- What a token that `validateJWT` accepts is made of.
use mathlib.Core.List.{append_assoc}
use aien.Prelude.{
  Option, none, some, ℕ, ◌≤◌, ◌≡◌, ◌≢◌, refl, Bool, true, false, List, [], ◌∷◌, ◌++◌, nat_eq,
  nat_eq_iff, if◌then◌else◌, arith, sym, ap, ◌∙◌,
}
use aien.Prelude.Sql.{ok}
use aien.Crypto.{Bytes}
use aien.Gateway.Jwt.{
  decoded, Option, some, dot, Claims, Coding, push_part, split_dots, bytes_eq, signed,
  validate_parts, validate_jwt,
}

pub bytes_eq_sound : (a b : Bytes) → bytes_eq a b ≡ true → a ≡ b
unfolding bytes_eq
bytes_eq_sound [] [] h = refl
bytes_eq_sound [] (b ∷ ys) h = absurd (ground arith)
bytes_eq_sound (a ∷ xs) [] h = absurd (ground arith)
bytes_eq_sound (a ∷ xs) (b ∷ ys) h = ground (arith, bytes_eq_sound xs ys)

-- Parts with dots between them.
join_dots : List Bytes → Bytes
join_dots [] = []
join_dots (p ∷ []) = p
join_dots (p ∷ q ∷ rest) = p ++ dot ∷ join_dots (q ∷ rest)

push_part-join :
    (c : ℕ) (p : Bytes) (parts : List Bytes)
    → join_dots (push_part c (p ∷ parts)) ≡ c ∷ join_dots (p ∷ parts)
unfolding join_dots
push_part-join c p [] = refl
push_part-join c p (q ∷ parts) = refl

join_split_step :
    (c : ℕ) (s : Bytes) (b : Bool) (parts : List Bytes)
    → nat_eq c dot ≡ b
    → join_dots parts ≡ s
    → parts ≢ []
    → (join_dots (if b then [] ∷ parts else push_part c parts) ≡ c ∷ s)
      × ((if b then [] ∷ parts else push_part c parts) ≢ [])
unfolding join_dots
join_split_step c s b [] e h full = absurd (full refl)
join_split_step c s true (p ∷ parts) e h full =
    (ground (arith, nat_eq_iff c dot), λ (x : [] ∷ p ∷ parts ≡ []). ground arith)
join_split_step c s false (p ∷ parts) e h full = (
  push_part-join c p parts ∙ ap (λ (t : Bytes). c ∷ t) h,
  λ (x : (c ∷ p) ∷ parts ≡ []). ground arith,
)

join_split : (s : Bytes) → (join_dots (split_dots s) ≡ s) × (split_dots s ≢ [])
unfolding split_dots join_dots
join_split [] = (refl, λ (x : [] ∷ [] ≡ []). ground arith)
join_split (c ∷ s) =
    join_split_step c s (nat_eq c dot) (split_dots s) refl (join_split s).0 (join_split s).1

module _ (coding : Coding) where
  signature_part :
      (now : ℕ) (p0 p1 p2 : Bytes) (claims : Claims)
      → validate_parts coding now (p0 ∷ p1 ∷ p2 ∷ []) ≡ ok claims
      → p2 ≡ coding.encode (coding.mac (p0 ++ dot ∷ p1))
  signature_part now p0 p1 p2 claims h =
      ground (arith, bytes_eq_sound p2 (coding.encode (coding.mac (p0 ++ dot ∷ p1))))

  validate_parts_sound :
      (now : ℕ) (parts : List Bytes) (claims : Claims)
      → validate_parts coding now parts ≡ ok claims
      → (input : Bytes) × (join_dots parts ≡ signed coding input) × (now ≤ claims.exp)
  unfolding join_dots
  validate_parts_sound now [] claims h = absurd (ground arith)
  validate_parts_sound now (p0 ∷ []) claims h = absurd (ground arith)
  validate_parts_sound now (p0 ∷ p1 ∷ []) claims h = absurd (ground arith)
  validate_parts_sound now (p0 ∷ p1 ∷ p2 ∷ p3 ∷ rest) claims h = absurd (ground arith)
  validate_parts_sound now (p0 ∷ p1 ∷ p2 ∷ []) claims h =
      let input = p0 ++ dot ∷ p1 in
      (
        input,
        sym (append_assoc p0 (dot ∷ p1) (dot ∷ p2))
            ∙ ap (λ (sig : Bytes). input ++ dot ∷ sig) (signature_part now p0 p1 p2 claims h),
        ground arith,
      )

  -- The claims that a token carries: its second of three parts, decoded.
  abbrev pub Carries : (token : Bytes) → Claims → Type 0
  Carries token claims =
      (p0 : Bytes) × (p1 : Bytes) × (p2 : Bytes) × (body : Bytes) × (split_dots token
        ≡ p0 ∷ p1 ∷ p2 ∷ [])
      × (coding.decode p1 ≡ some body)
      × (coding.unmarshal_claims body ≡ some claims)

  decoded_sound :
      (now : ℕ) (o : Option Bytes) (claims : Claims)
      → decoded coding now o ≡ ok claims
      → (body : Bytes) × (o ≡ some body) × (coding.unmarshal_claims body ≡ some claims)
  decoded_sound now none claims h = absurd (ground arith)
  decoded_sound now (some body) claims h = (body, refl, ground arith)

  part_decoded :
      (now : ℕ) (p0 p1 p2 : Bytes) (claims : Claims)
      → validate_parts coding now (p0 ∷ p1 ∷ p2 ∷ []) ≡ ok claims
      → decoded coding now (coding.decode p1) ≡ ok claims
  part_decoded now p0 p1 p2 claims h = ground arith

  parts_carry :
      (now : ℕ) (token : Bytes) (parts : List Bytes) (claims : Claims)
      → split_dots token ≡ parts
      → validate_parts coding now parts ≡ ok claims
      → Carries token claims
  parts_carry now token [] claims e h = absurd (ground arith)
  parts_carry now token (p0 ∷ []) claims e h = absurd (ground arith)
  parts_carry now token (p0 ∷ p1 ∷ []) claims e h = absurd (ground arith)
  parts_carry now token (p0 ∷ p1 ∷ p2 ∷ p3 ∷ rest) claims e h = absurd (ground arith)
  parts_carry now token (p0 ∷ p1 ∷ p2 ∷ []) claims e h =
      let (body, found, read) =
        decoded_sound now (coding.decode p1) claims (part_decoded now p0 p1 p2 claims h) in
      (p0, p1, p2, body, e, found, read)

  pub validate_jwt-Carries :
      (now : ℕ) (token : Bytes) (claims : Claims)
      → validate_jwt coding now token ≡ ok claims
      → Carries token claims
  unfolding validate_jwt
  validate_jwt-Carries now token claims h = parts_carry now token (split_dots token) claims refl h

  -- A token is accepted only before its expiry, and only if it ends in the signature, under the
  -- gateway's secret, of all that stands before the last dot.
  pub validate_jwt_sound :
      (now : ℕ) (token : Bytes) (claims : Claims)
      → validate_jwt coding now token ≡ ok claims
      → (input : Bytes) × (token ≡ signed coding input) × (now ≤ claims.exp)
  unfolding validate_jwt
  validate_jwt_sound now token claims h =
      let (input, same, live) = validate_parts_sound now (split_dots token) claims h in
      (input, sym (join_split token).0 ∙ same, live)
