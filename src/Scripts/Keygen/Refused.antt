-- ===== src/Scripts/Keygen/Refused.antt =====
-- The request that scripts/keygen.go prints, at the intent service.
use aien.Prelude.{
  ◌≡◌, refl, ◌≢◌, ◌⊎◌, inl, inr, false, [], ◌∷◌, none, String, ==_iff, arith, drop, is_named, ap,
  sym, ◌∙◌,
}
use aien.Prelude.Sql.{ok, err}
use aien.Grpc.{unauthenticated}
use aien.Crypto.{Bytes, Primitives, utf8, get_sign_bytes}
use aien.Crypto.Laws.{IsSignature, sign-encode, verify-encode}
use aien.Intent.Names.{type_string}
use aien.Intent.Handler.{text, is_unspecified, check_request, refusal}
use aien.Gateway.Http.{parse_http_type}
use aien.Gateway.Submit.{SubmitIntentHttpRequest, translate}
use aien.Scripts.Keygen.{sign_request}

-- The type names of the HTTP interface.
abbrev IsHttpName : String → Type 0
IsHttpName t = (t ≡ "TRANSFER") ⊎ (t ≡ "COMPUTE") ⊎ (t ≡ "QUERY") ⊎ (t ≡ "SCHEDULED")

parse_http_type-IsHttpName :
    (t : String) → is_unspecified (parse_http_type t) ≡ false → IsHttpName t
unfolding parse_http_type
parse_http_type-IsHttpName t h =
    ground (arith, ==_iff t "TRANSFER", ==_iff t "COMPUTE", ==_iff t "QUERY", ==_iff t "SCHEDULED")

-- The bytes that the script signs are not those that the intent service verifies.
signed-differ :
    (t submitter_id : String) (payload : Bytes)
    → IsHttpName t
    → get_sign_bytes t submitter_id payload
      ≢ get_sign_bytes (type_string (parse_http_type t)) submitter_id payload
unfolding get_sign_bytes type_string parse_http_type utf8
signed-differ t submitter_id payload named = elim named [
  | inl e ↦ rw e (λ h. ground arith)
  | inr (inl e) ↦ rw e (λ h. ground arith)
  | inr (inr (inl e)) ↦ rw e (λ h. ground arith)
  | inr (inr (inr e)) ↦ rw e (λ h. ground arith)
]

module _ {E : Type 0} (prim : Primitives) (public private : Bytes)
    (t submitter_id payload : String) where
  -- Of a key pair that signs, and of a type that the HTTP interface knows, the script prints a request
  -- with a submitter, a key and a signature, all non-empty. But the signature covers the type's HTTP
  -- name, and unless it verifies for the text with the protobuf name, which is a different one, the
  -- intent service refuses the request as it comes from the gateway.
  pub sign_request-refused :
      let signed = get_sign_bytes t submitter_id (utf8 payload) in
      let verified = get_sign_bytes (type_string (parse_http_type t)) submitter_id (utf8 payload) in
      let signature = prim.ed_sign private signed in
      IsSignature prim public private
      → drop 32 private ≡ public
      → is_unspecified (parse_http_type t) ≡ false
      → submitter_id ≢ ""
      → prim.encode public ≢ ""
      → prim.encode signature ≢ ""
      → (verified ≢ signed → prim.ed_verify public verified signature ≡ false)
      → (req : SubmitIntentHttpRequest) × (sign_request prim
            (prim.encode private ∷ t ∷ submitter_id ∷ payload ∷ [])
          ≡ ok req)
        × (check_request {E = E} prim (translate (parse_http_type req.type_name) req)
            ≡ err (refusal unauthenticated (text "invalid cryptographic signature")))
  unfolding sign_request check_request translate
  sign_request-refused h half typed submitter keyed signed_text unforged =
      let signed = get_sign_bytes t submitter_id (utf8 payload) in
      let verified = get_sign_bytes (type_string (parse_http_type t)) submitter_id (utf8 payload) in
      let apart =
        signed-differ t submitter_id (utf8 payload) (parse_http_type-IsHttpName t typed) in
      let refuted = unforged (λ (e : verified ≡ signed). apart (sym e)) in
      let seen = verify-encode prim public private signed verified h ∙ ap ok refuted in
      (
        record {
          type_name = t;
          payload = utf8 payload;
          submitter_id = submitter_id;
          signature = prim.encode (prim.ed_sign private signed);
          submitter_public_key = prim.encode public;
          constraints = none;
        },
        rw (h.private-decoded, h.private_size, half, sign-encode prim public private signed h) refl,
        rw
            (
              typed,
              is_named submitter_id submitter,
              is_named (prim.encode public) keyed,
              is_named (prim.encode (prim.ed_sign private signed)) signed_text,
              seen,
            )
            refl,
      )
