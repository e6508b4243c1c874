-- ===== src/Crypto/Laws.antt =====
-- What a signature covers, and that what `Sign` makes `Verify` accepts.
use Prim.Native.Char.{code}
use text.Mathlib.TextLemmas.{nil-append, cons-append}
use Prim.Native.String.{[] as empty_text, ◌∷◌ as char_before, ◌++◌ as append}
use mathlib.Core.List.{append_assoc}
use aien.Prelude.{ℕ, ◌≡◌, ◌≢◌, true, [], ◌∷◌, ◌++◌, some, String, length, arith, All, sym, ap}
use aien.Prelude.Sql.{ok}
use aien.Crypto.{
  utf8_char, Bytes, utf8, pipe, get_sign_bytes, Primitives, sign, verify, public_key_size,
  private_key_size, signature_size,
}

-- What the module relies on for one key pair: the hexadecimal coding of its keys and signatures is
-- undone by decoding, they have their sizes, and a signature verifies under the public key.
pub record IsSignature (prim : Primitives) (public private : Bytes) : Type 0 where
  pub public-decoded : prim.decode (prim.encode public) ≡ some public
  pub private-decoded : prim.decode (prim.encode private) ≡ some private
  pub signature-decoded :
      (m : Bytes)
      → prim.decode (prim.encode (prim.ed_sign private m)) ≡ some (prim.ed_sign private m)
  pub public_size : length public ≡ public_key_size
  pub private_size : length private ≡ private_key_size
  pub signed_size : (m : Bytes) → length (prim.ed_sign private m) ≡ signature_size
  pub verify-sign : (m : Bytes) → prim.ed_verify public m (prim.ed_sign private m) ≡ true

module _ (prim : Primitives) (public private payload : Bytes) where
  -- `Sign` with the encoded private key.
  pub sign-encode :
      IsSignature prim public private
      → sign prim payload (prim.encode private) ≡ ok (prim.encode (prim.ed_sign private payload))
  unfolding sign
  sign-encode h = ground (arith, h.private-decoded, h.private_size)

  -- `Verify` with the encoded public key, of a signature of any message.
  pub verify-encode :
      (message : Bytes)
      → IsSignature prim public private
      → verify prim message (prim.encode (prim.ed_sign private payload)) (prim.encode public)
        ≡ ok (prim.ed_verify public message (prim.ed_sign private payload))
  unfolding verify
  verify-encode message h =
      ground
        (arith, h.public-decoded, h.signature-decoded payload, h.public_size, h.signed_size payload)

-- The text has no `|`.
abbrev pub NoPipe : Bytes → Type 0
NoPipe = All (λ (c : ℕ). c ≢ pipe)

split_at_pipe :
    (xs ys r s : Bytes)
    → NoPipe xs
    → NoPipe ys
    → xs ++ pipe ∷ r ≡ ys ++ pipe ∷ s
    → (xs ≡ ys) × (r ≡ s)
split_at_pipe [] [] r s hx hy e = ground arith
split_at_pipe [] (y ∷ ys) r s hx hy e = absurd (ground arith)
split_at_pipe (x ∷ xs) [] r s hx hy e = absurd (ground arith)
split_at_pipe (x ∷ xs) (y ∷ ys) r s hx hy e = ground (arith, split_at_pipe xs ys r s hx.1 hy.1)

-- Two intents with the same signed bytes have the same type, submitter and payload, where no type
-- and no submitter contains a `|`.
pub get_sign_bytes_inj :
    (type1 type2 submitter1 submitter2 : String) (payload1 payload2 : Bytes)
    → NoPipe (utf8 type1)
    → NoPipe (utf8 type2)
    → NoPipe (utf8 submitter1)
    → NoPipe (utf8 submitter2)
    → get_sign_bytes type1 submitter1 payload1 ≡ get_sign_bytes type2 submitter2 payload2
    → (utf8 type1 ≡ utf8 type2) × (utf8 submitter1 ≡ utf8 submitter2) × (payload1 ≡ payload2)
unfolding get_sign_bytes
get_sign_bytes_inj type1 type2 submitter1 submitter2 payload1 payload2 t1 t2 s1 s2 e =
    let (types, rest) = split_at_pipe (utf8 type1) (utf8 type2) _ _ t1 t2 e in
    let (submitters, payloads) = split_at_pipe (utf8 submitter1) (utf8 submitter2) _ _ s1 s2 rest in
    (types, submitters, payloads)

utf8-append : (s t : String) → utf8 (append s t) ≡ utf8 s ++ utf8 t
unfolding utf8
utf8-append empty_text t = rw nil-append
utf8-append (char_before c s) t =
    rw cons-append
      (rw (utf8-append s t) (sym (append_assoc (utf8_char (code c)) (utf8 s) (utf8 t))))

-- A `|` in a submitter makes the signed bytes ambiguous: the text behind it can be moved from the
-- submitter to the payload, so that one signature covers both intents.
pub get_sign_bytes_ambiguous :
    (type_name submitter moved : String) (payload : Bytes)
    → get_sign_bytes type_name (append submitter (append "|" moved)) payload
      ≡ get_sign_bytes type_name submitter (utf8 moved ++ pipe ∷ payload)
unfolding get_sign_bytes utf8
get_sign_bytes_ambiguous type_name submitter moved payload =
    rw (utf8-append submitter (append "|" moved), utf8-append "|" moved)
      (ap (λ (r : Bytes). utf8 type_name ++ pipe ∷ r)
        (append_assoc (utf8 submitter) (pipe ∷ utf8 moved) (pipe ∷ payload)))
