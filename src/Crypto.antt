-- ===== src/Crypto.antt =====
-- shared/crypto/crypto.go: signatures over the text of an intent. Hexadecimal coding and Ed25519
-- (encoding/hex, crypto/ed25519, crypto/rand) are parameters.
pub mod Laws
use Prim.Native.Char.{code}
use Prim.Native.String.{[] as empty_text, ◌∷◌ as char_before}
use aien.Prelude.{
  ℕ, ◌+◌, ◌/◌, ◌%◌, Bool, List, [], ◌∷◌, ◌++◌, Option, none, some, String, ltb, nat_eq, not, length,
  if◌then◌else◌,
}
use aien.Prelude.Sql.{Result, ok, err}

abbrev pub Bytes : Type 0
Bytes = List ℕ

-- The bytes of a character in UTF-8, as Go holds its strings.
utf8_char : ℕ → Bytes
utf8_char c =
    if ltb c 128
    then c ∷ []
    else if ltb c 2048
    then (192 + c / 64) ∷ (128 + c % 64) ∷ []
    else if ltb c 65536
    then (224 + c / 4096) ∷ (128 + c / 64 % 64) ∷ (128 + c % 64) ∷ []
    else (240 + c / 262144) ∷ (128 + c / 4096 % 64) ∷ (128 + c / 64 % 64) ∷ (128 + c % 64) ∷ []

-- `[]byte(s)`
unfoldable pub utf8 : String → Bytes
unfolding utf8_char
utf8 empty_text = []
utf8 (char_before c s) = utf8_char (code c) ++ utf8 s

abbrev pub pipe : ℕ
pipe = b'|'

-- `GetSignBytes`: fmt.Sprintf("%s|%s|%s", typeStr, submitterId, string(payload))
unfoldable pub get_sign_bytes : (type_name submitter_id : String) → Bytes → Bytes
get_sign_bytes type_name submitter_id payload =
    utf8 type_name ++ pipe ∷ (utf8 submitter_id ++ pipe ∷ payload)

abbrev pub public_key_size : ℕ
public_key_size = 32

abbrev pub private_key_size : ℕ
private_key_size = 64

abbrev pub signature_size : ℕ
signature_size = 64

-- encoding/hex, and crypto/ed25519 on raw bytes.
pub record Primitives : Type 0 where
  pub encode : Bytes → String
  pub decode : String → Option Bytes
  pub ed_sign : (private_key message : Bytes) → Bytes
  pub ed_verify : (public_key message signature : Bytes) → Bool

pub data CryptoError : Type 0 where
  private_key_hex public_key_hex signature_hex : CryptoError
  -- "invalid … size: expected … bytes, got %d"
  private_key_length public_key_length signature_length : ℕ → CryptoError

module _ (prim : Primitives) where
  open prim use {encode, decode, ed_sign, ed_verify}

  -- `GenerateKeyPair`, with the answer of `ed25519.GenerateKey(rand.Reader)`.
  unfoldable pub generate_key_pair : Option (Bytes × Bytes) → Option (String × String)
  generate_key_pair none = none
  generate_key_pair (some (public, private)) = some (encode public, encode private)

  unfoldable pub sign : (payload : Bytes) → (private_key_hex : String) → Result CryptoError String
  sign payload private_hex = elim (decode private_hex) [
    | none ↦ err private_key_hex
    | some key ↦
        if not (nat_eq (length key) private_key_size)
        then err (private_key_length (length key))
        else ok (encode (ed_sign key payload))
  ]

  verify_signature : (payload public_key : Bytes) → String → Result CryptoError Bool
  verify_signature payload key signature = elim (decode signature) [
    | none ↦ err signature_hex
    | some sig ↦
        if not (nat_eq (length sig) signature_size)
        then err (signature_length (length sig))
        else ok (ed_verify key payload sig)
  ]

  unfoldable pub verify :
      (payload : Bytes) → (signature public_key : String) → Result CryptoError Bool
  unfolding verify_signature
  verify payload signature public_hex = elim (decode public_hex) [
    | none ↦ err public_key_hex
    | some key ↦
        if not (nat_eq (length key) public_key_size)
        then err (public_key_length (length key))
        else verify_signature payload key signature
  ]
