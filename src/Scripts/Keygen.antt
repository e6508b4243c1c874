-- ===== src/Scripts/Keygen.antt =====
-- `main` of scripts/keygen.go with `--sign`: the request that it prints as JSON. Printing is not
-- modelled; Go's %q and JSON agree on printable ASCII.
pub mod Refused
use aien.Prelude.{
  ℕ, Bool, List, [], ◌∷◌, Option, none, some, String, nat_eq, length, drop, not, if◌then◌else◌,
}
use aien.Prelude.Sql.{Result, ok, err}
use aien.Crypto.{Bytes, Primitives, CryptoError, utf8, get_sign_bytes, sign, private_key_size}
use aien.Gateway.Submit.{SubmitIntentHttpRequest}

pub data KeygenError : Type 0 where
  missing_arguments invalid_private_key : KeygenError
  signing : CryptoError → KeygenError

abbrev pub printed :
    (intent_type submitter_id payload public_hex : String)
    → Result CryptoError String
    → Result KeygenError SubmitIntentHttpRequest
printed intent_type submitter_id payload public_hex (err e) = err (signing e)
printed intent_type submitter_id payload public_hex (ok signature) = ok (record {
  type_name = intent_type;
  payload = utf8 payload;
  submitter_id = submitter_id;
  signature = signature;
  submitter_public_key = public_hex;
  constraints = none;
})

module _ (prim : Primitives) where
  open prim use {encode, decode}

  abbrev pub with_key :
      Option Bytes
      → (private_hex intent_type submitter_id payload : String)
      → Result KeygenError SubmitIntentHttpRequest
  with_key none private_hex intent_type submitter_id payload = err invalid_private_key
  with_key (some key) private_hex intent_type submitter_id payload =
      if not (nat_eq (length key) private_key_size)
      then err invalid_private_key
      else printed intent_type submitter_id payload (encode (drop 32 key))
          (sign prim (get_sign_bytes intent_type submitter_id (utf8 payload)) private_hex)

  -- The arguments behind `--sign`.
  unfoldable pub sign_request : List String → Result KeygenError SubmitIntentHttpRequest
  sign_request (private_hex ∷ intent_type ∷ submitter_id ∷ payload ∷ rest) =
      with_key (decode private_hex) private_hex intent_type submitter_id payload
  sign_request _ = err missing_arguments
