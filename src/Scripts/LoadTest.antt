-- ===== src/Scripts/LoadTest.antt =====
-- scripts/load_test_csv.go: the signed request that a worker makes of one transfer. The type of the
-- amounts is a parameter, a float64 in Go, and so is json.Marshal.
pub mod Accepted
pub mod Csv
pub mod Seed
pub mod Submission
use aien.Prelude.{String, none}
use aien.Prelude.Sql.{Result, ok, err}
use aien.Crypto.{Bytes, Primitives, CryptoError, get_sign_bytes, sign}
use aien.Gateway.Submit.{SubmitIntentHttpRequest}

pub record IntentPayload (Amount : Type 0) : Type 0 where
  pub from : String
  pub to : String
  pub amount : Amount

module _ {Amount : Type 0} (marshal : IntentPayload Amount → Bytes) where
  abbrev pub requested :
      IntentPayload Amount
      → (public_hex : String) → Result CryptoError String
      → Result CryptoError SubmitIntentHttpRequest
  requested tx public_hex (err e) = err e
  requested tx public_hex (ok signature) = ok (record {
    type_name = "TRANSFER";
    payload = marshal tx;
    submitter_id = tx.from;
    signature = signature;
    submitter_public_key = public_hex;
    constraints = none;
  })

  unfoldable pub make_request :
      Primitives
      → (public_hex private_hex : String) → IntentPayload Amount
      → Result CryptoError SubmitIntentHttpRequest
  make_request prim public_hex private_hex tx =
      requested tx public_hex
        (sign prim (get_sign_bytes "INTENT_TYPE_TRANSFER" tx.from (marshal tx)) private_hex)
