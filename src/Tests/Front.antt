-- ===== src/Tests/Front.antt =====
-- The gateway from login to the endpoints, and its view of the ledger.
use aien.Prelude.{List, ℕ, suc, ◌≤◌, ◌≡◌, refl, false, [], ◌∷◌, ◌++◌, some, none, String}
use aien.Crypto.{Bytes, utf8}
use aien.Gateway.Jwt.{Claims, generate_jwt, validate_jwt, split_dots, bytes_eq, signed}
use aien.Gateway.Limit.{strip_prefix, authorize, rate_limit}
use aien.Gateway.Login.{Credentials}
use aien.Gateway.Jwt.Sound.{Carries}
use aien.Gateway.Server.{Request, ledger, serve, route, serve_guarded}
use aien.Gateway.LedgerView.{blocks, handle_api_ledger}
use aien.Gateway.LedgerView.Latest.{at_path, view-append}
use aien.Ledger.Engine.{append_block}
use aien.Ledger.Append.{missing}
use aien.Tests.Ledger.{codec, digest, first, first-IsWritable, healthy, healthy-IsHealthy}
use aien.Tests.Gateway.{coding, header}

abbrev admin : Credentials
admin = record { username = "admin"; password = "aien-admin-2026" }

abbrev get_ledger : Request
get_ledger = record { method = "GET"; path = "/api/ledger"; auth_header = header }

serve_guarded_example :
    (input : Bytes) × (header ≡ utf8 "Bearer " ++ signed coding input)
    × ((claims : Claims) × Carries coding (signed coding input) claims
        × (90000 ≤ claims.exp)
        × (some (b'a' ∷ []) ≡ some claims.sub))
unfolding serve authorize rate_limit route utf8 strip_prefix generate_jwt validate_jwt split_dots
    bytes_eq
serve_guarded_example =
    serve_guarded (λ (k : String) (r : ℕ). (suc r, some (suc r))) coding false 90000
      "rate:1.2.3.4:0" get_ledger 0 (some (b'a' ∷ [])) ledger refl refl

abbrev three : List ℕ
three = 1 ∷ 2 ∷ 3 ∷ []

view-append_example :
    let file' =
      (append_block codec digest healthy "2026-01-01T00:00:00Z" "intent1" "INTENT_TYPE_TRANSFER"
        "INTENT_STATUS_COMPLETED" none).0 in
    (handle_api_ledger "GET" (at_path none) ≡ blocks [])
    × (handle_api_ledger "GET" (at_path file') ≡ blocks (codec.marshal first ∷ []))
view-append_example =
    view-append codec digest healthy "2026-01-01T00:00:00Z" "intent1" "INTENT_TYPE_TRANSFER"
      "INTENT_STATUS_COMPLETED" none [] healthy-IsHealthy tt missing first-IsWritable
