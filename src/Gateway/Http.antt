-- ===== src/Gateway/Http.antt =====
-- gateway/main.go: the intent types as the HTTP interface names them, and the HTTP status of a gRPC
-- error.
use aien.Prelude.{
  ◌/◌, ℕ, ◌≡◌, refl, Bool, true, false, Option, none, some, String, ◌==◌, nat_eq, if◌then◌else◌,
}
use aien.Grpc.{
  Code, code_number, cancelled, unknown, invalid_argument, deadline_exceeded, not_found,
  already_exists, permission_denied, resource_exhausted, failed_precondition, aborted, out_of_range,
  unimplemented, internal, unavailable, data_loss, unauthenticated, Status,
}
use aien.Intent.Types.{IntentType, type_unspecified, transfer, compute, query, scheduled_type}

-- `parseIntentType` of the gateway.
unfoldable pub parse_http_type : String → IntentType
parse_http_type s =
    if s == "TRANSFER"
    then transfer
    else if s == "COMPUTE"
    then compute
    else if s == "QUERY"
    then query
    else if s == "SCHEDULED"
    then scheduled_type
    else type_unspecified

-- The switch of `handleGRPCError` over `st.Code()`.
unfoldable pub http_code : ℕ → ℕ
http_code c =
    if nat_eq c 3
    then 400
    else if nat_eq c 5
    then 404
    else if nat_eq c 4
    then 504
    else if nat_eq c 14
    then 503
    else if nat_eq c 16
    then 401
    else if nat_eq c 7
    then 403
    else 500

-- The status and the message of `handleGRPCError`; `none` is an error that is no gRPC status.
unfoldable pub handle_grpc_error : Option (Status String) → ℕ × String
handle_grpc_error none = (500, "internal error")
handle_grpc_error (some st) = (http_code (code_number st.code), st.message)

-- An error that the client caused.
abbrev pub is_client_error : Code → Bool
is_client_error invalid_argument = true
is_client_error not_found = true
is_client_error unauthenticated = true
is_client_error permission_denied = true
is_client_error _ = false

http_code_class :
    (c : Code)
    → nat_eq (http_code (code_number c) / 100) (if is_client_error c then 4 else 5) ≡ true
unfolding http_code code_number
http_code_class cancelled = refl
http_code_class unknown = refl
http_code_class invalid_argument = refl
http_code_class deadline_exceeded = refl
http_code_class not_found = refl
http_code_class already_exists = refl
http_code_class permission_denied = refl
http_code_class resource_exhausted = refl
http_code_class failed_precondition = refl
http_code_class aborted = refl
http_code_class out_of_range = refl
http_code_class unimplemented = refl
http_code_class internal = refl
http_code_class unavailable = refl
http_code_class data_loss = refl
http_code_class unauthenticated = refl

-- Every gRPC error becomes an HTTP error, and of the class 4xx exactly when its code blames the
-- client: an invalid argument, an unknown intent, a missing authentication or permission.
pub handle_grpc_error-class :
    (st : Status String)
    → let r = handle_grpc_error (some st) in
      (r.1 ≡ st.message) × (nat_eq (r.0 / 100) (if is_client_error st.code then 4 else 5) ≡ true)
unfolding handle_grpc_error
handle_grpc_error-class st = (refl, http_code_class st.code)
