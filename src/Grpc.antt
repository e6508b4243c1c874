-- ===== src/Grpc.antt =====
-- The gRPC status codes that the services return and that gateway/main.go translates, and a
-- status: a code with a message.
use aien.Prelude.{ℕ}

pub data Code : Type 0 where
  cancelled unknown invalid_argument deadline_exceeded not_found already_exists : Code
  permission_denied resource_exhausted failed_precondition aborted out_of_range : Code
  unimplemented internal unavailable data_loss unauthenticated : Code

-- The numbers of google.golang.org/grpc/codes.
unfoldable pub code_number : Code → ℕ
code_number cancelled = 1
code_number unknown = 2
code_number invalid_argument = 3
code_number deadline_exceeded = 4
code_number not_found = 5
code_number already_exists = 6
code_number permission_denied = 7
code_number resource_exhausted = 8
code_number failed_precondition = 9
code_number aborted = 10
code_number out_of_range = 11
code_number unimplemented = 12
code_number internal = 13
code_number unavailable = 14
code_number data_loss = 15
code_number unauthenticated = 16

-- `status.Error(code, message)`; `M` is the type of the messages.
pub record Status (M : Type 0) : Type 0 where
  pub code : Code
  pub message : M
