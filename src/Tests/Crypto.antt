-- ===== src/Tests/Crypto.antt =====
-- Signatures and tokens with a toy cipher.
use aien.Prelude.{◌≡◌, ◌∷◌, ◌++◌}
use aien.Crypto.{utf8, pipe, get_sign_bytes}
use aien.Crypto.Laws.{get_sign_bytes_ambiguous}

get_sign_bytes_ambiguous_example :
    get_sign_bytes "INTENT_TYPE_TRANSFER" "alice|bob" (utf8 "{}")
    ≡ get_sign_bytes "INTENT_TYPE_TRANSFER" "alice" (utf8 "bob" ++ pipe ∷ utf8 "{}")
get_sign_bytes_ambiguous_example =
    get_sign_bytes_ambiguous "INTENT_TYPE_TRANSFER" "alice" "bob" (utf8 "{}")
