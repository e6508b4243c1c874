-- ===== src/Startup/Config.antt =====
-- `GetEnv` of shared/config/config.go. `os.LookupEnv` is a parameter.
use aien.Prelude.{Option, none, some, String, ◌==◌, if◌then◌else◌}

abbrev pub Environment : Type 0
Environment = String → Option String

abbrev pub non_empty : Option String → (fallback : String) → String
non_empty none fallback = fallback
non_empty (some value) fallback = if value == "" then fallback else value

unfoldable pub get_env : Environment → (key fallback : String) → String
get_env env key fallback = non_empty (env key) fallback
