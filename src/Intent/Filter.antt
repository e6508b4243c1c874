-- ===== src/Intent/Filter.antt =====
-- The filters of `List`, as both stores apply them: an unspecified status and an empty submitter
-- let every intent through.
use aien.Prelude.{Bool, true, false, String, ◌==◌, ◌||◌, ◌&&◌}
use aien.Intent.Types.{
  Intent, IntentStatus, status_unspecified, pending, validated, scheduled, executing, completed,
  failed, rejected, cancelled, status_number, ℤ, pos, negsuc,
}
use aien.Prelude.{nat_eq}

-- `==` on the enum's numbers.
abbrev number_eq : ℤ → ℤ → Bool
number_eq (pos a) (pos b) = nat_eq a b
number_eq (negsuc a) (negsuc b) = nat_eq a b
number_eq _ _ = false

unfoldable pub status_eq : IntentStatus → IntentStatus → Bool
status_eq status_unspecified status_unspecified = true
status_eq pending pending = true
status_eq validated validated = true
status_eq scheduled scheduled = true
status_eq executing executing = true
status_eq completed completed = true
status_eq failed failed = true
status_eq rejected rejected = true
status_eq cancelled cancelled = true
status_eq (status_number a) (status_number b) = number_eq a b
status_eq _ _ = false

-- The intent passes both filters.
unfoldable pub matches : IntentStatus → String → Intent → Bool
matches status_filter submitter_filter intent =
    (status_eq status_filter status_unspecified || status_eq intent.status status_filter)
    && (submitter_filter == "" || intent.submitter_id == submitter_filter)
