-- ===== src/Engine/Claim.antt =====
-- The claim of a task: an id whose rows are not SCHEDULED is idle, and a run leaves it idle.
use aien.Prelude.{◌≡◌, ◌≢◌, refl, List, [], ◌∷◌, String, ==_iff, arith, differ}
use aien.Intent.Types.{Time}
use aien.Intent.Table.{IntentRow, set_status}
use aien.Engine.{claim, claimed}

pub claim_after_claim :
    (k to from : String) (now now' : Time) (rows : List IntentRow)
    → to ≢ from
    → (claim k to from now' (claim k to from now rows).0).1 ≡ 0
unfolding claim
claim_after_claim k to from now now' [] h = refl
claim_after_claim k to from now now' (r ∷ rows) h =
    ground (arith, ==_iff to from, ==_iff r.id k, claim_after_claim k to from now now' rows)

pub claim_after_set :
    (k to from st : String) (now now' : Time) (rows : List IntentRow)
    → st ≢ from
    → (claim k to from now' (set_status k st now rows)).1 ≡ 0
unfolding claim set_status
claim_after_set k to from st now now' [] h = refl
claim_after_set k to from st now now' (r ∷ rows) h =
    ground (arith, ==_iff st from, ==_iff r.id k, claim_after_set k to from st now now' rows)

pub claim_none :
    (k to from : String) (now : Time) (rows : List IntentRow)
    → (claim k to from now rows).1 ≡ 0
    → (claim k to from now rows).0 ≡ rows
unfolding claim
claim_none k to from now [] h = refl
claim_none k to from now (r ∷ rows) h = ground (arith, claim_none k to from now rows)

-- No row of the id can be claimed.
abbrev pub IsIdle : String → List IntentRow → Type 0
IsIdle id rows = (now : Time) → (claimed id now rows).1 ≡ 0

pub claimed-IsIdle :
    (id : String) (now : Time) (rows : List IntentRow) → IsIdle id (claimed id now rows).0
claimed-IsIdle id now rows now' =
    claim_after_claim id "INTENT_STATUS_EXECUTING" "INTENT_STATUS_SCHEDULED" now now' rows
      (differ "INTENT_STATUS_EXECUTING" "INTENT_STATUS_SCHEDULED" refl)
