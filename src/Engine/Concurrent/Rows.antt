-- ===== src/Engine/Concurrent/Rows.antt =====
-- What the engine's statements on the rows of other ids leave of a row.
use aien.Prelude.{
  ◌≡◌, refl, sym, ap, inl, inr, false, List, [], ◌∷◌, String, ◌==◌, ==_iff, arith, Bool-cases,
}
use mathlib.Core.Path.{subst}
use aien.Prelude.Sql.{Commit, committed, refused, lost}
use aien.Intent.Types.{Intent, Time}
use aien.Intent.Table.{IntentRow, find_row, set_status}
use aien.Engine.{claim, claimed, autocommit}
use aien.Engine.Claim.{IsIdle, claim_none}

find_row-claim_other :
    (id k to from : String) (now : Time) (rows : List IntentRow)
    → (k == id) ≡ false
    → find_row id (claim k to from now rows).0 ≡ find_row id rows
unfolding find_row claim
find_row-claim_other id k to from now [] h = refl
find_row-claim_other id k to from now (r ∷ rows) h =
    ground (arith, ==_iff r.id k, ==_iff k id, find_row-claim_other id k to from now rows)

find_row-set_other :
    (id k st : String) (now : Time) (rows : List IntentRow)
    → (k == id) ≡ false
    → find_row id (set_status k st now rows) ≡ find_row id rows
unfolding find_row set_status
find_row-set_other id k st now [] h = refl
find_row-set_other id k st now (r ∷ rows) h =
    ground (arith, ==_iff r.id k, ==_iff k id, find_row-set_other id k st now rows)

pub claimed_row :
    (id : String) (intent : Intent) (now : Time) (rows : List IntentRow)
    → IsIdle id rows
    → find_row id (claimed intent.id now rows).0 ≡ find_row id rows
claimed_row id intent now rows idle = elim (Bool-cases (intent.id == id)) [
  | inl same ↦
      let untouched : (claimed id now rows).0 ≡ rows =
        claim_none id "INTENT_STATUS_EXECUTING" "INTENT_STATUS_SCHEDULED" now rows (idle now) in
      subst (λ k. find_row id (claimed k now rows).0 ≡ find_row id rows)
        (sym ((==_iff intent.id id).0 same)) (ap (find_row id) untouched)
  | inr other ↦
      find_row-claim_other id intent.id "INTENT_STATUS_EXECUTING" "INTENT_STATUS_SCHEDULED" now rows
        other
]

pub written_row :
    (id : String) (c : Commit) (intent : Intent) (st : String) (now : Time) (rows : List IntentRow)
    → (intent.id == id) ≡ false
    → find_row id (autocommit c (set_status intent.id st now) rows).0 ≡ find_row id rows
written_row id committed intent st now rows other =
    find_row-set_other id intent.id st now rows other
written_row id refused intent st now rows other = refl
written_row id lost intent st now rows other = find_row-set_other id intent.id st now rows other
