-- ===== src/Intent/Table/Laws.antt =====
-- How the statements on `intents` read back what they write.
use aien.Prelude.{
  ◌≡◌, refl, List, [], ◌∷◌, ◌++◌, Option, none, some, String, ◌==◌, ==_iff, if◌then◌else◌, arith,
}
use aien.Intent.Types.{Time}
use aien.Intent.Table.{IntentRow, find_row, set_status}

-- What a row reads after an update of its status.
abbrev pub with_status : String → Time → Option IntentRow → Option IntentRow
with_status s now none = none
with_status s now (some r) = some (record r { status = s; updated_at = now })

pub find_row-set_status :
    (j k s : String) (now : Time) (rows : List IntentRow)
    → find_row j (set_status k s now rows)
      ≡ (if k == j then with_status s now (find_row j rows) else find_row j rows)
unfolding find_row set_status
find_row-set_status j k s now [] = ground (arith, ==_iff k j)
find_row-set_status j k s now (r ∷ rows) =
    ground (arith, ==_iff k j, ==_iff r.id k, ==_iff r.id j, find_row-set_status j k s now rows)

pub find_row-append :
    (k : String) (rows : List IntentRow) (r : IntentRow)
    → find_row k rows ≡ none
    → find_row k (rows ++ r ∷ []) ≡ (if r.id == k then some r else none)
unfolding find_row
find_row-append k [] r h = refl
find_row-append k (q ∷ rows) r h = ground (arith, find_row-append k rows r)

pub find_row-append_some :
    (k : String) (rows : List IntentRow) (r q : IntentRow)
    → find_row k rows ≡ some q
    → find_row k (rows ++ r ∷ []) ≡ some q
unfolding find_row
find_row-append_some k [] r q h = ground arith
find_row-append_some k (p ∷ rows) r q h = ground (arith, find_row-append_some k rows r q)

-- A row that is found has the id that was asked for.
pub find_row-id :
    (k : String) (rows : List IntentRow) (r : IntentRow) → find_row k rows ≡ some r → r.id ≡ k
unfolding find_row
find_row-id k [] r h = ground arith
find_row-id k (q ∷ rows) r h = ground (arith, ==_iff q.id k, find_row-id k rows r)
