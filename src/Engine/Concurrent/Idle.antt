-- ===== src/Engine/Concurrent/Idle.antt =====
-- The steps of the workers leave an id that cannot be claimed so.
use aien.Prelude.{
  ℕ, zero, suc, ◌+◌, ◌≡◌, ◌≢◌, refl, sym, List, [], ◌∷◌, Option, none, some, String, ◌==◌, ==_iff,
  differ, arith, if◌then◌else◌,
}
use mathlib.Core.Path.{subst}
use aien.Prelude.Sql.{Result, ok, err, Commit, committed, refused, lost}
use aien.Intent.Types.{Intent, Time}
use aien.Intent.Table.{IntentRow, set_status}
use aien.Scheduler.{Wire}
use aien.Engine.{Wallet, Answers, ExecutionError, claim, claimed, autocommit, final_status}
use aien.Engine.Claim.{IsIdle}
use aien.Engine.Once.{finish_kept}
use aien.Engine.Concurrent.{put_back, Shared, pick, write_picked, times_running}

claim_keeps :
    (j k to from : String) (now now' : Time) (rows : List IntentRow)
    → to ≢ from
    → (claim j to from now' rows).1 ≡ 0
    → (claim j to from now' (claim k to from now rows).0).1 ≡ 0
unfolding claim
claim_keeps j k to from now now' [] ne h = refl
claim_keeps j k to from now now' (r ∷ rows) ne h =
    ground
      (arith, ==_iff to from, ==_iff r.id k, ==_iff r.id j, claim_keeps j k to from now now' rows)

set_keeps :
    (j k to from st : String) (now now' : Time) (rows : List IntentRow)
    → st ≢ from
    → (claim j to from now' rows).1 ≡ 0
    → (claim j to from now' (set_status k st now rows)).1 ≡ 0
unfolding claim set_status
set_keeps j k to from st now now' [] ne h = refl
set_keeps j k to from st now now' (r ∷ rows) ne h =
    ground
      (arith, ==_iff st from, ==_iff r.id k, ==_iff r.id j, set_keeps j k to from st now now' rows)

module _ {A : Type 0} where
  pub pick_inv :
      (x y : A) (o : Option (A × List A)) (ys : List A)
      → put_back x o ≡ some (y, ys)
      → (zs : List A) × (o ≡ some (y, zs)) × (ys ≡ x ∷ zs)
  pick_inv x y none ys h = absurd (ground arith)
  pick_inv x y (some (z, zs)) ys h = (zs, ground arith, ground arith)

pub times_running-pick :
    (id : String) (k : ℕ) (tasks : List Intent) (intent : Intent) (rest : List Intent)
    → pick k tasks ≡ some (intent, rest)
    → times_running id tasks ≡ (if intent.id == id then 1 else 0) + times_running id rest
unfolding pick times_running
times_running-pick id k [] intent rest h = absurd (ground arith)
times_running-pick id zero (x ∷ xs) intent rest h = ground arith
times_running-pick id (suc k) (x ∷ xs) intent rest h =
    let (zs, there, e) = pick_inv x intent (pick k xs) rest h in
    rw e (omega (arith, times_running-pick id k xs intent zs there))

module _ (wire : Wire) {W A : Type 0} (wallet : Wallet W A) where
  abbrev pub Idle : String → Shared W → Type 0
  Idle id s = IsIdle id s.world.pipeline.rows

  pub claimed_kept-IsIdle :
      (id : String) (intent : Intent) (now : Time) (rows : List IntentRow)
      → IsIdle id rows
      → IsIdle id (claimed intent.id now rows).0
  claimed_kept-IsIdle id intent now rows h now' =
      claim_keeps id intent.id "INTENT_STATUS_EXECUTING" "INTENT_STATUS_SCHEDULED" now now' rows
        (differ "INTENT_STATUS_EXECUTING" "INTENT_STATUS_SCHEDULED" refl) (h now')

  pub final_kept-IsIdle :
      (id : String) (intent : Intent) (now : Time) (r : Result ExecutionError (Unit {0}))
      (c : Commit) (rows : List IntentRow)
      → IsIdle id rows
      → IsIdle id (autocommit c (set_status intent.id (final_status r).0 now) rows).0
  final_kept-IsIdle id intent now r refused rows h now' = h now'
  final_kept-IsIdle id intent now (ok u) committed rows h now' =
      set_keeps id intent.id "INTENT_STATUS_EXECUTING" "INTENT_STATUS_SCHEDULED" _ now now' rows
        (differ "INTENT_STATUS_COMPLETED" "INTENT_STATUS_SCHEDULED" refl) (h now')
  final_kept-IsIdle id intent now (ok u) lost rows h now' =
      set_keeps id intent.id "INTENT_STATUS_EXECUTING" "INTENT_STATUS_SCHEDULED" _ now now' rows
        (differ "INTENT_STATUS_COMPLETED" "INTENT_STATUS_SCHEDULED" refl) (h now')
  final_kept-IsIdle id intent now (err x) committed rows h now' =
      set_keeps id intent.id "INTENT_STATUS_EXECUTING" "INTENT_STATUS_SCHEDULED" _ now now' rows
        (differ "INTENT_STATUS_FAILED" "INTENT_STATUS_SCHEDULED" refl) (h now')
  final_kept-IsIdle id intent now (err x) lost rows h now' =
      set_keeps id intent.id "INTENT_STATUS_EXECUTING" "INTENT_STATUS_SCHEDULED" _ now now' rows
        (differ "INTENT_STATUS_FAILED" "INTENT_STATUS_SCHEDULED" refl) (h now')

  pub write_picked-Idle :
      (id : String) (a : Answers) (s : Shared W)
      (o : Option (
        (Intent × Result ExecutionError (Unit {0}))
        × List (Intent × Result ExecutionError (Unit {0}))))
      → Idle id s
      → Idle id (write_picked wire wallet a o s)
  write_picked-Idle id a s none h = h
  write_picked-Idle id a s (some ((intent, r), rest)) h =
      let written =
        autocommit a.final_ends (set_status intent.id (final_status r).0 a.now)
          s.world.pipeline.rows in
      let kept = finish_kept wire wallet a intent (final_status r).1 s.world written in
      subst (IsIdle id) (sym kept.1)
        (final_kept-IsIdle id intent a.now r a.final_ends s.world.pipeline.rows h)
