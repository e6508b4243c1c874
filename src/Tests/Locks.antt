-- ===== src/Tests/Locks.antt =====
-- Two transfers between the same accounts, in opposite directions, at the same time.
use mathlib.Core.List.{Memᴰ}
use aien.Prelude.{ℕ, ◌≡◌, refl, false, [], ◌∷◌, String, ◌==◌, if◌then◌else◌, arith}
use aien.Wallet.Money.{cents}
use aien.Wallet.Store.Locks.{Job, locking_first, locking_second, blocked, is_finished}
use aien.Wallet.Store.Locks.Progress.{jobs-CanStep}

abbrev there_job : Job
there_job = record {
  from_account = "alice";
  to_account = "bob";
  reference_id = "r1";
  is_new = false;
  stage = locking_second;
}

abbrev back_job : Job
back_job = record {
  from_account = "bob";
  to_account = "alice";
  reference_id = "r2";
  is_new = false;
  stage = locking_first;
}

abbrev rank : String → ℕ
rank k = if k == "alice" then 0 else 1

jobs-CanStep_example :
    (j : Job) × Memᴰ j (there_job ∷ back_job ∷ [])
    × (is_finished j.stage ≡ false)
    × (blocked cents j (there_job ∷ back_job ∷ []) ≡ false)
jobs-CanStep_example =
    jobs-CanStep cents rank 2 (there_job ∷ back_job ∷ []) back_job
      (
        record {
          later = λ e. absurd (ground arith);
          earlier = λ e. omega arith;
          from_bound = omega arith;
          to_bound = omega arith;
        },
        (
          record {
            later = λ e. omega arith;
            earlier = λ e. absurd (ground arith);
            from_bound = omega arith;
            to_bound = omega arith;
          },
          tt,
        ),
      )
      (Memᴰ.tail (Memᴰ.head refl)) refl
