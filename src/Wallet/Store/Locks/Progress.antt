-- ===== src/Wallet/Store/Locks/Progress.antt =====
-- Transfers cannot block each other for ever.
use mathlib.Core.List.{Memᴰ}
use mathlib.Core.Option.{some-injective}
use mathlib.Core.Path.{subst}
use aien.Prelude.{
  ℕ, zero, suc, ◌+◌, ◌<◌, ◌≤◌, ◌≡◌, refl, Bool, ◌||◌, ◌⊎◌, inl, inr, true, false, List, [], ◌∷◌,
  some, String, ==_iff, text_gt, arith, All, Bool-cases, Option-cases, if◌then◌else◌, sym, ap, ◌∙◌,
}
use aien.Wallet.Money.{Money}
use aien.Wallet.Store.{lock_order}
use aien.Wallet.Store.Locks.{
  Lock, account, new_account, reference, Stage, inserting, locking_first, locking_second, logging,
  committing, finished, Job, same_lock, has_lock, made, first_lock, second_lock, holds, held_at,
  wants, wants_at, holder, blocked, is_finished,
}

-- The numbers order the two accounts of a job, which differ, as Go's `>` on strings does, and are below
-- `bound`. The finitely many accounts of some jobs can be numbered in their order.
pub record IsRanked (rank : String → ℕ) (bound : ℕ) (j : Job) : Type 0 where
  pub later : text_gt j.from_account j.to_account ≡ true → rank j.to_account < rank j.from_account
  pub earlier :
      text_gt j.from_account j.to_account ≡ false → rank j.from_account < rank j.to_account
  pub from_bound : rank j.from_account < bound
  pub to_bound : rank j.to_account < bound

if_true : {A : Type 0} (x y : A) (b : Bool) → b ≡ true → (if b then x else y) ≡ x
if_true x y b e = rw e refl

if_false : {A : Type 0} (x y : A) (b : Bool) → b ≡ false → (if b then x else y) ≡ y
if_false x y b e = rw e refl

same_lock_sound : (k l : Lock) → same_lock k l ≡ true → l ≡ k
same_lock_sound (account a) (account b) e = ap account (sym ((==_iff a b).0 e))
same_lock_sound (new_account a) (new_account b) e = ap new_account (sym ((==_iff a b).0 e))
same_lock_sound (reference a) (reference b) e = ap reference (sym ((==_iff a b).0 e))
same_lock_sound (account a) (new_account b) e = absurd (ground arith)
same_lock_sound (account a) (reference b) e = absurd (ground arith)
same_lock_sound (new_account a) (account b) e = absurd (ground arith)
same_lock_sound (new_account a) (reference b) e = absurd (ground arith)
same_lock_sound (reference a) (account b) e = absurd (ground arith)
same_lock_sound (reference a) (new_account b) e = absurd (ground arith)

either : (b c : Bool) → (b || c) ≡ true → (b ≡ true) ⊎ (c ≡ true)
either true c e = inl refl
either false c e = inr e

-- What holds of all locks in a list holds of one that is found there.
has_lock-All :
    (P : Lock → Type 0) (k : Lock) (ls : List Lock) → All P ls → has_lock k ls ≡ true → P k
unfolding has_lock
has_lock-All P k [] all e = absurd (ground arith)
has_lock-All P k (l ∷ ls) all e = elim (either (same_lock k l) (has_lock k ls) e) [
  | inl same ↦ subst P (same_lock_sound k l same) all.0
  | inr there ↦ has_lock-All P k ls all.1 there
]

All-Memᴰ : {A : Type 0} (P : A → Type 0) (x : A) (xs : List A) → All P xs → Memᴰ x xs → P x
All-Memᴰ P x [] h there = elim there [ ]
All-Memᴰ P x (y ∷ xs) h (Memᴰ.head e) = subst P (sym e) h.0
All-Memᴰ P x (y ∷ xs) h (Memᴰ.tail there) = All-Memᴰ P x xs h.1 there

module _ (m : Money) (rank : String → ℕ) (bound : ℕ) where
  -- The order in which every job takes its locks.
  abbrev lock_rank : Lock → ℕ
  lock_rank (new_account a) = 0
  lock_rank (account a) = suc (rank a)
  lock_rank (reference r) = suc bound

  first_second :
      (j : Job)
      → IsRanked rank bound j
      → (lock_rank (first_lock m j) < lock_rank (second_lock m j))
        × (lock_rank (second_lock m j) < suc bound)
  unfolding lock_order
  first_second j h = elim (Bool-cases (text_gt j.from_account j.to_account)) [
    | inl gt ↦
        rw (first_lock, second_lock, gt) (omega (arith, h.later gt), omega (arith, h.from_bound))
    | inr le ↦
        rw (first_lock, second_lock, le) (omega (arith, h.earlier le), omega (arith, h.to_bound))
  ]

  made-below : (b : Bool) (a : String) (n : ℕ) → 0 < n → All (λ l. lock_rank l < n) (made b a)
  made-below true a n pos = (pos, tt)
  made-below false a n pos = tt

  -- A job has only locks of lower rank than the one that it wants.
  held-below :
      (s : Stage) (j : Job) (k : Lock)
      → IsRanked rank bound j
      → wants_at m s j ≡ some k
      → All (λ l. lock_rank l < lock_rank k) (held_at m s j) × (lock_rank k ≤ suc bound)
  held-below inserting j k h e =
      let same = ap lock_rank (some-injective _ k e) in (tt, omega (arith, same))
  held-below locking_first j k h e =
      let same = ap lock_rank (some-injective _ k e) in
      let order = first_second j h in
      (
        made-below j.is_new j.to_account (lock_rank k) (omega (arith, same)),
        omega (arith, same, order.0, order.1),
      )
  held-below locking_second j k h e =
      let same = ap lock_rank (some-injective _ k e) in
      let order = first_second j h in
      (
        (
          omega (arith, same, order.0),
          made-below j.is_new j.to_account (lock_rank k) (omega (arith, same)),
        ),
        omega (arith, same, order.1),
      )
  held-below logging j k h e =
      let same = ap lock_rank (some-injective _ k e) in
      let order = first_second j h in
      (
        (
          omega (arith, same, order.1),
          (
            omega (arith, same, order.0, order.1),
            made-below j.is_new j.to_account (lock_rank k) (omega (arith, same)),
          ),
        ),
        omega (arith, same),
      )
  held-below committing j k h e = absurd (ground arith)
  held-below finished j k h e = absurd (ground arith)

  holder-Memᴰ :
      (k : Lock) (jobs : List Job) (j : Job)
      → holder m k jobs ≡ some j
      → Memᴰ j jobs × (holds m k j ≡ true)
  unfolding holder
  holder-Memᴰ k [] j h = absurd (ground arith)
  holder-Memᴰ k (i ∷ jobs) j h = elim (Bool-cases (holds m k i)) [
    | inl found ↦
        let same : i ≡ j = some-injective i j (sym (if_true _ _ (holds m k i) found) ∙ h) in
        (Memᴰ.head (sym same), subst (λ (x : Job). holds m k x ≡ true) same found)
    | inr other ↦
        let (there, held) = holder-Memᴰ k jobs j (sym (if_false _ _ (holds m k i) other) ∙ h) in
        (Memᴰ.tail there, held)
  ]

  wants_unfinished :
      (s : Stage) (j : Job) (k : Lock) → wants_at m s j ≡ some k → is_finished s ≡ false
  wants_unfinished inserting j k h = refl
  wants_unfinished locking_first j k h = refl
  wants_unfinished locking_second j k h = refl
  wants_unfinished logging j k h = refl
  wants_unfinished committing j k h = refl
  wants_unfinished finished j k h = absurd (ground arith)

  holds_unfinished :
      (s : Stage) (j : Job) (k : Lock) → has_lock k (held_at m s j) ≡ true → is_finished s ≡ false
  unfolding has_lock
  holds_unfinished inserting j k h = refl
  holds_unfinished locking_first j k h = refl
  holds_unfinished locking_second j k h = refl
  holds_unfinished logging j k h = refl
  holds_unfinished committing j k h = refl
  holds_unfinished finished j k h = absurd (ground arith)

  module _ (jobs : List Job) where
    -- Some job is not finished, and the lock that its next statement needs is free.
    abbrev pub CanStep : Type 0
    CanStep = (j : Job) × Memᴰ j jobs × (is_finished j.stage ≡ false) × (blocked m j jobs ≡ false)

    -- From a job that waits to the one that has the lock, and on: the ranks grow.
    chase :
        (n : ℕ) (j : Job) (k : Lock)
        → All (IsRanked rank bound) jobs
        → Memᴰ j jobs
        → wants m j ≡ some k
        → suc (suc bound) ≤ lock_rank k + n
        → CanStep
    chase zero j k ranked there e enough =
        let below = held-below j.stage j k (All-Memᴰ _ j jobs ranked there) e in
        absurd (omega (arith, enough, below.1))
    chase (suc n) j k ranked there e enough = elim (Option-cases (holder m k jobs)) [
      | inl free ↦ (j, there, wants_unfinished j.stage j k e, rw (e, free) refl)
      | inr (i, held) ↦
          let (i_there, i_holds) = holder-Memᴰ k jobs i held in
          elim (Option-cases (wants m i)) [
            | inl nothing ↦ (i, i_there, holds_unfinished i.stage i k i_holds, rw nothing refl)
            | inr (l, i_wants) ↦
                let below = held-below i.stage i l (All-Memᴰ _ i jobs ranked i_there) i_wants in
                let more = has_lock-All (λ x. lock_rank x < lock_rank l) k _ below.0 i_holds in
                chase n i l ranked i_there i_wants (omega (arith, enough, more))
          ]
    ]

    -- Let transfers between different accounts run at the same time, each of them in any stage, with
    -- the accounts numbered in their order. While one of them is not finished, some transfer
    -- that is not finished waits for no other: there is no deadlock.
    pub jobs-CanStep :
        (j : Job)
        → All (IsRanked rank bound) jobs
        → Memᴰ j jobs
        → is_finished j.stage ≡ false
        → CanStep
    jobs-CanStep j ranked there unfinished = elim (Option-cases (wants m j)) [
      | inl nothing ↦ (j, there, unfinished, rw nothing refl)
      | inr (k, e) ↦ chase (suc (suc bound)) j k ranked there e (omega arith)
    ]
