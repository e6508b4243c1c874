-- ===== src/Scripts/LoadTest/Submission/Counts.antt =====
-- The load test handles every transaction once, and its counters add up.
use mathlib.Core.List.{Perm}
use mathlib.Core.List.Perm
use mathlib.Core.List
use mathlib.Core.Nat as Unary
use aien.Prelude.{
  ℕ, suc, ◌+◌, ◌*◌, ◌<◌, ◌≤◌, ◌≡◌, refl, sym, ap, ◌∙◌, true, false, List, [], ◌∷◌, length, arith,
}
use aien.Prelude.Decimal.{ℤ}
use aien.Workers.{Pool, Event, moved, step, run, done}
use aien.Workers.Ends.{all_stopped, run-loaded}
use aien.Scripts.LoadTest.{IntentPayload}
use aien.Scripts.LoadTest.Submission.{
  start_workers, to_count, JobEnd, unsigned, unrequested, unsent, answered, Counters, raise_counter,
  raise_counters,
}

abbrev native : Unary.ℕ → ℕ
native Unary.ℕ.zero = 0
native (Unary.ℕ.suc n) = suc (native n)

native-length : {A : Type 0} (xs : List A) → native (List.length xs) ≡ length xs
native-length [] = refl
native-length (x ∷ xs) = ap suc (native-length xs)

length-perm : {A : Type 0} (xs ys : List A) → Perm xs ys → length xs ≡ length ys
length-perm xs ys h = sym (native-length xs) ∙ ap native (Perm.length-eq h) ∙ native-length ys

-- Each branch raises one counter by one.
raise_counter-sum :
    (e : JobEnd) (c : Counters)
    → let c' = raise_counter e c in
      c'.success_count + c'.fail_count ≡ suc (c.success_count + c.fail_count)
raise_counter-sum unsigned c = omega arith
raise_counter-sum unrequested c = omega arith
raise_counter-sum unsent c = omega arith
raise_counter-sum (answered status) c = ground arith

counts_add_up :
    {Amount : Type 0} (finished : List (IntentPayload Amount × JobEnd)) (c : Counters)
    → let c' = raise_counters finished c in
      c'.success_count + c'.fail_count ≡ c.success_count + c.fail_count + length (done finished)
unfolding raise_counters
counts_add_up [] c = omega arith
counts_add_up ((tx, e) ∷ finished) c =
    omega (arith, counts_add_up finished (raise_counter e c), raise_counter-sum e c)

abbrev pub no_counts : Counters
no_counts = record { success_count = 0; fail_count = 0 }

-- Let the workers, at least one, be in whatever state an interleaving of their steps has led to. There have
-- been at most two steps for each transaction and one for each worker. While a worker has not stopped, some
-- worker can move. When all have stopped, every transaction has been handled, once, and the two
-- counters add up to their number.
pub run-workers :
    {Amount : Type 0} (transactions : List (IntentPayload Amount)) (concurrency : ℤ)
    (es : List (Event (IntentPayload Amount) JobEnd)) (p : Pool (IntentPayload Amount) JobEnd)
    → 0 < to_count concurrency
    → run es (start_workers concurrency transactions) ≡ moved p
    → (length es ≤ 2 * length transactions + to_count concurrency)
      × (all_stopped p.workers ≡ false
          → (e : Event (IntentPayload Amount) JobEnd) × (p' : Pool (IntentPayload Amount) JobEnd)
            × (step e p ≡ moved p'))
      × (all_stopped p.workers ≡ true
          → Perm (done p.finished) transactions
            × (let c = raise_counters p.finished no_counts in
                c.success_count + c.fail_count ≡ length transactions))
run-workers transactions concurrency es p some_worker h =
    let (bound, next, all) =
      run-loaded transactions (to_count concurrency) es p unsent some_worker h in
    (
      bound,
      next,
      λ stopped. (
        all stopped,
        omega (
          arith,
          counts_add_up p.finished no_counts,
          length-perm (done p.finished) transactions (all stopped),
        ),
      ),
    )
