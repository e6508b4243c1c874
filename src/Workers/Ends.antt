-- ===== src/Workers/Ends.antt =====
-- A closed channel is emptied: the workers stop, and they stop behind the last job.
use mathlib.Core.List.{Perm, append-nil}
use mathlib.Core.Path.{subst}
use aien.Prelude.{
  ℕ, zero, suc, ◌<◌, ◌≤◌, ◌+◌, ◌*◌, ◌≡◌, refl, ap, ◌∙◌, ◌⊎◌, inl, inr, Bool, true, false, ◌&&◌,
  ◌||◌, List, [], ◌∷◌, ◌++◌, Option, none, some, length, arith,
}
use aien.Workers.{
  loaded, Worker, waiting, working, stopped, Pool, Event, send, close, receive, finish, moved,
  get_elem?, set, replicate, step, run, received, on_receive, on_finish, jobs_of, done, jobs_in,
  sent_by,
}
use aien.Workers.Handled.{run-perm, moved-injective, then_run-moved}

module _ {J : Type 0} where
  abbrev pub is_stopped : Worker J → Bool
  is_stopped stopped = true
  is_stopped _ = false

  abbrev pub all_stopped : List (Worker J) → Bool
  all_stopped [] = true
  all_stopped (w ∷ ws) = is_stopped w && all_stopped ws

  abbrev any_stopped : List (Worker J) → Bool
  any_stopped [] = false
  any_stopped (w ∷ ws) = is_stopped w || any_stopped ws

  -- The steps that a worker has before it, apart from those of jobs in the buffer.
  abbrev worker_weight : Worker J → ℕ
  worker_weight waiting = 1
  worker_weight (working j) = 2
  worker_weight stopped = 0

  abbrev total : List (Worker J) → ℕ
  total [] = 0
  total (w ∷ ws) = worker_weight w + total ws

  total-set :
      (ws : List (Worker J)) (k : ℕ) (w w' : Worker J)
      → get_elem? ws k ≡ some w
      → total (set ws k w') + worker_weight w ≡ total ws + worker_weight w'
  total-set [] k w w' h = absurd (ground arith)
  total-set (x ∷ ws) zero w w' h = ground arith
  total-set (x ∷ ws) (suc k) w w' h = omega (arith, total-set ws k w w' h)

  pub length-set : (ws : List (Worker J)) (k : ℕ) (w : Worker J) → length (set ws k w) ≡ length ws
  length-set [] k w = refl
  length-set (x ∷ ws) zero w = refl
  length-set (x ∷ ws) (suc k) w = ap suc (length-set ws k w)

  any_stopped-set :
      (ws : List (Worker J)) (k : ℕ) (w : Worker J)
      → is_stopped w ≡ false
      → any_stopped (set ws k w) ≡ true
      → any_stopped ws ≡ true
  any_stopped-set [] k w h any = any
  any_stopped-set (x ∷ ws) zero w h any = ground arith
  any_stopped-set (x ∷ ws) (suc k) w h any = ground (arith, any_stopped-set ws k w h)

  any_of_all :
      (ws : List (Worker J)) → 0 < length ws → all_stopped ws ≡ true → any_stopped ws ≡ true
  any_of_all [] some_worker all = absurd (omega arith)
  any_of_all (stopped ∷ ws) some_worker all = refl
  any_of_all (waiting ∷ ws) some_worker all = absurd (ground arith)
  any_of_all (working j ∷ ws) some_worker all = absurd (ground arith)

  jobs_of_stopped : (ws : List (Worker J)) → all_stopped ws ≡ true → jobs_of ws ≡ []
  jobs_of_stopped [] all = refl
  jobs_of_stopped (stopped ∷ ws) all = jobs_of_stopped ws all
  jobs_of_stopped (waiting ∷ ws) all = absurd (ground arith)
  jobs_of_stopped (working j ∷ ws) all = absurd (ground arith)

  -- A worker that has not left its loop.
  active :
      (ws : List (Worker J))
      → all_stopped ws ≡ false
      → (k : ℕ) × ((get_elem? ws k ≡ some waiting)
          ⊎ ((j : J) × (get_elem? ws k ≡ some (working j))))
  active [] h = absurd (ground arith)
  active (waiting ∷ ws) h = (0, inl refl)
  active (working j ∷ ws) h = (0, inr (j, refl))
  active (stopped ∷ ws) h = let (k, at) = active ws h in (suc k, at)

pub jobs_of_waiting : (J : Type 0) (n : ℕ) → jobs_of {J = J} (replicate n waiting) ≡ []
jobs_of_waiting J zero = refl
jobs_of_waiting J (suc n) = jobs_of_waiting J n

total_waiting : (J : Type 0) (n : ℕ) → total {J = J} (replicate n waiting) ≡ n
total_waiting J zero = refl
total_waiting J (suc n) = omega (arith, total_waiting J n)

pub length_waiting : (J : Type 0) (n : ℕ) → length {A = Worker J} (replicate n waiting) ≡ n
length_waiting J zero = refl
length_waiting J (suc n) = ap suc (length_waiting J n)

none_stopped : (J : Type 0) (n : ℕ) → any_stopped {J = J} (replicate n waiting) ≡ false
none_stopped J zero = refl
none_stopped J (suc n) = none_stopped J n

module _ {J R : Type 0} where
  abbrev weight : Pool J R → ℕ
  weight p = 2 * length p.buffer + total p.workers

  record IsClosing (n : ℕ) (p : Pool J R) : Type 0 where
    pub shut : p.is_closed ≡ true
    pub staff : length p.workers ≡ n
    pub drained : any_stopped p.workers ≡ true → p.buffer ≡ []

  abbrev Steps : (n : ℕ) → Pool J R → Pool J R → Type 0
  Steps n p p' = IsClosing n p' × (suc (weight p') ≡ weight p)

  received-Steps :
      (n k : ℕ) (js : List J) (p p' : Pool J R)
      → IsClosing n p
      → p.buffer ≡ js
      → get_elem? p.workers k ≡ some waiting
      → received k js p ≡ moved p'
      → Steps n p p'
  received-Steps n k [] p p' c b at h =
      let same : record p { workers = set p.workers k stopped } ≡ p' = ground (arith, c.shut) in
      subst (Steps n p) same (
        record {
          shut = c.shut;
          staff = length-set p.workers k stopped ∙ c.staff;
          drained = λ any. b;
        },
        omega (arith, total-set p.workers k waiting stopped at, ap length b),
      )
  received-Steps n k (j ∷ js) p p' c b at h = subst (Steps n p) (moved-injective _ p' h) (
    record {
      shut = c.shut;
      staff = length-set p.workers k (working j) ∙ c.staff;
      drained = λ any.
          absurd (ground (arith, b, c.drained (any_stopped-set p.workers k (working j) refl any)));
    },
    omega (arith, total-set p.workers k waiting (working j) at, ap length b),
  )

  on_receive-Steps :
      (n k : ℕ) (o : Option (Worker J)) (p p' : Pool J R)
      → IsClosing n p
      → get_elem? p.workers k ≡ o
      → on_receive k o p ≡ moved p'
      → Steps n p p'
  on_receive-Steps n k none p p' c at h = absurd (ground arith)
  on_receive-Steps n k (some stopped) p p' c at h = absurd (ground arith)
  on_receive-Steps n k (some (working j)) p p' c at h = absurd (ground arith)
  on_receive-Steps n k (some waiting) p p' c at h = received-Steps n k p.buffer p p' c refl at h

  on_finish-Steps :
      (n k : ℕ) (r : R) (o : Option (Worker J)) (p p' : Pool J R)
      → IsClosing n p
      → get_elem? p.workers k ≡ o
      → on_finish k r o p ≡ moved p'
      → Steps n p p'
  on_finish-Steps n k r none p p' c at h = absurd (ground arith)
  on_finish-Steps n k r (some stopped) p p' c at h = absurd (ground arith)
  on_finish-Steps n k r (some waiting) p p' c at h = absurd (ground arith)
  on_finish-Steps n k r (some (working j)) p p' c at h =
      subst (Steps n p) (moved-injective _ p' h) (
        record {
          shut = c.shut;
          staff = length-set p.workers k waiting ∙ c.staff;
          drained = λ any. c.drained (any_stopped-set p.workers k waiting refl any);
        },
        omega (arith, total-set p.workers k (working j) waiting at),
      )

  step-Steps :
      (n : ℕ) (e : Event J R) (p p' : Pool J R) → IsClosing n p → step e p ≡ moved p' → Steps n p p'
  unfolding step
  step-Steps n (send j) p p' c h = absurd (ground (arith, c.shut))
  step-Steps n close p p' c h = absurd (ground (arith, c.shut))
  step-Steps n (receive k) p p' c h = on_receive-Steps n k (get_elem? p.workers k) p p' c refl h
  step-Steps n (finish k r) p p' c h = on_finish-Steps n k r (get_elem? p.workers k) p p' c refl h

  none_sent :
      (e : Event J R) (es : List (Event J R)) (p p' : Pool J R)
      → p.is_closed ≡ true
      → step e p ≡ moved p'
      → sent_by (e ∷ es) ≡ sent_by es
  unfolding step
  none_sent (send j) es p p' c h = absurd (ground (arith, c))
  none_sent close es p p' c h = refl
  none_sent (receive k) es p p' c h = refl
  none_sent (finish k r) es p p' c h = refl

  run-Steps :
      (n : ℕ) (es : List (Event J R)) (p p' : Pool J R)
      → IsClosing n p
      → run es p ≡ moved p'
      → IsClosing n p' × (length es + weight p' ≡ weight p) × (sent_by es ≡ [])
  unfolding run
  run-Steps n [] p p' c h =
      subst (λ q. IsClosing n q × (0 + weight q ≡ weight p) × (◌≡◌ {A = List J} [] []))
        (moved-injective p p' h) (c, omega arith, refl)
  run-Steps n (e ∷ es) p p' c h =
      let (q, first, rest) = then_run-moved (run es) (step e p) p' h in
      let (c', one) = step-Steps n e p q c first in
      let (c'', more, nothing) = run-Steps n es q p' c' rest in
      (c'', omega (arith, one, more), none_sent e es p q c.shut first ∙ nothing)

  received_closed :
      (k : ℕ) (js : List J) (p : Pool J R)
      → p.is_closed ≡ true
      → (p' : Pool J R) × (received k js p ≡ moved p')
  received_closed k [] p c = (record p { workers = set p.workers k stopped }, rw c refl)
  received_closed k (j ∷ js) p c = (_, refl)

  -- The next step of a worker that is active.
  next_step :
      (p : Pool J R) (r : R)
      → p.is_closed ≡ true
      → all_stopped p.workers ≡ false
      → (e : Event J R) × (p' : Pool J R) × (step e p ≡ moved p')
  unfolding step
  next_step p r c h =
      let (k, here) = active p.workers h in
      elim here [
        | inr (j, at) ↦
            let p' = record p {
              workers = set p.workers k waiting;
              finished = p.finished ++ (j, r) ∷ [];
            } in
            (finish k r, p', rw at refl)
        | inl at ↦ let (p', e) = received_closed k p.buffer p c in (receive k, p', rw at e)
      ]

  loaded-IsClosing : (jobs : List J) (n : ℕ) → IsClosing n (loaded jobs n)
  loaded-IsClosing jobs n = record {
    shut = refl;
    staff = length_waiting J n;
    drained = λ any. absurd (ground (arith, none_stopped J n));
  }

  -- Every interleaving of `n` workers, at least one, over a closed channel ends within two steps for each
  -- job and one for each worker. Until all workers have stopped, one of them can move, and when they have,
  -- every job is finished, once.
  pub run-loaded :
      (jobs : List J) (n : ℕ) (es : List (Event J R)) (p : Pool J R) (r : R)
      → 0 < n
      → run es (loaded jobs n) ≡ moved p
      → (length es ≤ 2 * length jobs + n)
        × (all_stopped p.workers ≡ false
            → (e : Event J R) × (p' : Pool J R) × (step e p ≡ moved p'))
        × (all_stopped p.workers ≡ true → Perm (done p.finished) jobs)
  run-loaded jobs n es p r some_worker h =
      let (c, steps, nothing) = run-Steps n es (loaded jobs n) p (loaded-IsClosing jobs n) h in
      (
        omega (arith, steps, total_waiting J n),
        next_step p r c.shut,
        λ all.
            let drained = c.drained (any_of_all p.workers (rw c.staff some_worker) all) in
            let left : jobs_in p ≡ done p.finished =
              ap (λ l. done p.finished ++ (l ++ p.buffer)) (jobs_of_stopped p.workers all)
              ∙ ap (λ l. done p.finished ++ l) drained
              ∙ append-nil (done p.finished) in
            let right : jobs_in {R = R} (loaded jobs n) ++ sent_by es ≡ jobs =
              ap (λ l. (l ++ jobs) ++ sent_by es) (jobs_of_waiting J n)
              ∙ ap (λ l. jobs ++ l) nothing
              ∙ append-nil jobs in
            subst (λ l. Perm l jobs) left
              (subst (λ l. Perm (jobs_in p) l) right (run-perm es (loaded jobs n) p h)),
      )
