-- ===== src/Workers/Bounded.antt =====
-- A pool of n workers is at n jobs at most, with n more in a buffer of that size.
use mathlib.Core.List.{Perm}
use mathlib.Core.Path.{subst}
use aien.Prelude.{
  ℕ, ◌≤◌, ◌≡◌, refl, ap, ◌∙◌, true, List, [], ◌∷◌, ◌++◌, Option, none, some, length, length-append,
  arith,
}
use aien.Workers.{
  fresh, jobs_in, sent_by, Worker, waiting, working, stopped, Pool, Event, send, close, receive,
  finish, moved, set, step, run, sent, received, on_receive, on_finish, jobs_of,
}
use aien.Workers.Handled.{run-perm, moved-injective, then_run-moved}
use aien.Workers.Ends.{jobs_of_waiting, length-set, length_waiting}

length-jobs_of : {J : Type 0} (ws : List (Worker J)) → length (jobs_of ws) ≤ length ws
length-jobs_of [] = omega arith
length-jobs_of (waiting ∷ ws) = omega (arith, length-jobs_of ws)
length-jobs_of (working j ∷ ws) = omega (arith, length-jobs_of ws)
length-jobs_of (stopped ∷ ws) = omega (arith, length-jobs_of ws)

module _ {J R : Type 0} where
  pub record IsBounded (n : ℕ) (p : Pool J R) : Type 0 where
    pub room : p.capacity ≡ n
    pub staff : length p.workers ≡ n
    pub buffered : length p.buffer ≤ n

  sent-IsBounded :
      (n : ℕ) (j : J) (p p' : Pool J R) → IsBounded n p → sent j p ≡ moved p' → IsBounded n p'
  sent-IsBounded n j p p' b h =
      let longer = length-append p.buffer (j ∷ []) in ground (arith, longer, b.room, b.staff)

  received-IsBounded :
      (n k : ℕ) (js : List J) (p p' : Pool J R)
      → IsBounded n p
      → p.buffer ≡ js
      → received k js p ≡ moved p'
      → IsBounded n p'
  received-IsBounded n k [] p p' b e h =
      let same : record p { workers = set p.workers k stopped } ≡ p' = ground arith in
      subst (IsBounded n) same (record {
        room = b.room;
        staff = length-set p.workers k stopped ∙ b.staff;
        buffered = b.buffered;
      })
  received-IsBounded n k (j ∷ js) p p' b e h =
      subst (IsBounded n) (moved-injective _ p' h) (record {
        room = b.room;
        staff = length-set p.workers k (working j) ∙ b.staff;
        buffered = omega (arith, b.buffered, ap length e);
      })

  on_receive-IsBounded :
      (n k : ℕ) (o : Option (Worker J)) (p p' : Pool J R)
      → IsBounded n p
      → on_receive k o p ≡ moved p'
      → IsBounded n p'
  on_receive-IsBounded n k none p p' b h = absurd (ground arith)
  on_receive-IsBounded n k (some stopped) p p' b h = absurd (ground arith)
  on_receive-IsBounded n k (some (working j)) p p' b h = absurd (ground arith)
  on_receive-IsBounded n k (some waiting) p p' b h = received-IsBounded n k p.buffer p p' b refl h

  on_finish-IsBounded :
      (n k : ℕ) (r : R) (o : Option (Worker J)) (p p' : Pool J R)
      → IsBounded n p
      → on_finish k r o p ≡ moved p'
      → IsBounded n p'
  on_finish-IsBounded n k r none p p' b h = absurd (ground arith)
  on_finish-IsBounded n k r (some stopped) p p' b h = absurd (ground arith)
  on_finish-IsBounded n k r (some waiting) p p' b h = absurd (ground arith)
  on_finish-IsBounded n k r (some (working j)) p p' b h =
      subst (IsBounded n) (moved-injective _ p' h) (record {
        room = b.room;
        staff = length-set p.workers k waiting ∙ b.staff;
        buffered = b.buffered;
      })

  step-IsBounded :
      (n : ℕ) (e : Event J R) (p p' : Pool J R)
      → IsBounded n p
      → step e p ≡ moved p'
      → IsBounded n p'
  unfolding step
  step-IsBounded n (send j) p p' b h = sent-IsBounded n j p p' b h
  step-IsBounded n close p p' b h =
      let same : record p { is_closed = true } ≡ p' = ground arith in
      subst (IsBounded n) same (record { room = b.room; staff = b.staff; buffered = b.buffered })
  step-IsBounded n (receive k) p p' b h = on_receive-IsBounded n k _ p p' b h
  step-IsBounded n (finish k r) p p' b h = on_finish-IsBounded n k r _ p p' b h

  run-IsBounded :
      (n : ℕ) (es : List (Event J R)) (p p' : Pool J R)
      → IsBounded n p
      → run es p ≡ moved p'
      → IsBounded n p'
  unfolding run
  run-IsBounded n [] p p' b h = subst (IsBounded n) (moved-injective p p' h) b
  run-IsBounded n (e ∷ es) p p' b h =
      let (q, first, rest) = then_run-moved (run es) (step e p) p' h in
      run-IsBounded n es q p' (step-IsBounded n e p q b first) rest

  received_finished :
      (k : ℕ) (js : List J) (p p' : Pool J R)
      → received k js p ≡ moved p'
      → p.finished ≡ p'.finished
  received_finished k [] p p' h = ground arith
  received_finished k (j ∷ js) p p' h = ap (λ (q : Pool J R). q.finished) (moved-injective _ p' h)

  -- A worker that takes a job finishes none.
  pub on_receive_finished :
      (k : ℕ) (o : Option (Worker J)) (p p' : Pool J R)
      → on_receive k o p ≡ moved p'
      → p.finished ≡ p'.finished
  on_receive_finished k none p p' h = absurd (ground arith)
  on_receive_finished k (some stopped) p p' h = absurd (ground arith)
  on_receive_finished k (some (working j)) p p' h = absurd (ground arith)
  on_receive_finished k (some waiting) p p' h = received_finished k p.buffer p p' h

  -- The jobs of a run of `n` workers over a channel with room for `n`.
  pub run-fresh :
      (n : ℕ) (es : List (Event J R)) (p : Pool J R)
      → run es (fresh n) ≡ moved p
      → Perm (jobs_in p) (sent_by es) × (length (jobs_of p.workers) ≤ n) × (length p.buffer ≤ n)
  run-fresh n es p h =
      let b =
        run-IsBounded n es (fresh n) p
          (record { room = refl; staff = length_waiting J n; buffered = omega arith }) h in
      (
        subst (λ (l : List J). Perm (jobs_in p) ((l ++ []) ++ sent_by es)) (jobs_of_waiting J n)
            (run-perm es (fresh n) p h),
        omega (arith, length-jobs_of p.workers, b.staff),
        b.buffered,
      )
