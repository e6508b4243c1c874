-- ===== src/Workers/Handled.antt =====
-- No interleaving loses a job or hands one to two workers.
use mathlib.Core.List.{Perm, perm_append_comm, perm_middle, append_assoc, append-nil}
use mathlib.Core.List.Perm
use mathlib.Core.Path.{subst}
use mathlib.Core.Option.{some-injective}
use aien.Prelude.{
  ℕ, zero, suc, ◌≡◌, refl, sym, ap, ◌∙◌, true, List, [], ◌∷◌, ◌++◌, Option, none, some, arith,
}
use aien.Workers.{
  then_run, sent, Worker, waiting, working, stopped, Pool, Event, send, close, receive, finish,
  Moved, moved, blocked, panicked, get_elem?, set, step, run, received, on_receive, on_finish,
  job_of, jobs_of, done, jobs_in, sent_by,
}

module _ {A : Type 0} where
  swap_append : (a b c : List A) → Perm (a ++ (b ++ c)) (b ++ (a ++ c))
  swap_append a b c =
      subst (λ l. Perm l (b ++ (a ++ c))) (append_assoc a b c)
        (subst (λ l. Perm ((a ++ b) ++ c) l) (append_assoc b a c)
          (Perm.append_right c (perm_append_comm a b)))

module _ {J : Type 0} where
  -- A worker that changes exchanges its old job for its new one.
  jobs_of-set :
      (ws : List (Worker J)) (k : ℕ) (w w' : Worker J)
      → get_elem? ws k ≡ some w
      → Perm (job_of w ++ jobs_of (set ws k w')) (job_of w' ++ jobs_of ws)
  jobs_of-set [] k w w' h = absurd (ground arith)
  jobs_of-set (x ∷ ws) zero w w' h =
      subst
        (λ v. Perm (job_of w ++ (job_of w' ++ jobs_of ws)) (job_of w' ++ (job_of v ++ jobs_of ws)))
        (sym (some-injective x w h)) (swap_append (job_of w) (job_of w') (jobs_of ws))
  jobs_of-set (x ∷ ws) (suc k) w w' h = Perm.trans (swap_append (job_of w) (job_of x) _) (
      Perm.trans (Perm.append_left (job_of x) (jobs_of-set ws k w w' h))
        (swap_append (job_of x) (job_of w') _))

  with_nothing : (xs ys : List J) → Perm xs ys → Perm xs (ys ++ [])
  with_nothing xs ys h = subst (λ l. Perm xs l) (sym (append-nil ys)) h

module _ {J R : Type 0} where
  pub moved-injective : (p q : Pool J R) → moved p ≡ moved q → p ≡ q
  moved-injective p q h = cc

  done-append : (xs ys : List (J × R)) → done (xs ++ ys) ≡ done xs ++ done ys
  done-append [] ys = refl
  done-append ((j, r) ∷ xs) ys = ap (λ (l : List J). j ∷ l) (done-append xs ys)

  sent-perm :
      (j : J) (p p' : Pool J R) → sent j p ≡ moved p' → Perm (jobs_in p') (jobs_in p ++ j ∷ [])
  sent-perm j p p' h =
      let q = record p { buffer = p.buffer ++ j ∷ [] } in
      let same : q ≡ p' = ground arith in
      subst (λ x. Perm (jobs_in x) (jobs_in p ++ j ∷ [])) same
        (subst (λ l. Perm l (jobs_in p ++ j ∷ []))
          (append_assoc (done p.finished) (jobs_of p.workers ++ p.buffer) (j ∷ [])
            ∙ ap (λ l. done p.finished ++ l) (append_assoc (jobs_of p.workers) p.buffer (j ∷ [])))
          (Perm.refl _))

  received-perm :
      (k : ℕ) (js : List J) (p p' : Pool J R)
      → p.buffer ≡ js
      → get_elem? p.workers k ≡ some waiting
      → received k js p ≡ moved p'
      → Perm (jobs_in p') (jobs_in p)
  received-perm k [] p p' b at h =
      let q = record p { workers = set p.workers k stopped } in
      let same : q ≡ p' = ground arith in
      subst (λ x. Perm (jobs_in x) (jobs_in p)) same
        (Perm.append_left (done p.finished)
          (Perm.append_right p.buffer (jobs_of-set p.workers k waiting stopped at)))
  received-perm k (j ∷ js) p p' b at h =
      subst (λ x. Perm (jobs_in x) (jobs_in p)) (moved-injective _ p' h)
        (Perm.append_left (done p.finished) (
          subst (λ l. Perm (jobs_of (set p.workers k (working j)) ++ js) (jobs_of p.workers ++ l))
            (sym b)
            (Perm.trans (Perm.append_right js (jobs_of-set p.workers k waiting (working j) at))
              (Perm.symm (perm_middle (jobs_of p.workers) js)))))

  on_receive-perm :
      (k : ℕ) (o : Option (Worker J)) (p p' : Pool J R)
      → get_elem? p.workers k ≡ o
      → on_receive k o p ≡ moved p'
      → Perm (jobs_in p') (jobs_in p)
  on_receive-perm k none p p' at h = absurd (ground arith)
  on_receive-perm k (some stopped) p p' at h = absurd (ground arith)
  on_receive-perm k (some (working j)) p p' at h = absurd (ground arith)
  on_receive-perm k (some waiting) p p' at h = received-perm k p.buffer p p' refl at h

  on_finish-perm :
      (k : ℕ) (r : R) (o : Option (Worker J)) (p p' : Pool J R)
      → get_elem? p.workers k ≡ o
      → on_finish k r o p ≡ moved p'
      → Perm (jobs_in p') (jobs_in p)
  on_finish-perm k r none p p' at h = absurd (ground arith)
  on_finish-perm k r (some stopped) p p' at h = absurd (ground arith)
  on_finish-perm k r (some waiting) p p' at h = absurd (ground arith)
  on_finish-perm k r (some (working j)) p p' at h =
      let d = done p.finished in
      let ws = set p.workers k waiting in
      subst (λ x. Perm (jobs_in x) (jobs_in p)) (moved-injective _ p' h)
        (subst (λ l. Perm (l ++ (jobs_of ws ++ p.buffer)) (jobs_in p))
          (sym (done-append p.finished ((j, r) ∷ [])))
          (subst (λ l. Perm l (jobs_in p)) (sym (append_assoc d (j ∷ []) (jobs_of ws ++ p.buffer)))
            (Perm.append_left d
              (Perm.append_right p.buffer (jobs_of-set p.workers k (working j) waiting at)))))

  step-perm :
      (e : Event J R) (p p' : Pool J R)
      → step e p ≡ moved p'
      → Perm (jobs_in p') (jobs_in p ++ sent_by (e ∷ []))
  unfolding step
  step-perm (send j) p p' h = sent-perm j p p' h
  step-perm close p p' h =
      let q = record p { is_closed = true } in
      let same : q ≡ p' = ground arith in
      with_nothing _ _ (subst (λ x. Perm (jobs_in x) (jobs_in p)) same (Perm.refl _))
  step-perm (receive k) p p' h =
      with_nothing _ _ (on_receive-perm k (get_elem? p.workers k) p p' refl h)
  step-perm (finish k r) p p' h =
      with_nothing _ _ (on_finish-perm k r (get_elem? p.workers k) p p' refl h)

  pub then_run-moved :
      (f : Pool J R → Moved J R) (m : Moved J R) (p' : Pool J R)
      → then_run f m ≡ moved p'
      → (q : Pool J R) × (m ≡ moved q) × (f q ≡ moved p')
  then_run-moved f (moved q) p' h = (q, refl, h)
  then_run-moved f blocked p' h = absurd (ground arith)
  then_run-moved f panicked p' h = absurd (ground arith)

  sent_by-cons :
      (e : Event J R) (es : List (Event J R)) → sent_by (e ∷ []) ++ sent_by es ≡ sent_by (e ∷ es)
  sent_by-cons (send j) es = refl
  sent_by-cons close es = refl
  sent_by-cons (receive k) es = refl
  sent_by-cons (finish k r) es = refl

  -- The jobs that came in are finished, at a worker or in the buffer, each of them once.
  pub run-perm :
      (es : List (Event J R)) (p p' : Pool J R)
      → run es p ≡ moved p'
      → Perm (jobs_in p') (jobs_in p ++ sent_by es)
  unfolding run
  run-perm [] p p' h =
      with_nothing _ _
        (subst (λ x. Perm (jobs_in x) (jobs_in p)) (moved-injective p p' h) (Perm.refl _))
  run-perm (e ∷ es) p p' h =
      let (q, first, rest) = then_run-moved (run es) (step e p) p' h in
      Perm.trans (run-perm es q p' rest) (
        Perm.trans (Perm.append_right (sent_by es) (step-perm e p q first)) (
          subst (λ l. Perm ((jobs_in p ++ sent_by (e ∷ [])) ++ sent_by es) (jobs_in p ++ l))
            (sent_by-cons e es)
            (subst (λ l. Perm l (jobs_in p ++ (sent_by (e ∷ []) ++ sent_by es)))
              (sym (append_assoc (jobs_in p) (sent_by (e ∷ [])) (sent_by es))) (Perm.refl _))))
