-- ===== src/Workers.antt =====
-- Worker goroutines that range over one buffered channel, as main of execution-engine and of
-- scripts/load_test_csv.go start them: `for job := range jobs { ... }`. An event is one step of one
-- goroutine, so a list of events is an interleaving of them.
pub mod Handled
pub mod Ends
pub mod Bounded
use aien.Prelude.{
  ℕ, zero, suc, ◌<◌, Bool, true, false, List, [], ◌∷◌, ◌++◌, Option, none, some, ltb, length,
  if◌then◌else◌,
}

-- A worker waits for a job, works on one, or has left its loop.
pub data Worker (J : Type 0) : Type 0 where
  waiting : Worker J
  working : J → Worker J
  stopped : Worker J

-- `finished` lists the jobs that have been worked on, each with its result.
pub record Pool (J R : Type 0) : Type 0 where
  pub buffer : List J
  pub capacity : ℕ
  pub is_closed : Bool
  pub workers : List (Worker J)
  pub finished : List (J × R)

pub data Event (J R : Type 0) : Type 0 where
  send : J → Event J R
  close : Event J R
  -- of the worker with this number
  receive : ℕ → Event J R
  finish : ℕ → R → Event J R

-- What becomes of the pool: it moves, the goroutine has to wait, or the process ends by a panic.
pub data Moved (J R : Type 0) : Type 0 where
  moved : Pool J R → Moved J R
  blocked panicked : Moved J R

module _ {A : Type 0} where
  abbrev pub get_elem? : List A → ℕ → Option A
  get_elem? [] i = none
  get_elem? (x ∷ xs) zero = some x
  get_elem? (x ∷ xs) (suc i) = get_elem? xs i

  abbrev pub set : List A → ℕ → A → List A
  set [] i v = []
  set (x ∷ xs) zero v = v ∷ xs
  set (x ∷ xs) (suc i) v = x ∷ set xs i v

  abbrev pub replicate : ℕ → A → List A
  replicate zero v = []
  replicate (suc n) v = v ∷ replicate n v

module _ {J : Type 0} where
  -- The jobs that workers are at.
  abbrev pub job_of : Worker J → List J
  job_of (working j) = j ∷ []
  job_of _ = []

  abbrev pub jobs_of : List (Worker J) → List J
  jobs_of [] = []
  jobs_of (w ∷ ws) = job_of w ++ jobs_of ws

module _ {J R : Type 0} where
  -- The pool of `n` workers over a closed channel that holds the jobs.
  abbrev pub loaded : List J → ℕ → Pool J R
  loaded jobs n = record {
    buffer = jobs;
    capacity = length jobs;
    is_closed = true;
    workers = replicate n waiting;
    finished = [];
  }

  -- The pool that has just been started over a channel with room for `n` jobs.
  abbrev pub fresh : ℕ → Pool J R
  fresh n = record {
    buffer = [];
    capacity = n;
    is_closed = false;
    workers = replicate n waiting;
    finished = [];
  }

  abbrev pub sent : J → Pool J R → Moved J R
  sent j p =
      if p.is_closed
      then panicked
      else if ltb (length p.buffer) p.capacity
      then moved (record p { buffer = p.buffer ++ j ∷ [] })
      else blocked

  abbrev pub closed : Pool J R → Moved J R
  closed p = if p.is_closed then panicked else moved (record p { is_closed = true })

  -- A worker receives from the channel, whose buffer is the second argument.
  abbrev pub received : ℕ → List J → Pool J R → Moved J R
  received k [] p =
      if p.is_closed then moved (record p { workers = set p.workers k stopped }) else blocked
  received k (j ∷ js) p = moved (record p { buffer = js; workers = set p.workers k (working j) })

  abbrev pub on_receive : ℕ → Option (Worker J) → Pool J R → Moved J R
  on_receive k (some waiting) p = received k p.buffer p
  on_receive k _ p = blocked

  abbrev pub on_finish : ℕ → R → Option (Worker J) → Pool J R → Moved J R
  on_finish k r (some (working j)) p =
      moved (record p { workers = set p.workers k waiting; finished = p.finished ++ (j, r) ∷ [] })
  on_finish k r _ p = blocked

  unfoldable pub step : Event J R → Pool J R → Moved J R
  step (send j) p = sent j p
  step close p = closed p
  step (receive k) p = on_receive k (get_elem? p.workers k) p
  step (finish k r) p = on_finish k r (get_elem? p.workers k) p

  abbrev pub then_run : (Pool J R → Moved J R) → Moved J R → Moved J R
  then_run f (moved p) = f p
  then_run f blocked = blocked
  then_run f panicked = panicked

  unfoldable pub run : List (Event J R) → Pool J R → Moved J R
  run [] p = moved p
  run (e ∷ es) p = then_run (run es) (step e p)

  abbrev pub done : List (J × R) → List J
  done [] = []
  done ((j, r) ∷ rs) = j ∷ done rs

  -- Every job that has come into the pool and is not lost.
  abbrev pub jobs_in : Pool J R → List J
  jobs_in p = done p.finished ++ (jobs_of p.workers ++ p.buffer)

  -- The jobs that a run sends.
  abbrev pub sent_by : List (Event J R) → List J
  sent_by [] = []
  sent_by (send j ∷ es) = j ∷ sent_by es
  sent_by (close ∷ es) = sent_by es
  sent_by (receive k ∷ es) = sent_by es
  sent_by (finish k r ∷ es) = sent_by es
