-- ===== src/Engine/WorkerPool.antt =====
-- execution-engine/main.go: the worker pool that `main` starts and `startWorker`, which answers each message
-- with Ack or Nak. strconv.Atoi is a parameter. A task is one step here; Concurrent has its parts.
pub mod Acked
use aien.Prelude.{ℕ, zero, suc, ◌≡◌, List, [], ◌∷◌, Option, none, some, String}
use aien.Prelude.Decimal.{ℤ, pos, negsuc}
use aien.Prelude.Sql.{Result, ok, err}
use aien.Intent.Types.{Bytes}
use aien.Scheduler.{Wire}
use aien.Startup.Config.{Environment, get_env}
use aien.Workers.{Pool, Event, send, close, receive, finish, moved, working, get_elem?, fresh}
use aien.Workers
use aien.Engine.{Wallet, Answers, World, EngineError, execute_task}

-- How the worker answers the broker.
pub data Settled : Type 0 where
  ack nak : Settled

abbrev pub settle : Result EngineError (Unit {0}) → Settled
settle (ok u) = ack
settle (err e) = nak

-- `err != nil || poolSize <= 0`
abbrev positive_or_three : Option ℤ → ℕ
positive_or_three none = 3
positive_or_three (some (negsuc n)) = 3
positive_or_three (some (pos zero)) = 3
positive_or_three (some (pos (suc n))) = suc n

abbrev pub pool_size : (atoi : String → Option ℤ) → Environment → ℕ
pool_size atoi env = positive_or_three (atoi (get_env env "WORKER_POOL_SIZE" "3"))

pub record State (W : Type 0) : Type 0 where
  pub pool : Pool Bytes Settled
  pub world : World W

abbrev pub started : {W : Type 0} → ℕ → World W → State W
started n world = record { pool = fresh n; world = world }

module _ (wire : Wire) {W A : Type 0} (wallet : Wallet W A) where
  -- A step of the subscription, of a worker, or of `main` at a signal, with the event of the pool.
  pub data Step (s : State W) : Event Bytes Settled → State W → Type 0 where
    -- the callback of the subscription, `taskChan <- m`
    deliver :
        (m : Bytes) (p : Pool Bytes Settled)
        → Workers.step (send m) s.pool ≡ moved p
        → Step s (send m) (record s { pool = p })
    take :
        (k : ℕ) (p : Pool Bytes Settled)
        → Workers.step (receive k) s.pool ≡ moved p
        → Step s (receive k) (record s { pool = p })
    -- `executeTask`, and the answer to the broker
    complete :
        (k : ℕ) (a : Answers) (m : Bytes) (p : Pool Bytes Settled)
        → get_elem? s.pool.workers k ≡ some (working m)
        → Workers.step (finish k (settle (execute_task wire wallet a m s.world).1)) s.pool ≡ moved p
        → Step s
            (finish k (settle (execute_task wire wallet a m s.world).1))
            (record { pool = p; world = (execute_task wire wallet a m s.world).0 })
    shut_down :
        (p : Pool Bytes Settled)
        → Workers.step close s.pool ≡ moved p
        → Step s close (record s { pool = p })

  pub data Run : State W → List (Event Bytes Settled) → State W → Type 0 where
    here : (s : State W) → Run s [] s
    next :
        (s s1 s' : State W) (e : Event Bytes Settled) (es : List (Event Bytes Settled))
        → Step s e s1
        → Run s1 es s'
        → Run s (e ∷ es) s'
