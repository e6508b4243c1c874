-- ===== src/Startup/Consumers/Order.antt =====
-- The order in which the main functions of scheduler/main.go and execution-engine/main.go start their parts,
-- and what all four services that share the start have done when they end.
use aien.Prelude.{All, List, [], ◌∷◌, ◌++◌, Option, String, ◌≡◌}
use aien.Prelude.Decimal.{ℤ}
use aien.Prelude.Sql.{ok, err}
use aien.Startup.Config.{Environment}
use aien.Startup.Transport.{Transport, Machine}
use aien.Startup.Servers.Steps.{Succeeds, Reported}
use aien.Startup.Servers.{
  ServiceError, Action, pool_opened, broker_opened, stream_added, subscribed, wallet_opened,
  workers_started, Answers, Run,
}
use aien.Startup.Consumers.{scheduler_returned, engine_returned}
use aien.Engine.WorkerPool.{pool_size}

-- A run that does its steps in order, which depend on what one of them gives: the steps that it has done
-- have succeeded, and the error that ends it is reported.
pub data Consumes {A : Type 0} (Succeeds : Action → Type 0) (Reported : ServiceError → Type 0)
    (steps : A → List Action) (returned : List Action) : Run → Type 0 where
  exits :
      (t : A) (done rest : List Action) (e : ServiceError)
      → done ++ rest ≡ steps t
      → All Succeeds done
      → Reported e
      → Consumes Succeeds Reported steps returned (done, err e)
  returns :
      (t : A)
      → All Succeeds (steps t)
      → Consumes Succeeds Reported steps returned (steps t ++ returned, ok tt)

module _ (env : Environment) (machine : Machine) (a : Answers) (atoi : String → Option ℤ) where
  abbrev pub scheduler_steps : List Action
  scheduler_steps =
      pool_opened ∷ broker_opened ∷ stream_added "TASKS" ∷ subscribed "intents.submitted.*" ∷ []

  abbrev pub engine_steps : Transport → List Action
  engine_steps t =
      pool_opened
      ∷ broker_opened
      ∷ wallet_opened t
      ∷ workers_started (pool_size atoi env)
      ∷ subscribed "tasks.scheduled.*"
      ∷ []

  abbrev pub IsScheduling : Run → Type 0
  IsScheduling =
      Consumes {A = Unit {0}} (Succeeds env machine a) (Reported env machine a)
        (λ u. scheduler_steps) (scheduler_returned env machine a)

  abbrev pub IsExecuting : Run → Type 0
  IsExecuting =
      Consumes (Succeeds env machine a) (Reported env machine a) engine_steps
        (engine_returned env machine a)
