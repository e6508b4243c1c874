-- ===== src/Startup/Consumers.antt =====
-- The main functions of scheduler/main.go and execution-engine/main.go, as runs like those of the servers:
-- what they start, and what the deferred calls stop after a signal.
use aien.Prelude.{
  ℕ, List, [], ◌∷◌, ◌++◌, Option, String, if◌then◌else◌, Bool, true, false, ◌≡◌, refl, ◌⊎◌, inl,
  inr, Bool-cases,
}
use aien.Prelude.Decimal.{ℤ, pos}
use aien.Prelude.Sql.{Result, ok, err, Result-cases}
use aien.Startup.Config.{Environment, get_env}
use aien.Startup.Database.{connect_postgres}
use aien.Startup.Transport.{Transport, TransportError, Machine, client_transport, insecure}
use aien.Startup.Servers.{
  ServiceError, database_unreachable, broker_unreachable, jet_stream_failed, stream_uncreated,
  subscription_failed, wallet_unreached, no_transport, Action, pool_opened, pool_closed,
  broker_opened, broker_closed, stream_added, subscribed, unsubscribed, wallet_opened,
  wallet_closed, channel_closed, workers_started, Answers, Run, after, exit, once_connected,
  database_url,
}
use aien.Engine.WorkerPool.{pool_size}
pub mod Order

module _ (env : Environment) (machine : Machine) (a : Answers) where
  -- The broker and its JetStream context.
  abbrev pub once_brokered : Run → Run
  once_brokered rest =
      if a.nats_fails (get_env env "NATS_URL" "nats://localhost:4222")
      then exit [] broker_unreachable
      else after (broker_opened ∷ [])
          (if a.jet_stream_fails then exit [] jet_stream_failed else rest)

  -- The subscription, which stays until a signal.
  abbrev pub subscribe : (subject : String) → (returned : List Action) → Run
  subscribe subject returned =
      if a.subscribe_fails subject
      then exit [] subscription_failed
      else (subscribed subject ∷ returned, ok tt)

  abbrev pub scheduler_returned : List Action
  scheduler_returned = unsubscribed "intents.submitted.*" ∷ broker_closed ∷ pool_closed ∷ []

  unfoldable pub run_scheduler : Run
  run_scheduler =
      once_connected env machine a
        (connect_postgres (a.pings (database_url env machine a)) (pos 10))
        (once_brokered (
          if a.stream_fails "TASKS"
          then exit [] stream_uncreated
          else after (stream_added "TASKS" ∷ [])
              (subscribe "intents.submitted.*" scheduler_returned)))

  -- `close(taskChan)`, then the deferred calls.
  abbrev pub engine_returned : List Action
  engine_returned =
      channel_closed
      ∷ unsubscribed "tasks.scheduled.*"
      ∷ wallet_closed
      ∷ broker_closed
      ∷ pool_closed
      ∷ []

  module _ (atoi : String → Option ℤ) where
    -- The client of the wallet, the workers and the subscription.
    abbrev pub with_wallet : Result TransportError Transport → Run
    with_wallet (err e) = exit [] (no_transport e)
    with_wallet (ok t) =
        if a.client_fails (get_env env "WALLET_SERVICE_ADDR" "localhost:50052")
        then exit [] wallet_unreached
        else after (wallet_opened t ∷ workers_started (pool_size atoi env) ∷ [])
            (subscribe "tasks.scheduled.*" engine_returned)

    unfoldable pub run_engine : Run
    run_engine =
        once_connected env machine a
          (connect_postgres (a.pings (database_url env machine a)) (pos 10))
          (once_brokered (with_wallet (client_transport "wallet" env machine)))
