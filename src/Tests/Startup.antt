-- ===== src/Tests/Startup.antt =====
-- Starting a service whose database answers at the third attempt, with TLS files that cannot be read.
use aien.Prelude.{
  String, refl, true, ℕ, false, [], ◌∷◌, ◌⊎◌, ◌≡◌, ◌-◌, suc, Option, none, some, nat_eq,
  if◌then◌else◌,
}
use aien.Prelude.Decimal.{pos}
use aien.Prelude.Sql.{ok, err}
use aien.Crypto.{Bytes}
use aien.Intent.Types.{ℤ, Intent}
use aien.Ledger.Engine.{verify}
use aien.Validator.Startup.{
  Surroundings, Delivery, StartError, deliveries, run_validator, run_validator-cases,
}
use aien.Tests.Ledger.{healthy, codec, digest}
use aien.Tests.Pipeline.{intent, row_with}
use aien.Startup.Config.{get_env, Environment}
use aien.Startup.Database.{
  connect_loop, Ping, open_failed, ping_failed, answered, connected, failed, misses, unanswered,
  connect_postgres, connect_postgres-misses,
}
use aien.Startup.Transport.{insecure, choose_transport, Machine}
use aien.Startup.Servers.{
  broker_closed, wallet_closed, unsubscribed, channel_closed, subscribed, workers_started,
  wallet_opened, Answers, content, run_intent_service, pool_opened, pool_closed, migrated,
  broker_opened, stream_added, worker_started, worker_stopped, unheard,
}
use aien.Startup.Consumers.{run_engine}

abbrev third : ℕ → Ping
third n = if nat_eq n 3 then answered else if nat_eq n 1 then open_failed else ping_failed

connect_postgres-misses_example : connect_postgres third (pos 10) ≡ (elim (misses third 10 1) [
  | none ↦ failed (unanswered third 10 1) (10 - 1)
  | some k ↦ connected (suc k) (unanswered third k 1) k
])
connect_postgres-misses_example = connect_postgres-misses third 10

abbrev env : Environment
env key = some "/certs/file.pem"

abbrev no_files : Machine
no_files = record {
  load_key_pair = λ cert key. none;
  read_file = λ path. none;
  append_certs = λ bytes. false;
}

-- The machine of a validator whose ledger does not exist yet.
abbrev ready : Surroundings
ready = record {
  directory_fails = false;
  disk = healthy;
  pings = third;
  nats_fails = false;
  jet_stream_fails = false;
  stream_fails = false;
  subscribe_fails = false;
}

abbrev one_delivery : Delivery
one_delivery = record {
  fetch_fails = false;
  disk = healthy;
  timestamp = "2026-01-01T00:00:00Z";
  data_of = [];
  rows = row_with "INTENT_STATUS_COMPLETED" ∷ [];
}

abbrev decode : Bytes → Option Intent
decode b = some intent

run_validator-cases_example :
    let r = run_validator decode codec digest ready (one_delivery ∷ []) none in
    ((r.0 ≡ none) × ((e : StartError) × (r.1 ≡ err e)))
    ⊎ ((verify codec digest healthy none ≡ none)
        × (r.0 ≡ deliveries decode codec digest (one_delivery ∷ []) none)
        × (r.1 ≡ ok tt))
run_validator-cases_example = run_validator-cases decode codec digest ready (one_delivery ∷ []) none

-- A database at the third attempt, a schema that it takes, and a port that is in use.
abbrev port_in_use : Answers
port_in_use = record {
  pings = λ url. third;
  schema_file = λ path. content (67 ∷ []);
  exec_fails = λ schema. false;
  nats_fails = λ url. false;
  jet_stream_fails = false;
  stream_fails = λ name. false;
  listen_fails = λ port. true;
  subscribe_fails = λ subject. false;
  client_fails = λ address. false;
  serve_fails = false;
  worker_waited = false;
}

abbrev unset : Environment
unset key = none

-- The variable of the pool's size cannot be parsed.
abbrev no_number : String → Option ℤ
no_number text = none

stops_worker : run_intent_service unset no_files port_in_use ≡ (
  pool_opened
      ∷ migrated "store/schema.sql"
      ∷ broker_opened
      ∷ stream_added "INTENTS"
      ∷ worker_started
      ∷ worker_stopped
      ∷ [],
  err unheard,
)
unfolding run_intent_service connect_postgres connect_loop get_env
stops_worker = refl

engine_runs : run_engine unset no_files port_in_use no_number ≡ (
  pool_opened
      ∷ broker_opened
      ∷ wallet_opened insecure
      ∷ workers_started 3
      ∷ subscribed "tasks.scheduled.*"
      ∷ channel_closed
      ∷ unsubscribed "tasks.scheduled.*"
      ∷ wallet_closed
      ∷ broker_closed
      ∷ pool_closed
      ∷ [],
  ok tt,
)
unfolding run_engine connect_postgres connect_loop get_env choose_transport
engine_runs = refl
