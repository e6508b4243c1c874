-- ===== src/Startup/Servers/Steps.antt =====
-- What it takes for a step of a start to succeed, and what an error of a main function reports.
use aien.Prelude.{ℕ, ◌≡◌, ◌⊎◌, Bool, true, false, String}
use aien.Prelude.Decimal.{pos}
use aien.Prelude.Sql.{ok, err}
use aien.Crypto.{Bytes}
use aien.Startup.Config.{Environment, get_env}
use aien.Startup.Database.{connected, failed, connect_postgres}
use aien.Startup.Transport.{Machine, server_transport, client_transport}
use aien.Startup.Servers.{
  ServiceError, database_unreachable, broker_unreachable, jet_stream_failed, stream_uncreated,
  unmigrated, unheard, serve_failed, subscription_failed, wallet_unreached, no_transport, Action,
  pool_opened, broker_opened, migrated, stream_added, listening, serving, subscribed, wallet_opened,
  SchemaFile, content, Answers, schema_path, database_url, migrate_intents, migrate_wallet,
}

-- The schema file has been read, and the database has run it.
abbrev pub IsMigrated : (exec_fails : Bytes → Bool) → SchemaFile → Type 0
IsMigrated exec_fails file =
    (schema : Bytes) × ((file ≡ content schema) × (exec_fails schema ≡ false))

module _ (env : Environment) (machine : Machine) (a : Answers) where
  -- What the answers must be for a step to have been done; the others start or stop what cannot fail.
  unfoldable pub Succeeds : Action → Type 0
  Succeeds pool_opened =
      (attempt : ℕ) × (closed : ℕ) × (waits : ℕ) × (connect_postgres
          (a.pings (database_url env machine a)) (pos 10)
        ≡ connected attempt closed waits)
  Succeeds (migrated path) = IsMigrated a.exec_fails (a.schema_file path)
  Succeeds broker_opened = a.nats_fails (get_env env "NATS_URL" "nats://localhost:4222") ≡ false
  Succeeds (stream_added name) = (a.jet_stream_fails ≡ false) × (a.stream_fails name ≡ false)
  Succeeds (listening port) = a.listen_fails port ≡ false
  Succeeds (serving t) = server_transport env machine ≡ ok t
  Succeeds (wallet_opened t) =
      (client_transport "wallet" env machine ≡ ok t)
      × (a.client_fails (get_env env "WALLET_SERVICE_ADDR" "localhost:50052") ≡ false)
  Succeeds (subscribed subject) = (a.jet_stream_fails ≡ false) × (a.subscribe_fails subject ≡ false)
  Succeeds act = Unit

  -- What has happened when a main function ends with an error.
  unfoldable pub Reported : ServiceError → Type 0
  Reported database_unreachable =
      (closed : ℕ) × (waits : ℕ) × (connect_postgres (a.pings (database_url env machine a)) (pos 10)
        ≡ failed closed waits)
  Reported broker_unreachable = a.nats_fails (get_env env "NATS_URL" "nats://localhost:4222") ≡ true
  Reported jet_stream_failed = a.jet_stream_fails ≡ true
  Reported stream_uncreated = (name : String) × (a.stream_fails name ≡ true)
  Reported (unmigrated e) =
      (migrate_intents a.exec_fails (a.schema_file (schema_path env machine a)) ≡ err e)
      ⊎ (migrate_wallet a.exec_fails (a.schema_file (schema_path env machine a)) ≡ err e)
  Reported unheard = (port : String) × (a.listen_fails port ≡ true)
  Reported serve_failed = a.serve_fails ≡ true
  Reported subscription_failed = (subject : String) × (a.subscribe_fails subject ≡ true)
  Reported wallet_unreached =
      a.client_fails (get_env env "WALLET_SERVICE_ADDR" "localhost:50052") ≡ true
  Reported (no_transport e) =
      (server_transport env machine ≡ err e) ⊎ (client_transport "wallet" env machine ≡ err e)
