-- ===== src/Startup/Servers/Order.antt =====
-- The order in which the main functions of intent-service/main.go and wallet/main.go start their parts, and
-- what they stop when a start fails.
use aien.Prelude.{
  All, ℕ, Bool, true, false, List, [], ◌∷◌, ◌++◌, if◌then◌else◌, Bool-cases, ◌≡◌, refl, ◌⊎◌, inl,
  inr,
}
use aien.Prelude.Decimal.{pos}
use aien.Prelude.Sql.{ok, err, Result-cases}
use aien.Crypto.{Bytes}
use aien.Startup.Config.{Environment, get_env}
use aien.Startup.Database.{Connection, connected, failed, connect_postgres}
use aien.Startup.Transport.{Transport, Machine, server_transport}
use aien.Startup.Servers.Steps.{IsMigrated, Succeeds, Reported}
use aien.Startup.Servers.{
  database_url, with_worker, after, MigrateError, schema_unopened, schema_unread, schema_refused,
  ServiceError, database_unreachable, broker_unreachable, jet_stream_failed, stream_uncreated,
  unmigrated, unheard, serve_failed, no_transport, Action, pool_opened, pool_closed, broker_opened,
  worker_started, worker_stopped, migrated, stream_added, listening, serving, SchemaFile, unopened,
  unread, content, Answers, Run, run_intent_service, run_wallet, intent_returned, schema_path,
  with_broker, migrate_intents, migrate_wallet, listen,
}

-- Whether the outbox worker runs after the actions, if it runs before them or not.
unfoldable pub running : Bool → List Action → Bool
running before [] = before
running before (worker_started ∷ acts) = running true acts
running before (worker_stopped ∷ acts) = running false acts
running before (act ∷ acts) = running before acts

-- What is stopped after a start that fails: the outbox worker, if it runs.
abbrev pub stopped_for : List Action → List Action
stopped_for done = if running false done then worker_stopped ∷ [] else []

-- A run that does its steps in order, and serves only after all of them: the steps that it has done have
-- succeeded, and the error that ends it is reported.
pub data Follows (Succeeds : Action → Type 0) (Reported : ServiceError → Type 0)
    (steps returned : List Action) : Run → Type 0 where
  exits :
      (done rest : List Action) (e : ServiceError)
      → done ++ rest ≡ steps
      → All Succeeds done
      → Reported e
      → Follows Succeeds Reported steps returned (done ++ stopped_for done, err e)
  breaks :
      (t : Transport)
      → All Succeeds (steps ++ serving t ∷ [])
      → Reported serve_failed
      → Follows Succeeds Reported steps returned (steps ++ serving t ∷ [], err serve_failed)
  returns :
      (t : Transport)
      → All Succeeds (steps ++ serving t ∷ [])
      → Follows Succeeds Reported steps returned (steps ++ serving t ∷ returned, ok tt)

pub connection-cases :
    (c : Connection)
    → ((closed : ℕ) × ((waits : ℕ) × (c ≡ failed closed waits)))
      ⊎ ((attempt : ℕ) × ((closed : ℕ) × ((waits : ℕ) × (c ≡ connected attempt closed waits))))
connection-cases (failed closed waits) = inl (closed, (waits, refl))
connection-cases (connected attempt closed waits) = inr (attempt, (closed, (waits, refl)))

migrate_wallet-IsMigrated :
    (exec_fails : Bytes → Bool) (file : SchemaFile)
    → ((e : MigrateError) × (migrate_wallet exec_fails file ≡ err e))
      ⊎ ((migrate_wallet exec_fails file ≡ ok tt) × IsMigrated exec_fails file)
migrate_wallet-IsMigrated exec_fails unopened = inl (schema_unopened, refl)
migrate_wallet-IsMigrated exec_fails unread = inl (schema_unread, refl)
migrate_wallet-IsMigrated exec_fails (content schema) = elim (Bool-cases (exec_fails schema)) [
  | inl refused ↦ rw refused (inl (schema_refused, refl))
  | inr taken ↦ rw taken (inr (refl, (schema, (refl, taken))))
]

migrate_intents-IsMigrated :
    (exec_fails : Bytes → Bool) (file : SchemaFile)
    → ((e : MigrateError) × (migrate_intents exec_fails file ≡ err e))
      ⊎ ((migrate_intents exec_fails file ≡ ok tt) × IsMigrated exec_fails file)
migrate_intents-IsMigrated exec_fails unopened = inl (schema_unread, refl)
migrate_intents-IsMigrated exec_fails unread = inl (schema_unread, refl)
migrate_intents-IsMigrated exec_fails (content schema) = elim (Bool-cases (exec_fails schema)) [
  | inl refused ↦ rw refused (inl (schema_refused, refl))
  | inr taken ↦ rw taken (inr (refl, (schema, (refl, taken))))
]

module _ (env : Environment) (machine : Machine) (a : Answers) where
  abbrev pub intent_steps : List Action
  intent_steps =
      pool_opened
      ∷ migrated (schema_path env machine a)
      ∷ broker_opened
      ∷ stream_added "INTENTS"
      ∷ worker_started
      ∷ listening (get_env env "INTENT_SERVICE_PORT" ":50051")
      ∷ []

  abbrev pub wallet_steps : List Action
  wallet_steps =
      pool_opened
      ∷ migrated (schema_path env machine a)
      ∷ listening (get_env env "WALLET_SERVICE_PORT" ":50052")
      ∷ []

  abbrev pub IsServing : List Action → List Action → Run → Type 0
  IsServing = Follows (Succeeds env machine a) (Reported env machine a)

  intent_served :
      All (Succeeds env machine a) (
        pool_opened
        ∷ migrated (schema_path env machine a)
        ∷ broker_opened
        ∷ stream_added "INTENTS"
        ∷ worker_started
        ∷ [])
      → IsServing intent_steps (intent_returned env machine a) (
          after (pool_opened ∷ []) (
            after (migrated (schema_path env machine a) ∷ []) (
              after
                (broker_opened ∷ [])
                (after (stream_added "INTENTS" ∷ []) (with_worker env machine a)))))
  unfolding running Succeeds Reported
  intent_served (h1, (h2, (h3, (h4, (h5, u))))) =
      let port = get_env env "INTENT_SERVICE_PORT" ":50051" in
      elim (Bool-cases (a.listen_fails port)) [
        | inl deaf ↦ rw deaf (
            exits
              (pool_opened
                ∷ migrated _
                ∷ broker_opened
                ∷ stream_added "INTENTS"
                ∷ worker_started
                ∷ [])
              (listening _ ∷ []) unheard refl (h1, (h2, (h3, (h4, (h5, tt))))) (port, deaf))
        | inr heard ↦ elim (Result-cases (server_transport env machine)) [
          | inl (e, unusable) ↦
              rw (heard, unusable)
                (exits intent_steps [] (no_transport e) refl
                  (h1, (h2, (h3, (h4, (h5, (heard, tt)))))) (inl unusable))
          | inr (t, chosen) ↦ elim (Bool-cases a.serve_fails) [
            | inl broken ↦
                simp (heard, chosen, broken)
                  (breaks t (h1, (h2, (h3, (h4, (h5, (heard, (chosen, tt))))))) broken)
            | inr fine ↦
                simp (heard, chosen, fine)
                  (returns t (h1, (h2, (h3, (h4, (h5, (heard, (chosen, tt))))))))
          ]
        ]
      ]

  with_broker-Follows :
      All (Succeeds env machine a) (pool_opened ∷ migrated (schema_path env machine a) ∷ [])
      → IsServing intent_steps (intent_returned env machine a) (
          after
            (pool_opened ∷ [])
            (after (migrated (schema_path env machine a) ∷ []) (with_broker env machine a)))
  unfolding running Succeeds Reported
  with_broker-Follows (h1, (h2, u)) =
      elim (Bool-cases (a.nats_fails (get_env env "NATS_URL" "nats://localhost:4222"))) [
        | inl away ↦ rw away (
            exits (pool_opened ∷ migrated _ ∷ [])
              (broker_opened ∷ stream_added "INTENTS" ∷ worker_started ∷ listening _ ∷ [])
              broker_unreachable refl (h1, (h2, tt)) away)
        | inr there ↦ elim (Bool-cases a.jet_stream_fails) [
          | inl none_made ↦
              simp (there, none_made)
                (exits (pool_opened ∷ migrated _ ∷ broker_opened ∷ [])
                  (stream_added "INTENTS" ∷ worker_started ∷ listening _ ∷ []) jet_stream_failed
                  refl (h1, (h2, (there, tt))) none_made)
          | inr made ↦ elim (Bool-cases (a.stream_fails "INTENTS")) [
            | inl none_added ↦
                simp (there, made, none_added)
                  (exits (pool_opened ∷ migrated _ ∷ broker_opened ∷ [])
                    (stream_added "INTENTS" ∷ worker_started ∷ listening _ ∷ []) stream_uncreated
                    refl (h1, (h2, (there, tt))) ("INTENTS", none_added))
            | inr added ↦
                simp (there, made, added)
                  (intent_served (h1, (h2, (there, ((made, added), (tt, tt))))))
          ]
        ]
      ]

  intent-Follows :
      IsServing intent_steps (intent_returned env machine a) (run_intent_service env machine a)
  unfolding run_intent_service running Succeeds Reported
  intent-Follows =
      elim (connection-cases (connect_postgres (a.pings (database_url env machine a)) (pos 10))) [
        | inl (closed, (waits, unreached)) ↦
            rw unreached
              (exits [] intent_steps database_unreachable refl tt (closed, waits, unreached))
        | inr (attempt, (closed, (waits, reached))) ↦
            elim (migrate_intents-IsMigrated a.exec_fails
              (a.schema_file (schema_path env machine a))) [
                | inl (e, refused) ↦
                    rw (reached, refused)
                      (exits (pool_opened ∷ [])
                        (migrated _
                          ∷ broker_opened
                          ∷ stream_added "INTENTS"
                          ∷ worker_started
                          ∷ listening _
                          ∷ [])
                        (unmigrated e) refl ((attempt, closed, waits, reached), tt) (inl refused))
                | inr (done, tables) ↦
                    rw (reached, done)
                      (with_broker-Follows ((attempt, closed, waits, reached), (tables, tt)))
              ]
      ]

  wallet_served :
      All (Succeeds env machine a) (pool_opened ∷ migrated (schema_path env machine a) ∷ [])
      → IsServing wallet_steps (pool_closed ∷ []) (
          after (pool_opened ∷ []) (
            after (migrated (schema_path env machine a) ∷ []) (
              listen env machine a
                (get_env env "WALLET_SERVICE_PORT" ":50052")
                (pool_closed ∷ [])
                [])))
  unfolding running Succeeds Reported
  wallet_served (h1, (h2, u)) =
      let port = get_env env "WALLET_SERVICE_PORT" ":50052" in
      elim (Bool-cases (a.listen_fails port)) [
        | inl deaf ↦ rw deaf (
            exits (pool_opened ∷ migrated _ ∷ []) (listening _ ∷ []) unheard refl (h1, (h2, tt))
              (port, deaf))
        | inr heard ↦ elim (Result-cases (server_transport env machine)) [
          | inl (e, unusable) ↦
              rw (heard, unusable)
                (exits wallet_steps [] (no_transport e) refl (h1, (h2, (heard, tt))) (inl unusable))
          | inr (t, chosen) ↦ elim (Bool-cases a.serve_fails) [
            | inl broken ↦
                simp (heard, chosen, broken) (breaks t (h1, (h2, (heard, (chosen, tt)))) broken)
            | inr fine ↦ simp (heard, chosen, fine) (returns t (h1, (h2, (heard, (chosen, tt)))))
          ]
        ]
      ]

  wallet-Follows : IsServing wallet_steps (pool_closed ∷ []) (run_wallet env machine a)
  unfolding run_wallet running Succeeds Reported
  wallet-Follows =
      elim (connection-cases (connect_postgres (a.pings (database_url env machine a)) (pos 10))) [
        | inl (closed, (waits, unreached)) ↦
            rw unreached
              (exits [] wallet_steps database_unreachable refl tt (closed, waits, unreached))
        | inr (attempt, (closed, (waits, reached))) ↦
            elim (migrate_wallet-IsMigrated a.exec_fails
              (a.schema_file (schema_path env machine a))) [
                | inl (e, refused) ↦
                    rw (reached, refused)
                      (exits (pool_opened ∷ []) (migrated _ ∷ listening _ ∷ []) (unmigrated e) refl
                        ((attempt, closed, waits, reached), tt) (inr refused))
                | inr (done, tables) ↦
                    rw (reached, done)
                      (wallet_served ((attempt, closed, waits, reached), (tables, tt)))
              ]
      ]

  pub servers-Follow :
      IsServing intent_steps (intent_returned env machine a) (run_intent_service env machine a)
      × IsServing wallet_steps (pool_closed ∷ []) (run_wallet env machine a)
  servers-Follow = (intent-Follows, wallet-Follows)
