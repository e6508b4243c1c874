-- ===== src/Validator/Startup.antt =====
-- `main` of validator/main.go: the ledger is verified before anything else is started. The deliveries of
-- the subscription are a list, each with its answers; a message that gets a Nak may come again.
use aien.Prelude.{
  ℕ, ◌≡◌, refl, ◌⊎◌, inl, inr, Bool, List, [], ◌∷◌, Option, none, some, String, if◌then◌else◌,
  Bool-cases, Option-cases,
}
use aien.Prelude.Decimal.{pos}
use aien.Prelude.Sql.{Result, ok, err}
use aien.Intent.Types.{Intent}
use aien.Intent.Table.{IntentRow}
use aien.Ledger.Scan.{Bytes}
use aien.Ledger.Engine.{Codec, Disk, VerifyError, verify}
use aien.Startup.Database.{Ping, Connection, connected, failed, connect_postgres}
use aien.Validator.{handle_executed_intent}

pub data StartError : Type 0 where
  directory_uncreated database_unreachable broker_unreachable : StartError
  jet_stream_failed stream_uncreated subscription_failed : StartError
  ledger_invalid : VerifyError → StartError

-- How the calls of the start end.
pub record Surroundings : Type 0 where
  pub directory_fails : Bool
  pub disk : Disk
  pub pings : ℕ → Ping
  pub nats_fails : Bool
  pub jet_stream_fails : Bool
  pub stream_fails : Bool
  pub subscribe_fails : Bool

pub record Delivery : Type 0 where
  pub fetch_fails : Bool
  pub disk : Disk
  pub timestamp : String
  pub data_of : Bytes
  pub rows : List IntentRow

module _ (unmarshal : Bytes → Option Intent) (codec : Codec) (digest : String → String) where
  unfoldable pub deliveries : List Delivery → Option Bytes → Option Bytes
  deliveries [] file = file
  deliveries (d ∷ ds) file =
      deliveries ds
        (handle_executed_intent unmarshal codec digest d.fetch_fails d.disk d.timestamp d.data_of
          d.rows file).0

  -- The subscription, after the streams.
  abbrev pub subscribed :
      Surroundings → List Delivery → Option Bytes → Option Bytes × Result StartError (Unit {0})
  subscribed s ds file =
      if s.nats_fails
      then (file, err broker_unreachable)
      else if s.jet_stream_fails
      then (file, err jet_stream_failed)
      else if s.stream_fails
      then (file, err stream_uncreated)
      else if s.subscribe_fails
      then (file, err subscription_failed)
      else (deliveries ds file, ok tt)

  abbrev pub with_database :
      Surroundings
      → List Delivery
      → Connection
      → Option Bytes
      → Option Bytes × Result StartError (Unit {0})
  with_database s ds (failed closed waits) file = (file, err database_unreachable)
  with_database s ds (connected attempt closed waits) file = subscribed s ds file

  abbrev pub verified :
      Surroundings
      → List Delivery
      → Option VerifyError
      → Option Bytes
      → Option Bytes × Result StartError (Unit {0})
  verified s ds (some e) file = (file, err (ledger_invalid e))
  verified s ds none file = with_database s ds (connect_postgres s.pings (pos 10)) file

  -- The file and the end of `main` after the deliveries.
  unfoldable pub run_validator :
      Surroundings → List Delivery → Option Bytes → Option Bytes × Result StartError (Unit {0})
  run_validator s ds file =
      if s.directory_fails
      then (file, err directory_uncreated)
      else verified s ds (verify codec digest s.disk file) file

  with_database-cases :
      (s : Surroundings) (ds : List Delivery) (c : Connection) (file : Option Bytes)
      → let r = with_database s ds c file in
        ((r.0 ≡ file) × ((e : StartError) × (r.1 ≡ err e)))
        ⊎ ((r.0 ≡ deliveries ds file) × (r.1 ≡ ok tt))
  with_database-cases s ds (failed closed waits) file = inl (refl, (database_unreachable, refl))
  with_database-cases s ds (connected attempt closed waits) file = elim (Bool-cases s.nats_fails) [
    | inl e1 ↦ rw e1 (inl (refl, (broker_unreachable, refl)))
    | inr g1 ↦ elim (Bool-cases s.jet_stream_fails) [
      | inl e2 ↦ rw (g1, e2) (inl (refl, (jet_stream_failed, refl)))
      | inr g2 ↦ elim (Bool-cases s.stream_fails) [
        | inl e3 ↦ rw (g1, g2, e3) (inl (refl, (stream_uncreated, refl)))
        | inr g3 ↦ elim (Bool-cases s.subscribe_fails) [
          | inl e4 ↦ rw (g1, g2, g3, e4) (inl (refl, (subscription_failed, refl)))
          | inr g4 ↦ rw (g1, g2, g3, g4) (inr (refl, refl))
        ]
      ]
    ]
  ]

  -- The validator ends with an error and has left the ledger's file as it was, or it has accepted the
  -- file with `Verify` before it handled any message, and the file is as the deliveries left it.
  pub run_validator-cases :
      (s : Surroundings) (ds : List Delivery) (file : Option Bytes)
      → let r = run_validator s ds file in
        ((r.0 ≡ file) × ((e : StartError) × (r.1 ≡ err e)))
        ⊎ ((verify codec digest s.disk file ≡ none) × (r.0 ≡ deliveries ds file) × (r.1 ≡ ok tt))
  unfolding run_validator
  run_validator-cases s ds file = elim (Bool-cases s.directory_fails) [
    | inl none_made ↦ rw none_made (inl (refl, (directory_uncreated, refl)))
    | inr made ↦ elim (Option-cases (verify codec digest s.disk file)) [
      | inr (e, broken) ↦ rw (made, broken) (inl (refl, (ledger_invalid e, refl)))
      | inl intact ↦ elim (with_database-cases s ds (connect_postgres s.pings (pos 10)) file) [
        | inl ended ↦ rw (made, intact) (inl ended)
        | inr (ran, fine) ↦ rw (made, intact) (inr (refl, ran, fine))
      ]
    ]
  ]
