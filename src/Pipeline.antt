-- ===== src/Pipeline.antt =====
-- The scheduler and the execution engine on one database, with the repository's wallet: the steps of the
-- deliveries of one intent, in any order. A delivery to the scheduler reads the row and acts on it in
-- separate statements with no lock (scheduler/main.go, steps 2 to 5), so that its row may be one that a
-- SELECT has read at any time before.
pub mod Once
pub mod Stale
pub mod Completes
use aien.Prelude.{◌≡◌, Option, some}
use aien.Intent.Types.{Intent, Bytes}
use aien.Intent.Table.{IntentRow}
use aien.Wallet.Money.{Money}
use aien.Scheduler.{Wire, on_row}
use aien.Scheduler
use aien.Engine.{TransferPayload, World, execute_task}
use aien.Engine
use aien.Engine.Payment.{Bank, bank}

module _ (m : Money) (wire : Wire) (parse_payload : Bytes → Option (TransferPayload m.Amount)) where
  -- The scheduler's statements behind the SELECT that has answered `row`.
  abbrev pub act : Scheduler.Answers → Intent → Option IntentRow → World (Bank m) → World (Bank m)
  act a intent row s = record s { pipeline = (on_row wire a intent row s.pipeline).0 }

  abbrev pub execute : Engine.Answers → Bytes → World (Bank m) → World (Bank m)
  execute a data_of s = (execute_task wire (bank m parse_payload) a data_of s).0

  pub data Step (intent : Intent) (s : World (Bank m)) : World (Bank m) → Type 0 where
    schedule_step :
        (a : Scheduler.Answers) (row : Option IntentRow) → Step intent s (act a intent row s)
    execute_step :
        (a : Engine.Answers) (data_of : Bytes)
        → wire.unmarshal data_of ≡ some intent
        → Step intent s (execute a data_of s)

  pub data Run (intent : Intent) : World (Bank m) → World (Bank m) → Type 0 where
    done : (s : World (Bank m)) → Run intent s s
    next : (s s1 s2 : World (Bank m)) → Step intent s s1 → Run intent s1 s2 → Run intent s s2
