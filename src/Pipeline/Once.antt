-- ===== src/Pipeline/Once.antt =====
-- The money of one intent along every run of the scheduler and the engine.
use aien.Prelude.{◌++◌, ◌≡◌, refl, ◌⊎◌, Bool, List, [], ◌∷◌, ◌++◌, Option, some, ap, sym, ◌∙◌}
use mathlib.Core.Path.{subst}
use aien.Intent.Types.{Intent, Bytes}
use aien.Wallet.Money.{Money}
use aien.Scheduler.{Wire}
use aien.Engine.{TransferPayload, World, run_execution_simulation, execute_intent, EngineOutcome}
use aien.Engine.Once.{execute_intent-Ran, execute_task_read, untouched, only_claimed, ran}
use aien.Engine.Once
use aien.Engine.Payment.{Bank, bank, executions}
use aien.Engine.Payment.Paid.{Paid, executions_once}
use aien.Pipeline.{Step, Run, schedule_step, execute_step, done, next}

module _ (m : Money) (wire : Wire) (parse_payload : Bytes → Option (TransferPayload m.Amount))
    (intent : Intent) where
  -- The wallet has seen some executions of the intent.
  abbrev Executed : Bank m → Bank m → Type 0
  Executed w w' = (cs : List Bool) × (w' ≡ executions m parse_payload cs intent w)

  Ran-Executed :
      (s s' : World (Bank m))
      → Once.Ran wire (bank m parse_payload) intent s s'
      → Executed s.wallet s'.wallet
  unfolding executions
  Ran-Executed s s' (untouched e rows) = ([], e)
  Ran-Executed s s' (only_claimed e idle) = ([], e)
  Ran-Executed s s' (ran c e idle) = (c ∷ [], e)

  Step-Executed :
      (s s' : World (Bank m)) → Step m wire parse_payload intent s s' → Executed s.wallet s'.wallet
  unfolding executions
  Step-Executed s _ (schedule_step a row) = ([], refl)
  Step-Executed s _ (execute_step a data_of read) =
      let same = execute_task_read wire (bank m parse_payload) a data_of intent s read in
      let (cs, e) =
        Ran-Executed s (execute_intent wire (bank m parse_payload) a intent s).0
          (execute_intent-Ran wire (bank m parse_payload) a intent s) in
      (cs, ap (λ (r : EngineOutcome wire (bank m parse_payload)). r.0.wallet) same ∙ e)

  executions-append :
      (cs ds : List Bool) (w : Bank m)
      → executions m parse_payload (cs ++ ds) intent w
        ≡ executions m parse_payload ds intent (executions m parse_payload cs intent w)
  unfolding executions
  executions-append [] ds w = refl
  executions-append (c ∷ cs) ds w =
      executions-append cs ds (run_execution_simulation (bank m parse_payload) c intent w).0

  Run-Executed :
      (s s' : World (Bank m)) → Run m wire parse_payload intent s s' → Executed s.wallet s'.wallet
  unfolding executions
  Run-Executed s _ (done _) = ([], refl)
  Run-Executed s s' (next _ s1 _ step rest) =
      let (cs, first) = Step-Executed s s1 step in
      let (ds, then) = Run-Executed s1 s' rest in
      (
        cs ++ ds,
        then
            ∙ ap (executions m parse_payload ds intent) first
            ∙ sym (executions-append cs ds s.wallet),
      )

  -- Whatever deliveries of one intent the scheduler and the engine handle, in whatever order of their
  -- steps, with rows that the scheduler has read at any time, and however database, broker, network and
  -- wallet answer: the wallet's tables are as before, or the payload's amount has moved once between its
  -- accounts, under the intent's id, which was not logged before.
  pub run_once :
      (s s' : World (Bank m))
      → Run m wire parse_payload intent s s'
      → (s'.wallet.tables ≡ s.wallet.tables)
        ⊎ ((p : TransferPayload m.Amount) × (parse_payload intent.payload ≡ some p)
            × Paid m p intent.id s.wallet.tables s'.wallet.tables)
  run_once s s' run =
      let (cs, e) = Run-Executed s s' run in
      subst
        (λ (w : Bank m).
          (w.tables ≡ s.wallet.tables)
          ⊎ ((p : TransferPayload m.Amount) × (parse_payload intent.payload ≡ some p)
              × Paid m p intent.id s.wallet.tables w.tables))
        (sym e) (executions_once m parse_payload intent cs s.wallet)
