-- ===== src/Engine/Payment/Completed.antt =====
-- An intent that the engine sets to COMPLETED has been paid.
use aien.Prelude.{
  ◌≡◌, refl, ◌⊎◌, inl, inr, Bool, true, false, List, [], ◌∷◌, Option, some, String, ◌==◌, arith,
  Bool-cases, Option-cases, ==_iff, differ, sym,
}
use mathlib.Core.Path.{subst}
use aien.Prelude.Sql.{Result, ok, err, Commit, committed, refused, lost}
use aien.Intent.Types.{Intent, transfer, Bytes, Time}
use aien.Intent.Table.{IntentRow, find_row, set_status}
use aien.Intent.Table.Laws.{find_row-set_status}
use aien.Wallet.Money.{Money}
use aien.Scheduler.{Wire}
use aien.Engine.{
  TransferPayload, Answers, World, claim, claimed, run_execution_simulation, ExecutionError,
  execute_task, execute_intent, execute_claimed, on_claim, final_status, autocommit, with_rows,
  EngineError,
}
use aien.Engine.Once.{finish_kept, execute_task_read}
use aien.Engine.Payment.{Bank, bank}
use aien.Engine.Payment.Paid.{Paid, run-Ran}

abbrev pub completed_text : String
completed_text = "INTENT_STATUS_COMPLETED"

-- The row of the id is COMPLETED.
abbrev pub IsCompleted : String → List IntentRow → Type 0
IsCompleted id rows = (r : IntentRow) × (find_row id rows ≡ some r) × (r.status ≡ completed_text)

-- A claim completes nothing.
claim-IsCompleted :
    (id : String) (now : Time) (rows : List IntentRow)
    → IsCompleted id (claimed id now rows).0
    → IsCompleted id rows
unfolding claim find_row
claim-IsCompleted id now [] h = h
claim-IsCompleted id now (r ∷ rows) (q, found, done) = elim (Bool-cases (r.id == id)) [
  | inl same ↦ elim (Bool-cases (r.status == "INTENT_STATUS_SCHEDULED")) [
    | inl scheduled ↦ absurd (
        ground (
          arith,
          same,
          scheduled,
          found,
          done,
          differ "INTENT_STATUS_EXECUTING" "INTENT_STATUS_COMPLETED" refl,
        ))
    | inr other ↦ (r, rw same refl, ground (arith, same, other, found, done))
  ]
  | inr other ↦
      let (p, there, ends) =
        claim-IsCompleted id now rows (q, ground (arith, other, found), done) in
      (p, rw other there, ends)
]

set-IsFailed :
    (id : String) (now : Time) (rows : List IntentRow)
    → IsCompleted id (set_status id "INTENT_STATUS_FAILED" now rows)
    → ⊥
set-IsFailed id now rows (q, found, done) = elim (Option-cases (find_row id rows)) [
  | inl missing ↦ ground (
    arith,
    found,
    missing,
    find_row-set_status id id "INTENT_STATUS_FAILED" now rows,
    ==_iff id id,
  )
  | inr (r, there) ↦ ground (
    arith,
    found,
    done,
    there,
    find_row-set_status id id "INTENT_STATUS_FAILED" now rows,
    ==_iff id id,
    differ "INTENT_STATUS_FAILED" "INTENT_STATUS_COMPLETED" refl,
  )
]

-- Which result a written final status tells.
final-IsCompleted :
    (id : String) (now : Time) (x : Result ExecutionError (Unit {0})) (c : Commit)
    (rows : List IntentRow)
    → IsCompleted id (autocommit c (set_status id (final_status x).0 now) rows).0
    → IsCompleted id rows ⊎ (x ≡ ok tt)
final-IsCompleted id now (ok u) c rows h = inr refl
final-IsCompleted id now (err e) refused rows h = inl h
final-IsCompleted id now (err e) committed rows h = absurd (set-IsFailed id now rows h)
final-IsCompleted id now (err e) lost rows h = absurd (set-IsFailed id now rows h)

module _ (m : Money) (wire : Wire) (parse_payload : Bytes → Option (TransferPayload m.Amount)) where
  -- The payload of the intent has been paid between the two states.
  abbrev Settled : Intent → World (Bank m) → World (Bank m) → Type 0
  Settled intent s s' =
      (p : TransferPayload m.Amount) × (parse_payload intent.payload ≡ some p)
      × Paid m p intent.id s.wallet.tables s'.wallet.tables

  run_ok :
      (c : Bool) (intent : Intent) (w : Bank m)
      → intent.type_of ≡ transfer
      → (run_execution_simulation (bank m parse_payload) c intent w).1 ≡ ok tt
      → (p : TransferPayload m.Amount) × (parse_payload intent.payload ≡ some p)
        × Paid m p intent.id w.tables
            (run_execution_simulation (bank m parse_payload) c intent w).0.tables
  run_ok c intent w typed done = elim (run-Ran m parse_payload intent c w) [
    | inr paid ↦ paid
    | inl (same, failed) ↦ let (e, refuted) = failed typed in absurd (ground (arith, done, refuted))
  ]

  execute_claimed-Settled :
      (a : Answers) (intent : Intent) (s : World (Bank m))
      → intent.type_of ≡ transfer
      → (IsCompleted intent.id s.pipeline.rows → ⊥)
      → let s' = (execute_claimed wire (bank m parse_payload) a intent s).0 in
        IsCompleted intent.id s'.pipeline.rows → Settled intent s s'
  unfolding execute_claimed
  execute_claimed-Settled a intent s typed open_before done =
      let run = run_execution_simulation (bank m parse_payload) a.cancelled intent s.wallet in
      let st = final_status run.1 in
      let written = autocommit a.final_ends (set_status intent.id st.0 a.now) s.pipeline.rows in
      let kept =
        finish_kept wire (bank m parse_payload) a intent st.1 (record s { wallet = run.0 })
          written in
      elim (final-IsCompleted intent.id a.now run.1 a.final_ends s.pipeline.rows
        (subst (IsCompleted intent.id) kept.1 done)) [
          | inl before ↦ absurd (open_before before)
          | inr fine ↦
              let (p, parsed, paid) = run_ok a.cancelled intent s.wallet typed fine in
              (
                p,
                parsed,
                subst (λ (w : Bank m). Paid m p intent.id s.wallet.tables w.tables) (sym kept.0)
                    paid,
              )
        ]

  on_claim-Settled :
      (a : Answers) (intent : Intent) (skip : Bool) (c : Commit) (s : World (Bank m))
      → intent.type_of ≡ transfer
      → (IsCompleted intent.id s.pipeline.rows → ⊥)
      → let s' =
          (on_claim wire
            (bank m parse_payload)
            a
            intent
            skip
            (autocommit c (λ rows. (claimed intent.id a.now rows).0) s.pipeline.rows)
            s).0 in
        IsCompleted intent.id s'.pipeline.rows → Settled intent s s'
  on_claim-Settled a intent skip refused s typed open_before done = absurd (open_before done)
  on_claim-Settled a intent skip lost s typed open_before done =
      absurd (open_before (claim-IsCompleted intent.id a.now s.pipeline.rows done))
  on_claim-Settled a intent true committed s typed open_before done =
      absurd (open_before (claim-IsCompleted intent.id a.now s.pipeline.rows done))
  on_claim-Settled a intent false committed s typed open_before done =
      execute_claimed-Settled a intent (with_rows (claimed intent.id a.now s.pipeline.rows).0 s)
        typed
        (λ (h : IsCompleted intent.id (claimed intent.id a.now s.pipeline.rows).0).
          open_before (claim-IsCompleted intent.id a.now s.pipeline.rows h))
        done

  -- Let a task message of a transfer be delivered whose row is not COMPLETED. However the database, the
  -- network, the wallet and the broker answer: if the row is COMPLETED after it, then the wallet has
  -- moved the payload's amount between its two accounts in this delivery, under the intent's id.
  pub execute_task-Settled :
      (a : Answers) (data_of : Bytes) (intent : Intent) (s : World (Bank m))
      → wire.unmarshal data_of ≡ some intent
      → intent.type_of ≡ transfer
      → (IsCompleted intent.id s.pipeline.rows → ⊥)
      → IsCompleted intent.id (execute_task wire (bank m parse_payload) a data_of s).0.pipeline.rows
      → (p : TransferPayload m.Amount) × (parse_payload intent.payload ≡ some p)
        × Paid m p intent.id s.wallet.tables
            (execute_task wire (bank m parse_payload) a data_of s).0.wallet.tables
  unfolding execute_task execute_intent
  execute_task-Settled a data_of intent s read typed open_before done =
      let same = execute_task_read wire (bank m parse_payload) a data_of intent s read in
      let (p, parsed, paid) = on_claim-Settled a intent _ a.claim_ends s typed open_before (
        subst
          (λ (r : World (Bank m) × Result EngineError (Unit {0})).
            IsCompleted intent.id r.0.pipeline.rows)
          same done) in
      (
        p,
        parsed,
        subst
            (λ (r : World (Bank m) × Result EngineError (Unit {0})).
              Paid m p intent.id s.wallet.tables r.0.wallet.tables)
            (sym same) paid,
      )
