-- ===== src/Engine/Once.antt =====
-- However often a task is delivered, the engine executes it at most once.
use aien.Prelude.{
  ℕ, ◌≡◌, refl, ◌⊎◌, inl, inr, true, false, List, [], ◌∷◌, Option, none, some, String, arith,
  differ, Bool, ◌∙◌, ap,
}
use aien.Prelude.Sql.{Result, ok, err, committed, refused, lost, Commit}
use aien.Intent.Types.{Intent, IntentStatus, Bytes, Time}
use aien.Intent.Table.{IntentRow, set_status}
use aien.Scheduler.{Wire, Publish, Message, Pipeline, publish_message}
use aien.Engine.{
  Wallet, Answers, World, claimed, execute_intent, execute_claimed, execute_task,
  run_execution_simulation, publish_executed, executed, with_rows, finish, final_status, autocommit,
  on_claim, skips, ExecutionError,
}
use aien.Engine.Claim.{IsIdle, claimed-IsIdle, claim_after_set}

publish_rows :
    (p : Publish) (msg : Message) (s : Pipeline) → (publish_message p msg s).0.rows ≡ s.rows
unfolding publish_message
publish_rows p msg s = ground arith

publish_executed_kept :
    {W : Type 0} (p : Publish) (intent : Intent) (bytes : Option Bytes) (s : World W)
    → ((publish_executed p intent bytes s).wallet ≡ s.wallet)
      × ((publish_executed p intent bytes s).pipeline.rows ≡ s.pipeline.rows)
publish_executed_kept p intent none s = (refl, refl)
publish_executed_kept p intent (some bytes) s =
    (refl, publish_rows p (executed intent bytes) s.pipeline)

skips_zero : (fails : Bool) (affected : ℕ) → affected ≡ 0 → skips fails affected ≡ true
skips_zero fails affected h = ground arith

module _ (wire : Wire) {W A : Type 0} (wallet : Wallet W A) where
  pub finish_kept :
      (a : Answers) (intent : Intent) (st : IntentStatus) (s : World W) (r : List IntentRow × Bool)
      → ((finish wire wallet a intent st s r).0.wallet ≡ s.wallet)
        × ((finish wire wallet a intent st s r).0.pipeline.rows ≡ r.0)
  finish_kept a intent st s (rows, false) = (refl, refl)
  finish_kept a intent st s (rows, true) =
      publish_executed_kept a.publish intent (wire.marshal (record intent { status = st }))
        (with_rows rows s)

  final-IsIdle :
      (id : String) (now : Time) (r : Result ExecutionError (Unit {0})) (c : Commit)
      (rows : List IntentRow)
      → IsIdle id rows
      → IsIdle id (autocommit c (set_status id (final_status r).0 now) rows).0
  final-IsIdle id now r refused rows h now' = h now'
  final-IsIdle id now (ok u) committed rows h now' =
      claim_after_set id "INTENT_STATUS_EXECUTING" "INTENT_STATUS_SCHEDULED" _ now now' rows
        (differ "INTENT_STATUS_COMPLETED" "INTENT_STATUS_SCHEDULED" refl)
  final-IsIdle id now (ok u) lost rows h now' =
      claim_after_set id "INTENT_STATUS_EXECUTING" "INTENT_STATUS_SCHEDULED" _ now now' rows
        (differ "INTENT_STATUS_COMPLETED" "INTENT_STATUS_SCHEDULED" refl)
  final-IsIdle id now (err x) committed rows h now' =
      claim_after_set id "INTENT_STATUS_EXECUTING" "INTENT_STATUS_SCHEDULED" _ now now' rows
        (differ "INTENT_STATUS_FAILED" "INTENT_STATUS_SCHEDULED" refl)
  final-IsIdle id now (err x) lost rows h now' =
      claim_after_set id "INTENT_STATUS_EXECUTING" "INTENT_STATUS_SCHEDULED" _ now now' rows
        (differ "INTENT_STATUS_FAILED" "INTENT_STATUS_SCHEDULED" refl)

  -- What one run has done: nothing to the wallet, or one execution after which the id is idle.
  pub data Ran (intent : Intent) (s s' : World W) : Type 0 where
    untouched : s'.wallet ≡ s.wallet → s'.pipeline.rows ≡ s.pipeline.rows → Ran intent s s'
    only_claimed : s'.wallet ≡ s.wallet → IsIdle intent.id s'.pipeline.rows → Ran intent s s'
    ran :
        (cancelled : Bool)
        → s'.wallet ≡ (run_execution_simulation wallet cancelled intent s.wallet).0
        → IsIdle intent.id s'.pipeline.rows
        → Ran intent s s'

  execute_claimed-Ran :
      (a : Answers) (intent : Intent) (s : World W) (rows : List IntentRow)
      → IsIdle intent.id rows
      → Ran intent s (execute_claimed wire wallet a intent (with_rows rows s)).0
  unfolding execute_claimed
  execute_claimed-Ran a intent s rows h =
      let run = run_execution_simulation wallet a.cancelled intent s.wallet in
      let st = final_status run.1 in
      let written = autocommit a.final_ends (set_status intent.id st.0 a.now) rows in
      let kept = finish_kept a intent st.1 (record (with_rows rows s) { wallet = run.0 }) written in
      ran a.cancelled (kept.0)
        (λ (now : Time). rw kept.1 (final-IsIdle intent.id a.now run.1 a.final_ends rows h now))

  on_claim-Ran :
      (a : Answers) (intent : Intent) (skip : Bool) (c : Commit) (s : World W)
      → Ran intent s
          (on_claim wire wallet a intent skip
            (autocommit c (λ rows. (claimed intent.id a.now rows).0) s.pipeline.rows)
            s).0
  on_claim-Ran a intent skip refused s = untouched refl refl
  on_claim-Ran a intent skip lost s =
      only_claimed refl (claimed-IsIdle intent.id a.now s.pipeline.rows)
  on_claim-Ran a intent true committed s =
      only_claimed refl (claimed-IsIdle intent.id a.now s.pipeline.rows)
  on_claim-Ran a intent false committed s =
      execute_claimed-Ran a intent s (claimed intent.id a.now s.pipeline.rows).0
        (claimed-IsIdle intent.id a.now s.pipeline.rows)

  pub execute_intent-Ran :
      (a : Answers) (intent : Intent) (s : World W)
      → Ran intent s (execute_intent wire wallet a intent s).0
  unfolding execute_intent
  execute_intent-Ran a intent s = on_claim-Ran a intent _ a.claim_ends s

  on_claim_idle :
      (a : Answers) (intent : Intent) (skip : Bool) (c : Commit) (s : World W)
      → skip ≡ true
      → (on_claim wire wallet a intent skip
          (autocommit c (λ rows. (claimed intent.id a.now rows).0) s.pipeline.rows)
          s).0.wallet
        ≡ s.wallet
  on_claim_idle a intent skip refused s h = refl
  on_claim_idle a intent skip lost s h = refl
  on_claim_idle a intent true committed s h = refl
  on_claim_idle a intent false committed s h = absurd (ground arith)

  idle_wallet :
      (a : Answers) (intent : Intent) (s : World W)
      → IsIdle intent.id s.pipeline.rows
      → (execute_intent wire wallet a intent s).0.wallet ≡ s.wallet
  unfolding execute_intent
  idle_wallet a intent s h =
      on_claim_idle a intent _ a.claim_ends s (skips_zero a.rows_affected_fails _ (h a.now))

  Ran-IsIdle :
      (intent : Intent) (s s' : World W)
      → IsIdle intent.id s.pipeline.rows
      → Ran intent s s'
      → IsIdle intent.id s'.pipeline.rows
  Ran-IsIdle intent s s' h (untouched w rows) now =
      ap (λ (l : List IntentRow). (claimed intent.id now l).1) rows ∙ h now
  Ran-IsIdle intent s s' h (only_claimed w idle) now = idle now
  Ran-IsIdle intent s s' h (ran c w idle) now = idle now

  -- The deliveries of one message, each with its answers.
  unfoldable pub deliver : List Answers → Bytes → World W → World W
  deliver [] data_of s = s
  deliver (a ∷ answers) data_of s = deliver answers data_of (execute_task wire wallet a data_of s).0

  pub execute_task_read :
      (a : Answers) (data_of : Bytes) (intent : Intent) (s : World W)
      → wire.unmarshal data_of ≡ some intent
      → execute_task wire wallet a data_of s ≡ execute_intent wire wallet a intent s
  unfolding execute_task
  execute_task_read a data_of intent s read = rw read refl

  deliver_idle :
      (answers : List Answers) (data_of : Bytes) (intent : Intent) (s : World W)
      → wire.unmarshal data_of ≡ some intent
      → IsIdle intent.id s.pipeline.rows
      → (deliver answers data_of s).wallet ≡ s.wallet
  unfolding deliver
  deliver_idle [] data_of intent s read h = refl
  deliver_idle (a ∷ answers) data_of intent s read h =
      let s' = (execute_intent wire wallet a intent s).0 in
      rw (deliver, execute_task_read a data_of intent s read)
        (deliver_idle answers data_of intent s' read
            (Ran-IsIdle intent s s' h (execute_intent-Ran a intent s))
          ∙ idle_wallet a intent s h)

  after :
      {intent : Intent} {s s' : World W} {w : W}
      → Ran intent s s'
      → (w ≡ s'.wallet)
        ⊎ ((c : Bool) × (w ≡ (run_execution_simulation wallet c intent s'.wallet).0))
      → (IsIdle intent.id s'.pipeline.rows → w ≡ s'.wallet)
      → (w ≡ s.wallet) ⊎ ((c : Bool) × (w ≡ (run_execution_simulation wallet c intent s.wallet).0))
  after (untouched e rows) rest idle = ground (arith, e)
  after (only_claimed e h) rest idle = inl (idle h ∙ e)
  after (ran c e h) rest idle = inr (c, idle h ∙ e)

  -- However often one task message that can be decoded is delivered, and however the database,
  -- the wallet and the broker answer, the wallet is as it was, or as one execution of the intent
  -- left it.
  pub deliver_once :
      (answers : List Answers) (data_of : Bytes) (intent : Intent) (s : World W)
      → wire.unmarshal data_of ≡ some intent
      → ((deliver answers data_of s).wallet ≡ s.wallet)
        ⊎ ((cancelled : Bool) × ((deliver answers data_of s).wallet
              ≡ (run_execution_simulation wallet cancelled intent s.wallet).0))
  unfolding deliver
  deliver_once [] data_of intent s read = inl refl
  deliver_once (a ∷ answers) data_of intent s read =
      rw (deliver, execute_task_read a data_of intent s read)
        (after (execute_intent-Ran a intent s)
          (deliver_once answers data_of intent (execute_intent wire wallet a intent s).0 read)
          (deliver_idle answers data_of intent (execute_intent wire wallet a intent s).0 read))
