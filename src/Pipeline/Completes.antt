-- ===== src/Pipeline/Completes.antt =====
-- A transfer on its way from the scheduler through the engine and the wallet to the ledger.
use aien.Prelude.{
  ◌≡◌, refl, ap, ◌∙◌, Bool, true, false, List, [], ◌∷◌, ◌++◌, Option, none, some, String, All,
}
use aien.Prelude.Sql.{ok, IsUp}
use aien.Intent.Types.{Intent, Bytes, transfer, completed}
use aien.Intent.Table.{IntentRow, find_row, set_status}
use aien.Wallet.Money.{Money}
use aien.Wallet.Tables.{Tables, balance_of, has_reference, has_transaction}
use aien.Wallet.Tables.Laws.{or_else}
use aien.Wallet.Store.Transfer.{moved, transfer_row}
use aien.Wallet.Handler.Replies.{IsWellFormed, transfer_rpc_ok}
use aien.Scheduler.{
  Message, Wire, Pipeline, as_scheduled, task, expired, handle_submitted_intent, on_row, acked,
  publish_message,
}
use aien.Scheduler
use aien.Scheduler.Redelivery
use aien.Scheduler.Redelivery.{schedule_up, answered, found_scheduled}
use aien.Engine.{TransferPayload, World, execute_task, executed, run_execution_simulation}
use aien.Engine
use aien.Engine.Answered
use aien.Engine.Answered.{execute_intent_up}
use aien.Engine.Once.{execute_task_read}
use aien.Engine.Payment.{Bank, Exchange, bank, request_of}
use aien.Engine.Payment.Completed.{IsCompleted}
use aien.Ledger.Block.{Block, genesis_hash}
use aien.Ledger.Engine.{Codec, Disk, next_block, verify}
use aien.Ledger.Chain.{IsChain, last_block}
use aien.Ledger.Print.{IsWritable}
use aien.Ledger.Append.{IsHealthy, Holds}
use aien.Validator.{handle_executed_intent}
use aien.Validator.Audit.{handle_executed_intent-verify}

-- The intent as the engine publishes it.
abbrev pub as_completed : Intent → Intent
as_completed intent = record (as_scheduled intent) { status = completed }

-- The three messages of the intent, and that they can be written and are read back.
pub record IsCoded (wire : Wire) (intent : Intent) (submitted scheduled done : Bytes) : Type 0 where
  pub submitted_read : wire.unmarshal submitted ≡ some intent
  pub scheduled_written : wire.marshal (as_scheduled intent) ≡ some scheduled
  pub scheduled_read : wire.unmarshal scheduled ≡ some (as_scheduled intent)
  pub done_written : wire.marshal (as_completed intent) ≡ some done
  pub done_read : wire.unmarshal done ≡ some (as_completed intent)

module _ (m : Money) (parse_payload : Bytes → Option (TransferPayload m.Amount)) where
  -- The wallet can be reached and answers, and the payload is a transfer that it has not seen, from an
  -- account that holds the amount.
  pub record IsPayable (intent : Intent) (w : Bank m) (p : TransferPayload m.Amount) (x : Exchange)
      (u v : m.Amount) : Type 0 where
    pub is_transfer : intent.type_of ≡ transfer
    pub parsed : parse_payload intent.payload ≡ some p
    pub later : List Exchange
    pub exchanged : w.exchanges ≡ x ∷ later
    pub arrives : x.request_arrives ≡ true
    pub replies : x.reply_arrives ≡ true
    pub answers : IsUp x.server
    pub well_formed : IsWellFormed m (request_of m p intent.id)
    pub fresh : has_reference intent.id w.tables.transactions ≡ false
    pub unused : has_transaction x.tx_id w.tables.transactions ≡ false
    pub from : balance_of p.from_account w.tables.accounts ≡ some u
    pub to : or_else (balance_of p.to_account w.tables.accounts) m.zero ≡ some v
    pub covered : m.less u p.amount ≡ false

  abbrev pub paid :
      (id tx_id : String)
      → TransferPayload m.Amount
      → (u v : m.Amount) → Tables m.Amount
      → Tables m.Amount
  paid id tx_id p u v t = record {
    accounts = moved m p.from_account p.to_account u v p.amount t.accounts;
    transactions =
        t.transactions ++ transfer_row m tx_id p.from_account p.to_account p.amount id ∷ [];
  }

  bank_pays :
      (cancelled : Bool) (intent : Intent) (w : Bank m) (p : TransferPayload m.Amount)
      (x : Exchange) (u v : m.Amount)
      → (h : IsPayable intent w p x u v)
      → run_execution_simulation (bank m parse_payload) cancelled (as_scheduled intent) w
        ≡ (record { tables = paid intent.id x.tx_id p u v w.tables; exchanges = h.later }, ok tt)
  unfolding run_execution_simulation bank
  bank_pays cancelled intent w p x u v h =
      rw
        (
          h.is_transfer,
          h.parsed,
          h.exchanged,
          h.arrives,
          h.replies,
          transfer_rpc_ok m x.server x.tx_id (request_of m p intent.id) w.tables h.answers
              h.well_formed h.fresh h.unused h.from h.to h.covered,
        )
        refl

  module _ (wire : Wire) (codec : Codec) (digest : String → String) (a : Scheduler.Answers)
      (e : Engine.Answers) (intent : Intent) (submitted scheduled done : Bytes) where
    abbrev pub after_scheduler : World (Bank m) → World (Bank m)
    after_scheduler s = record s {
      pipeline = (handle_submitted_intent wire a submitted s.pipeline).0;
    }

    abbrev pub after_engine : World (Bank m) → World (Bank m)
    after_engine s = (execute_task wire (bank m parse_payload) e scheduled (after_scheduler s)).0

    scheduler_step :
        (s : Pipeline) (r : IntentRow)
        → Redelivery.AllUp a
        → IsCoded wire intent submitted scheduled done
        → find_row intent.id s.rows ≡ some r
        → r.status ≡ "INTENT_STATUS_PENDING"
        → expired a.now r.deadline ≡ false
        → let s' = (handle_submitted_intent wire a submitted s).0 in
          (s'.published ≡ s.published ++ task intent scheduled ∷ [])
          × (s'.rows ≡ set_status intent.id "INTENT_STATUS_SCHEDULED" a.now s.rows)
    unfolding on_row publish_message
    scheduler_step s r up coded found pending live =
        rw
          (
            answered wire a a intent scheduled submitted s r s up.selects coded.submitted_read,
            found,
            pending,
            live,
            schedule_up wire a intent scheduled s r up coded.scheduled_written,
          )
          (refl, refl)

    engine_step :
        (s : World (Bank m)) (r : IntentRow) (p : TransferPayload m.Amount) (x : Exchange)
        (u v : m.Amount)
        → Answered.AllUp e
        → IsCoded wire intent submitted scheduled done
        → find_row intent.id s.pipeline.rows ≡ some r
        → r.status ≡ "INTENT_STATUS_SCHEDULED"
        → IsPayable intent s.wallet p x u v
        → let s' = (execute_task wire (bank m parse_payload) e scheduled s).0 in
          (s'.wallet.tables ≡ paid intent.id x.tx_id p u v s.wallet.tables)
          × (find_row intent.id s'.pipeline.rows
              ≡ some (record r { status = "INTENT_STATUS_COMPLETED"; updated_at = e.now }))
          × (s'.pipeline.published
              ≡ s.pipeline.published ++ executed (as_scheduled intent) done ∷ [])
    engine_step s r p x u v up coded found is_scheduled payable =
        let (wallet, row, published) =
          execute_intent_up wire (bank m parse_payload) e (as_scheduled intent) done s _ r up found
            is_scheduled (bank_pays e.cancelled intent s.wallet p x u v payable)
            coded.done_written in
        rw
          (execute_task_read wire (bank m parse_payload) e scheduled (as_scheduled intent) s
            coded.scheduled_read)
          (ap (λ (b : Bank m). b.tables) wallet, row, published)

    -- Let a submitted transfer be PENDING, its deadline not have passed, and the payload be one that the wallet
    -- can pay. If the database, the broker, the wallet and the disk answer, then one delivery to the
    -- scheduler, one of the task that it publishes to the engine, and one of what the engine publishes to
    -- the validator complete the intent: the money has moved under the intent's id, the row is COMPLETED, and
    -- the ledger has one more block that says so and is accepted by `Verify`.
    pub pipeline-IsCompleted :
        (s : World (Bank m)) (r : IntentRow) (p : TransferPayload m.Amount) (x : Exchange)
        (u v : m.Amount) (disk : Disk) (timestamp : String) (file : Option Bytes) (bs : List Block)
        → Redelivery.AllUp a
        → Answered.AllUp e
        → IsCoded wire intent submitted scheduled done
        → find_row intent.id s.pipeline.rows ≡ some r
        → r.status ≡ "INTENT_STATUS_PENDING"
        → expired a.now r.deadline ≡ false
        → IsPayable intent s.wallet p x u v
        → IsHealthy disk
        → All (IsWritable codec) bs
        → Holds codec digest file bs
        → IsChain digest genesis_hash 0 bs
        → let b =
            next_block digest
              (last_block none bs)
              timestamp
              intent.id
              r.type_name
              "INTENT_STATUS_COMPLETED" in
          IsWritable codec b
          → let s' = after_engine s in
            let l =
              handle_executed_intent wire.unmarshal codec digest false disk timestamp done
                s'.pipeline.rows file in
            (s'.pipeline.published
              ≡ (s.pipeline.published ++ task intent scheduled ∷ [])
                ++ executed (as_scheduled intent) done ∷ [])
            × (s'.wallet.tables ≡ paid intent.id x.tx_id p u v s.wallet.tables)
            × IsCompleted intent.id s'.pipeline.rows
            × (l.1 ≡ ok b)
            × Holds codec digest l.0 (bs ++ b ∷ [])
            × (verify codec digest disk l.0 ≡ none)
    pipeline-IsCompleted s r p x u v disk timestamp file bs up_a up_e coded found pending live
          payable healthy writable holds chain w =
        let (sent, rows) = scheduler_step s.pipeline r up_a coded found pending live in
        let r1 : IntentRow = record r { status = "INTENT_STATUS_SCHEDULED"; updated_at = a.now } in
        let found1 =
          ap (find_row intent.id) rows
          ∙ found_scheduled wire a a intent scheduled submitted s.pipeline r found in
        let (wallet, row, published) =
          engine_step (after_scheduler s) r1 p x u v up_e coded found1 refl payable in
        let r2 : IntentRow = record r { status = "INTENT_STATUS_COMPLETED"; updated_at = e.now } in
        let (done_ok, kept, accepted) =
          handle_executed_intent-verify wire.unmarshal codec digest disk timestamp done
            (after_engine s).pipeline.rows (as_completed intent) r2 file bs healthy writable holds
            chain coded.done_read row refl w in
        (
          published ∙ ap (λ (l : List Message). l ++ executed (as_scheduled intent) done ∷ []) sent,
          wallet,
          (r2, row, refl),
          done_ok,
          kept,
          accepted,
        )
