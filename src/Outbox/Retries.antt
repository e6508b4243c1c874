-- ===== src/Outbox/Retries.antt =====
-- How often the worker tries an event that the broker does not take, among any other events.
pub mod Own
pub mod Selected
pub mod Batch
use Prim.Native.Nat.{min}
use aien.Prelude.{
  ℕ, zero, suc, ◌+◌, ◌≡◌, ◌≢◌, ◌≤◌, refl, ◌∙◌, sym, ap, Bool, true, false, List, [], ◌∷◌, String,
  ◌==◌, ==_iff, arith, All, length, take, ltb, leb, if◌then◌else◌, Bool-cases, inl, inr, differ,
}
use aien.Prelude.Sql.{ok, err, committed, IsUp, transact_up}
use aien.Intent.Table.{OutboxRow, has_event}
use aien.Scheduler.{rejected}
use aien.Outbox.{
  Worker, Outbox, Answers, claimable, is_claimable, sort_events, update_event, update_event_status,
  mark_processing, claim_events, publish_events, publish_event, process_batch, event_of, is_nil,
  new_status, set_processing, select_events, as_processing, claim_failed, sent, message_of, settle,
}
use aien.Outbox.Delivery.{claimable-All, claimable-is_claimable, sort_events-All, take-All}
use aien.Outbox.Retries.Own.{
  OwnRows, update_keeps, update_own, update_other, settle_other, map-OwnRows,
}
use aien.Outbox.Retries.Selected.{selected}
use aien.Outbox.Retries.Batch.{IsRefused, refused_once, batch_pending, batch_failed}

sum_suc : (a b : ℕ) → suc a + b ≡ a + suc b
sum_suc a b = omega arith

module _ (w : Worker) where
  -- Batch after batch.
  unfoldable pub batches : List Answers → Outbox → Outbox
  batches [] s = s
  batches (a ∷ answers) s = batches answers (process_batch w a s).0

  batches_failed :
      (answers : List Answers) (r : OutboxRow) (s : Outbox)
      → All (IsRefused r.id) answers
      → r.status ≡ "FAILED"
      → OwnRows r.id (λ q. q ≡ r) s.events
      → OwnRows r.id (λ q. q ≡ r) (batches answers s).events
  unfolding batches
  batches_failed [] r s h failed own = own
  batches_failed (a ∷ answers) r s h failed own =
      batches_failed answers r _ h.1 failed (batch_failed w a r h.0 s failed own)

  -- Each batch that meets the event as PENDING selects it: it is not locked, and not behind more than
  -- `batch_size` older ones.
  unfoldable pub Selects : (id : String) → List Answers → Outbox → Type 0
  Selects id [] s = Unit
  Selects id (a ∷ answers) s =
      (OwnRows id (λ q. q.status ≡ "PENDING") s.events
        → has_event id (selected w a s.events) ≡ true)
      × Selects id answers (process_batch w a s).0

  -- The row of an event after `n` tries in all.
  pub record IsTried (r r' : OutboxRow) (n : ℕ) : Type 0 where
    pub id : r'.id ≡ r.id
    pub topic : r'.topic ≡ r.topic
    pub payload : r'.payload ≡ r.payload
    pub tries : r'.retry_count ≡ min n (suc w.max_retries)
    pub status : r'.status ≡ (if ltb w.max_retries n then "FAILED" else "PENDING")

  -- Let the rows of an event's id be one and the same row, among any others, which is PENDING. In every
  -- batch let the broker refuse its message and all statements about it be answered, and let a
  -- batch that meets the event as PENDING select it. Then after any number of batches the event is still
  -- in the table: it is PENDING and has been tried once in each batch, until it has been tried one
  -- time more than `max_retries`; from then on it is FAILED and not tried again.
  pub batches-IsTried :
      (answers : List Answers) (r : OutboxRow) (s : Outbox)
      → All (IsRefused r.id) answers
      → Selects r.id answers s
      → OwnRows r.id (λ q. q ≡ r) s.events
      → r.status ≡ "PENDING"
      → r.retry_count ≤ w.max_retries
      → (r' : OutboxRow) × OwnRows r.id (λ q. q ≡ r') (batches answers s).events
        × IsTried r r' (r.retry_count + length answers)
  unfolding batches Selects
  batches-IsTried [] r s h k own pending few = (
    r,
    own,
    record {
      id = refl;
      topic = refl;
      payload = refl;
      tries = omega (arith, few);
      status = ground (arith, few, pending);
    },
  )
  batches-IsTried (a ∷ answers) r s h k own pending few =
      let r1 = refused_once w a r in
      let there = k.0 (
        map-OwnRows r.id (λ q. q ≡ r) (λ q. q.status ≡ "PENDING") s.events
          (λ (q : OutboxRow). λ (e : q ≡ r). ap (λ (t : OutboxRow). t.status) e ∙ pending) own) in
      let own1 = batch_pending w a r h.0 s there own in
      elim (Bool-cases (leb w.max_retries r.retry_count)) [
        | inl last ↦
            let ended : r1.status ≡ "FAILED" = rw last refl in
            (
              r1,
              batches_failed answers r1 (process_batch w a s).0 h.1 ended own1,
              record {
                id = refl;
                topic = refl;
                payload = refl;
                tries = ground (arith, last, few);
                status = ground (arith, last, few);
              },
            )
        | inr more ↦
            let (r', own', tried) =
              batches-IsTried answers r1 (process_batch w a s).0 h.1 k.1 own1 (rw more refl)
                (ground (arith, more)) in
            (
              r',
              own',
              record {
                id = tried.id;
                topic = tried.topic;
                payload = tried.payload;
                tries = tried.tries ∙ omega arith;
                status =
                    tried.status
                    ∙ ap (λ (n : ℕ). if ltb w.max_retries n then "FAILED" else "PENDING")
                        (sum_suc r.retry_count (length answers));
              },
            )
      ]
