-- ===== src/Tests/Outbox.antt =====
-- The outbox worker on one event whose publication is not confirmed.
use aien.Prelude.{List, differ, ◌+◌, false, ◌≡◌, refl, [], ◌∷◌, arith}
use aien.Prelude.Sql.{up, up-IsUp, committed}
use aien.Intent.Types.{pos}
use aien.Intent.Table.{OutboxRow, has_event}
use aien.Scheduler.{rejected}
use aien.Outbox.{
  sort_events, claimable, is_claimable, insert_event, claim_events, mark_processing, publish_events,
  publish_event, update_event_status, update_event, Worker, Outbox, Answers, new_worker,
  process_batch,
}
use aien.Outbox.Retries.{IsTried, Selects, batches, batches-IsTried}
use aien.Outbox.Retries.Own.{OwnRows}
use aien.Outbox.Retries.Batch.{IsRefused}
use aien.Outbox.Lossless.{Held, process_batch-Held}

abbrev event : OutboxRow
event = record {
  id = "ev1";
  topic = "intents.submitted.INTENT_TYPE_TRANSFER";
  payload = b'{' ∷ b'}' ∷ [];
  status = "PENDING";
  retry_count = 0;
  created_at = 1;
  updated_at = 1;
}

abbrev outbox : Outbox
outbox = record { events = event ∷ []; published = [] }

abbrev unreachable_broker : Answers
unreachable_broker = record {
  now = 2;
  server = up;
  locked = λ id. false;
  publish = λ id. rejected;
  update_ends = λ id. committed;
}

process_batch-Held_example :
    Held "ev1" "intents.submitted.INTENT_TYPE_TRANSFER"
      (b'{' ∷ b'}' ∷ [])
      (process_batch (new_worker (pos 0) (pos 0) (pos 0)) unreachable_broker outbox).0
unfolding has_event
process_batch-Held_example =
    process_batch-Held "ev1" "intents.submitted.INTENT_TYPE_TRANSFER" (b'{' ∷ b'}' ∷ [])
      (new_worker (pos 0) (pos 0) (pos 0)) unreachable_broker outbox
      (λ (e : "ev1" ≡ "ev1"). (refl, refl), tt) refl

-- Two retries are allowed.
abbrev patient : Worker
patient = record { poll_interval = 250000000; batch_size = 50; max_retries = 2 }

unreachable-IsRefused : IsRefused "ev1" unreachable_broker
unreachable-IsRefused = record { server_up = up-IsUp; rejects = refl; updates = refl }

-- Another event, which is older.
abbrev older : OutboxRow
older = record event { id = "ev0"; created_at = 0 }

abbrev both : Outbox
both = record { events = event ∷ older ∷ []; published = [] }

abbrev four_batches : List Answers
four_batches =
    unreachable_broker ∷ unreachable_broker ∷ unreachable_broker ∷ unreachable_broker ∷ []

-- In the fourth batch the event is not PENDING.
both-Selects : Selects patient "ev1" four_batches both
unfolding Selects has_event sort_events claimable is_claimable insert_event process_batch
    claim_events mark_processing publish_events publish_event update_event_status update_event
both-Selects = (
  λ own. refl,
  (λ own. refl, (λ own. refl, (λ own. absurd (differ "FAILED" "PENDING" refl (own.0.0 refl)), tt))),
)

batches-IsTried_example :
    (r' : OutboxRow) × OwnRows "ev1" (λ q. q ≡ r') (batches patient four_batches both).events
    × IsTried patient event r' (0 + 4)
unfolding has_event
batches-IsTried_example =
    batches-IsTried patient four_batches event both
      (
        unreachable-IsRefused,
        (unreachable-IsRefused, (unreachable-IsRefused, (unreachable-IsRefused, tt))),
      )
      both-Selects
      (
        (
          λ (e : "ev1" ≡ "ev1"). refl,
          (λ (e : "ev0" ≡ "ev1"). absurd (differ "ev0" "ev1" refl e), tt),
        ),
        refl,
      )
      refl (omega arith)
