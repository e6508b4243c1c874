-- ===== src/Outbox/Retries/Batch.antt =====
-- One batch of the worker and the rows of one event whose message the broker refuses.
use aien.Prelude.{
  ℕ, suc, ◌≡◌, ◌≢◌, refl, ◌∙◌, sym, ap, true, false, List, [], ◌∷◌, String, ◌==◌, ==_iff, arith,
  All, Bool-cases, inl, inr, differ,
}
use aien.Prelude.Sql.{committed, IsUp}
use aien.Intent.Table.{OutboxRow, has_event}
use aien.Scheduler.{rejected}
use aien.Outbox.{
  Worker, Outbox, Answers, is_claimable, update_event_status, publish_events, publish_event,
  process_batch, event_of, is_nil, new_status, as_processing,
}
use aien.Outbox.Retries.Own.{OwnRows, update_own, update_other, settle_other, map-OwnRows}
use aien.Outbox.Retries.Selected.{
  selected, marked, selected-All, selected-is_claimable, batch_up, batch_nil, marked-OwnRows,
}

-- Every statement about the event is answered, and the broker refuses its message.
pub record IsRefused (id : String) (a : Answers) : Type 0 where
  pub server_up : IsUp a.server
  pub rejects : a.publish id ≡ rejected
  pub updates : a.update_ends id ≡ committed

module _ (w : Worker) where
  failed_claimable :
      (a : Answers) (r : OutboxRow) → r.status ≡ "FAILED" → is_claimable a.now r ≡ false
  unfolding is_claimable
  failed_claimable a r h = ground (
    arith,
    h,
    ==_iff r.status "PENDING",
    ==_iff r.status "PROCESSING",
    differ "FAILED" "PENDING" refl,
    differ "FAILED" "PROCESSING" refl,
  )

  some_rows : (id : String) (cs : List OutboxRow) → has_event id cs ≡ true → is_nil cs ≡ false
  unfolding has_event
  some_rows id [] h = absurd (ground arith)
  some_rows id (c ∷ cs) h = refl

  apart : true ≢ false
  apart h = ground (arith, h)

  marked_others :
      (id : String) (B : OutboxRow → Type 0) (a : Answers) (cs rows : List OutboxRow)
      → All (λ c. c.id ≢ id) cs
      → OwnRows id B rows
      → OwnRows id B (marked w a cs rows)
  marked_others id B a [] rows ne h = h
  marked_others id B a (c ∷ cs) rows ne h =
      marked_others id B a cs _ ne.1
        (update_other id B c.id (as_processing a.now) rows ne.0 (λ (q : OutboxRow). refl) h)

  -- The event after a publication that was refused, with the count that the batch has read.
  abbrev pub refused_with : Answers → ℕ → OutboxRow → OutboxRow
  refused_with a n q = record q {
    status = new_status w.max_retries n;
    retry_count = suc n;
    updated_at = a.now;
  }

  abbrev pub refused_once : Answers → OutboxRow → OutboxRow
  refused_once a r = refused_with a r.retry_count r

  -- Publishing an event with another id.
  publish_other :
      (id : String) (B : OutboxRow → Type 0) (a : Answers) (c : OutboxRow) (s : Outbox)
      → c.id ≢ id
      → OwnRows id B s.events
      → OwnRows id B (publish_event w a (event_of c) s).events
  unfolding publish_event
  publish_other id B a c s ne h = settle_other id B w a (event_of c) _ s.events ne h

  publish_others :
      (id : String) (B : OutboxRow → Type 0) (a : Answers) (cs : List OutboxRow) (s : Outbox)
      → All (λ c. c.id ≢ id) cs
      → OwnRows id B s.events
      → OwnRows id B (publish_events w a cs s).events
  unfolding publish_events
  publish_others id B a [] s ne h = h
  publish_others id B a (c ∷ cs) s ne h =
      publish_others id B a cs _ ne.1 (publish_other id B a c s ne.0 h)

  module _ (a : Answers) (r : OutboxRow) (h : IsRefused r.id a) where
    -- The rows of the event that its own update makes the tried one, and those that are it.
    abbrev IsUntried : OutboxRow → Type 0
    IsUntried q = refused_with a r.retry_count q ≡ refused_once a r

    abbrev pub IsOnce : OutboxRow → Type 0
    IsOnce q = q ≡ refused_once a r

    publish_own :
        (s : Outbox)
        → OwnRows r.id IsUntried s.events
        → OwnRows r.id IsOnce (publish_event w a (event_of r) s).events
    unfolding publish_event update_event_status
    publish_own s own =
        rw (h.rejects, h.updates)
          (update_own r.id IsOnce IsUntried (refused_with a r.retry_count) s.events
            (λ (q : OutboxRow). refl) (λ (q : OutboxRow). λ (e : IsUntried q). e) own)

    again : (s : Outbox) → OwnRows r.id IsOnce s.events → OwnRows r.id IsUntried s.events
    again s own =
        map-OwnRows r.id IsOnce IsUntried s.events
          (λ (q : OutboxRow). ap (refused_with a r.retry_count)) own

    publish_events_after :
        (cs : List OutboxRow) (s : Outbox)
        → All (λ c. c.id ≡ r.id → c ≡ r) cs
        → OwnRows r.id IsOnce s.events
        → OwnRows r.id IsOnce (publish_events w a cs s).events
    unfolding publish_events
    publish_events_after [] s k own = own
    publish_events_after (c ∷ cs) s k own = elim (Bool-cases (c.id == r.id)) [
      | inl same ↦
          let at : c ≡ r = k.0 ((==_iff c.id r.id).0 same) in
          publish_events_after cs _ k.1 (rw at (publish_own s (again s own)))
      | inr other ↦
          publish_events_after cs _ k.1
            (publish_other r.id IsOnce a c s (differ c.id r.id other) own)
    ]

    publish_events-IsOnce :
        (cs : List OutboxRow) (s : Outbox)
        → All (λ c. c.id ≡ r.id → c ≡ r) cs
        → has_event r.id cs ≡ true
        → OwnRows r.id IsUntried s.events
        → OwnRows r.id IsOnce (publish_events w a cs s).events
    unfolding publish_events has_event
    publish_events-IsOnce [] s k there own = absurd (ground arith)
    publish_events-IsOnce (c ∷ cs) s k there own = elim (Bool-cases (c.id == r.id)) [
      | inl same ↦
          let at : c ≡ r = k.0 ((==_iff c.id r.id).0 same) in
          publish_events_after cs _ k.1 (rw at (publish_own s own))
      | inr other ↦
          publish_events-IsOnce cs _ k.1 (ground (arith, there, other))
            (publish_other r.id IsUntried a c s (differ c.id r.id other) own)
    ]

    -- A batch that selects the event, whose rows are all `r`, tries it once.
    pub batch_pending :
        (s : Outbox)
        → has_event r.id (selected w a s.events) ≡ true
        → OwnRows r.id (λ q. q ≡ r) s.events
        → OwnRows r.id IsOnce (process_batch w a s).0.events
    batch_pending s there own =
        let untried =
          map-OwnRows r.id (λ q. q ≡ r) IsUntried s.events
            (λ (q : OutboxRow). ap (refused_with a r.retry_count)) own in
        rw (batch_up w a s h.server_up (some_rows r.id (selected w a s.events) there)) (
          publish_events-IsOnce (selected w a s.events) _
            (selected-All w (λ c. c.id ≡ r.id → c ≡ r) a s.events own.0) there
            (marked-OwnRows w r.id IsUntried a (selected w a s.events) s.events
              (λ (q : OutboxRow). λ (e : IsUntried q). e) untried))

    never_own :
        (cs : List OutboxRow)
        → is_claimable a.now r ≡ false
        → All (λ c. c.id ≡ r.id → c ≡ r) cs
        → All (λ c. is_claimable a.now c ≡ true) cs
        → All (λ c. c.id ≢ r.id) cs
    never_own [] no_claim k l = tt
    never_own (c ∷ cs) no_claim k l = (
      λ (e : c.id ≡ r.id). apart (sym l.0 ∙ ap (is_claimable a.now) (k.0 e) ∙ no_claim),
      never_own cs no_claim k.1 l.1,
    )

    -- An event that is neither pending nor in processing is not tried.
    pub batch_failed :
        (s : Outbox)
        → r.status ≡ "FAILED"
        → OwnRows r.id (λ q. q ≡ r) s.events
        → OwnRows r.id (λ q. q ≡ r) (process_batch w a s).0.events
    batch_failed s failed own = elim (Bool-cases (is_nil (selected w a s.events))) [
      | inl no_row ↦ rw (batch_nil w a s h.server_up no_row) own
      | inr some_row ↦
          let others =
            never_own (selected w a s.events) (failed_claimable a r failed)
              (selected-All w (λ c. c.id ≡ r.id → c ≡ r) a s.events own.0)
              (selected-is_claimable w (λ c. is_claimable a.now c ≡ true) a s.events
                (λ (q : OutboxRow). λ (e : is_claimable a.now q ≡ true). e)) in
          rw (batch_up w a s h.server_up some_row) (
            publish_others r.id (λ q. q ≡ r) a (selected w a s.events) _ others
              (marked_others r.id (λ q. q ≡ r) a (selected w a s.events) s.events others own))
    ]
