-- ===== src/Outbox/Lossless.antt =====
-- No event is lost: an event stays in the table until the stream has stored its message.
use aien.Prelude.{
  if◌then◌else◌, ◌≡◌, ◌≢◌, refl, ◌⊎◌, inl, inr, Bool, true, false, List, [], ◌∷◌, String, ◌==◌,
  ==_iff, arith, All, take, Bool-cases, ◌∙◌, differ,
}
use aien.Prelude.Sql.{Result, ok, err, Commit, committed, refused, lost, close}
use aien.Intent.Types.{Bytes}
use aien.Intent.Table.{OutboxRow, has_event}
use aien.Scheduler.{Publish, Message, acked, rejected, unconfirmed}
use aien.Outbox.{
  Worker, Outbox, Answers, OutboxEvent, WorkerError, claim_failed, no_events, event_of, message_of,
  settle, sent, publish_event, publish_events, unless_refused, as_processing, mark_processing,
  claim_events, process_batch, update_event, update_event_status, after_claim, sort_events,
  claimable,
}
use aien.Outbox.Delivery.{
  Carries, Sent, Sent-append, Sent-last, claimable-All, sort_events-All, take-All, has_event-update,
  has_event-remove,
}

module _ (id topic : String) (payload : Bytes) where
  -- The event is in the table, or its message is on the stream.
  abbrev pub Held : Outbox → Type 0
  Held s =
      (has_event id s.events ≡ true)
      ⊎ Sent (record { subject = topic; data_of = payload }) s.published

  unless_refused_keeps :
      (c : Commit) (old new : List OutboxRow)
      → has_event id new ≡ has_event id old
      → has_event id (unless_refused c old new) ≡ has_event id old
  unless_refused_keeps refused old new h = refl
  unless_refused_keeps committed old new h = h
  unless_refused_keeps lost old new h = h

  settle_unpublished :
      (w : Worker) (a : Answers) (ev : OutboxEvent) (rows : List OutboxRow)
      → has_event id (settle w a ev false rows) ≡ has_event id rows
  unfolding update_event_status
  settle_unpublished w a ev rows =
      unless_refused_keeps (a.update_ends ev.id) rows _
        (has_event-update id ev.id _ rows (λ (r : OutboxRow). refl))

  settle_other :
      (w : Worker) (a : Answers) (ev : OutboxEvent) (published : Bool) (rows : List OutboxRow)
      → ev.id ≢ id
      → has_event id (settle w a ev published rows) ≡ has_event id rows
  settle_other w a ev true rows h =
      unless_refused_keeps (a.update_ends ev.id) rows _ (has_event-remove id ev.id rows h)
  settle_other w a ev false rows h = settle_unpublished w a ev rows

  sent_keeps :
      (p : Publish) (m msg : Message) (ms : List Message) → Sent m ms → Sent m (sent p msg ms).0
  sent_keeps acked m msg ms h = Sent-append m ms (msg ∷ []) h
  sent_keeps rejected m msg ms h = h
  sent_keeps unconfirmed m msg ms h = Sent-append m ms (msg ∷ []) h

  abbrev published : Worker → Answers → OutboxEvent → Publish → Outbox → Outbox
  published w a ev p s =
      let q = sent p (message_of ev) s.published in
      record { events = settle w a ev q.1 s.events; published = q.0 }

  own_event :
      (w : Worker) (a : Answers) (ev : OutboxEvent) (p : Publish) (s : Outbox)
      → message_of ev ≡ record { subject = topic; data_of = payload }
      → has_event id s.events ≡ true
      → Held (published w a ev p s)
  own_event w a ev acked s e h = inr (rw e (Sent-last _ s.published))
  own_event w a ev rejected s e h = inl (settle_unpublished w a ev s.events ∙ h)
  own_event w a ev unconfirmed s e h = inr (rw e (Sent-last _ s.published))

  publish_event-Held :
      (w : Worker) (a : Answers) (r : OutboxRow) (s : Outbox)
      → Carries id topic payload r
      → Held s
      → Held (publish_event w a (event_of r) s)
  unfolding publish_event
  publish_event-Held w a r s k (inr h) =
      inr (sent_keeps (a.publish r.id) _ (message_of (event_of r)) s.published h)
  publish_event-Held w a r s k (inl h) = elim (Bool-cases (r.id == id)) [
    | inl same ↦
        let own = k ((==_iff r.id id).0 same) in
        own_event w a (event_of r) (a.publish r.id) s (ground (arith, own.0, own.1)) h
    | inr other ↦ inl (
        settle_other w a (event_of r)
          (sent (a.publish r.id) (message_of (event_of r)) s.published).1 s.events
          (differ r.id id other)
        ∙ h)
  ]

  publish_events-Held :
      (w : Worker) (a : Answers) (rs : List OutboxRow) (s : Outbox)
      → All (Carries id topic payload) rs
      → Held s
      → Held (publish_events w a rs s)
  unfolding publish_events
  publish_events-Held w a [] s k h = h
  publish_events-Held w a (r ∷ rs) s k h =
      publish_events-Held w a rs (publish_event w a (event_of r) s) k.1
        (publish_event-Held w a r s k.0 h)

  mark_processing_keeps :
      (a : Answers) (rs rows rows' : List OutboxRow)
      → mark_processing a rs rows ≡ ok (tt, rows')
      → has_event id rows' ≡ has_event id rows
  unfolding mark_processing
  mark_processing_keeps a [] rows rows' h = ground (arith, h)
  mark_processing_keeps a (r ∷ rs) rows rows' h = ground (
    arith,
    h,
    mark_processing_keeps a rs (update_event r.id (as_processing a.now) rows) rows',
    has_event-update id r.id (as_processing a.now) rows (λ (q : OutboxRow). refl),
  )

  -- The rows that a worker selects from a table.
  abbrev selected : Worker → Answers → List OutboxRow → List OutboxRow
  selected w a rows = take w.batch_size (sort_events (claimable a.now a.locked rows))

  claimed_rows :
      (w : Worker) (a : Answers) (rows : List OutboxRow) (p : List OutboxRow × List OutboxRow)
      → claim_events w a rows ≡ ok p
      → (p.0 ≡ selected w a rows) × (has_event id p.1 ≡ has_event id rows)
  unfolding claim_events
  claimed_rows w a rows p h =
      ground (arith, h, mark_processing_keeps a (selected w a rows) rows p.1)

  kept_rows :
      (s : Outbox) (rows : List OutboxRow)
      → has_event id rows ≡ has_event id s.events
      → Held s
      → Held (record s { events = rows })
  kept_rows s rows e (inl h) = inl (e ∙ h)
  kept_rows s rows e (inr h) = inr h

  after_claim-Held :
      (w : Worker) (a : Answers) (s : Outbox) (begin_fails : Bool) (c : Commit)
      (r : Result WorkerError (List OutboxRow × List OutboxRow))
      → ((p : List OutboxRow × List OutboxRow)
          → r ≡ ok p
          → All (Carries id topic payload) p.0 × (has_event id p.1 ≡ has_event id s.events))
      → Held s
      → Held
          (after_claim w a s (
            if begin_fails
            then (s.events, err claim_failed)
            else close c claim_failed s.events r)).0
  after_claim-Held w a s true c r k h = h
  after_claim-Held w a s false c (err claim_failed) k h = h
  after_claim-Held w a s false c (err no_events) k h = h
  after_claim-Held w a s false refused (ok p) k h = h
  after_claim-Held w a s false lost (ok p) k h = kept_rows s p.1 (k p refl).1 h
  after_claim-Held w a s false committed (ok p) k h =
      publish_events-Held w a p.0 (record s { events = p.1 }) (k p refl).0
        (kept_rows s p.1 (k p refl).1 h)

  -- If all rows with the id of an event carry its topic and its payload, then after a batch,
  -- however the database and the broker answer, an event of the table is still in the table, or
  -- its message has been stored by the stream.
  pub process_batch-Held :
      (w : Worker) (a : Answers) (s : Outbox)
      → All (Carries id topic payload) s.events
      → has_event id s.events ≡ true
      → Held (process_batch w a s).0
  unfolding process_batch
  process_batch-Held w a s k h =
      after_claim-Held w a s a.server.begin_fails a.server.commit (claim_events w a s.events)
        (λ (p : List OutboxRow × List OutboxRow). λ (e : claim_events w a s.events ≡ ok p).
          let (rows, kept) = claimed_rows w a s.events p e in
          (
            rw rows (
                take-All (Carries id topic payload) w.batch_size _ (
                  sort_events-All (Carries id topic payload) _
                    (claimable-All (Carries id topic payload) a.now a.locked s.events k))),
            kept,
          ))
        (inl h)
