-- ===== src/Outbox/Retries/Selected.antt =====
-- The rows that a batch selects and marks, when all its statements are answered.
use aien.Prelude.{◌≡◌, refl, true, false, List, [], ◌∷◌, String, All, take}
use aien.Prelude.Sql.{ok, IsUp, transact_up}
use aien.Intent.Table.{OutboxRow}
use aien.Outbox.{
  Worker, Outbox, Answers, claimable, is_claimable, sort_events, update_event, mark_processing,
  claim_events, publish_events, process_batch, is_nil, set_processing, select_events, as_processing,
  claim_failed,
}
use aien.Outbox.Delivery.{claimable-All, claimable-is_claimable, sort_events-All, take-All}
use aien.Outbox.Retries.Own.{OwnRows, update_keeps}

module _ (w : Worker) where
  -- The rows that a batch selects.
  abbrev pub selected : Answers → List OutboxRow → List OutboxRow
  selected a rows = take w.batch_size (sort_events (claimable a.now a.locked rows))

  pub selected-All :
      (P : OutboxRow → Type 0) (a : Answers) (rows : List OutboxRow)
      → All P rows
      → All P (selected a rows)
  selected-All P a rows h =
      take-All P w.batch_size _ (sort_events-All P _ (claimable-All P a.now a.locked rows h))

  pub selected-is_claimable :
      (P : OutboxRow → Type 0) (a : Answers) (rows : List OutboxRow)
      → ((q : OutboxRow) → is_claimable a.now q ≡ true → P q)
      → All P (selected a rows)
  selected-is_claimable P a rows h =
      take-All P w.batch_size _
        (sort_events-All P _ (claimable-is_claimable P a.now a.locked rows h))

  -- The rows after the updates to PROCESSING.
  abbrev pub marked : Answers → List OutboxRow → List OutboxRow → List OutboxRow
  marked a [] rows = rows
  marked a (c ∷ cs) rows = marked a cs (update_event c.id (as_processing a.now) rows)

  mark_processing_up :
      (a : Answers) (cs rows : List OutboxRow)
      → IsUp a.server
      → mark_processing a cs rows ≡ ok (tt, marked a cs rows)
  unfolding mark_processing
  mark_processing_up a [] rows up = refl
  mark_processing_up a (c ∷ cs) rows up =
      rw (up.answers (set_processing c.id)) (mark_processing_up a cs _ up)

  claim_events_up :
      (a : Answers) (rows : List OutboxRow)
      → IsUp a.server
      → is_nil (selected a rows) ≡ false
      → claim_events w a rows ≡ ok (selected a rows, marked a (selected a rows) rows)
  unfolding claim_events
  claim_events_up a rows up some_row =
      rw (up.answers select_events, some_row, mark_processing_up a (selected a rows) rows up) refl

  pub batch_up :
      (a : Answers) (s : Outbox)
      → IsUp a.server
      → is_nil (selected a s.events) ≡ false
      → (process_batch w a s).0
        ≡ publish_events w a
            (selected a s.events)
            (record s { events = marked a (selected a s.events) s.events })
  unfolding process_batch
  batch_up a s up some_row =
      rw
        (transact_up a.server claim_failed (claim_events w a) s.events
          (marked a (selected a s.events) s.events) (selected a s.events) up
          (claim_events_up a s.events up some_row))
        refl

  pub batch_nil :
      (a : Answers) (s : Outbox)
      → IsUp a.server
      → is_nil (selected a s.events) ≡ true
      → (process_batch w a s).0 ≡ s
  unfolding process_batch claim_events
  batch_nil a s up no_row = rw (up.begins, up.answers select_events, no_row) refl

  pub marked-OwnRows :
      (id : String) (B : OutboxRow → Type 0) (a : Answers) (cs rows : List OutboxRow)
      → ((q : OutboxRow) → B q → B (as_processing a.now q))
      → OwnRows id B rows
      → OwnRows id B (marked a cs rows)
  marked-OwnRows id B a [] rows holds h = h
  marked-OwnRows id B a (c ∷ cs) rows holds h =
      marked-OwnRows id B a cs _ holds
        (update_keeps id B c.id (as_processing a.now) rows (λ (q : OutboxRow). refl) holds h)
