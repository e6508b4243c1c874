-- ===== src/Outbox/Retries/Own.antt =====
-- What the statements of a batch do to the rows of one event, among any others.
use aien.Prelude.{
  ◌≡◌, ◌≢◌, refl, ◌∙◌, sym, Bool, true, false, List, [], ◌∷◌, String, ◌==◌, ==_iff, All, Bool-cases,
  inl, inr, differ,
}
use aien.Prelude.Sql.{Commit, committed, refused, lost}
use aien.Intent.Table.{OutboxRow, has_event}
use aien.Outbox.{
  Worker, Answers, OutboxEvent, update_event, remove_event, update_event_status, settle,
  unless_refused,
}
use aien.Outbox.Delivery.{has_event-update, has_event-remove}

-- Every row of an id satisfies `B`, and there is one.
abbrev pub OwnRows : (id : String) → (OutboxRow → Type 0) → List OutboxRow → Type 0
OwnRows id B rows = All (λ q. q.id ≡ id → B q) rows × (has_event id rows ≡ true)

pub map-OwnRows :
    (id : String) (C B : OutboxRow → Type 0) (rows : List OutboxRow)
    → ((q : OutboxRow) → C q → B q)
    → OwnRows id C rows
    → OwnRows id B rows
map-OwnRows id C B rows f h = (each rows h.0, h.1)
  where
    each : (qs : List OutboxRow) → All (λ q. q.id ≡ id → C q) qs → All (λ q. q.id ≡ id → B q) qs
    each [] k = tt
    each (q ∷ qs) k = (λ (e : q.id ≡ id). f q (k.0 e), each qs k.1)

module _ (id : String) (B : OutboxRow → Type 0) where
  abbrev On : OutboxRow → Type 0
  On q = q.id ≡ id → B q

  -- An update that leads from rows with `C` to rows with `B`.
  update-All :
      (C : OutboxRow → Type 0) (j : String) (f : OutboxRow → OutboxRow) (rows : List OutboxRow)
      → ((q : OutboxRow) → (f q).id ≡ q.id)
      → ((q : OutboxRow) → q.id ≡ j → q.id ≡ id → C q → B (f q))
      → ((q : OutboxRow) → q.id ≢ j → q.id ≡ id → C q → B q)
      → All (λ q. q.id ≡ id → C q) rows
      → All On (update_event j f rows)
  unfolding update_event
  update-All C j f [] keeps own other h = tt
  update-All C j f (q ∷ rows) keeps own other h =
      let rest = update-All C j f rows keeps own other h.1 in
      elim (Bool-cases (q.id == j)) [
        | inl same ↦ rw same (
          λ (e : (f q).id ≡ id).
              let e' : q.id ≡ id = sym (keeps q) ∙ e in own q ((==_iff q.id j).0 same) e' (h.0 e'),
          rest,
        )
        | inr apart ↦ rw apart (λ (e : q.id ≡ id). other q (differ q.id j apart) e (h.0 e), rest)
      ]

  remove-All : (j : String) (rows : List OutboxRow) → All On rows → All On (remove_event j rows)
  unfolding remove_event
  remove-All j [] h = tt
  remove-All j (q ∷ rows) h = elim (Bool-cases (q.id == j)) [
    | inl same ↦ rw same (remove-All j rows h.1)
    | inr apart ↦ rw apart (h.0, remove-All j rows h.1)
  ]

  -- An update that keeps the id and `B`, of any event.
  pub update_keeps :
      (j : String) (f : OutboxRow → OutboxRow) (rows : List OutboxRow)
      → ((q : OutboxRow) → (f q).id ≡ q.id)
      → ((q : OutboxRow) → B q → B (f q))
      → OwnRows id B rows
      → OwnRows id B (update_event j f rows)
  update_keeps j f rows keeps holds h = (
    update-All B j f rows keeps (λ (q : OutboxRow). λ (at : q.id ≡ j). λ (e : q.id ≡ id). holds q)
        (λ (q : OutboxRow). λ (at : q.id ≢ j). λ (e : q.id ≡ id). λ (b : B q). b) h.0,
    has_event-update id j f rows keeps ∙ h.1,
  )

  -- The event's own update.
  pub update_own :
      (C : OutboxRow → Type 0) (f : OutboxRow → OutboxRow) (rows : List OutboxRow)
      → ((q : OutboxRow) → (f q).id ≡ q.id)
      → ((q : OutboxRow) → C q → B (f q))
      → OwnRows id C rows
      → OwnRows id B (update_event id f rows)
  update_own C f rows keeps leads h = (
    update-All C id f rows keeps (λ (q : OutboxRow). λ (at : q.id ≡ id). λ (e : q.id ≡ id). leads q)
        (λ (q : OutboxRow). λ (at : q.id ≢ id). λ (e : q.id ≡ id). λ (c : C q). absurd (at e)) h.0,
    has_event-update id id f rows keeps ∙ h.1,
  )

  pub update_other :
      (j : String) (f : OutboxRow → OutboxRow) (rows : List OutboxRow)
      → j ≢ id
      → ((q : OutboxRow) → (f q).id ≡ q.id)
      → OwnRows id B rows
      → OwnRows id B (update_event j f rows)
  update_other j f rows ne keeps h = (
    update-All B j f rows keeps
        (λ (q : OutboxRow).
          λ (at : q.id ≡ j). λ (e : q.id ≡ id). λ (b : B q). absurd (ne (sym at ∙ e)))
        (λ (q : OutboxRow). λ (at : q.id ≢ j). λ (e : q.id ≡ id). λ (b : B q). b) h.0,
    has_event-update id j f rows keeps ∙ h.1,
  )

  unless_refused_own :
      (c : Commit) (old new : List OutboxRow)
      → OwnRows id B old
      → OwnRows id B new
      → OwnRows id B (unless_refused c old new)
  unless_refused_own refused old new h k = h
  unless_refused_own committed old new h k = k
  unless_refused_own lost old new h k = k

  -- Settling another event leaves the rows of this one.
  pub settle_other :
      (w : Worker) (a : Answers) (ev : OutboxEvent) (published : Bool) (rows : List OutboxRow)
      → ev.id ≢ id
      → OwnRows id B rows
      → OwnRows id B (settle w a ev published rows)
  unfolding update_event_status
  settle_other w a ev true rows ne h =
      unless_refused_own (a.update_ends ev.id) rows _ h
        (remove-All ev.id rows h.0, has_event-remove id ev.id rows ne ∙ h.1)
  settle_other w a ev false rows ne h =
      unless_refused_own (a.update_ends ev.id) rows _ h
        (update_other ev.id _ rows ne (λ (q : OutboxRow). refl) h)
