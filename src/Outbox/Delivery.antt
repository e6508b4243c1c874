-- ===== src/Outbox/Delivery.antt =====
-- What the statements on `outbox_events` keep: the contents of the rows, and which ids are there.
use aien.Prelude.{
  true, ℕ, zero, suc, ◌≡◌, ◌≢◌, refl, ◌⊎◌, inl, inr, Bool, List, [], ◌∷◌, ◌++◌, String, ==_iff,
  arith, All, take, Bool-cases, leb,
}
use aien.Intent.Types.{Bytes, Time}
use aien.Intent.Table.{OutboxRow, has_event}
use aien.Scheduler.{Message}
use aien.Outbox.{is_claimable, claimable, insert_event, sort_events, update_event, remove_event}

-- Rows with the id of an event carry its topic and its payload. The primary key gives this.
abbrev pub Carries : (id topic : String) → Bytes → OutboxRow → Type 0
Carries id topic payload r = r.id ≡ id → (r.topic ≡ topic) × (r.payload ≡ payload)

-- The message is on the stream.
abbrev pub Sent : Message → List Message → Type 0
Sent m [] = ⊥
Sent m (x ∷ ms) = (x ≡ m) ⊎ Sent m ms

pub Sent-append : (m : Message) (ms ns : List Message) → Sent m ms → Sent m (ms ++ ns)
Sent-append m [] ns h = absurd h
Sent-append m (x ∷ ms) ns (inl e) = inl e
Sent-append m (x ∷ ms) ns (inr h) = inr (Sent-append m ms ns h)

pub Sent-last : (m : Message) (ms : List Message) → Sent m (ms ++ m ∷ [])
Sent-last m [] = inl refl
Sent-last m (x ∷ ms) = inr (Sent-last m ms)

-- What holds of every row of the table holds of the rows that a batch selects.
module _ (P : OutboxRow → Type 0) where
  pub claimable-All :
      (now : Time) (locked : String → Bool) (rows : List OutboxRow)
      → All P rows
      → All P (claimable now locked rows)
  unfolding claimable
  claimable-All now locked [] h = tt
  claimable-All now locked (r ∷ rows) h =
      let rest = claimable-All now locked rows h.1 in
      elim (Bool-cases (is_claimable now r)) [
        | inr miss ↦ rw miss rest
        | inl hit ↦ elim (Bool-cases (locked r.id)) [
          | inl held ↦ rw (hit, held) rest
          | inr free ↦ rw (hit, free) (h.0, rest)
        ]
      ]

  pub claimable-is_claimable :
      (now : Time) (locked : String → Bool) (rows : List OutboxRow)
      → ((r : OutboxRow) → is_claimable now r ≡ true → P r)
      → All P (claimable now locked rows)
  unfolding claimable
  claimable-is_claimable now locked [] h = tt
  claimable-is_claimable now locked (r ∷ rows) h =
      let rest = claimable-is_claimable now locked rows h in
      elim (Bool-cases (is_claimable now r)) [
        | inr miss ↦ rw miss rest
        | inl hit ↦ elim (Bool-cases (locked r.id)) [
          | inl held ↦ rw (hit, held) rest
          | inr free ↦ rw (hit, free) (h r hit, rest)
        ]
      ]

  insert_event-All :
      (r : OutboxRow) (rows : List OutboxRow) → P r → All P rows → All P (insert_event r rows)
  unfolding insert_event
  insert_event-All r [] k h = (k, tt)
  insert_event-All r (q ∷ rows) k h = elim (Bool-cases (leb r.created_at q.created_at)) [
    | inl before ↦ rw before (k, h)
    | inr after ↦ rw after (h.0, insert_event-All r rows k h.1)
  ]

  pub sort_events-All : (rows : List OutboxRow) → All P rows → All P (sort_events rows)
  unfolding sort_events
  sort_events-All [] h = tt
  sort_events-All (r ∷ rows) h =
      insert_event-All r (sort_events rows) h.0 (sort_events-All rows h.1)

  pub take-All : (n : ℕ) (rows : List OutboxRow) → All P rows → All P (take n rows)
  take-All zero rows h = tt
  take-All (suc n) [] h = tt
  take-All (suc n) (r ∷ rows) h = (h.0, take-All n rows h.1)

pub has_event-update :
    (k j : String) (f : OutboxRow → OutboxRow) (rows : List OutboxRow)
    → ((r : OutboxRow) → (f r).id ≡ r.id)
    → has_event k (update_event j f rows) ≡ has_event k rows
unfolding has_event update_event
has_event-update k j f [] h = refl
has_event-update k j f (r ∷ rows) h = ground (arith, has_event-update k j f rows h, h r)

pub has_event-remove :
    (k j : String) (rows : List OutboxRow)
    → j ≢ k
    → has_event k (remove_event j rows) ≡ has_event k rows
unfolding has_event remove_event
has_event-remove k j [] h = refl
has_event-remove k j (r ∷ rows) h =
    ground (arith, has_event-remove k j rows h, ==_iff r.id j, ==_iff r.id k)
