-- ===== src/Startup/Database.antt =====
-- `ConnectPostgres` of shared/db/postgres.go. The answers of the driver to each attempt are a
-- parameter; the loop is recursion on the attempts that remain.
use aien.Prelude.{ℕ, zero, suc, ◌+◌, ◌-◌, ◌≡◌, refl, Option, none, some, arith, ◌∙◌, ◌⊎◌, inl, inr}
use aien.Prelude.Decimal.{ℤ, pos, negsuc}

-- What an attempt meets: `sql.Open` fails, the ping fails, or the server answers.
pub data Ping : Type 0 where
  open_failed ping_failed answered : Ping

-- The result, with the pools that were closed and the waits between attempts.
pub data Connection : Type 0 where
  connected : (attempt closed waits : ℕ) → Connection
  failed : (closed waits : ℕ) → Connection

-- `time.Sleep`, unless it was the last attempt.
abbrev pub wait : (remaining waits : ℕ) → ℕ
wait zero waits = waits
wait (suc n) waits = suc waits

Ping-cases : (p : Ping) → (p ≡ open_failed) ⊎ (p ≡ ping_failed) ⊎ (p ≡ answered)
Ping-cases open_failed = inl refl
Ping-cases ping_failed = inr (inl refl)
Ping-cases answered = inr (inr refl)

abbrev later : Option ℕ → Option ℕ
later none = none
later (some k) = some (suc k)

module _ (pings : ℕ → Ping) where
  unfoldable pub connect_loop : (remaining attempt closed waits : ℕ) → Connection
  connect_loop zero attempt closed waits = failed closed waits
  connect_loop (suc n) attempt closed waits = elim (pings attempt) [
    | answered ↦ connected attempt closed waits
    | open_failed ↦ connect_loop n (suc attempt) closed (wait n waits)
    | ping_failed ↦ connect_loop n (suc attempt) (suc closed) (wait n waits)
  ]

  unfoldable pub connect_postgres : (max_retries : ℤ) → Connection
  connect_postgres (pos n) = connect_loop n 1 0 0
  connect_postgres (negsuc n) = failed 0 0

  -- The specification: how many attempts from `attempt` on meet no answer, if one of `n` does meet one.
  unfoldable pub misses : (n attempt : ℕ) → Option ℕ
  misses zero attempt = none
  misses (suc n) attempt = elim (pings attempt) [
    | answered ↦ some 0
    | _ ↦ later (misses n (suc attempt))
  ]

  -- How many of `n` attempts open a pool that does not answer.
  unfoldable pub unanswered : (n attempt : ℕ) → ℕ
  unanswered zero attempt = 0
  unanswered (suc n) attempt =
      let rest = unanswered n (suc attempt) in
      elim (pings attempt) [ ping_failed ↦ suc rest | _ ↦ rest ]

  abbrev outcome : (n attempt closed waits : ℕ) → Option ℕ → Connection
  outcome n attempt closed waits none = failed (closed + unanswered n attempt) (waits + (n - 1))
  outcome n attempt closed waits (some k) =
      connected (attempt + k) (closed + unanswered k attempt) (waits + k)

  later_open :
      (n attempt closed waits : ℕ) (o : Option ℕ)
      → pings attempt ≡ open_failed
      → outcome (suc n) (suc attempt) closed (suc waits) o
        ≡ outcome (suc (suc n)) attempt closed waits (later o)
  unfolding unanswered
  later_open n attempt closed waits none e = rw (unanswered, e) (ground arith)
  later_open n attempt closed waits (some k) e = rw (unanswered, e) (ground arith)

  later_ping :
      (n attempt closed waits : ℕ) (o : Option ℕ)
      → pings attempt ≡ ping_failed
      → outcome (suc n) (suc attempt) (suc closed) (suc waits) o
        ≡ outcome (suc (suc n)) attempt closed waits (later o)
  unfolding unanswered
  later_ping n attempt closed waits none e = rw (unanswered, e) (ground arith)
  later_ping n attempt closed waits (some k) e = rw (unanswered, e) (ground arith)

  connect_loop-misses :
      (n attempt closed waits : ℕ)
      → connect_loop n attempt closed waits ≡ outcome n attempt closed waits (misses n attempt)
  unfolding connect_loop misses unanswered
  connect_loop-misses zero attempt closed waits = ground arith
  connect_loop-misses (suc zero) attempt closed waits = elim (Ping-cases (pings attempt)) [
    | inl e ↦ rw (connect_loop, misses, e) (ground arith)
    | inr (inl e) ↦ rw (connect_loop, misses, e) (ground arith)
    | inr (inr e) ↦ rw (connect_loop, misses, e) (ground arith)
  ]
  connect_loop-misses (suc (suc n)) attempt closed waits = elim (Ping-cases (pings attempt)) [
    | inl e ↦
        rw (connect_loop, misses, e)
          (connect_loop-misses (suc n) (suc attempt) closed (suc waits)
            ∙ later_open n attempt closed waits (misses (suc n) (suc attempt)) e)
    | inr (inl e) ↦
        rw (connect_loop, misses, e)
          (connect_loop-misses (suc n) (suc attempt) (suc closed) (suc waits)
            ∙ later_ping n attempt closed waits (misses (suc n) (suc attempt)) e)
    | inr (inr e) ↦ rw (connect_loop, misses, e) (ground arith)
  ]

  shape :
      (n : ℕ) (o : Option ℕ)
      → outcome n 1 0 0 o ≡ (elim o [
        | none ↦ failed (unanswered n 1) (n - 1)
        | some k ↦ connected (suc k) (unanswered k 1) k
      ])
  shape n none = ground arith
  shape n (some k) = ground arith

  -- `ConnectPostgres` returns after at most `max_retries` attempts: with the connection of the first
  -- attempt that is answered, and with an error if none is. Every pool that was opened and
  -- did not answer has been closed, and it has waited between each two attempts, but not after the last.
  pub connect_postgres-misses :
      (max_retries : ℕ)
      → connect_postgres (pos max_retries) ≡ (elim (misses max_retries 1) [
        | none ↦ failed (unanswered max_retries 1) (max_retries - 1)
        | some k ↦ connected (suc k) (unanswered k 1) k
      ])
  unfolding connect_postgres
  connect_postgres-misses max_retries =
      connect_loop-misses max_retries 1 0 0 ∙ shape max_retries (misses max_retries 1)
