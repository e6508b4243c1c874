-- ===== src/Prelude/Sql.antt =====
-- Results with an error, and Go's use of database/sql transactions: `BeginTx`, statements, a
-- deferred `Rollback`, and `Commit`. The tables are a value; the server decides by parameters
-- which statements are answered, and how the commit ends.
use native.Mathlib.Omega.{arith}
use mathlib.Core.Path.{◌≡◌, refl}
use mathlib.Core.Logic.{◌⊎◌, inl, inr}
use mathlib.Core.Bool.{Bool, true, false}
use aien.Prelude.Tests.{if◌then◌else◌, Bool-cases}

pub data Result (E A : Type 0) : Type 0 where
  ok : A → Result E A
  err : E → Result E A

-- A part of a transaction over the tables `S`: what it wrote is lost with an error.
abbrev pub Tx : Type 0 → Type 0 → Type 0 → Type 0
Tx E S A = S → Result E (A × S)

abbrev pub continue : {E S A B : Type 0} → Result E (A × S) → (A → S → Result E B) → Result E B
continue (ok (a, s')) f = f a s'
continue (err e) f = err e

infixl 5 ◌>>=◌ ◌>>◌
abbrev pub ◌>>=◌ : {E S A B : Type 0} → Tx E S A → (A → Tx E S B) → Tx E S B
◌>>=◌ m f s = continue (m s) f

abbrev pub ◌>>◌ : {E S B : Type 0} → Tx E S (Unit {0}) → Tx E S B → Tx E S B
m >> k = m >>= λ _. k

abbrev pub pure : {E S A : Type 0} → A → Tx E S A
pure a s = ok (a, s)

-- `if c { return err }`
abbrev pub raise_if : {E S : Type 0} → Bool → E → Tx E S (Unit {0})
raise_if true e s = err e
raise_if false e s = ok (tt, s)

-- The outcome of a statement that the server may refuse.
abbrev pub unless : {E A : Type 0} → Bool → E → Result E A → Result E A
unless true e r = err e
unless false e r = r

-- A `SELECT`: `fails` says whether the server refuses it, with the error `e`.
abbrev pub query : {E S A : Type 0} → Bool → E → (S → A) → Tx E S A
query true e f s = err e
query false e f s = ok (f s, s)

-- A statement that writes.
abbrev pub exec : {E S : Type 0} → Bool → E → (S → S) → Tx E S (Unit {0})
exec true e f s = err e
exec false e f s = ok (tt, f s)

-- How `tx.Commit()` ends: with success, with an error and nothing written, or with an error after
-- the server has committed (the connection broke before its answer).
pub data Commit : Type 0 where
  committed refused lost : Commit

-- The answers of the server to one transaction. `C` names its statements.
pub record Server (C : Type 0) : Type 0 where
  pub begin_fails : Bool
  pub fails : C → Bool
  pub commit : Commit

abbrev pub close : {E S A : Type 0} → Commit → E → S → Result E (A × S) → S × Result E A
close c e s (err x) = (s, err x)
close committed e s (ok (a, s')) = (s', ok a)
close refused e s (ok (a, s')) = (s, err e)
close lost e s (ok (a, s')) = (s', err e)

-- `tx, err := db.BeginTx(...); defer tx.Rollback(); ...; tx.Commit()`
abbrev pub transact : {C E S A : Type 0} → Server C → E → Tx E S A → S → S × Result E A
transact server e body s =
    if server.begin_fails then (s, err e) else close server.commit e s (body s)

transact_split :
    {E S A : Type 0} (begins : Bool) (c : Commit) (e : E) (r : Result E (A × S)) (s : S)
    → (q : Result E (A × S)) → q ≡ r
    → ((if begins then (s, err e) else close c e s r).0 ≡ s)
      ⊎ ((p : A × S) × (q ≡ ok p) × ((if begins then (s, err e) else close c e s r).0 ≡ p.1))
transact_split true c e r s q h = inl refl
transact_split false c e (err x) s q h = inl refl
transact_split false committed e (ok p) s q h = inr (p, h, refl)
transact_split false refused e (ok p) s q h = inl refl
transact_split false lost e (ok p) s q h = inr (p, h, refl)

-- Every statement is answered and the commit succeeds.
pub record IsUp {C : Type 0} (server : Server C) : Type 0 where
  pub begins : server.begin_fails ≡ false
  pub answers : (c : C) → server.fails c ≡ false
  pub commits : server.commit ≡ committed

abbrev pub up : {C : Type 0} → Server C
up = record { begin_fails = false; fails = λ _. false; commit = committed }

pub up-IsUp : {C : Type 0} → IsUp {C = C} up
up-IsUp = record { begins = refl; answers = λ _. refl; commits = refl }

-- A transaction leaves the tables as they were, or as its body left them.
pub transact-cases :
    {C E S A : Type 0} (server : Server C) (e : E) (body : Tx E S A) (s : S)
    → ((transact server e body s).0 ≡ s)
      ⊎ ((p : A × S) × (body s ≡ ok p) × ((transact server e body s).0 ≡ p.1))
transact-cases server e body s =
    transact_split server.begin_fails server.commit e (body s) s (body s) refl

-- A transaction whose body fails changes nothing and reports an error.
pub transact_err :
    {C E S A : Type 0} (server : Server C) (e : E) {x : E} (body : Tx E S A) (s : S)
    → body s ≡ err x
    → ((transact server e body s).0 ≡ s) × ((y : E) × ((transact server e body s).1 ≡ err y))
transact_err server e {x = x} body s h = elim (Bool-cases server.begin_fails) [
  | inl b ↦ rw b (refl, (e, refl))
  | inr b ↦ rw (b, h) (refl, (x, refl))
]

pub Result-cases :
    {E A : Type 0} (r : Result E A) → ((e : E) × (r ≡ err e)) ⊎ ((a : A) × (r ≡ ok a))
Result-cases (ok a) = inr (a, refl)
Result-cases (err e) = inl (e, refl)

pub transact_up :
    {C E S A : Type 0} (server : Server C) (e : E) (body : Tx E S A) (s s' : S) (a : A)
    → IsUp server
    → body s ≡ ok (a, s')
    → transact server e body s ≡ (s', ok a)
transact_up server e body s s' a h done = rw (h.begins, done, h.commits) refl

-- A transaction that is answered with a result has committed what its body has done.
pub transact_done :
    {C E S A : Type 0} (server : Server C) (e : E) (body : Tx E S A) (s : S) (a : A)
    → (transact server e body s).1 ≡ ok a
    → body s ≡ ok (a, (transact server e body s).0)
transact_done server e body s a h = ground arith
