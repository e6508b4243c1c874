-- ===== src/Wallet/Store/Locks.antt =====
-- Concurrent runs of `Transfer` and the locks that its statements take and wait for, until the commit
-- gives them up. A job is a transaction behind its guards, and `holder` finds who has a lock. Waits are
-- the statements on a row that another transaction has locked, and the INSERTs of a key that another
-- transaction has inserted and not committed.
pub mod Progress
use aien.Prelude.{
  Bool, true, false, List, [], ◌∷◌, Option, none, some, String, ◌==◌, ◌||◌, if◌then◌else◌, is_some,
}
use aien.Wallet.Money.{Money}
use aien.Wallet.Store.{lock_order}

-- A committed account's row, and the keys of uncommitted rows: a SELECT ... FOR UPDATE does not see
-- these, an INSERT of one key waits for them.
pub data Lock : Type 0 where
  account : String → Lock
  new_account : String → Lock
  reference : String → Lock

-- The job is at its INSERT of the recipient, at the first or the second SELECT ... FOR UPDATE, at its
-- INSERT of the log's row, at its commit, or behind it.
pub data Stage : Type 0 where
  inserting locking_first locking_second logging committing finished : Stage

-- `is_new`: the INSERT has made the recipient's row, which was not there.
pub record Job : Type 0 where
  pub from_account : String
  pub to_account : String
  pub reference_id : String
  pub is_new : Bool
  pub stage : Stage

abbrev pub same_lock : Lock → Lock → Bool
same_lock (account a) (account b) = a == b
same_lock (new_account a) (new_account b) = a == b
same_lock (reference a) (reference b) = a == b
same_lock _ _ = false

unfoldable pub has_lock : Lock → List Lock → Bool
has_lock k [] = false
has_lock k (l ∷ ls) = same_lock k l || has_lock k ls

abbrev pub is_finished : Stage → Bool
is_finished finished = true
is_finished _ = false

abbrev pub made : Bool → String → List Lock
made true to_account = new_account to_account ∷ []
made false to_account = []

module _ (m : Money) where
  abbrev pub first_lock : Job → Lock
  first_lock j = account ((lock_order m j.from_account j.to_account).0)

  abbrev pub second_lock : Job → Lock
  second_lock j = account ((lock_order m j.from_account j.to_account).1)

  -- What the transaction has locked in a stage.
  abbrev pub held_at : Stage → Job → List Lock
  held_at inserting j = []
  held_at locking_first j = made j.is_new j.to_account
  held_at locking_second j = first_lock j ∷ made j.is_new j.to_account
  held_at logging j = second_lock j ∷ first_lock j ∷ made j.is_new j.to_account
  held_at committing j =
      reference j.reference_id ∷ second_lock j ∷ first_lock j ∷ made j.is_new j.to_account
  held_at finished j = []

  -- The lock that the next statement needs.
  abbrev pub wants_at : Stage → Job → Option Lock
  wants_at inserting j = some (new_account j.to_account)
  wants_at locking_first j = some (first_lock j)
  wants_at locking_second j = some (second_lock j)
  wants_at logging j = some (reference j.reference_id)
  wants_at committing j = none
  wants_at finished j = none

  abbrev pub holds : Lock → Job → Bool
  holds k j = has_lock k (held_at j.stage j)

  abbrev pub wants : Job → Option Lock
  wants j = wants_at j.stage j

  -- Who has the lock.
  unfoldable pub holder : Lock → List Job → Option Job
  holder k [] = none
  holder k (j ∷ jobs) = if holds k j then some j else holder k jobs

  abbrev pub locked_by : Option Lock → List Job → Bool
  locked_by none jobs = false
  locked_by (some k) jobs = is_some (holder k jobs)

  -- The job's next statement waits for a lock that one of the jobs has.
  abbrev pub blocked : Job → List Job → Bool
  blocked j jobs = locked_by (wants j) jobs
