-- ===== src/Validator/Audit.antt =====
-- What the validator writes to the ledger.
use aien.Prelude.{
  ◌≡◌, refl, ◌⊎◌, inl, inr, Bool, true, false, List, [], ◌∷◌, ◌++◌, Option, none, some, String,
  arith, All, Option-cases, Bool-cases,
}
use aien.Prelude.Sql.{Result, ok, err}
use aien.Intent.Types.{Intent}
use aien.Intent.Table.{IntentRow, find_row}
use aien.Ledger.Scan.{Bytes}
use aien.Ledger.Block.{Block, genesis_hash}
use aien.Ledger.Engine.{AppendError, Codec, Disk, append_block, next_block, verify}
use aien.Ledger.Chain.{IsChain, last_block}
use aien.Ledger.Print.{IsWritable}
use aien.Ledger.Append.{IsHealthy, Holds, append_block-verify}
use aien.Validator.{is_final, logged, handle_executed_intent}

logged_file : (r : Option Bytes × Result AppendError Block) → (logged r).0 ≡ r.0
logged_file (file, ok block) = refl
logged_file (file, err e) = refl

logged_ok :
    (r : Option Bytes × Result AppendError Block) (b : Block) → r.1 ≡ ok b → (logged r).1 ≡ ok b
logged_ok (file, ok block) b h = ground (arith, h)
logged_ok (file, err e) b h = absurd (ground arith)

module _ (unmarshal : Bytes → Option Intent) (codec : Codec) (digest : String → String) where
  -- Whatever the message and the answers are, the validator leaves the file alone, or it runs `Append`
  -- with the id of a row in the database whose status is COMPLETED or FAILED, and with the type and
  -- the status of that row.
  pub handle_executed_intent-cases :
      (fails : Bool) (disk : Disk) (timestamp : String) (data_of : Bytes) (rows : List IntentRow)
      (file : Option Bytes)
      → let r =
          handle_executed_intent unmarshal codec digest fails disk timestamp data_of rows file in
        (r.0 ≡ file)
        ⊎ ((id : String) × (row : IntentRow) × (find_row id rows ≡ some row)
            × (is_final row.status ≡ true)
            × (r.0 ≡ (append_block codec digest disk timestamp id row.type_name row.status file).0))
  unfolding handle_executed_intent
  handle_executed_intent-cases fails disk timestamp data_of rows file =
      elim (Option-cases (unmarshal data_of)) [
        | inl unread ↦ rw unread (inl refl)
        | inr (intent, read) ↦ elim (Bool-cases fails) [
          | inl broken ↦ rw (read, broken) (inl refl)
          | inr answers ↦ elim (Option-cases (find_row intent.id rows)) [
            | inl missing ↦ rw (read, answers, missing) (inl refl)
            | inr (row, found) ↦ elim (Bool-cases (is_final row.status)) [
              | inl final ↦
                  rw (read, answers, found, final)
                    (inr (intent.id, row, found, final, logged_file _))
              | inr other ↦ rw (read, answers, found, other) (inl refl)
            ]
          ]
        ]
      ]

  -- On a healthy disk, with a file that holds the lines of a chain of blocks that can be
  -- written, the next one included, a message of an intent whose row is COMPLETED or FAILED is
  -- answered with success: one block with the row's id, type and status has been added, and
  -- `Verify` accepts the file.
  pub handle_executed_intent-verify :
      (disk : Disk) (timestamp : String) (data_of : Bytes) (rows : List IntentRow) (intent : Intent)
      (row : IntentRow) (file : Option Bytes) (bs : List Block)
      → IsHealthy disk
      → All (IsWritable codec) bs
      → Holds codec digest file bs
      → IsChain digest genesis_hash 0 bs
      → unmarshal data_of ≡ some intent
      → find_row intent.id rows ≡ some row
      → is_final row.status ≡ true
      → IsWritable codec
          (next_block digest (last_block none bs) timestamp intent.id row.type_name row.status)
      → let b =
          next_block digest (last_block none bs) timestamp intent.id row.type_name row.status in
        let r =
          handle_executed_intent unmarshal codec digest false disk timestamp data_of rows file in
        (r.1 ≡ ok b) × Holds codec digest r.0 (bs ++ b ∷ []) × (verify codec digest disk r.0 ≡ none)
  unfolding handle_executed_intent
  handle_executed_intent-verify disk timestamp data_of rows intent row file bs healthy writable
        holds chain read found final w =
      let (done, kept, linked, accepted) =
        append_block-verify codec digest disk timestamp intent.id row.type_name row.status bs
          healthy writable holds chain w in
      let appended =
        append_block codec digest disk timestamp intent.id row.type_name row.status file in
      rw (read, found, final)
        (
          logged_ok appended _ done,
          rw (logged_file appended) kept,
          rw (logged_file appended) accepted,
        )
