-- ===== src/Ledger.antt =====
-- validator/ledger/ledger.go: a log of hash-linked blocks, one line of JSON for each.
pub mod Scan
pub mod Block
pub mod Engine
pub mod Chain
pub mod Print
pub mod Append
pub mod History
pub mod Tamper
