-- ===== src/Tests.antt =====
-- Runs of the models at concrete inputs.
mod Wallet
mod Intent
mod Ledger
mod Crypto
mod Signing
mod Pipeline
mod Gateway
mod Front
mod Outbox
mod Listing
mod Payment
mod Startup
mod Locks
mod LoadTest
mod Workers
mod EndToEnd
