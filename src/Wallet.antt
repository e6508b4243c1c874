-- ===== src/Wallet.antt =====
-- The wallet service: wallet/handler/handler.go over wallet/store/postgres.go.
pub mod Money
pub mod Tables
pub mod Store
pub mod Handler
