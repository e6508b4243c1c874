-- ===== src/Intent.antt =====
-- The intents: their messages (proto/intent/v1), and the intent service (intent-service/handler,
-- intent-service/store).
pub mod Types
pub mod Names
pub mod Filter
pub mod Memory
pub mod Table
pub mod Postgres
pub mod Handler
