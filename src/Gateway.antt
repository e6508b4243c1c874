-- ===== src/Gateway.antt =====
-- gateway/main.go: the HTTP front of the intent service.
pub mod Http
pub mod Jwt
pub mod LedgerView
pub mod Limit
pub mod Login
pub mod Reversal
pub mod Server
pub mod Submit
