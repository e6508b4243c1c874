-- ===== src/Startup.antt =====
-- How the services start: shared/config/config.go (Config), shared/db/postgres.go (Database) and the part of
-- the main functions that chooses the transport of gRPC (Transport), and the main functions of the two
-- servers, intent-service and wallet (Servers), and of the two consumers, scheduler and execution-engine (Consumers).
pub mod Config
pub mod Consumers
pub mod Database
pub mod Servers
pub mod Transport
