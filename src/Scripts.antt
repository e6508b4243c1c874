-- ===== src/Scripts.antt =====
-- The developers' scripts that sign intents: scripts/keygen.go and scripts/load_test_csv.go.
pub mod Keygen
pub mod LoadTest
