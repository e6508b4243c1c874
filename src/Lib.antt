-- ===== src/Lib.antt =====
-- The verification library of AIEN: an intent platform of Go services. The gateway takes intents
-- over HTTP, the intent service checks their signatures and stores them with an outbox event, the
-- scheduler and the execution engine move them through their states, the wallet moves the money, and
-- the validator writes finished intents to a hash-linked ledger file.
--
--   Prelude        what the modules share: tests, lists, results, and Go's use of SQL transactions
--   Grpc           the gRPC status codes and statuses
--   Wallet         wallet/store/postgres.go (Store) and wallet/handler/handler.go (Handler); Money is the
--                  interface of the amounts, Tables are the rows of wallet/store/schema.sql,
--                  Store.Locks has the locks that concurrent transfers wait for
--   Ledger         validator/ledger/ledger.go: Engine has `Append`, `Verify` and `readLastBlock` on the
--                  bytes of the file, Scan is bufio.Scanner with its limit on lines, Chain is the
--                  specification
--   Crypto         shared/crypto/crypto.go
--   Intent         proto/intent/v1 (Types, Names), intent-service/store (Memory, Postgres, Table) and
--                  intent-service/handler/handler.go (Handler)
--   Outbox         intent-service/outbox/worker.go; its loop is `batches`, a list of the answers that
--                  each round gets
--   Scheduler      scheduler/main.go, `handleSubmittedIntent`
--   Engine         execution-engine/main.go, `executeTask` and `runExecutionSimulation`; in
--                  Payment the wallet's `Transfer` fills the engine's interface, WorkerPool has main's workers,
--                  and Concurrent the steps of several workers between one another
--   Startup        shared/config/config.go, shared/db/postgres.go, the choice of the transport in the main
--                  functions of the gRPC servers and clients, and main of intent-service and wallet (Servers)
--                  and of scheduler and execution-engine (Consumers)
--   Validator      validator/main.go: `handleExecutedIntent`, and main in Startup
--   Gateway        gateway/main.go: Http, Jwt, Login, Limit, Submit, LedgerView with the
--                  loop of Reversal, and Server, the handler that main serves
--   Pipeline       the scheduler, the engine and the wallet together: runs of their steps in any order
--   Workers        goroutines that range over a channel, as in execution-engine/main.go and
--                  scripts/load_test_csv.go
--   Scripts        scripts/keygen.go and scripts/load_test_csv.go: the requests that they sign; the load
--                  test's file (Csv), its seeding (Seed), and its start and workers (Submission)
--   Tests          runs at concrete inputs
--
-- Tables are lists of rows. A transaction is a function on them whose writes are lost with an error; the
-- server decides by parameters which statements are answered and whether a commit succeeds, is
-- refused, or succeeds without its answer arriving. A message is delivered again until its handler
-- returns without an error, and the handlers take the answers of the database and the broker as
-- arguments. Times are nanoseconds, and seconds in the tokens. The printing of numbers stops after 20
-- digits, which a uint64 does not exceed; `walk`, a client that
-- reads page after page, and `swap_loop`, for which the number of the blocks is enough, use fuel; no
-- other definition does.
--
-- Encoding/json, encoding/csv, protobuf, base64, hexadecimal coding, SHA-256, HMAC, Ed25519, Redis, crypto/tls and the
-- clock are parameters. Not modelled: the health endpoint, metrics and logging; in main of the gateway,
-- the connections and the server; the script for certificates, and generated code.
pub mod Prelude
pub mod Grpc
pub mod Wallet
pub mod Ledger
pub mod Crypto
pub mod Intent
pub mod Scheduler
pub mod Engine
pub mod Gateway
pub mod Pipeline
pub mod Startup
pub mod Scripts
pub mod Outbox
pub mod Validator
pub mod Workers
pub mod Tests
