-- ===== src/Lib.antt =====
-- A verification library of docker-webmail-gui, an administration panel for docker-mailserver.
--
-- The program has four parts: the web client (apps/web), the server (apps/server) with its tables,
-- jobs and backups, the broker (apps/broker), the only process that talks to Docker, and the MCP
-- server (apps/mcp), which gives assistants access to a mailbox under OAuth grants. The server asks
-- the broker for Docker operations and the MCP server for connections; a job of the server runs one
-- long operation of the broker.
--
-- Files, and the code they model:
--   Common, Common/: lists, tables as lists of rows, Boolean tests on natural numbers.
--   Mcp: the MCP server. Mcp/Store has the rows of apps/mcp/src/store (oauth.repository.ts,
--     connections.repository.ts, bindings.repository.ts) and the operations on them, on one Store.
--     Mcp/Texts has the regular expressions. Mcp/Connections is statusOf of
--     apps/mcp/src/domain/connections.service.ts and credentialHealth. Mcp/Outcome is the state and
--     error monad of the service. Mcp/Tokens is apps/mcp/src/oauth/tokens.service.ts: exchangeCode
--     is exchange_code, in stages named presented, check_code, redeem and connect; refresh is
--     refresh, in stages presented_token, check_refresh_token, check_refresh_scopes, rotate and
--     renew; revoke is revoke. Mcp/Enrollments has the setup credentials of
--     connections.repository.ts with all their columns, of which Mcp/Store keeps those that the
--     token service reads. Mcp/Bearer is apps/mcp/src/oauth/bearer.ts, whose verify is verify.
--   Jobs: apps/server/src/platform/jobs (job-runner.ts, jobs.repository.ts). JobRunner and its table
--     are one Runner; enqueue, cancel and pump have their names, the part of pump behind the await
--     is finish, and Jobs/Steps makes them one step relation.
--   Backups/Retention: apps/server/src/modules/backups/backup-retention.ts.
--   Broker/Demux: apps/broker/src/stream-demux.ts. DockerStreamDemuxer.push is push.
--   Broker/Resolver: apps/broker/src/container-resolver.ts and the identity test of
--     packages/shared/src/visibility.ts.
--   Broker/StaleImages: apps/broker/src/self-update/stale-image-cleanup.ts.
--   Broker/TarGuard: apps/broker/src/restore-tar-guard.ts. RestoreTarGuard is the record of its state,
--     transform, flush and walk have their names; walk_round is one round of walk's loop.
--   Broker/Updater: apps/broker/src/self-update. runSelfUpdate of updater.ts is run_self_update, in
--     stages named pull_both, locate, capture, replace_both, swap_server and swap_broker; Updater/Swap
--     is image-swap-spec.ts, Updater/ImageRefs image-refs.ts, and Updater/Calls has Docker's calls;
--     Updater/Events reads what was done and learnt off the calls of a run.
--   Auth: apps/server/src/modules/auth. Auth/Store has the tables of admins.repository.ts,
--     sessions.repository.ts and login-attempts.repository.ts, Auth/Service is auth.service.ts, and
--     Auth/AdminRoutes the routes of admins.routes.ts that change accounts. Auth/Middleware has the
--     guards of auth.middleware.ts, in the order in which admins.routes.ts registers them, Auth/Bootstrap is
--     bootstrap.ts, and Auth/History makes all that changes accounts one step relation.
--   Tests in each part hold concrete runs, and the theorems at concrete inputs.
--
-- What is taken from outside: SHA-256 is the record Digests, random values the records Fresh and
-- Drawn, Argon2 and the session token's digest the record Crypto, UTF-8 decoding a function, and the
-- time an argument. Docker's answers are arguments; the self-update's Docker is a record of functions
-- of all calls so far, which says for each call whether it throws. A method that does not wait is one
-- step, since the event loop runs nothing in between; its SQL statements act on the lists of rows in
-- order. A login, the account routes and a startup wait for a password's hash and are one step all the
-- same: other requests come before or after.
-- Loops on fuel: the demultiplexer's, one unit for each byte in the buffer, where every frame takes
-- eight bytes at least; the tar guard's, two more than the bytes in the buffer, since each round but
-- the last two takes a byte; and the health poll's, one for each inspection, of which there are at most
-- forty-six in ninety seconds, two seconds apart.
--
-- Not modelled: the web client, HTTP routes but those of accounts, validation schemas, the mail
-- server's drivers and parsers, IMAP and SMTP, encryption, TLS, DNS, backup destinations, the rest of
-- the connections' life cycle; error texts, log lines and the details of audit entries.
mod Common
pub mod Broker
pub mod Mcp
pub mod Jobs
pub mod Backups
pub mod Auth
