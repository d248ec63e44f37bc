-- ===== src/Lib.antt =====
-- GuffSuff is a messenger with phone-number accounts: an HTTP server (services/api), a worker
-- (services/worker), a gateway for live events (services/realtime) and packages that they share
-- (packages). This library models the identity and transport services, which keep all of their
-- state in one PostgreSQL database, the routes that lead to them, the gateway, the check of the
-- configuration, the runner of the migrations and the scans of the build (scripts).
--
-- How the parts interact. A request is let through by the guard
-- (services/api/src/identity/jwt-auth.guard.ts: Guard), which checks the access token that the
-- session service issued (session.service.ts: Session) against the tables of sessions, devices
-- and users. One-time codes (otp.service.ts, otp.provider.ts,
-- packages/otp-simulator/src/index.ts: Otp), the registration lock
-- (registration-lock.service.ts: RegistrationLock) and the devices of a user (device.service.ts:
-- Device) work on the same identity tables; revoking a device marks rows that the session
-- service and the guard read. The account service (account.service.ts: Account) registers an
-- account for a verified code, with a phone number that phone-number.service.ts (Phone)
-- normalises and encrypts, and asks the session service for its first tokens. The transport
-- services (services/api/src/transport/conversation.service.ts: Conversation;
-- message-envelope.service.ts: Envelope) read users and devices, and store opaque envelopes with
-- one delivery record for each device of the recipient, which the worker
-- (services/worker/src/transport-processor.ts: Worker) queues again or expires.
--
-- Requests. Json is a body after JSON.parse, Contracts the schemas of
-- packages/contracts/src/index.ts that check it, and Api the controllers of
-- services/api/src/identity: Api.Auth has the open routes and logout, Api.Guarded those behind
-- the guard, with `respond` for one request on them and Api.Isolation.Runs for sequences.
-- Api.Transport has the controllers of services/api/src/transport, whose handlers read a field
-- of the user that may be missing, so its service calls take an optional user and compare
-- columns with it: NULL equals none. For a user that is there they are the calls of the services
-- (Api.Transport.Known). Api.Credentials has what requests do to the sessions and tokens of
-- other users. Realtime is services/realtime/src/realtime.gateway.ts, Configuration is
-- packages/shared-config/src/index.ts, Migrate is packages/database/src/migrate.ts and Health is
-- services/api/src/health/health.controller.ts. Scan is scripts/scan-mock-crypto.js and
-- scripts/scan-build-secrets.js, over trees of directories, and Sbom the list of components of
-- scripts/generate-sbom.js. Text has the tests on texts that several of these use.
--
-- Concurrency. A method is one step, and a history interleaves whole calls, with one exception:
-- Otp.Race cuts `verifyOtpChallenge` into its SELECT and its UPDATE, and a schedule orders the
-- halves of any number of calls on one challenge (Otp.Race.Bound, Otp.Race.Sharp).
--
-- Mailbox puts the calls of the envelope service and of the worker into histories, and has an
-- abstract view of the delivery records: which envelopes wait for which devices, and what each
-- call does to that.
--
-- System has the calls of all services in one type, on the database and the store of the
-- simulator, for what holds over any history of the server: System.Cutoff follows a revoked
-- device through the services, System.Verified follows a phone number from the request of a code
-- to the account. System.Delivery follows an accepted envelope. System.Frame says what each
-- service leaves alone of the tables that these depend on.
--
-- State. Schema.Identity and Schema.Transport have one record for each table of
-- packages/database/migrations and a record of all tables; Schema.Constraints,
-- Schema.AccountConstraints and Schema.TransportConstraints have the PRIMARY KEY, UNIQUE and
-- REFERENCES constraints as Boolean tests, which an INSERT makes. A table is a list of rows;
-- Prelude.Rows has SELECT, UPDATE, DELETE, EXISTS and JOIN as functions on lists, Prelude.Sort
-- has ORDER BY.
--
-- Operations. A method is an `Action`: from the database to a result with the new database or to
-- an error with the database as it is then (Action, Errors). `atomically` is BEGIN ... COMMIT
-- with the ROLLBACK of the source's `catch`; statements outside of a transaction take effect one
-- by one. The name of a method is that of the source in snake case: `rotateRefreshToken` is
-- `rotate_refresh_token`. Its branches are helpers by clauses on the rows that a query returns.
-- Identifiers, random bytes and clock readings are arguments: a record of draws for each method.
-- History has the calls of the session and device services as data, and sequences of them.
--
-- Outside code. Environment is a record of functions for crypto, jsonwebtoken, argon2, base64,
-- libphonenumber-js, uuid, node-postgres, toLowerCase and the settings of the process; nothing
-- is assumed of them unless a theorem says so. Whether the server checks REFERENCES is a field
-- of it too.
--
-- Identifiers. A UUID is a number; its canonical text, in lower case, is the one in which the
-- server writes it. verifyOtpChallenge hashes the text that it is given: `verify_otp_text` takes
-- it beside the number, as the route does; `verify_otp_challenge`,
-- which the histories of System use, is a call with the canonical text.
-- getOrCreateDirectConversation compares two texts: an identifier that a client writes in
-- capitals is not modelled there.
--
-- Bounds. Times are numbers of milliseconds and never overflow a JavaScript number before the
-- year 287396; no arithmetic of the program wraps around. All loops of the source run over the
-- rows of a query or over the files of a directory, so they are structural recursion, and there
-- is no fuel.
--
-- Not modelled: the interleaving of two requests inside one method other than
-- `verifyOtpChallenge`, lengths of VARCHAR columns, the texts of errors, the schemas of
-- packages/contracts that no code parses with, the interfaces of packages/crypto-adapter, what
-- socket.io does with the calls of the gateway, storage, queues and telemetry, the wiring of the
-- server, what scripts/generate-sbom.js writes around its list, scripts/create-phase5-pr.js, the
-- applications for users and administrators.
--
-- Samples and its children apply the theorems to concrete databases.
pub mod Prelude
pub mod Errors
pub mod Action
pub mod Environment
pub mod Schema
pub mod Session
pub mod Device
pub mod Guard
pub mod History
pub mod Otp
pub mod Phone
pub mod Text
pub mod Json
pub mod Contracts
pub mod Account
pub mod Migrate
pub mod Realtime
pub mod Configuration
pub mod Health
pub mod Scan
pub mod System
pub mod Sbom
pub mod RegistrationLock
pub mod Api
pub mod Envelope
pub mod Worker
pub mod Mailbox
pub mod Conversation
pub mod Samples
