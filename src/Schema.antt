-- ===== src/Schema.antt =====
-- The tables of packages/database/migrations: one record for each table, with its columns.
-- A UUID is the 128-bit number that it writes, a TIMESTAMPTZ a number of milliseconds, a SHA-256
-- digest the number that its hex digits write, an HMAC its bytes. A nullable column is an `Option`.
-- Lengths of VARCHAR columns are not modelled.
pub mod Identity
pub mod Transport
pub mod Constraints
pub mod AccountConstraints
pub mod TransportConstraints
use Identity.{IdentityDb}
use Transport.{TransportDb}

-- The whole database, which all services share.
pub record Db : Type 0 where
  pub identity : IdentityDb
  pub transport : TransportDb
