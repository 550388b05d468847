-- ===== src/Store.antt =====
-- ocnserver/internal/store: the exchange's database, one record of tables. A query is written out
-- over the rows; a failure of the database engine itself is an answer of the environment, where a
-- handler reports it (Signaling/State.antt).
pub mod Settings
pub mod Tables
pub mod Users
pub mod Provision
pub mod Outbox
pub mod Mailbox
pub mod Activation
pub mod Picks
pub mod Queue
pub mod Saved
mod Tests
