-- ===== src/Signaling/Safety.antt =====
-- The pointers that the handlers read without a test: the user of a client in the table of clients,
-- and the callee's user of a ring; and the capacity of the send channels.
pub mod Parts
pub mod Diverted
pub mod Queued
pub mod Legs
pub mod Calls
pub mod Answers
pub mod Hangups
pub mod Sessions
pub mod Entries
pub mod Registered
pub mod Visual
pub mod Steps
