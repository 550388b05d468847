-- ===== src/Signaling.antt =====
-- ocnserver/internal/signaling: the exchange's call control. A handler of server.go or bridge.go is
-- a function on the server's state, run to its end before the next one starts.
pub mod Messages
pub mod State
pub mod Send
pub mod Voicemail
pub mod Ring
pub mod Pending
pub mod Bridge
pub mod Inbound
pub mod Cross
pub mod Call
pub mod Answer
pub mod Hangup
pub mod Messaging
pub mod Register
pub mod Clients
pub mod Visual
pub mod Step
pub mod Safety
pub mod Kept
pub mod Presence
pub mod Expiry
pub mod Races
pub mod Hazards
mod Tests
