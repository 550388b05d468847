-- ===== src/Voicemail.antt =====
-- Voicemail: ocnserver/internal/voicemail. A recorded message is a list of Opus frames. Frames packs
-- it for the store and unpacks it, Ogg turns it into a file that a phone can play (ogg.go).
pub mod Frames
pub mod Ogg
pub mod Packing
mod Xor
mod Words
mod Checksum
pub mod Paging
pub mod Playback
mod Recorder
mod Manager
mod Recall
mod Secrets
mod Delivery
mod Tests
