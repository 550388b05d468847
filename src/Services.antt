-- ===== src/Services.antt =====
-- The hosted services of an exchange: ocnserver/internal/services. Conference is the party line, Echo the
-- services that speak a phrase, Speech how it is made.
mod Conference
mod Mixing
mod Speech
mod Echo
mod Spoken
mod Cached
mod Totality
mod Tests
