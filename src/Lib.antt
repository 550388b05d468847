-- ===== src/Lib.antt =====
-- OpenCarrier.Network: the exchange (ocnserver), and the registry of exchanges (registry_server).
--
-- An exchange serves phones over WebSockets. A phone proves its kSIM key by a challenge, takes its line
-- (activated by a one-time token the first time), and then calls other lines, hosted services (*XX) and
-- lines of other exchanges, leaves voicemail, and sends direct messages. Exchanges reach each other by
-- gRPC streams, found through a registry.
--
-- Files and code (paths from the root of the repository):
--   Prelude     Boolean tests, keys, Go's maps as association lists, lists over the native numbers.
--   Numbers     ocnserver/internal/numbers/allocator.go: ParseNumber, FormatNumber, Allocate.
--   Auth        ocnserver/internal/auth/auth.go: GenerateChallenge, VerifyResponse, and VerifyChallenge
--               of ocnserver/internal/ksim/ksim.go.
--   Store       ocnserver/internal/store: the tables (Tables), users and lines (Users), activation
--               tokens and ProvisionUser (Provision), dm_outbox (Outbox), voicemail (Mailbox). Theorems
--               stand in Activation, Picks and Queue.
--               Settings is settings.go, with its theorems in Saved.
--   Admin       ocnserver/internal/admin: the panel. Accounts is store/admin.go, Panel the requests and
--               answers, Handlers server.go and join.go, Routes the routes and federation.go. Theorems
--               stand in Sessions, Passwords, Guarded and Minting.
--   Services    ocnserver/internal/services: Conference is the room of conference.go and its mixer, Echo
--               is echo.go, Speech tts.go. Theorems stand in Mixing, Spoken,
--               Totality and Cached.
--   Voicemail   ocnserver/internal/voicemail: Frames and Ogg are ogg.go, Recorder is recorder.go, Manager
--               is manager.go. Theorems stand in Packing, Checksum (with Xor), Paging, Playback and
--               Delivery (with Recall and Secrets).
--   Registry    registry_server/internal/store/store.go: RegisterServer, GetRoute, DeregisterServer,
--               VerifyPushAuth. Services is service_numbers.go beside it, Service the gRPC
--               handlers of internal/registrysvc. Theorems stand in Areas, Signatures,
--               Resolution and Pushes.
--   Signaling   ocnserver/internal/signaling. State is the struct Server with its clients, rings,
--               pending calls and legs; Send, Voicemail, Ring and Pending are the helpers of server.go;
--               Call, Answer, Hangup, Messaging, Register, Clients and Visual are its
--               handlers; Bridge, Inbound
--               and Cross are bridge.go and relaydm.go; Step is handleMessage and the other events.
--               Theorems stand in Safety, Presence, Expiry, Races and Hazards; Kept has the lemmas on
--               what the helpers of a call leave alone.
--
-- A handler is a function on the whole server and runs to its end before the next: the interleavings of
-- the source inside one handler, at the points where it lets go of its mutex, are not modelled. A
-- *Client is an address, and the objects stand behind it, so that two tables may share one. A
-- nil dereference, or a key of the wrong size that ed25519.Verify is given, is the outcome `panicked`,
-- a mutex locked twice `deadlocked`. A range loop over a map visits the entries in the order of the list. What the handlers ask from outside (the clock, fresh
-- identifiers, the media services, push, the registry, other exchanges, Ed25519, SHA-256 and the sealing of
-- messages) is a record of answers; what they do outside is a list of effects.
--
-- Bounds: the send channel has 64 places and a message that does not fit is dropped, as in the select of
-- sendMessage. ProvisionUser makes 5 attempts, pickFreeNumbers 2000 draws and then a scan of all numbers,
-- Allocate 100 draws and a scan, pickFree 500 draws and a scan of 800 codes; those loops run over the same
-- counts here. A time is in seconds.
--
-- The loop of DeserializeFrames has as much fuel as the data has bytes, and one more; each turn takes four
-- bytes at least. The segments of a page have the length of the packet as fuel. The loop of
-- parseOggOpus has one more than the data has bytes: each turn takes a header of 27.
--
-- Not modelled: WebRTC, the Opus codec, espeak and ffmpeg, the ciphers, push, TURN, JSON, protobuf, QR codes,
-- configuration; the registry's own panel; the softphone.
pub mod Prelude
pub mod Admin
pub mod Auth
pub mod Numbers
pub mod Registry
pub mod Services
pub mod Signaling
pub mod Store
pub mod Voicemail
