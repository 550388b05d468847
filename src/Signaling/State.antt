-- ===== src/Signaling/State.antt =====
-- The state of ocnserver/internal/signaling/server.go and bridge.go. A *Client is an address, and
-- `at` is the object that stands there. A ring entry and its armed timer are one thing, since the
-- source sets and clears them together.
use open_carrier_network.Prelude.{ℕ, Bool, Option, List, String, Text}
use open_carrier_network.Prelude.Table.{Table}
use open_carrier_network.Store.Tables.{User, VoicemailRow, Database}
use open_carrier_network.Store.Provision.{Attempt}
use open_carrier_network.Auth.{Challenges}
use open_carrier_network.Signaling.Messages.{
  Sdp, IceCandidate, IceServer, Envelope, ServerMessage, CallEvent,
}

-- Client: its socket is open until it is closed, and `send_ch` is the buffered channel, the oldest
-- message first.
pub record Client : Type 0 where
  pub user : Option User
  pub call_id : String
  pub send_ch : List ServerMessage
  pub open_conn : Bool

-- services.Service: one of the hosted services, or voicemail.LeaveService for a recipient.
pub data Service : Type 0 where
  hosted : String → String → Bool → Service
  leave : User → Text → Text → Service

-- serviceCall
pub record ServiceCall : Type 0 where
  pub client : ℕ
  pub service : Service

-- ringState; nothing in the source sets its flag `answered`, which starts as false.
pub record RingState : Type 0 where
  pub caller : ℕ
  pub callee : ℕ
  pub callee_user : Option User
  pub offer : Option Sdp

-- pendingCall; a call from another exchange has no local caller.
pub record PendingCall : Type 0 where
  pub call_id : String
  pub caller : Option ℕ
  pub remote : Bool
  pub offer : Option Sdp
  pub created_at : ℕ

-- outLeg and inLeg; `stream` is the gRPC stream that `snd` writes to, and `timer` says that the
-- no-answer timer is armed.
pub record OutLeg : Type 0 where
  pub stream : ℕ

pub record InLeg : Type 0 where
  pub stream : ℕ
  pub callee : Option ℕ
  pub callee_num : Text
  pub caller_area : Text
  pub caller_num : Text
  pub caller_name : Text
  pub offer : Option Sdp
  pub service : Option Service
  pub answered : Bool
  pub timer : Bool
  pub candidates : List IceCandidate

-- What a handler does outside the server: on a stream, to a media service, to a push service, to
-- a socket.
pub data Effect : Type 0 where
  sent : ℕ → CallEvent → Effect
  set_caller : Service → String → Text → Effect
  handle_call : Service → String → String → Effect
  handle_ice : Service → String → IceCandidate → Effect
  end_call : Service → String → Effect
  push_call : String → String → Text → Text → Effect
  push_message : String → Text → Text → Effect
  push_voicemail : String → Text → Text → Effect
  close_conn : ℕ → Effect

-- What one run of a handler reads from outside the program: the identifiers that generateCallID
-- makes, for a call and for a recording, the clock, whether the database answers, and what the media services (by call), the push
-- service, the registry and the other exchanges answer. `verify` is Ed25519 over the challenge,
-- `hash_token` SHA-256 in hex, `attempts` what a provisioning attempt draws, and `seal` and `unseal`
-- the encryption of an envelope under the recipient's key; `render` is RenderOgg (Voicemail/Manager).
pub record Env : Type 0 where
  pub fresh : String
  pub fresh_recording : String
  pub now : ℕ
  pub db_ok : Bool
  pub media_answer : String → Option String
  pub push_ok : Bool
  pub route : Text → Option String
  pub resolve : Text → Option String
  pub dial_ok : String → Bool
  pub bridge : String → Option ℕ
  pub send_ok : ℕ → Bool
  pub deliver_dm : String → Option Bool
  pub verify : String → List ℕ → ℕ → List ℕ → Bool
  pub hash_token : String → String
  pub attempts : ℕ → Attempt
  pub seal : Text → Envelope → List ℕ
  pub unseal : Text → List ℕ → Option Envelope
  pub render : Text → VoicemailRow → Option (List ℕ)

-- Server: the fields that call control and messaging read or write. `effects` is what has been done
-- outside, the latest first.
pub record Server : Type 0 where
  pub at : ℕ → Client
  pub clients : Table Text ℕ
  pub db : Database
  pub challenges : Challenges
  pub area_code : Text
  pub services : Table Text Service
  pub svc_calls : Table String ServiceCall
  pub pending_calls : Table Text PendingCall
  pub has_pusher : Bool
  pub ice_servers : List IceServer
  pub net_svcs : Table Text Service
  pub vm_enabled : Bool
  pub has_dm : Bool
  pub ring_states : Table String RingState
  pub ring_timeout : ℕ
  pub pending_call_timeout : ℕ
  pub has_registry : Bool
  pub out_legs : Table String OutLeg
  pub in_legs : Table String InLeg
  pub effects : List Effect

-- How a run of a handler ends: with the new state, in the panic of a nil dereference or of
-- ed25519.Verify, which takes
-- the whole process down, or blocked for ever on a mutex that it holds itself.
pub data Outcome {ℓ} (A : Type ℓ) : Type ℓ where
  done : A → Outcome A
  panicked : Outcome A
  deadlocked : Outcome A

infixl 5 ◌>>=◌
abbrev pub ◌>>=◌ {ℓ κ} : {A : Type ℓ} {B : Type κ} → Outcome A → (A → Outcome B) → Outcome B
done a >>= f = f a
panicked >>= f = panicked
deadlocked >>= f = deadlocked
