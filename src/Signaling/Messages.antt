-- ===== src/Signaling/Messages.antt =====
-- ocnserver/internal/signaling/messages.go, and CallEvent of proto/ocnserver: what the exchange
-- sends to a phone and to another exchange. The text of an error is that of the source up to the
-- detail that some errors append.
use open_carrier_network.Prelude.{ℕ, Bool, Option, List, String, Text}

-- SDPSession
pub record Sdp : Type 0 where
  pub sdp : String
  pub type : String

pub record IceCandidate : Type 0 where
  pub candidate : String
  pub sdp_mid : String
  pub sdp_mline_index : ℕ

pub record PhoneNumber : Type 0 where
  pub area_code : Text
  pub number : Text

pub record ServiceInfo : Type 0 where
  pub code : String
  pub name : String

pub record IceServer : Type 0 where
  pub urls : List String
  pub username : String
  pub credential : String

-- An envelope of dm.go, as it passes through the exchange.
pub record Image : Type 0 where
  pub name : String
  pub mime : String
  pub b64 : List ℕ

pub record Envelope : Type 0 where
  pub message_id : String
  pub client_id : String
  pub from : Text
  pub from_name : Text
  pub to : Text
  pub kind : Text
  pub text : Text
  pub image : Option Image
  pub created_at : ℕ

-- VoicemailInfo
pub record VoicemailInfo : Type 0 where
  pub id : String
  pub caller_number : Text
  pub caller_name : Text
  pub duration_seconds : ℕ
  pub listened : Bool
  pub created_at : ℕ

pub data ServerMessage : Type 0 where
  challenge_response : List ℕ → ℕ → ServerMessage
  register_response : PhoneNumber → List IceServer → ServerMessage
  incoming_call : String → PhoneNumber → Text → Option Sdp → ServerMessage
  call_ringing : String → ServerMessage
  call_connected : String → Option Sdp → Option ServiceInfo → ServerMessage
  call_ended : String → String → ServerMessage
  ice_candidate : String → Option IceCandidate → ServerMessage
  error : ℕ → String → ServerMessage
  pong : ServerMessage
  voicemail_list_response : List VoicemailInfo → ℕ → ServerMessage
  voicemail_get_response : String → List ℕ → ServerMessage
  voicemail_event : Text → Text → ℕ → ServerMessage
  dm_new : String → Text → Text → Text → Text → String → String → ℕ → ServerMessage
  dm_status : String → String → String → ServerMessage
  dm_attachment : String → Image → ServerMessage

-- CallRequest
pub record CallRequest : Type 0 where
  pub destination : Text
  pub offer : Option Sdp

-- CallEvent on the stream between two exchanges.
pub data CallEvent : Type 0 where
  incoming : String → PhoneNumber → Text → Text → Option Sdp → CallEvent
  ringing : String → CallEvent
  answer : String → Option Sdp → CallEvent
  ice : String → Option IceCandidate → CallEvent
  hangup : String → String → CallEvent
  busy : String → String → CallEvent
