-- ===== src/Signaling/Step.antt =====
-- handleMessage of server.go, and the events that move the server: a message, a closed socket, a
-- timer, a tick, what another exchange sends. A message with several fields counts as the first of
-- them in the order of the switch.
use open_carrier_network.Prelude.{ℕ, Option, List, [], ◌∷◌, String, Text}
use open_carrier_network.Signaling.Messages.{
  Sdp, IceCandidate, Envelope, pong, CallRequest, CallEvent,
}
use open_carrier_network.Signaling.State.{Env, Server, Outcome, done, ◌>>=◌}
use open_carrier_network.Signaling.Send.{send_message, send_error}
use open_carrier_network.Signaling.Ring.{on_ring_timeout}
use open_carrier_network.Signaling.Voicemail.{end_service_call, inbound_self_end}
use open_carrier_network.Signaling.Pending.{expire_pending_calls}
use open_carrier_network.Signaling.Bridge.{on_inbound_ring_timeout}
use open_carrier_network.Signaling.Inbound.{serve_event, close_stream}
use open_carrier_network.Signaling.Cross.{outbound_event, StreamEnd, outbound_end}
use open_carrier_network.Signaling.Call.{handle_call_request}
use open_carrier_network.Signaling.Answer.{handle_call_answer, handle_ice_candidate}
use open_carrier_network.Signaling.Hangup.{handle_call_hangup, handle_call_decline}
use open_carrier_network.Signaling.Messaging.{
  DmSend, handle_dm_send, handle_dm_ack, handle_dm_attachment_get, deliver_inbound_dm,
}
use open_carrier_network.Signaling.Register.{
  RegisterRequest, handle_challenge_request, handle_register, handle_register_fcm,
}
use open_carrier_network.Signaling.Clients.{unregister_client}
use open_carrier_network.Signaling.Visual.{
  handle_voicemail_list, handle_voicemail_get, handle_voicemail_delete, handle_voicemail_mark_read,
  notify_voicemail_stored,
}

-- ClientMessage; the challenge request carries the nonce that answers it.
pub data ClientMessage : Type 0 where
  challenge_request : Option String → Option (List ℕ) → ClientMessage
  register : RegisterRequest → ClientMessage
  register_fcm : String → ClientMessage
  call : CallRequest → ClientMessage
  call_answer : String → Option Sdp → ClientMessage
  call_hangup : ClientMessage
  call_decline : String → ClientMessage
  ice_candidate : String → Option IceCandidate → ClientMessage
  ping : ClientMessage
  voicemail_list : ClientMessage
  voicemail_get voicemail_delete voicemail_mark_read : String → ClientMessage
  dm_send : DmSend → ClientMessage
  dm_ack dm_attachment_get : String → ClientMessage
  unknown : ClientMessage

-- handleMessage
unfoldable pub handle_message : Env → Server → ℕ → ClientMessage → Outcome Server
handle_message env srv c (challenge_request key nonce) =
    done (handle_challenge_request env srv c key nonce)
handle_message env srv c (register msg) = handle_register env srv c msg
handle_message env srv c (register_fcm token) = done (handle_register_fcm srv c token)
handle_message env srv c (call msg) = handle_call_request env srv c msg
handle_message env srv c (call_answer id sdp) = handle_call_answer srv c id sdp
handle_message env srv c call_hangup = handle_call_hangup env srv c
handle_message env srv c (call_decline id) = handle_call_decline env srv c id
handle_message env srv c (ice_candidate id candidate) = handle_ice_candidate srv c id candidate
handle_message env srv c ping = done (send_message srv c pong)
handle_message env srv c voicemail_list = done (handle_voicemail_list env srv c)
handle_message env srv c (voicemail_get id) = done (handle_voicemail_get env srv c id)
handle_message env srv c (voicemail_delete id) = done (handle_voicemail_delete srv c id)
handle_message env srv c (voicemail_mark_read id) = done (handle_voicemail_mark_read srv c id)
handle_message env srv c (dm_send req) = done (handle_dm_send env srv c req)
handle_message env srv c (dm_ack id) = done (handle_dm_ack srv c id)
handle_message env srv c (dm_attachment_get id) = done (handle_dm_attachment_get env srv c id)
handle_message env srv c unknown = done (send_error srv c 400 "unknown message type")

-- An event of the server; a stream carries the calls that it has opened so far.
pub data Event : Type 0 where
  received : ℕ → ClientMessage → Event
  socket_closed : ℕ → Event
  ring_timer : String → Event
  inbound_timer : String → Event
  expiry_tick : Event
  recorder_end : ℕ → String → Event
  inbound_recorder_end : String → ℕ → Event
  stream_event : ℕ → List String → CallEvent → Event
  stream_closed : List String → Event
  outbound : String → ℕ → CallEvent → Event
  outbound_closed : String → ℕ → StreamEnd → Event
  dm_delivered : Envelope → Event
  voicemail_stored : Text → Text → Text → Event

unfoldable pub step : Env → Server → Event → Outcome Server
unfolding handle_message
step env srv (received c msg) = handle_message env srv c msg
step env srv (socket_closed c) = done (unregister_client env srv c)
step env srv (ring_timer id) = on_ring_timeout env srv id
step env srv (inbound_timer id) = done (on_inbound_ring_timeout env srv id)
step env srv expiry_tick = done (expire_pending_calls env srv)
step env srv (recorder_end c id) = done (end_service_call srv c id "voicemail complete")
step env srv (inbound_recorder_end id stream) = done (inbound_self_end srv id stream)
step env srv (stream_event stream opened ev) = done (serve_event env stream (srv, opened) ev).0
step env srv (stream_closed opened) = done (close_stream srv opened)
step env srv (outbound id caller ev) = done (outbound_event srv id caller ev).0
step env srv (outbound_closed id caller end) = done (outbound_end srv id caller end)
step env srv (voicemail_stored to caller name) =
    done (notify_voicemail_stored env srv to caller name)
step env srv (dm_delivered env') = done (deliver_inbound_dm env srv env').0

-- A history of the server.
unfoldable pub run : Server → List (Env × Event) → Outcome Server
unfolding step
run srv [] = done srv
run srv ((env, e) ∷ rest) = step env srv e >>= λ s. run s rest
