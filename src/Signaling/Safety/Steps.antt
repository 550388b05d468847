-- ===== src/Signaling/Safety/Steps.antt =====
-- `IsSound` through the events of the server, and the messages at which the source may panic or
-- block.
use open_carrier_network.Prelude.{
  ℕ, ◌≡◌, Bool, true, false, not, ◌&&◌, ◌||◌, List, [], ◌∷◌, arith, nat_eq, text_eq, string_eq,
}
use open_carrier_network.Prelude.Table.{lookup}
use open_carrier_network.Store.Users.{is_some}
use open_carrier_network.Signaling.Messages.{pong}
use open_carrier_network.Signaling.State.{Env, Server, Outcome, done, panicked, deadlocked, ◌>>=◌}
use open_carrier_network.Signaling.Step.{
  ClientMessage, challenge_request, register, register_fcm, call, call_answer, call_hangup,
  call_decline, ice_candidate, ping, voicemail_list, voicemail_get, voicemail_delete,
  voicemail_mark_read, dm_send, dm_ack, dm_attachment_get, unknown, handle_message,
  voicemail_stored, Event, received, socket_closed, ring_timer, inbound_timer, expiry_tick,
  recorder_end, inbound_recorder_end, stream_event, stream_closed, outbound, outbound_closed,
  dm_delivered, step, run,
}
use open_carrier_network.Signaling.Safety.Parts.{
  IsSound, Returns, send_message-IsSound, send_error-IsSound,
}
use open_carrier_network.Signaling.Safety.Diverted.{
  end_service_call-IsSound, inbound_self_end-IsSound, on_ring_timeout-IsSound,
}
use open_carrier_network.Signaling.Safety.Queued.{expire_pending_calls-IsSound}
use open_carrier_network.Signaling.Safety.Legs.{
  on_inbound_ring_timeout-IsSound, serve_event-IsSound, close_stream-IsSound,
  outbound_event-IsSound, outbound_end-IsSound,
}
use open_carrier_network.Signaling.Safety.Calls.{
  calls_itself, lacks_offer, handle_call_request-IsSound,
}
use open_carrier_network.Signaling.Safety.Answers.{handle_call_answer-IsSound}
use open_carrier_network.Signaling.Safety.Hangups.{
  handle_ice_candidate-IsSound, handle_call_hangup-IsSound, handle_call_decline-IsSound,
}
use open_carrier_network.Signaling.Safety.Sessions.{unregister_client-IsSound}
use open_carrier_network.Signaling.Safety.Entries.{
  deliver_inbound_dm-IsSound, handle_dm_send-IsSound, handle_dm_ack-IsSound,
  handle_dm_attachment_get-IsSound,
}
use open_carrier_network.Signaling.Safety.Visual.{
  handle_voicemail_list-IsSound, handle_voicemail_get-IsSound, handle_voicemail_delete-IsSound,
  handle_voicemail_mark_read-IsSound, notify_voicemail_stored-IsSound,
}
use open_carrier_network.Signaling.Safety.Registered.{
  handle_challenge_request-IsSound, handle_register-IsSound, handle_register_fcm-IsSound,
  signs_badly,
}

-- The messages that may panic or block: a call whose local number leads to the caller itself, a call
-- of a service code with no offer, a missing candidate for a service call, and a signed register for a
-- key with a pending challenge that does not have 32 bytes.
unfoldable pub is_hazard : Server → Event → Bool
unfolding calls_itself lacks_offer signs_badly lookup
is_hazard srv (received c (call msg)) = calls_itself srv c msg || lacks_offer msg
is_hazard srv (received c (register msg)) = signs_badly srv msg
is_hazard srv (received c (ice_candidate id candidate)) =
    is_some (lookup id srv.svc_calls) && not (is_some candidate)
is_hazard srv _ = false

handle_message-IsSound :
    (env : Env) (srv : Server) (c : ℕ) (msg : ClientMessage)
    → is_hazard srv (received c msg) ≡ false
    → IsSound srv
    → Returns IsSound (handle_message env srv c msg)
unfolding handle_message is_hazard
handle_message-IsSound env srv c (challenge_request key nonce) safe k =
    handle_challenge_request-IsSound env srv c key nonce k
handle_message-IsSound env srv c (register msg) safe k =
    handle_register-IsSound env srv c msg safe k
handle_message-IsSound env srv c (register_fcm token) safe k =
    handle_register_fcm-IsSound srv c token k
handle_message-IsSound env srv c (call msg) safe k =
    handle_call_request-IsSound env srv c msg (ground arith) (ground arith) k
handle_message-IsSound env srv c (call_answer id sdp) safe k =
    handle_call_answer-IsSound srv c id sdp k
handle_message-IsSound env srv c call_hangup safe k = handle_call_hangup-IsSound env srv c k
handle_message-IsSound env srv c (call_decline id) safe k =
    handle_call_decline-IsSound env srv c id k
handle_message-IsSound env srv c (ice_candidate id candidate) safe k =
    handle_ice_candidate-IsSound srv c id candidate safe k
handle_message-IsSound env srv c ping safe k = send_message-IsSound srv c pong k
handle_message-IsSound env srv c voicemail_list safe k = handle_voicemail_list-IsSound env srv c k
handle_message-IsSound env srv c (voicemail_get id) safe k =
    handle_voicemail_get-IsSound env srv c id k
handle_message-IsSound env srv c (voicemail_delete id) safe k =
    handle_voicemail_delete-IsSound srv c id k
handle_message-IsSound env srv c (voicemail_mark_read id) safe k =
    handle_voicemail_mark_read-IsSound srv c id k
handle_message-IsSound env srv c (dm_send req) safe k = handle_dm_send-IsSound env srv c req k
handle_message-IsSound env srv c (dm_ack id) safe k = handle_dm_ack-IsSound srv c id k
handle_message-IsSound env srv c (dm_attachment_get id) safe k =
    handle_dm_attachment_get-IsSound env srv c id k
handle_message-IsSound env srv c unknown safe k = send_error-IsSound srv c 400 _ k

-- On a server whose registered clients and rung callees all have a user, and whose send channels
-- hold at most 64 messages, every event other than the four hazards (a call whose local number
-- leads to the caller itself, a call of a service code with no offer, a missing candidate for a
-- service call, a signed register for a key with a pending challenge that does not have 32 bytes) ends without a panic and without blocking, and leaves such a server.
pub step-IsSound :
    (env : Env) (srv : Server) (e : Event)
    → is_hazard srv e ≡ false
    → IsSound srv
    → Returns IsSound (step env srv e)
unfolding step is_hazard
step-IsSound env srv (received c msg) safe k = handle_message-IsSound env srv c msg safe k
step-IsSound env srv (socket_closed c) safe k = unregister_client-IsSound env srv c k
step-IsSound env srv (ring_timer id) safe k = on_ring_timeout-IsSound env srv id k
step-IsSound env srv (inbound_timer id) safe k = on_inbound_ring_timeout-IsSound env srv id k
step-IsSound env srv expiry_tick safe k = expire_pending_calls-IsSound env srv k
step-IsSound env srv (recorder_end c id) safe k = end_service_call-IsSound srv c id _ k
step-IsSound env srv (inbound_recorder_end id stream) safe k =
    inbound_self_end-IsSound srv id stream k
step-IsSound env srv (stream_event stream opened ev) safe k =
    serve_event-IsSound env stream srv opened ev k
step-IsSound env srv (stream_closed opened) safe k = close_stream-IsSound srv opened k
step-IsSound env srv (outbound id caller ev) safe k = outbound_event-IsSound srv id caller ev k
step-IsSound env srv (outbound_closed id caller end) safe k =
    outbound_end-IsSound srv id caller end k
step-IsSound env srv (voicemail_stored to caller name) safe k =
    notify_voicemail_stored-IsSound env srv to caller name k
step-IsSound env srv (dm_delivered msg) safe k = deliver_inbound_dm-IsSound env srv msg k

-- Whether a history meets a hazard on its way.
unfoldable pub avoids_hazards : Server → List (Env × Event) → Bool
unfolding is_hazard step
avoids_hazards srv [] = true
avoids_hazards srv ((env, e) ∷ rest) = not (is_hazard srv e) && (elim (step env srv e) [
  | done s ↦ avoids_hazards s rest
  | panicked ↦ true
  | deadlocked ↦ true
])

follow :
    (o : Outcome Server) (rest : List (Env × Event))
    → Returns IsSound o
    → (elim o [ done s ↦ avoids_hazards s rest | panicked ↦ true | deadlocked ↦ true ]) ≡ true
    → ((s : Server) → avoids_hazards s rest ≡ true → IsSound s → Returns IsSound (run s rest))
    → Returns IsSound (o >>= λ s. run s rest)
follow (done s) rest k safe later = later s safe k
follow panicked rest k safe later = k
follow deadlocked rest k safe later = k

-- From a server on which every registered client and every rung callee has a user and no send
-- channel holds more than its 64 messages, a history that meets none of the four hazards (a call
-- whose local number leads to the caller itself, a call of a service code with no offer, a missing
-- candidate for a service call, a signed register for a key with a pending challenge that does not have
-- 32 bytes) runs to its end with neither a panic nor a deadlock, and leaves such a server.
pub run-IsSound :
    (history : List (Env × Event)) (srv : Server)
    → avoids_hazards srv history ≡ true
    → IsSound srv
    → Returns IsSound (run srv history)
unfolding run avoids_hazards
run-IsSound [] srv safe k = k
run-IsSound ((env, e) ∷ rest) srv safe k =
    follow (step env srv e) rest (step-IsSound env srv e (ground arith) k) (ground arith)
      λ s later kept. run-IsSound rest s later kept
