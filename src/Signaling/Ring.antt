-- ===== src/Signaling/Ring.antt =====
-- Ring management of server.go: a ring toward an online callee, and its no-answer timer.
use open_carrier_network.Prelude.{ℕ, Option, none, some, String, if◌then◌else◌, string_eq}
use open_carrier_network.Prelude.Table.{lookup, insert, delete}
use open_carrier_network.Signaling.Messages.{Sdp, call_ended}
use open_carrier_network.Signaling.State.{RingState, Env, Server, Outcome, done, panicked}
use open_carrier_network.Signaling.Send.{send_message, clear_call_id, end_for_client, is_online}
use open_carrier_network.Signaling.Voicemail.{route_to_voicemail}

-- startRing
unfoldable pub start_ring : Server → String → ℕ → ℕ → Option Sdp → Server
unfolding insert
start_ring srv call_id caller callee offer = record srv {
  ring_states =
      insert call_id
        (record {
          caller = caller;
          callee = callee;
          callee_user = (srv.at callee).user;
          offer = offer;
        })
        srv.ring_states;
}

-- takeRing: the ring that stood there, and the server without it.
unfoldable pub take_ring : Server → String → Server × Option RingState
unfolding lookup delete
take_ring srv call_id = elim (lookup call_id srv.ring_states) [
  | none ↦ (srv, none)
  | some rs ↦ (record srv { ring_states = delete call_id srv.ring_states }, some rs)
]

-- Route the caller of a ring into voicemail, or end the call for it: the last lines of
-- onRingTimeout, handleCallDecline and the decline by a hangup.
unfoldable pub divert_caller : Env → Server → RingState → String → String → Server
unfolding route_to_voicemail end_for_client
divert_caller env srv rs call_id reason =
    let (routed, ok) =
      route_to_voicemail env srv (some rs.caller) rs.callee_user rs.offer call_id in
    if ok then routed else end_for_client routed rs.caller call_id reason

-- onRingTimeout past its guards: stop the callee's ring, then serve the caller if it is there. The
-- log line reads the callee's number through a pointer.
unfoldable pub ring_out : Env → Server → RingState → String → Outcome Server
unfolding clear_call_id send_message is_online divert_caller
ring_out env srv rs call_id = elim rs.callee_user [
  | none ↦ panicked
  | some u ↦
      let stopped =
        send_message (clear_call_id srv rs.callee call_id) rs.callee
          (call_ended call_id "no answer") in
      done (
        if is_online stopped (some rs.caller)
        then divert_caller env stopped rs call_id "no answer"
        else stopped)
]

-- onRingTimeout
unfoldable pub on_ring_timeout : Env → Server → String → Outcome Server
unfolding take_ring ring_out
on_ring_timeout env srv call_id =
    let (taken, ring) = take_ring srv call_id in
    elim ring [ none ↦ done srv | some rs ↦ ring_out env taken rs call_id ]
