-- ===== src/Signaling/Inbound.antt =====
-- serveInbound of bridge.go: the stream of another exchange whose callers ring lines of this one.
use open_carrier_network.Prelude.{
  ℕ, true, false, not, ◌||◌, Option, none, some, List, [], ◌∷◌, ◌++◌, String, Text, ◌==◌, text_eq,
  string_eq, if◌then◌else◌,
}
use open_carrier_network.Prelude.Table.{lookup, insert, delete}
use open_carrier_network.Store.Tables.{User}
use open_carrier_network.Signaling.Messages.{
  Sdp, IceCandidate, PhoneNumber, incoming_call, call_ended, ice_candidate, ringing, answer, busy,
  CallEvent, incoming, ice, hangup,
}
use open_carrier_network.Signaling.State.{
  Service, sent, handle_call, handle_ice, end_call, push_call, Env, InLeg, Server,
}
use open_carrier_network.Signaling.Send.{send_message, set_call_id, clear_call_id, act}
use open_carrier_network.Signaling.Voicemail.{find_user_or_nil, set_leg, route_inbound_voicemail}
use open_carrier_network.Signaling.Pending.{remove_pending_by_call_id, remove_in_leg}
use open_carrier_network.Signaling.Bridge.{inbound_remote_hangup}

-- What inboundIncoming returns: the server, and the identifier of a call that is open.
abbrev Opened : Type 0
Opened = Server × Option String

-- The refusal of a call, `snd(BUSY)` and removeInLeg.
abbrev refuse_busy : Server → ℕ → String → String → Opened
refuse_busy srv stream call_id reason =
    (remove_in_leg (act (sent stream (busy call_id reason)) srv) call_id, none)

-- sdpToWebRTC(ev.Sdp).SDP
abbrev sdp_text : Option Sdp → String
sdp_text none = ""
sdp_text (some s) = s.sdp

-- handleNetService, with the leg of the call in the table.
unfoldable pub handle_net_service : Env → Server → ℕ → String → Option Sdp → Service → Opened
unfolding remove_in_leg
handle_net_service env srv stream call_id offer svc =
    let called = act (handle_call svc call_id (sdp_text offer)) srv in
    elim (env.media_answer call_id) [
      | none ↦ refuse_busy called stream call_id "service error"
      | some sdp ↦
          let answered =
            act (sent stream (answer call_id (some (record { sdp = sdp; type = "answer" }))))
              called in
          if env.send_ok stream
          then (answered, some call_id)
          else (remove_in_leg answered call_id, none)
    ]

-- The ring of a callee that is online, its no-answer timer armed.
unfoldable pub ring_online : Server → ℕ → String → InLeg → ℕ → Server
unfolding insert set_call_id send_message
ring_online srv stream call_id leg callee = act (sent stream (ringing call_id)) (
    send_message
      (set_call_id (set_leg srv call_id (record leg { callee = some callee; timer = true })) callee
        call_id)
      callee
      (incoming_call call_id (record { area_code = leg.caller_area; number = leg.caller_num })
        leg.caller_name leg.offer))

-- The callee is offline and can be woken: queue the call and push.
unfoldable pub queue_inbound : Env → Server → ℕ → String → InLeg → User → Opened
unfolding insert delete remove_in_leg
queue_inbound env srv stream call_id leg callee =
    let queued = record srv {
      pending_calls =
          insert leg.callee_num
            (record {
              call_id = call_id;
              caller = none;
              remote = true;
              offer = leg.offer;
              created_at = env.now;
            })
            srv.pending_calls;
    } in
    let pushed =
      act (push_call callee.fcm_token call_id (leg.caller_area ++ leg.caller_num) leg.caller_name)
        queued in
    if env.push_ok
    then (act (sent stream (ringing call_id)) pushed, some call_id)
    else refuse_busy (record pushed { pending_calls = delete leg.callee_num pushed.pending_calls })
        stream call_id "callee unavailable"

-- The rest of inboundIncoming for a callee that is offline.
unfoldable pub inbound_offline : Env → Server → ℕ → String → InLeg → Opened
unfolding find_user_or_nil queue_inbound route_inbound_voicemail
inbound_offline env srv stream call_id leg = elim (find_user_or_nil env srv leg.callee_num) [
  | none ↦ refuse_busy srv stream call_id "callee unavailable"
  | some callee ↦
      if (callee.fcm_token == "") || not srv.has_pusher
      then (let (routed, ok) = route_inbound_voicemail env srv call_id in
          if ok
          then (routed, some call_id)
          else refuse_busy routed stream call_id "callee unavailable")
      else queue_inbound env srv stream call_id leg callee
]

new_leg : ℕ → PhoneNumber → Text → Text → Option Sdp → InLeg
new_leg stream caller name destination offer = record {
  stream = stream;
  callee = none;
  callee_num = destination;
  caller_area = caller.area_code;
  caller_num = caller.number;
  caller_name = name;
  offer = offer;
  service = none;
  answered = false;
  timer = false;
  candidates = [];
}

-- inboundIncoming, with the fields of the INCOMING event.
unfoldable pub inbound_incoming :
    Env → Server → ℕ → String → PhoneNumber → Text → Text → Option Sdp → Opened
unfolding lookup insert handle_net_service ring_online inbound_offline new_leg
inbound_incoming env srv stream id caller name destination offer =
    let call_id = if id == "" then env.fresh else id in
    let leg = new_leg stream caller name destination offer in
    elim (lookup destination srv.net_svcs) [
      | some svc ↦
          handle_net_service env (set_leg srv call_id (record leg { service = some svc })) stream
            call_id offer svc
      | none ↦ elim (lookup destination srv.clients) [
        | some callee ↦
            (ring_online (set_leg srv call_id leg) stream call_id leg callee, some call_id)
        | none ↦ inbound_offline env (set_leg srv call_id leg) stream call_id leg
      ]
    ]

-- The ICE event: buffer the candidate while a callee is there, then relay it.
unfoldable pub inbound_ice : Server → String → IceCandidate → Server
unfolding lookup insert send_message
inbound_ice srv call_id candidate = elim (lookup call_id srv.in_legs) [
  | none ↦ srv
  | some leg ↦ elim leg.callee [
    | none ↦ elim leg.service [ none ↦ srv | some svc ↦ act (handle_ice svc call_id candidate) srv ]
    | some callee ↦
        let buffered =
          set_leg srv call_id (record leg { candidates = leg.candidates ++ (candidate ∷ []) }) in
        elim leg.service [
          | some svc ↦ act (handle_ice svc call_id candidate) buffered
          | none ↦ send_message buffered callee (ice_candidate call_id (some candidate))
        ]
  ]
]

-- One round of the loop of serveInbound: the server, and the calls that the stream has opened.
unfoldable pub serve_event : Env → ℕ → Server × List String → CallEvent → Server × List String
unfolding inbound_incoming inbound_ice inbound_remote_hangup
serve_event env stream (srv, opened) (incoming id caller name destination offer) =
    let (srv', id') = inbound_incoming env srv stream id caller name destination offer in
    (srv', elim id' [ none ↦ opened | some call_id ↦ opened ++ (call_id ∷ []) ])
serve_event env stream (srv, opened) (ice call_id (some candidate)) =
    (inbound_ice srv call_id candidate, opened)
serve_event env stream (srv, opened) (hangup call_id reason) =
    (inbound_remote_hangup srv call_id reason, opened)
serve_event env stream (srv, opened) _ = (srv, opened)

-- The deferred clean-up of serveInbound for one call that the stream opened: its leg, if it is still
-- there, and its place in the queue.
unfoldable pub close_leg : Server → String → Server
unfolding lookup remove_in_leg clear_call_id send_message
close_leg srv call_id = elim (lookup call_id srv.in_legs) [
  | none ↦ srv
  | some leg ↦
      let removed = remove_in_leg srv call_id in
      elim leg.service [
        | some svc ↦ act (end_call svc call_id) removed
        | none ↦ elim leg.callee [
          | none ↦ removed
          | some callee ↦
              send_message (clear_call_id removed callee call_id) callee
                (call_ended call_id "disconnect")
        ]
      ]
]

unfoldable pub close_opened : Server → String → Server
unfolding close_leg remove_pending_by_call_id
close_opened srv call_id = (remove_pending_by_call_id (close_leg srv call_id) call_id).0

unfoldable pub close_stream : Server → List String → Server
unfolding close_opened
close_stream srv [] = srv
close_stream srv (call_id ∷ rest) = close_stream (close_opened srv call_id) rest
