-- ===== src/Signaling/Call.antt =====
-- handleCall and handleServiceCall of server.go.
use open_carrier_network.Prelude.{
  ℕ, Bool, true, false, not, ◌&&◌, ◌||◌, Option, none, some, [], ◌∷◌, ◌++◌, String, Text, codes,
  text_beq, ◌==◌, nat_eq, text_eq, string_eq, if◌then◌else◌, leb, length,
}
use open_carrier_network.Prelude.Table.{lookup, insert}
use open_carrier_network.Numbers.{format_number, parse_number}
use open_carrier_network.Store.Tables.{User}
use open_carrier_network.Signaling.Messages.{
  Sdp, incoming_call, call_ringing, call_connected, CallRequest,
}
use open_carrier_network.Signaling.State.{
  Service, hosted, leave, set_caller, handle_call, push_call, Env, Server, Outcome, done, panicked,
  deadlocked,
}
use open_carrier_network.Signaling.Send.{
  send_message, send_error, set_call_id, clear_call_id, act, find_user,
}
use open_carrier_network.Signaling.Voicemail.{route_to_voicemail}
use open_carrier_network.Signaling.Ring.{start_ring}
use open_carrier_network.Signaling.Pending.{remove_pending_by_call_id}
use open_carrier_network.Signaling.Cross.{caller_label, start_cross_call, start_service_call}

-- IsServiceCode
unfoldable pub is_service_code : Text → Bool
is_service_code [] = false
is_service_code (c ∷ cs) = leb 3 (length (c ∷ cs)) && c == b'*'

-- svc.Code() and svc.Name()
abbrev pub service_code : Service → String
service_code (hosted code name aware) = code
service_code (leave u n name) = "voicemail"

abbrev pub service_name : Service → String
service_name (hosted code name aware) = name
service_name (leave u n name) = "Voicemail"

-- `if ca, ok := svc.(services.CallerAware); ok { ca.SetCaller(…) }`
unfoldable pub announce_caller : Env → Server → User → Service → Server
unfolding format_number
announce_caller env srv u (hosted code name true) =
    act (set_caller (hosted code name true) env.fresh (format_number u.area_code u.number)) srv
announce_caller env srv u _ = srv

-- handleServiceCall once the service is found and the offer is read.
unfoldable pub connect_service : Env → Server → ℕ → Service → Sdp → Server
unfolding send_message send_error set_call_id insert
connect_service env srv client svc offer =
    let called = act (handle_call svc env.fresh offer.sdp) srv in
    elim (env.media_answer env.fresh) [
      | none ↦ send_error called client 500 "service error"
      | some sdp ↦
          send_message
            (set_call_id
              (record called {
                svc_calls =
                    insert env.fresh (record { client = client; service = svc }) called.svc_calls;
              })
              client env.fresh)
            client
            (call_connected env.fresh (some (record { sdp = sdp; type = "answer" }))
              (some (record { code = service_code svc; name = service_name svc })))
    ]

-- handleServiceCall; `msg.Offer.SDP` is read with no test of the pointer.
unfoldable pub handle_service_call : Env → Server → ℕ → User → CallRequest → Outcome Server
unfolding lookup send_error announce_caller connect_service
handle_service_call env srv client u msg = elim (lookup msg.destination srv.services) [
  | none ↦ done (send_error srv client 404 "service not found")
  | some svc ↦ elim msg.offer [
    | none ↦ panicked
    | some offer ↦ done (connect_service env (announce_caller env srv u svc) client svc offer)
  ]
]

-- The end of the branches that find nobody to ring: voicemail, or 404.
unfoldable pub voicemail_or_404 : Env → Server → ℕ → User → Option Sdp → Server
unfolding route_to_voicemail send_error
voicemail_or_404 env srv client callee offer =
    let (routed, ok) = route_to_voicemail env srv (some client) (some callee) offer "" in
    if ok then routed else send_error routed client 404 "user not online"

-- Queue the call for a callee that a push can wake.
unfoldable pub queue_call : Env → Server → ℕ → User → User → Text → Option Sdp → Server
unfolding insert set_call_id send_message remove_pending_by_call_id clear_call_id voicemail_or_404
queue_call env srv client u callee local_num offer =
    let queued = record srv {
      pending_calls =
          insert local_num
            (record {
              call_id = env.fresh;
              caller = some client;
              remote = false;
              offer = offer;
              created_at = env.now;
            })
            srv.pending_calls;
    } in
    let pushed =
      act (push_call callee.fcm_token env.fresh u.number (caller_label u))
        (set_call_id queued client env.fresh) in
    if env.push_ok
    then send_message pushed client (call_ringing env.fresh)
    else voicemail_or_404 env
        (clear_call_id (remove_pending_by_call_id pushed env.fresh).0 client env.fresh) client
        callee offer

-- handleCall for a line of this exchange that is not online.
unfoldable pub call_offline : Env → Server → ℕ → User → Text → Option Sdp → Server
unfolding find_user send_error voicemail_or_404 queue_call
call_offline env srv client u local_num offer = elim (find_user env srv local_num) [
  | none ↦ send_error srv client 500 "database error"
  | some none ↦ send_error srv client 404 "user not online"
  | some (some callee) ↦
      if not srv.has_pusher || callee.fcm_token == ""
      then voicemail_or_404 env srv client callee offer
      else queue_call env srv client u callee local_num offer
]

-- handleCall for a callee that is online. The source locks the caller's mutex and then, while it
-- holds that, the callee's; a mutex is not reentrant.
unfoldable pub call_online : Env → Server → ℕ → User → ℕ → Option Sdp → Outcome Server
unfolding send_message set_call_id start_ring
call_online env srv client u callee offer =
    let told = send_message srv callee (
      incoming_call env.fresh (record { area_code = u.area_code; number = u.number }) u.display_name
        offer) in
    if callee == client
    then deadlocked
    else done (
        start_ring
          (send_message (set_call_id (set_call_id told client env.fresh) callee env.fresh) client
            (call_ringing env.fresh))
          env.fresh client callee offer)

-- handleCall for a number under another area code.
unfoldable pub call_remote : Env → Server → ℕ → User → Text → Text → Option Sdp → Server
unfolding send_error start_service_call start_cross_call text_beq
call_remote env srv client u area_code local_num offer =
    if not srv.has_registry
    then send_error srv client 501 "cross-server calls require registry federation"
    else if text_beq area_code (codes "800") || text_beq area_code (codes "900")
    then elim (env.resolve (area_code ++ local_num)) [
      | none ↦ send_error srv client 404 "service unavailable"
      | some addr ↦ start_service_call env srv client u addr (area_code ++ local_num) offer
    ]
    else start_cross_call env srv client u area_code local_num offer

-- handleCall for a parsed number.
unfoldable pub place_call : Env → Server → ℕ → User → Text → Text → Option Sdp → Outcome Server
unfolding call_remote call_offline call_online lookup text_beq
place_call env srv client u area_code local_num offer =
    if not (srv.area_code == []) && not (area_code == srv.area_code)
    then done (call_remote env srv client u area_code local_num offer)
    else elim (lookup local_num srv.clients) [
      | none ↦ done (call_offline env srv client u local_num offer)
      | some callee ↦ call_online env srv client u callee offer
    ]

-- handleCall for a registered client.
unfoldable pub dial : Env → Server → ℕ → User → CallRequest → Outcome Server
unfolding is_service_code handle_service_call parse_number place_call send_error
dial env srv client u msg =
    if is_service_code msg.destination
    then handle_service_call env srv client u msg
    else elim (parse_number msg.destination srv.area_code) [
      | none ↦ done (send_error srv client 400 "invalid destination")
      | some (area_code, local_num) ↦ place_call env srv client u area_code local_num msg.offer
    ]

-- handleCall
unfoldable pub handle_call_request : Env → Server → ℕ → CallRequest → Outcome Server
unfolding send_error dial
handle_call_request env srv client msg = elim (srv.at client).user [
  | none ↦ done (send_error srv client 401 "not registered")
  | some u ↦ dial env srv client u msg
]
