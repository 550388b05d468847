-- ===== src/Signaling/Voicemail.antt =====
-- How a call is handed to voicemail: routeToVoicemail and endServiceCall of server.go for a local
-- caller, routeInboundVoicemail of bridge.go for a caller on another exchange. Two nested `elim`s
-- read the pointers that the source tests against nil.
use open_carrier_network.Prelude.{
  ℕ, Bool, true, false, ◌&&◌, Option, none, some, List, [], ◌∷◌, String, Text, ◌==◌, string_eq,
  if◌then◌else◌,
}
use open_carrier_network.Prelude.Table.{lookup, insert, delete}
use open_carrier_network.Numbers.{canonical_number}
use open_carrier_network.Store.Tables.{User}
use open_carrier_network.Signaling.Messages.{
  Sdp, IceCandidate, call_connected, call_ended, answer, hangup,
}
use open_carrier_network.Signaling.State.{
  Service, leave, sent, handle_call, handle_ice, end_call, Env, InLeg, Server,
}
use open_carrier_network.Signaling.Send.{
  send_message, set_call_id, clear_call_id, is_online, act, find_user,
}

-- A nil error and a missing row are one to `recipient, _ := srv.store.GetUserByNumber(number)`.
unfoldable pub find_user_or_nil : Env → Server → Text → Option User
unfolding find_user
find_user_or_nil env srv number = elim (find_user env srv number) [
  | none ↦ none
  | some found ↦ found
]

-- The identifier that a voicemail session takes over, or a new one.
abbrev reuse_or_fresh : Env → String → String
reuse_or_fresh env reuse = if reuse == "" then env.fresh_recording else reuse

-- canonicalNumber and the name of the caller's user.
abbrev pub recorder : User → Option User → Service
recorder recipient none = leave recipient [] []
recorder recipient (some u) = leave recipient (canonical_number u.area_code u.number) u.display_name

-- The rest of routeToVoicemail, once its guard has passed.
unfoldable pub answer_by_voicemail : Env → Server → ℕ → User → Sdp → String → Server × Bool
unfolding send_message set_call_id insert
answer_by_voicemail env srv caller recipient offer call_id =
    let lv = recorder recipient (srv.at caller).user in
    let called = act (handle_call lv call_id offer.sdp) srv in
    elim (env.media_answer call_id) [
      | none ↦ (called, false)
      | some sdp ↦ (
        send_message
            (set_call_id
              (record called {
                svc_calls = insert call_id (record { client = caller; service = lv }) srv.svc_calls;
              })
              caller call_id)
            caller
            (call_connected call_id (some (record { sdp = sdp; type = "answer" }))
              (some (record { code = "vm"; name = "Voicemail" }))),
        true,
      )
    ]

-- routeToVoicemail
unfoldable pub route_to_voicemail :
    Env → Server → Option ℕ → Option User → Option Sdp → String → Server × Bool
unfolding answer_by_voicemail is_online
route_to_voicemail env srv none recipient offer reuse = (srv, false)
route_to_voicemail env srv (some caller) none offer reuse = (srv, false)
route_to_voicemail env srv (some caller) (some recipient) none reuse = (srv, false)
route_to_voicemail env srv (some caller) (some recipient) (some offer) reuse =
    if srv.vm_enabled && is_online srv (some caller)
    then answer_by_voicemail env srv caller recipient offer (reuse_or_fresh env reuse)
    else (srv, false)

-- endServiceCall, for a caller that is not nil.
unfoldable pub end_service_call : Server → ℕ → String → String → Server
unfolding lookup delete clear_call_id send_message
end_service_call srv caller call_id reason =
    let removed = record srv { svc_calls = delete call_id srv.svc_calls } in
    let told =
      send_message (clear_call_id removed caller call_id) caller (call_ended call_id reason) in
    elim (lookup call_id srv.svc_calls) [
      | none ↦ told
      | some sc ↦ act (end_call sc.service call_id) told
    ]

-- A write through the pointer to the leg that stands in the table.
abbrev pub set_leg : Server → String → InLeg → Server
set_leg srv call_id leg = record srv { in_legs = insert call_id leg srv.in_legs }

-- `for _, c := range buffered { lv.HandleICE(c) }`
unfoldable pub replay_candidates : Service → String → List IceCandidate → Server → Server
replay_candidates lv call_id [] srv = srv
replay_candidates lv call_id (c ∷ cs) srv =
    replay_candidates lv call_id cs (act (handle_ice lv call_id c) srv)

-- The rest of routeInboundVoicemail, once its guards have passed.
unfoldable pub answer_inbound : Env → Server → String → InLeg → User → Sdp → Server × Bool
unfolding insert replay_candidates
answer_inbound env srv call_id leg recipient offer =
    let lv = leave recipient (canonical_number leg.caller_area leg.caller_num) leg.caller_name in
    let taken = record leg { service = some lv; callee = none; answered = true } in
    let called = act (handle_call lv call_id offer.sdp) (set_leg srv call_id taken) in
    elim (env.media_answer call_id) [
      | none ↦ (
        act (end_call lv call_id)
            (set_leg called call_id (record taken { service = none; answered = false })),
        false,
      )
      | some sdp ↦ (
        replay_candidates lv call_id leg.candidates (
            act (sent leg.stream (answer call_id (some (record { sdp = sdp; type = "answer" }))))
              called),
        true,
      )
    ]

-- routeInboundVoicemail, for the leg that stands in the table under `call_id`.
unfoldable pub route_inbound_voicemail : Env → Server → String → Server × Bool
unfolding lookup find_user_or_nil answer_inbound
route_inbound_voicemail env srv call_id = elim (lookup call_id srv.in_legs) [
  | none ↦ (srv, false)
  | some leg ↦ elim leg.offer [
    | none ↦ (srv, false)
    | some offer ↦ elim (find_user_or_nil env srv leg.callee_num) [
      | none ↦ (srv, false)
      | some recipient ↦
          if srv.vm_enabled
          then answer_inbound env srv call_id leg recipient offer
          else (srv, false)
    ]
  ]
]

-- OnSelfEnd of the inbound recorder, run when the recording cap is reached.
unfoldable pub inbound_self_end : Server → String → ℕ → Server
unfolding delete
inbound_self_end srv call_id stream =
    act (sent stream (hangup call_id "voicemail complete"))
      (record srv { in_legs = delete call_id srv.in_legs })
