-- ===== src/Signaling/Bridge.antt =====
-- An inbound leg of bridge.go, whose caller is on another exchange: its no-answer timer, a decline,
-- and the hangup of either side. closeLocalLeg is in server.go.
use open_carrier_network.Prelude.{
  ℕ, Bool, true, false, not, ◌||◌, none, some, String, ◌==◌, nat_eq, string_eq, if◌then◌else◌,
}
use open_carrier_network.Prelude.Table.{lookup, insert, delete}
use open_carrier_network.Store.Users.{is_some}
use open_carrier_network.Signaling.Messages.{call_ended, hangup}
use open_carrier_network.Signaling.State.{sent, end_call, Env, InLeg, Server}
use open_carrier_network.Signaling.Send.{send_message, clear_call_id, act}
use open_carrier_network.Signaling.Voicemail.{set_leg, route_inbound_voicemail}
use open_carrier_network.Signaling.Pending.{remove_pending_by_call_id, remove_in_leg}

-- leg.callee == client
abbrev pub is_callee : InLeg → ℕ → Bool
is_callee leg client = elim leg.callee [ none ↦ false | some c ↦ c == client ]

-- closeLocalLeg
unfoldable pub close_local_leg : Server → ℕ → String → String → Server × Bool
unfolding lookup delete remove_in_leg
close_local_leg srv client call_id reason = elim (lookup call_id srv.out_legs) [
  | some leg ↦ (
    act (sent leg.stream (hangup call_id reason))
        (record srv { out_legs = delete call_id srv.out_legs }),
    true,
  )
  | none ↦ elim (lookup call_id srv.in_legs) [
    | none ↦ (srv, false)
    | some leg ↦
        if is_callee leg client
        then (act (sent leg.stream (hangup call_id reason)) (remove_in_leg srv call_id), true)
        else (srv, false)
  ]
]

-- endInboundCalleeRing
unfoldable pub end_inbound_callee_ring : Server → String → Server
unfolding lookup insert clear_call_id send_message
end_inbound_callee_ring srv call_id = elim (lookup call_id srv.in_legs) [
  | none ↦ srv
  | some leg ↦
      let freed = set_leg srv call_id (record leg { callee = none }) in
      elim leg.callee [
        | none ↦ freed
        | some callee ↦
            send_message (clear_call_id freed callee call_id) callee
              (call_ended call_id "no answer")
      ]
]

-- Route the remote caller into voicemail, or hang up on it: the last lines of onInboundRingTimeout
-- and declineInboundCallee.
unfoldable pub divert_remote : Env → Server → String → ℕ → String → Server
unfolding route_inbound_voicemail remove_in_leg
divert_remote env srv call_id stream reason =
    let (routed, ok) = route_inbound_voicemail env srv call_id in
    if ok then routed else remove_in_leg (act (sent stream (hangup call_id reason)) routed) call_id

-- onInboundRingTimeout
unfoldable pub on_inbound_ring_timeout : Env → Server → String → Server
unfolding lookup insert end_inbound_callee_ring divert_remote
on_inbound_ring_timeout env srv call_id = elim (lookup call_id srv.in_legs) [
  | none ↦ srv
  | some leg ↦
      if not (is_some leg.callee) || leg.answered || is_some leg.service
      then srv
      else divert_remote env
          (end_inbound_callee_ring (set_leg srv call_id (record leg { timer = false })) call_id)
          call_id leg.stream "no answer"
]

-- declineInboundCallee
unfoldable pub decline_inbound_callee : Env → Server → ℕ → String → Server × Bool
unfolding lookup insert clear_call_id divert_remote
decline_inbound_callee env srv client call_id = elim (lookup call_id srv.in_legs) [
  | none ↦ (srv, false)
  | some leg ↦
      if not (is_callee leg client) || leg.answered || is_some leg.service then (srv, false) else (
        divert_remote env
            (clear_call_id (set_leg srv call_id (record leg { timer = false; callee = none }))
              client call_id)
            call_id leg.stream "declined",
        true,
      )
]

-- orDefault
unfoldable pub or_default : String → String → String
or_default s d = if s == "" then d else s

-- inboundRemoteHangup
unfoldable pub inbound_remote_hangup : Server → String → String → Server
unfolding lookup remove_in_leg remove_pending_by_call_id clear_call_id send_message or_default
inbound_remote_hangup srv call_id reason = elim (lookup call_id srv.in_legs) [
  | none ↦ (remove_pending_by_call_id srv call_id).0
  | some leg ↦
      let removed = remove_in_leg srv call_id in
      elim leg.service [
        | some svc ↦ act (end_call svc call_id) removed
        | none ↦ elim leg.callee [
          | none ↦ (remove_pending_by_call_id removed call_id).0
          | some callee ↦
              send_message (clear_call_id removed callee call_id) callee
                (call_ended call_id (or_default reason "hangup"))
        ]
      ]
]
