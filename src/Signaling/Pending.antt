-- ===== src/Signaling/Pending.antt =====
-- Calls to a callee that is offline, kept while a push wakes its phone: removePendingByCallID,
-- deliverPendingCall and one tick of expirePendingCalls in server.go.
use open_carrier_network.Prelude.{
  ℕ, ◌+◌, Bool, true, false, Option, none, some, [], ◌∷◌, String, Text, ◌==◌, nat_eq, text_eq,
  string_eq, if◌then◌else◌, ltb,
}
use open_carrier_network.Prelude.Table.{Table, lookup, insert, delete}
use open_carrier_network.Signaling.Messages.{PhoneNumber, incoming_call, call_ended, hangup}
use open_carrier_network.Signaling.State.{sent, PendingCall, Env, Server}
use open_carrier_network.Signaling.Send.{send_message, set_call_id, clear_call_id, is_online, act}
use open_carrier_network.Signaling.Voicemail.{
  find_user_or_nil, set_leg, route_to_voicemail, route_inbound_voicemail,
}

-- The number under which a call is queued.
unfoldable pub pending_number : String → Table Text PendingCall → Option Text
pending_number call_id [] = none
pending_number call_id ((num, p) ∷ rest) =
    if p.call_id == call_id then some num else pending_number call_id rest

-- removePendingByCallID
unfoldable pub remove_pending_by_call_id : Server → String → Server × Bool
unfolding pending_number delete
remove_pending_by_call_id srv call_id = elim (pending_number call_id srv.pending_calls) [
  | none ↦ (srv, false)
  | some num ↦ (record srv { pending_calls = delete num srv.pending_calls }, true)
]

-- removeInLeg
unfoldable pub remove_in_leg : Server → String → Server
unfolding delete
remove_in_leg srv call_id = record srv { in_legs = delete call_id srv.in_legs }

-- The last lines of deliverPendingCall: ring the callee that has come back.
unfoldable pub ring_callee : Server → ℕ → PendingCall → PhoneNumber → Text → Server
unfolding send_message set_call_id
ring_callee srv callee p number name =
    let told = send_message srv callee (incoming_call p.call_id number name p.offer) in
    elim p.caller [
      | none ↦ set_call_id told callee p.call_id
      | some caller ↦ set_call_id (set_call_id told caller p.call_id) callee p.call_id
    ]

-- deliverPendingCall for a call that was queued under the callee's number, now taken out.
unfoldable pub deliver : Server → ℕ → PendingCall → Server
unfolding lookup insert is_online ring_callee
deliver srv callee p =
    if p.remote
    then elim (lookup p.call_id srv.in_legs) [
      | none ↦ srv
      | some leg ↦
          ring_callee (set_leg srv p.call_id (record leg { callee = some callee })) callee
            (record p { caller = none })
            (record { area_code = leg.caller_area; number = leg.caller_num }) leg.caller_name
    ]
    else if is_online srv p.caller
    then elim p.caller [
      | none ↦ srv
      | some caller ↦ elim (srv.at caller).user [
        | none ↦ srv
        | some u ↦
            ring_callee srv callee p (record { area_code = u.area_code; number = u.number })
              u.display_name
      ]
    ]
    else srv

-- deliverPendingCall
unfoldable pub deliver_pending_call : Server → ℕ → Server
unfolding lookup delete deliver
deliver_pending_call srv callee = elim (srv.at callee).user [
  | none ↦ srv
  | some u ↦ elim (lookup u.number srv.pending_calls) [
    | none ↦ srv
    | some p ↦ deliver (record srv { pending_calls = delete u.number srv.pending_calls }) callee p
  ]
]

-- time.Since(p.createdAt) > timeout
abbrev pub is_expired : Server → Env → PendingCall → Bool
is_expired srv env p = ltb (p.created_at + srv.pending_call_timeout) env.now

-- The two halves of the range loop: the calls to end, and those that stay.
unfoldable pub expired_calls : Server → Env → Table Text PendingCall → Table Text PendingCall
expired_calls srv env [] = []
expired_calls srv env ((num, p) ∷ rest) =
    let more = expired_calls srv env rest in if is_expired srv env p then (num, p) ∷ more else more

unfoldable pub waiting_calls : Server → Env → Table Text PendingCall → Table Text PendingCall
waiting_calls srv env [] = []
waiting_calls srv env ((num, p) ∷ rest) =
    let more = waiting_calls srv env rest in if is_expired srv env p then more else (num, p) ∷ more

-- One expired call of a caller on another exchange.
unfoldable pub expire_remote : Env → Server → PendingCall → Server
unfolding lookup route_inbound_voicemail remove_in_leg
expire_remote env srv p = elim (lookup p.call_id srv.in_legs) [
  | none ↦ remove_in_leg srv p.call_id
  | some leg ↦
      let (routed, ok) = route_inbound_voicemail env srv p.call_id in
      if ok
      then routed
      else remove_in_leg (act (sent leg.stream (hangup p.call_id "no answer")) routed) p.call_id
]

-- One expired call of a local caller that is still online.
unfoldable pub expire_local : Env → Server → Text → PendingCall → ℕ → Server
unfolding find_user_or_nil route_to_voicemail clear_call_id send_message
expire_local env srv num p caller =
    let (routed, ok) =
      route_to_voicemail env srv (some caller) (find_user_or_nil env srv num) p.offer p.call_id in
    if ok
    then routed
    else send_message (clear_call_id routed caller p.call_id) caller
        (call_ended p.call_id "no answer")

unfoldable pub expire_call : Env → Server → Text → PendingCall → Server
unfolding expire_remote expire_local is_online
expire_call env srv num p =
    if p.remote
    then expire_remote env srv p
    else if is_online srv p.caller
    then elim p.caller [ none ↦ srv | some caller ↦ expire_local env srv num p caller ]
    else srv

unfoldable pub expire_all : Env → Table Text PendingCall → Server → Server
unfolding expire_call
expire_all env [] srv = srv
expire_all env ((num, p) ∷ rest) srv = expire_all env rest (expire_call env srv num p)

-- One tick of expirePendingCalls.
unfoldable pub expire_pending_calls : Env → Server → Server
unfolding expired_calls waiting_calls expire_all
expire_pending_calls env srv =
    expire_all env (expired_calls srv env srv.pending_calls)
      (record srv { pending_calls = waiting_calls srv env srv.pending_calls })
