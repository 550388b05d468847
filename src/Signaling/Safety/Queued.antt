-- ===== src/Signaling/Safety/Queued.antt =====
-- `IsSound` through pending calls.
use open_carrier_network.Prelude.{
  ℕ, some, [], ◌∷◌, String, Text, text_eq, string_eq, if-by, Option-by,
}
use open_carrier_network.Prelude.Table.{Table, lookup}
use open_carrier_network.Signaling.Messages.{PhoneNumber}
use open_carrier_network.Signaling.State.{PendingCall, Env, Server}
use open_carrier_network.Signaling.Send.{is_online}
use open_carrier_network.Signaling.Voicemail.{
  find_user_or_nil, route_to_voicemail, route_inbound_voicemail,
}
use open_carrier_network.Signaling.Pending.{
  pending_number, remove_pending_by_call_id, remove_in_leg, ring_callee, deliver,
  deliver_pending_call, expire_remote, expire_local, expired_calls, waiting_calls, expire_call,
  expire_all, expire_pending_calls,
}
use open_carrier_network.Signaling.Safety.Parts.{IsSound, LeavesSound, sound_rules}
use open_carrier_network.Signaling.Safety.Diverted.{
  route_to_voicemail-IsSound, route_inbound_voicemail-IsSound,
}

pub remove_pending_by_call_id-IsSound :
    (srv : Server) (id : String) → IsSound srv → IsSound (remove_pending_by_call_id srv id).0
unfolding remove_pending_by_call_id
remove_pending_by_call_id-IsSound srv id k =
    Option-by LeavesSound (pending_number id srv.pending_calls) _ _ k
      λ num _. record { registered = k.registered; rung = k.rung; bounded = k.bounded }

pub remove_in_leg-IsSound :
    (srv : Server) (id : String) → IsSound srv → IsSound (remove_in_leg srv id)
unfolding remove_in_leg
remove_in_leg-IsSound srv id k = record {
  registered = k.registered;
  rung = k.rung;
  bounded = k.bounded;
}

pub ruleset queue_rules = (sound_rules, remove_pending_by_call_id-IsSound, remove_in_leg-IsSound)

ring_callee-IsSound :
    (srv : Server) (callee : ℕ) (p : PendingCall) (number : PhoneNumber) (name : Text)
    → IsSound srv
    → IsSound (ring_callee srv callee p number name)
unfolding ring_callee
ring_callee-IsSound srv callee p number name k =
    Option-by IsSound p.caller _ _ (search sound_rules) λ caller _. search sound_rules

deliver-IsSound :
    (srv : Server) (callee : ℕ) (p : PendingCall) → IsSound srv → IsSound (deliver srv callee p)
unfolding deliver
deliver-IsSound srv callee p k =
    if-by IsSound p.remote _ _
      (Option-by IsSound (lookup p.call_id srv.in_legs) _ _ k
        λ leg _. search (sound_rules, ring_callee-IsSound))
      (if-by IsSound (is_online srv p.caller) _ _
        (Option-by IsSound p.caller _ _ k λ caller _.
          Option-by IsSound (srv.at caller).user _ _ k
            λ u _. ring_callee-IsSound srv callee p _ _ k)
        k)

pub deliver_pending_call-IsSound :
    (srv : Server) (callee : ℕ) → IsSound srv → IsSound (deliver_pending_call srv callee)
unfolding deliver_pending_call
deliver_pending_call-IsSound srv callee k = Option-by IsSound (srv.at callee).user _ _ k λ u _.
    Option-by IsSound (lookup u.number srv.pending_calls) _ _ k λ p _.
      deliver-IsSound _ callee p
        (record { registered = k.registered; rung = k.rung; bounded = k.bounded })

expire_remote-IsSound :
    (env : Env) (srv : Server) (p : PendingCall) → IsSound srv → IsSound (expire_remote env srv p)
unfolding expire_remote
expire_remote-IsSound env srv p k =
    let routed = route_inbound_voicemail-IsSound env srv p.call_id k in
    Option-by IsSound (lookup p.call_id srv.in_legs) _ _ (search queue_rules) λ leg _.
      if-by IsSound (route_inbound_voicemail env srv p.call_id).1 _ _ routed (search queue_rules)

expire_local-IsSound :
    (env : Env) (srv : Server) (num : Text) (p : PendingCall) (caller : ℕ)
    → IsSound srv
    → IsSound (expire_local env srv num p caller)
unfolding expire_local
expire_local-IsSound env srv num p caller k =
    let found = find_user_or_nil env srv num in
    let routed = route_to_voicemail-IsSound env srv (some caller) found p.offer p.call_id k in
    if-by IsSound (route_to_voicemail env srv (some caller) found p.offer p.call_id).1 _ _ routed
      (search sound_rules)

expire_call-IsSound :
    (env : Env) (srv : Server) (num : Text) (p : PendingCall)
    → IsSound srv
    → IsSound (expire_call env srv num p)
unfolding expire_call
expire_call-IsSound env srv num p k =
    if-by IsSound p.remote _ _ (expire_remote-IsSound env srv p k) (
      if-by IsSound (is_online srv p.caller) _ _
        (Option-by IsSound p.caller _ _ k λ caller _. expire_local-IsSound env srv num p caller k)
        k)

expire_all-IsSound :
    (env : Env) (calls : Table Text PendingCall) (srv : Server)
    → IsSound srv
    → IsSound (expire_all env calls srv)
unfolding expire_all
expire_all-IsSound env [] srv k = k
expire_all-IsSound env ((num, p) ∷ rest) srv k =
    expire_all-IsSound env rest _ (expire_call-IsSound env srv num p k)

pub expire_pending_calls-IsSound :
    (env : Env) (srv : Server) → IsSound srv → IsSound (expire_pending_calls env srv)
unfolding expire_pending_calls
expire_pending_calls-IsSound env srv k =
    expire_all-IsSound env (expired_calls srv env srv.pending_calls)
      (record srv { pending_calls = waiting_calls srv env srv.pending_calls })
      (record { registered = k.registered; rung = k.rung; bounded = k.bounded })
