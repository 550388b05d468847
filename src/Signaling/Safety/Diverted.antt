-- ===== src/Signaling/Safety/Diverted.antt =====
-- `IsSound` through voicemail and rings.
use open_carrier_network.Prelude.{
  ℕ, ◌≡◌, true, ◌&&◌, Option, none, some, List, [], ◌∷◌, String, arith, nat_eq, text_eq, string_eq,
  if◌then◌else◌, inl, inr, Bool-cases, Option-cases, if-by, Option-by,
}
use open_carrier_network.Prelude.Table.{lookup, Values-delete, Values-insert, Values-lookup}
use open_carrier_network.Store.Tables.{User}
use open_carrier_network.Store.Users.{is_some}
use open_carrier_network.Signaling.Messages.{Sdp, IceCandidate, call_ended}
use open_carrier_network.Signaling.State.{Service, RingState, InLeg, Env, Server, done, panicked}
use open_carrier_network.Signaling.Send.{send_message, clear_call_id, is_online}
use open_carrier_network.Signaling.Voicemail.{
  answer_by_voicemail, route_to_voicemail, end_service_call, replay_candidates, answer_inbound,
  route_inbound_voicemail, inbound_self_end, find_user_or_nil,
}
use open_carrier_network.Signaling.Ring.{
  start_ring, take_ring, divert_caller, ring_out, on_ring_timeout,
}
use open_carrier_network.Signaling.Safety.Parts.{
  HasUser, HasCallee, IsSound, LeavesSound, Returns, sound_rules, end_for_client-IsSound,
}

answer_by_voicemail-IsSound :
    (env : Env) (srv : Server) (caller : ℕ) (recipient : User) (offer : Sdp) (id : String)
    → IsSound srv
    → IsSound (answer_by_voicemail env srv caller recipient offer id).0
unfolding answer_by_voicemail
answer_by_voicemail-IsSound env srv caller recipient offer id k =
    elim (Option-cases (env.media_answer id)) [
      | inl e ↦ rw (e, answer_by_voicemail) (search sound_rules)
      | inr (sdp, e) ↦ rw (e, answer_by_voicemail) (search sound_rules)
    ]

pub route_to_voicemail-IsSound :
    (env : Env) (srv : Server) (caller : Option ℕ) (recipient : Option User) (offer : Option Sdp)
    (id : String)
    → IsSound srv
    → IsSound (route_to_voicemail env srv caller recipient offer id).0
unfolding route_to_voicemail
route_to_voicemail-IsSound env srv none recipient offer id k = k
route_to_voicemail-IsSound env srv (some caller) none offer id k = k
route_to_voicemail-IsSound env srv (some caller) (some recipient) none id k = k
route_to_voicemail-IsSound env srv (some caller) (some recipient) (some offer) id k =
    elim (Bool-cases (srv.vm_enabled && is_online srv (some caller))) [
      | inl e ↦ rw e (answer_by_voicemail-IsSound env srv caller recipient offer _ k)
      | inr e ↦ rw e k
    ]

pub end_service_call-IsSound :
    (srv : Server) (caller : ℕ) (id reason : String)
    → IsSound srv
    → IsSound (end_service_call srv caller id reason)
unfolding end_service_call
end_service_call-IsSound srv caller id reason k = elim (Option-cases (lookup id srv.svc_calls)) [
  | inl e ↦ rw (e, end_service_call) (search sound_rules)
  | inr (sc, e) ↦ rw (e, end_service_call) (search sound_rules)
]

replay_candidates-IsSound :
    (lv : Service) (id : String) (cs : List IceCandidate) (srv : Server)
    → IsSound srv
    → IsSound (replay_candidates lv id cs srv)
unfolding replay_candidates
replay_candidates-IsSound lv id [] srv k = k
replay_candidates-IsSound lv id (c ∷ cs) srv k =
    replay_candidates-IsSound lv id cs _ (search sound_rules)

answer_inbound-IsSound :
    (env : Env) (srv : Server) (id : String) (leg : InLeg) (recipient : User) (offer : Sdp)
    → IsSound srv
    → IsSound (answer_inbound env srv id leg recipient offer).0
unfolding answer_inbound
answer_inbound-IsSound env srv id leg recipient offer k =
    elim (Option-cases (env.media_answer id)) [
      | inl e ↦ rw (e, answer_inbound) (search sound_rules)
      | inr (sdp, e) ↦ rw (e, answer_inbound) (search (sound_rules, replay_candidates-IsSound))
    ]

pub route_inbound_voicemail-IsSound :
    (env : Env) (srv : Server) (id : String)
    → IsSound srv
    → IsSound (route_inbound_voicemail env srv id).0
unfolding route_inbound_voicemail
route_inbound_voicemail-IsSound env srv id k =
    Option-by LeavesSound (lookup id srv.in_legs) _ _ k λ leg _.
      Option-by LeavesSound leg.offer _ _ k λ offer _.
        Option-by LeavesSound (find_user_or_nil env srv leg.callee_num) _ _ k λ recipient _.
          if-by LeavesSound srv.vm_enabled _ _
            (answer_inbound-IsSound env srv id leg recipient offer k) k

pub inbound_self_end-IsSound :
    (srv : Server) (id : String) (stream : ℕ)
    → IsSound srv
    → IsSound (inbound_self_end srv id stream)
unfolding inbound_self_end
inbound_self_end-IsSound srv id stream k = record {
  registered = k.registered;
  rung = k.rung;
  bounded = k.bounded;
}

-- A ring starts toward a callee that has a user.
pub start_ring-IsSound :
    (srv : Server) (id : String) (caller callee : ℕ) (offer : Option Sdp)
    → HasUser srv.at callee
    → IsSound srv
    → IsSound (start_ring srv id caller callee offer)
unfolding start_ring
start_ring-IsSound srv id caller callee offer h k = record {
  registered = k.registered;
  rung = search (Values-insert, h, k.rung);
  bounded = k.bounded;
}

pub take_ring-IsSound : (srv : Server) (id : String) → IsSound srv → IsSound (take_ring srv id).0
unfolding take_ring
take_ring-IsSound srv id k = Option-by LeavesSound (lookup id srv.ring_states) _ _ k λ rs _.
    record {
      registered = k.registered;
      rung = Values-delete HasCallee id srv.ring_states k.rung;
      bounded = k.bounded;
    }

pub take_ring-HasCallee :
    (srv : Server) (id : String) (rs : RingState)
    → IsSound srv
    → (take_ring srv id).1 ≡ some rs
    → HasCallee rs
unfolding take_ring
take_ring-HasCallee srv id rs k found =
    Values-lookup HasCallee id rs srv.ring_states k.rung (ground arith)

pub divert_caller-IsSound :
    (env : Env) (srv : Server) (rs : RingState) (id reason : String)
    → IsSound srv
    → IsSound (divert_caller env srv rs id reason)
unfolding divert_caller
divert_caller-IsSound env srv rs id reason k =
    let r = route_to_voicemail env srv (some rs.caller) rs.callee_user rs.offer id in
    let routed = route_to_voicemail-IsSound env srv (some rs.caller) rs.callee_user rs.offer id k in
    if-by IsSound r.1 _ _ routed (end_for_client-IsSound r.0 rs.caller id reason routed)

ring_out-IsSound :
    (env : Env) (srv : Server) (rs : RingState) (id : String)
    → HasCallee rs
    → IsSound srv
    → Returns IsSound (ring_out env srv rs id)
unfolding ring_out
ring_out-IsSound env srv rs id h k = callee rs.callee_user h
  where
    stopped : Server
    stopped = send_message (clear_call_id srv rs.callee id) rs.callee (call_ended id "no answer")

    stopped_known : IsSound stopped
    stopped_known = search sound_rules

    callee :
        (u : Option User)
        → is_some u ≡ true
        → Returns IsSound (elim u [
          | none ↦ panicked
          | some v ↦ done (
              if is_online stopped (some rs.caller)
              then divert_caller env stopped rs id "no answer"
              else stopped)
        ])
    callee none h = cc
    callee (some u) h =
        if-by IsSound (is_online stopped (some rs.caller)) _ _
          (divert_caller-IsSound env stopped rs id "no answer" stopped_known) stopped_known

-- The no-answer timer never reads a missing callee.
pub on_ring_timeout-IsSound :
    (env : Env) (srv : Server) (id : String)
    → IsSound srv
    → Returns IsSound (on_ring_timeout env srv id)
unfolding on_ring_timeout
on_ring_timeout-IsSound env srv id k =
    Option-by (Returns IsSound) (take_ring srv id).1 _ _ k λ rs found.
      ring_out-IsSound env _ rs id (take_ring-HasCallee srv id rs k found)
        (take_ring-IsSound srv id k)
