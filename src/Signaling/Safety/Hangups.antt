-- ===== src/Signaling/Safety/Hangups.antt =====
-- `IsSound` through handleICECandidate, handleCallHangup and handleCallDecline.
use open_carrier_network.Prelude.{
  ℕ, ◌≡◌, refl, sym, ◌∙◌, ap, false, true≢false, not, ◌&&◌, Option, none, some, [], ◌∷◌, String,
  Text, ◌==◌, nat_eq, text_eq, string_eq, if◌then◌else◌, if-by, Option-by, Option-cases, inl, inr,
}
use open_carrier_network.Prelude.Table.{Table, lookup, Values, Values-map}
use open_carrier_network.Store.Users.{is_some}
use open_carrier_network.Signaling.Messages.{IceCandidate, ice}
use open_carrier_network.Signaling.State.{sent, RingState, Env, Server, done, ◌>>=◌}
use open_carrier_network.Signaling.Send.{act}
use open_carrier_network.Signaling.Ring.{take_ring}
use open_carrier_network.Signaling.Pending.{remove_pending_by_call_id}
use open_carrier_network.Signaling.Bridge.{close_local_leg, decline_inbound_callee, is_callee}
use open_carrier_network.Signaling.Answer.{is_peer, forward_candidate, handle_ice_candidate}
use open_carrier_network.Signaling.Hangup.{
  end_peer, hang_up_peer, hang_up_peers, hang_up_rest, hang_up_leg, hang_up_ring, hang_up_call,
  handle_call_hangup, decline, handle_call_decline,
}
use open_carrier_network.Signaling.Safety.Parts.{
  HasUser, IsSound, Returns, send_message-HasUser, set_call_id-HasUser, set_call_id-IsSound,
  clear_call_id-IsSound,
}
use open_carrier_network.Signaling.Safety.Diverted.{take_ring-IsSound, divert_caller-IsSound}
use open_carrier_network.Signaling.Safety.Queued.{remove_pending_by_call_id-IsSound, queue_rules}
use open_carrier_network.Signaling.Safety.Legs.{
  close_local_leg-IsSound, decline_inbound_callee-IsSound,
}

forward_candidate-IsSound :
    (id : String) (client : ℕ) (candidate : Option IceCandidate) (clients : Table Text ℕ)
    (srv : Server)
    → IsSound srv
    → IsSound (forward_candidate srv id client candidate clients)
unfolding forward_candidate
forward_candidate-IsSound id client candidate [] srv k = k
forward_candidate-IsSound id client candidate ((num, c) ∷ rest) srv k =
    forward_candidate-IsSound id client candidate rest _
      (if-by IsSound (is_peer srv id client c) _ _ (search queue_rules) k)

-- A candidate that is missing does no harm unless it is for a service call.
pub handle_ice_candidate-IsSound :
    (srv : Server) (client : ℕ) (id : String) (candidate : Option IceCandidate)
    → (is_some (lookup id srv.svc_calls) && not (is_some candidate)) ≡ false
    → IsSound srv
    → Returns IsSound (handle_ice_candidate srv client id candidate)
unfolding handle_ice_candidate
handle_ice_candidate-IsSound srv client id candidate safe k =
    Option-by (Returns IsSound) (srv.at client).user _ _ k λ u _.
      Option-by (Returns IsSound) (lookup id srv.svc_calls) _ _ past_services λ sc found.
        elim (Option-cases candidate) [
          | inl e ↦ absurd (true≢false (sym (rw (found, e) refl) ∙ safe))
          | inr (c, e) ↦
              rw e (record { registered = k.registered; rung = k.rung; bounded = k.bounded })
        ]
  where
    past_services : Returns IsSound (elim (lookup id srv.out_legs) [
      | some leg ↦ done (act (sent leg.stream (ice id candidate)) srv)
      | none ↦ elim (lookup id srv.in_legs) [
        | none ↦ done (forward_candidate srv id client candidate srv.clients)
        | some leg ↦
            if is_callee leg client
            then done (act (sent leg.stream (ice id candidate)) srv)
            else done (forward_candidate srv id client candidate srv.clients)
      ]
    ])
    past_services =
        let forwarded = forward_candidate-IsSound id client candidate srv.clients srv k in
        Option-by (Returns IsSound) (lookup id srv.out_legs) _ _
          (Option-by (Returns IsSound) (lookup id srv.in_legs) _ _ forwarded λ leg _.
            if-by (Returns IsSound) (is_callee leg client) _ _
              (record { registered = k.registered; rung = k.rung; bounded = k.bounded }) forwarded)
          λ leg _. record { registered = k.registered; rung = k.rung; bounded = k.bounded }

pub end_peer-IsSound :
    (srv : Server) (c : ℕ) (id reason : String) → IsSound srv → IsSound (end_peer srv c id reason)
unfolding end_peer
end_peer-IsSound srv c id reason k = search queue_rules

end_peer-HasUser :
    (srv : Server) (c : ℕ) (id reason : String) (d : ℕ)
    → HasUser srv.at d
    → HasUser (end_peer srv c id reason).at d
unfolding end_peer
end_peer-HasUser srv c id reason d h = search (send_message-HasUser, set_call_id-HasUser, h)

hang_up_peers-IsSound :
    (srv : Server) (id : String) (client : ℕ) (clients : Table Text ℕ)
    → Values (HasUser srv.at) clients
    → IsSound srv
    → Returns IsSound (hang_up_peers srv id client clients)
unfolding hang_up_peers hang_up_peer
hang_up_peers-IsSound srv id client [] all k = k
hang_up_peers-IsSound srv id client ((num, c) ∷ rest) (u, all) k =
    if-by (λ o. Returns IsSound (o >>= λ s. hang_up_peers s id client rest))
      (is_peer srv id client c) _ _
      (elim (Option-cases (srv.at c).user) [
        | inl e ↦ absurd (true≢false (sym u ∙ ap is_some e))
        | inr (v, e) ↦ rw e (
            hang_up_peers-IsSound (end_peer srv c id "hangup") id client rest
              (Values-map (end_peer-HasUser srv c id "hangup") rest all)
              (end_peer-IsSound srv c id "hangup" k))
      ])
      (hang_up_peers-IsSound srv id client rest all k)

hang_up_rest-IsSound :
    (srv : Server) (client : ℕ) (id : String)
    → IsSound srv
    → Returns IsSound (hang_up_rest srv client id)
unfolding hang_up_rest
hang_up_rest-IsSound srv client id k =
    if-by (Returns IsSound) (remove_pending_by_call_id srv id).1 _ _
      (remove_pending_by_call_id-IsSound srv id k)
      (Option-by (Returns IsSound) (lookup id srv.svc_calls) _ _
        (hang_up_peers-IsSound srv id client srv.clients k.registered k)
        λ sc _. record { registered = k.registered; rung = k.rung; bounded = k.bounded })

hang_up_leg-IsSound :
    (env : Env) (srv : Server) (client : ℕ) (id : String)
    → IsSound srv
    → Returns IsSound (hang_up_leg env srv client id)
unfolding hang_up_leg
hang_up_leg-IsSound env srv client id k =
    if-by (Returns IsSound) (decline_inbound_callee env srv client id).1 _ _
      (decline_inbound_callee-IsSound env srv client id k)
      (if-by (Returns IsSound) (close_local_leg srv client id "hangup").1 _ _
        (close_local_leg-IsSound srv client id "hangup" k) (hang_up_rest-IsSound srv client id k))

hang_up_ring-IsSound :
    (env : Env) (srv : Server) (client : ℕ) (rs : RingState) (id : String)
    → IsSound srv
    → IsSound (hang_up_ring env srv client rs id)
unfolding hang_up_ring
hang_up_ring-IsSound env srv client rs id k =
    if-by IsSound (rs.callee == client) _ _ (divert_caller-IsSound env srv rs id "declined" k)
      (search queue_rules)

hang_up_call-IsSound :
    (env : Env) (srv : Server) (client : ℕ) (id : String)
    → IsSound srv
    → Returns IsSound (hang_up_call env srv client id)
unfolding hang_up_call
hang_up_call-IsSound env srv client id k =
    let taken = take_ring-IsSound srv id k in
    Option-by (Returns IsSound) (take_ring srv id).1 _ _ (hang_up_leg-IsSound env srv client id k)
      λ rs _. hang_up_ring-IsSound env _ client rs id taken

pub handle_call_hangup-IsSound :
    (env : Env) (srv : Server) (client : ℕ)
    → IsSound srv
    → Returns IsSound (handle_call_hangup env srv client)
unfolding handle_call_hangup
handle_call_hangup-IsSound env srv client k =
    let idle = set_call_id-IsSound srv client "" k in
    Option-by (Returns IsSound) (srv.at client).user _ _ k λ u _.
      if-by (Returns IsSound) ((srv.at client).call_id == "") _ _ idle
        (hang_up_call-IsSound env _ client _ idle)

decline-IsSound :
    (env : Env) (srv : Server) (client : ℕ) (id : String)
    → IsSound srv
    → Returns IsSound (decline env srv client id)
unfolding decline
decline-IsSound env srv client id k =
    let taken = take_ring-IsSound srv id k in
    Option-by (Returns IsSound) (take_ring srv id).1 _ _
      (handle_call_hangup-IsSound env _ client taken)
      λ rs _.
        if-by (Returns IsSound) (rs.callee == client) _ _
          (divert_caller-IsSound env _ rs id "declined" (clear_call_id-IsSound _ client id taken))
          (handle_call_hangup-IsSound env _ client taken)

pub handle_call_decline-IsSound :
    (env : Env) (srv : Server) (client : ℕ) (id : String)
    → IsSound srv
    → Returns IsSound (handle_call_decline env srv client id)
unfolding handle_call_decline
handle_call_decline-IsSound env srv client id k =
    Option-by (Returns IsSound) (srv.at client).user _ _ k λ u _.
      let declined = if id == "" then (srv.at client).call_id else id in
      if-by (Returns IsSound) (declined == "") _ _ k (decline-IsSound env srv client declined k)
