-- ===== src/Signaling/Kept.antt =====
-- The table of clients and the pending calls under the helpers that end or divert a call.
use open_carrier_network.Prelude.{
  ℕ, ◌≡◌, ◌&&◌, Option, none, some, List, [], ◌∷◌, String, Text, ◌==◌, nat_eq, text_eq, string_eq,
  if-by, Option-by,
}
use open_carrier_network.Prelude.Table.{Table, lookup}
use open_carrier_network.Store.Tables.{User}
use open_carrier_network.Signaling.Messages.{Sdp, IceCandidate, ServerMessage, call_ended}
use open_carrier_network.Signaling.State.{Service, RingState, PendingCall, InLeg, Env, Server}
use open_carrier_network.Signaling.Send.{
  send_message, set_call_id, clear_call_id, end_for_client, is_online,
}
use open_carrier_network.Signaling.Voicemail.{
  find_user_or_nil, answer_by_voicemail, route_to_voicemail, replay_candidates, answer_inbound,
  route_inbound_voicemail,
}
use open_carrier_network.Signaling.Ring.{take_ring, divert_caller}
use open_carrier_network.Signaling.Pending.{remove_in_leg}
use open_carrier_network.Signaling.Bridge.{is_callee, close_local_leg}
use open_carrier_network.Signaling.Answer.{is_peer}
use open_carrier_network.Signaling.Hangup.{end_peer}
use open_carrier_network.Signaling.Clients.{drop_ring, drop_service, disconnect_peers}

module _ (cs : Table Text ℕ) (ps : Table Text PendingCall) where
  abbrev pub Holds : Server → Type 0
  Holds s = (s.clients ≡ cs) × (s.pending_calls ≡ ps)

  abbrev HoldsAfter {ℓ} : {A : Type ℓ} → Server × A → Type 0
  HoldsAfter r = Holds r.0

  pub clear_call_id-Holds :
      (srv : Server) (c : ℕ) (id : String) → Holds srv → Holds (clear_call_id srv c id)
  unfolding clear_call_id set_call_id
  clear_call_id-Holds srv c id h = if-by Holds ((srv.at c).call_id == id) _ _ h h

  pub told-Holds :
      (srv : Server) (c : ℕ) (msg : ServerMessage) → Holds srv → Holds (send_message srv c msg)
  unfolding send_message
  told-Holds srv c msg h = h

  end_for_client-Holds :
      (srv : Server) (c : ℕ) (id reason : String)
      → Holds srv
      → Holds (end_for_client srv c id reason)
  unfolding end_for_client
  end_for_client-Holds srv c id reason h =
      told-Holds (clear_call_id srv c id) c (call_ended id reason) (clear_call_id-Holds srv c id h)

  answer_by_voicemail-Holds :
      (env : Env) (srv : Server) (caller : ℕ) (recipient : User) (offer : Sdp) (id : String)
      → Holds srv
      → Holds (answer_by_voicemail env srv caller recipient offer id).0
  unfolding answer_by_voicemail set_call_id send_message
  answer_by_voicemail-Holds env srv caller recipient offer id h =
      Option-by HoldsAfter (env.media_answer id) _ _ h λ sdp _. h

  pub route_to_voicemail-Holds :
      (env : Env) (srv : Server) (caller : Option ℕ) (recipient : Option User) (offer : Option Sdp)
      (id : String)
      → Holds srv
      → Holds (route_to_voicemail env srv caller recipient offer id).0
  unfolding route_to_voicemail
  route_to_voicemail-Holds env srv none recipient offer id h = h
  route_to_voicemail-Holds env srv (some caller) none offer id h = h
  route_to_voicemail-Holds env srv (some caller) (some recipient) none id h = h
  route_to_voicemail-Holds env srv (some caller) (some recipient) (some offer) id h =
      if-by HoldsAfter (srv.vm_enabled && is_online srv (some caller)) _ _
        (answer_by_voicemail-Holds env srv caller recipient offer _ h) h

  divert_caller-Holds :
      (env : Env) (srv : Server) (rs : RingState) (id reason : String)
      → Holds srv
      → Holds (divert_caller env srv rs id reason)
  unfolding divert_caller
  divert_caller-Holds env srv rs id reason h =
      let r = route_to_voicemail env srv (some rs.caller) rs.callee_user rs.offer id in
      let routed = route_to_voicemail-Holds env srv (some rs.caller) rs.callee_user rs.offer id h in
      if-by Holds r.1 _ _ routed (end_for_client-Holds r.0 rs.caller id reason routed)

  pub drop_ring-Holds :
      (env : Env) (srv : Server) (client : ℕ) (id : String)
      → Holds srv
      → Holds (drop_ring env srv client id)
  unfolding drop_ring take_ring
  drop_ring-Holds env srv client id h = Option-by Holds (take_ring srv id).1 _ _ taken λ rs _.
      if-by Holds (rs.callee == client) _ _
        (if-by Holds (is_online (take_ring srv id).0 (some rs.caller)) _ _
          (divert_caller-Holds env _ rs id "disconnect" taken) taken)
        (if-by Holds (rs.caller == client) _ _
          (told-Holds (clear_call_id (take_ring srv id).0 rs.callee id) rs.callee
            (call_ended id "disconnect")
            (clear_call_id-Holds (take_ring srv id).0 rs.callee id taken))
          taken)
    where
      taken : Holds (take_ring srv id).0
      taken = Option-by HoldsAfter (lookup id srv.ring_states) _ _ h λ rs _. h

  pub drop_service-Holds :
      (srv : Server) (client : ℕ) (id : String) → Holds srv → Holds (drop_service srv client id)
  unfolding drop_service
  drop_service-Holds srv client id h =
      Option-by Holds (lookup id srv.svc_calls) _ _ h
        λ sc _. if-by Holds (sc.client == client) _ _ h h

  pub disconnect_peers-Holds :
      (id : String) (client : ℕ) (clients : Table Text ℕ) (srv : Server)
      → Holds srv
      → Holds (disconnect_peers srv id client clients)
  unfolding disconnect_peers end_peer send_message set_call_id
  disconnect_peers-Holds id client [] srv h = h
  disconnect_peers-Holds id client ((num, c) ∷ rest) srv h =
      disconnect_peers-Holds id client rest _ (if-by Holds (is_peer srv id client c) _ _ h h)

  pub close_local_leg-Holds :
      (srv : Server) (client : ℕ) (id reason : String)
      → Holds srv
      → Holds (close_local_leg srv client id reason).0
  unfolding close_local_leg remove_in_leg
  close_local_leg-Holds srv client id reason h =
      Option-by HoldsAfter (lookup id srv.out_legs) _ _
        (Option-by HoldsAfter (lookup id srv.in_legs) _ _ h
          λ leg _. if-by HoldsAfter (is_callee leg client) _ _ h h)
        λ leg _. h

  replay_candidates-Holds :
      (lv : Service) (id : String) (candidates : List IceCandidate) (srv : Server)
      → Holds srv
      → Holds (replay_candidates lv id candidates srv)
  unfolding replay_candidates
  replay_candidates-Holds lv id [] srv h = h
  replay_candidates-Holds lv id (c ∷ rest) srv h = replay_candidates-Holds lv id rest _ h

  answer_inbound-Holds :
      (env : Env) (srv : Server) (id : String) (leg : InLeg) (recipient : User) (offer : Sdp)
      → Holds srv
      → Holds (answer_inbound env srv id leg recipient offer).0
  unfolding answer_inbound
  answer_inbound-Holds env srv id leg recipient offer h =
      Option-by HoldsAfter (env.media_answer id) _ _ h
        λ sdp _. replay_candidates-Holds _ id leg.candidates _ h

  pub route_inbound_voicemail-Holds :
      (env : Env) (srv : Server) (id : String)
      → Holds srv
      → Holds (route_inbound_voicemail env srv id).0
  unfolding route_inbound_voicemail
  route_inbound_voicemail-Holds env srv id h =
      Option-by HoldsAfter (lookup id srv.in_legs) _ _ h λ leg _.
        Option-by HoldsAfter leg.offer _ _ h λ offer _.
          Option-by HoldsAfter (find_user_or_nil env srv leg.callee_num) _ _ h λ recipient _.
            if-by HoldsAfter srv.vm_enabled _ _
              (answer_inbound-Holds env srv id leg recipient offer h) h
