-- ===== src/Signaling/Hangup.antt =====
-- handleCallHangup and handleCallDecline of server.go.
use open_carrier_network.Prelude.{
  ℕ, none, some, [], ◌∷◌, String, Text, ◌==◌, nat_eq, string_eq, if◌then◌else◌,
}
use open_carrier_network.Prelude.Table.{Table, lookup, delete}
use open_carrier_network.Signaling.Messages.{call_ended}
use open_carrier_network.Signaling.State.{
  end_call, RingState, Env, Server, Outcome, done, panicked, ◌>>=◌,
}
use open_carrier_network.Signaling.Send.{send_message, set_call_id, clear_call_id, act}
use open_carrier_network.Signaling.Ring.{take_ring, divert_caller}
use open_carrier_network.Signaling.Pending.{remove_pending_by_call_id}
use open_carrier_network.Signaling.Bridge.{close_local_leg, decline_inbound_callee}
use open_carrier_network.Signaling.Answer.{is_peer}

-- `c.callID = ""` and the message, for one client of the last range loop.
unfoldable pub end_peer : Server → ℕ → String → String → Server
unfolding set_call_id send_message
end_peer srv c call_id reason = send_message (set_call_id srv c "") c (call_ended call_id reason)

-- A round of the last range loop of handleCallHangup. Its log line reads the peer's number through a
-- pointer.
unfoldable pub hang_up_peer : Server → String → ℕ → ℕ → Outcome Server
unfolding end_peer
hang_up_peer srv call_id client c =
    if is_peer srv call_id client c
    then elim (srv.at c).user [ none ↦ panicked | some u ↦ done (end_peer srv c call_id "hangup") ]
    else done srv

unfoldable pub hang_up_peers : Server → String → ℕ → Table Text ℕ → Outcome Server
unfolding hang_up_peer
hang_up_peers srv call_id client [] = done srv
hang_up_peers srv call_id client ((num, c) ∷ rest) =
    hang_up_peer srv call_id client c >>= λ s. hang_up_peers s call_id client rest

-- handleCallHangup past the ring and the legs: a pending call, a service call, or a local peer.
unfoldable pub hang_up_rest : Server → ℕ → String → Outcome Server
unfolding remove_pending_by_call_id lookup delete hang_up_peers
hang_up_rest srv client call_id =
    let (cancelled, was_pending) = remove_pending_by_call_id srv call_id in
    if was_pending then done cancelled else elim (lookup call_id srv.svc_calls) [
      | some sc ↦ done (
          act (end_call sc.service call_id)
            (record srv { svc_calls = delete call_id srv.svc_calls }))
      | none ↦ hang_up_peers srv call_id client srv.clients
    ]

-- handleCallHangup past the ring: the legs come first.
unfoldable pub hang_up_leg : Env → Server → ℕ → String → Outcome Server
unfolding decline_inbound_callee close_local_leg hang_up_rest
hang_up_leg env srv client call_id =
    let (declined, was_ringing) = decline_inbound_callee env srv client call_id in
    if was_ringing
    then done declined
    else (let (closed, was_leg) = close_local_leg srv client call_id "hangup" in
        if was_leg then done closed else hang_up_rest srv client call_id)

-- A hangup while the call rings an online callee.
unfoldable pub hang_up_ring : Env → Server → ℕ → RingState → String → Server
unfolding divert_caller clear_call_id send_message
hang_up_ring env srv client rs call_id =
    if rs.callee == client
    then divert_caller env srv rs call_id "declined"
    else send_message (clear_call_id srv rs.callee call_id) rs.callee (call_ended call_id "hangup")

-- handleCallHangup for a client that is in a call; its own callID is cleared by now.
unfoldable pub hang_up_call : Env → Server → ℕ → String → Outcome Server
unfolding take_ring hang_up_ring hang_up_leg
hang_up_call env srv client call_id =
    let (taken, ring) = take_ring srv call_id in
    elim ring [
      | some rs ↦ done (hang_up_ring env taken client rs call_id)
      | none ↦ hang_up_leg env srv client call_id
    ]

-- handleCallHangup; the identifier in the message is only logged.
unfoldable pub handle_call_hangup : Env → Server → ℕ → Outcome Server
unfolding set_call_id hang_up_call
handle_call_hangup env srv client = elim (srv.at client).user [
  | none ↦ done srv
  | some u ↦
      let call_id = (srv.at client).call_id in
      let idle = set_call_id srv client "" in
      if call_id == "" then done idle else hang_up_call env idle client call_id
]

-- The call that a decline names, or else the client's own.
abbrev declined_id : Server → ℕ → String → String
declined_id srv client msg_call_id =
    if msg_call_id == "" then (srv.at client).call_id else msg_call_id

-- handleCallDecline for a call that it names; what is not a ring of the client is a hangup.
unfoldable pub decline : Env → Server → ℕ → String → Outcome Server
unfolding take_ring clear_call_id divert_caller handle_call_hangup
decline env srv client call_id =
    let (taken, ring) = take_ring srv call_id in
    elim ring [
      | none ↦ handle_call_hangup env taken client
      | some rs ↦
          if rs.callee == client
          then done (divert_caller env (clear_call_id taken client call_id) rs call_id "declined")
          else handle_call_hangup env taken client
    ]

-- handleCallDecline
unfoldable pub handle_call_decline : Env → Server → ℕ → String → Outcome Server
unfolding decline
handle_call_decline env srv client msg_call_id = elim (srv.at client).user [
  | none ↦ done srv
  | some u ↦
      let call_id = declined_id srv client msg_call_id in
      if call_id == "" then done srv else decline env srv client call_id
]
