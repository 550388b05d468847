-- ===== src/Signaling/Clients.antt =====
-- unregisterClient and OnlineNumbers of server.go: what happens when a socket closes.
use open_carrier_network.Prelude.{
  ℕ, none, some, List, [], ◌∷◌, String, Text, ◌==◌, nat_eq, text_eq, string_eq, if◌then◌else◌,
}
use open_carrier_network.Prelude.Table.{Table, lookup, delete}
use open_carrier_network.Signaling.Messages.{call_ended}
use open_carrier_network.Signaling.State.{end_call, Env, Server}
use open_carrier_network.Signaling.Send.{send_message, set_call_id, clear_call_id, is_online, act}
use open_carrier_network.Signaling.Ring.{take_ring, divert_caller}
use open_carrier_network.Signaling.Pending.{remove_pending_by_call_id}
use open_carrier_network.Signaling.Bridge.{close_local_leg}
use open_carrier_network.Signaling.Answer.{is_peer}
use open_carrier_network.Signaling.Hangup.{end_peer}

-- The ring of a client that goes away.
unfoldable pub drop_ring : Env → Server → ℕ → String → Server
unfolding take_ring divert_caller is_online clear_call_id send_message
drop_ring env srv client call_id =
    let (taken, ring) = take_ring srv call_id in
    elim ring [
      | none ↦ taken
      | some rs ↦
          if rs.callee == client
          then (if is_online taken (some rs.caller)
              then divert_caller env taken rs call_id "disconnect"
              else taken)
          else if rs.caller == client
          then send_message (clear_call_id taken rs.callee call_id) rs.callee
              (call_ended call_id "disconnect")
          else taken
    ]

-- The service session of a client that goes away.
unfoldable pub drop_service : Server → ℕ → String → Server
unfolding lookup delete
drop_service srv client call_id = elim (lookup call_id srv.svc_calls) [
  | none ↦ srv
  | some sc ↦
      if sc.client == client
      then act (end_call sc.service call_id)
          (record srv { svc_calls = delete call_id srv.svc_calls })
      else srv
]

-- The range loop of unregisterClient.
unfoldable pub disconnect_peers : Server → String → ℕ → Table Text ℕ → Server
unfolding end_peer
disconnect_peers srv call_id client [] = srv
disconnect_peers srv call_id client ((num, c) ∷ rest) =
    disconnect_peers
      (if is_peer srv call_id client c then end_peer srv c call_id "disconnect" else srv) call_id
      client rest

-- What unregisterClient does about the call that the client was in.
unfoldable pub drop_call : Env → Server → ℕ → String → Server
unfolding close_local_leg remove_pending_by_call_id drop_ring drop_service disconnect_peers
drop_call env srv client call_id =
    let closed = (close_local_leg srv client call_id "disconnect").0 in
    let unqueued = (remove_pending_by_call_id closed call_id).0 in
    let unrung = drop_ring env unqueued client call_id in
    let ended = drop_service unrung client call_id in
    disconnect_peers ended call_id client ended.clients

-- `if cur, ok := srv.clients[client.user.Number]; ok && cur == client { delete … }`
unfoldable pub release_number : Server → ℕ → Text → Server
unfolding lookup delete
release_number srv client number = elim (lookup number srv.clients) [
  | none ↦ srv
  | some cur ↦ if cur == client then record srv { clients = delete number srv.clients } else srv
]

-- unregisterClient
unfoldable pub unregister_client : Env → Server → ℕ → Server
unfolding set_call_id drop_call release_number
unregister_client env srv client = elim (srv.at client).user [
  | none ↦ srv
  | some u ↦
      let call_id = (srv.at client).call_id in
      let idle = set_call_id srv client "" in
      release_number (if call_id == "" then idle else drop_call env idle client call_id) client
        u.number
]

-- OnlineNumbers
unfoldable pub online_numbers : Table Text ℕ → List Text
online_numbers [] = []
online_numbers ((num, c) ∷ rest) = num ∷ online_numbers rest
