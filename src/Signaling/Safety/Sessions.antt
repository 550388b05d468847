-- ===== src/Signaling/Safety/Sessions.antt =====
-- `IsSound` through unregisterClient.
use open_carrier_network.Prelude.{
  ℕ, some, [], ◌∷◌, String, Text, ◌==◌, nat_eq, text_eq, string_eq, if-by, Option-by,
}
use open_carrier_network.Prelude.Table.{Table, lookup, Values-delete}
use open_carrier_network.Signaling.State.{Env, Server}
use open_carrier_network.Signaling.Send.{is_online}
use open_carrier_network.Signaling.Ring.{take_ring}
use open_carrier_network.Signaling.Pending.{remove_pending_by_call_id}
use open_carrier_network.Signaling.Bridge.{close_local_leg}
use open_carrier_network.Signaling.Answer.{is_peer}
use open_carrier_network.Signaling.Clients.{
  drop_ring, drop_service, disconnect_peers, drop_call, release_number, unregister_client,
}
use open_carrier_network.Signaling.Safety.Parts.{HasUser, IsSound, set_call_id-IsSound}
use open_carrier_network.Signaling.Safety.Diverted.{take_ring-IsSound, divert_caller-IsSound}
use open_carrier_network.Signaling.Safety.Queued.{remove_pending_by_call_id-IsSound, queue_rules}
use open_carrier_network.Signaling.Safety.Legs.{close_local_leg-IsSound}
use open_carrier_network.Signaling.Safety.Hangups.{end_peer-IsSound}

ruleset session_rules = (queue_rules, end_peer-IsSound, divert_caller-IsSound, take_ring-IsSound)

drop_ring-IsSound :
    (env : Env) (srv : Server) (client : ℕ) (id : String)
    → IsSound srv
    → IsSound (drop_ring env srv client id)
unfolding drop_ring
drop_ring-IsSound env srv client id k =
    let taken = take_ring-IsSound srv id k in
    Option-by IsSound (take_ring srv id).1 _ _ taken λ rs _.
      if-by IsSound (rs.callee == client) _ _
        (if-by IsSound (is_online (take_ring srv id).0 (some rs.caller)) _ _
          (divert_caller-IsSound env _ rs id "disconnect" taken) taken)
        (if-by IsSound (rs.caller == client) _ _ (search session_rules) taken)

drop_service-IsSound :
    (srv : Server) (client : ℕ) (id : String) → IsSound srv → IsSound (drop_service srv client id)
unfolding drop_service
drop_service-IsSound srv client id k = Option-by IsSound (lookup id srv.svc_calls) _ _ k λ sc _.
    if-by IsSound (sc.client == client) _ _
      (record { registered = k.registered; rung = k.rung; bounded = k.bounded }) k

disconnect_peers-IsSound :
    (id : String) (client : ℕ) (clients : Table Text ℕ) (srv : Server)
    → IsSound srv
    → IsSound (disconnect_peers srv id client clients)
unfolding disconnect_peers
disconnect_peers-IsSound id client [] srv k = k
disconnect_peers-IsSound id client ((num, c) ∷ rest) srv k =
    disconnect_peers-IsSound id client rest _
      (if-by IsSound (is_peer srv id client c) _ _ (end_peer-IsSound srv c id "disconnect" k) k)

drop_call-IsSound :
    (env : Env) (srv : Server) (client : ℕ) (id : String)
    → IsSound srv
    → IsSound (drop_call env srv client id)
unfolding drop_call
drop_call-IsSound env srv client id k = disconnect_peers-IsSound id client ended.clients ended (
    drop_service-IsSound _ client id (
      drop_ring-IsSound env _ client id (
        remove_pending_by_call_id-IsSound _ id
          (close_local_leg-IsSound srv client id "disconnect" k))))
  where
    ended : Server
    ended =
        drop_service
          (drop_ring env
            (remove_pending_by_call_id (close_local_leg srv client id "disconnect").0 id).0 client
            id)
          client id

release_number-IsSound :
    (srv : Server) (client : ℕ) (num : Text) → IsSound srv → IsSound (release_number srv client num)
unfolding release_number
release_number-IsSound srv client num k = Option-by IsSound (lookup num srv.clients) _ _ k λ c _.
    if-by IsSound (c == client) _ _
      (record {
        registered = Values-delete (HasUser srv.at) num srv.clients k.registered;
        rung = k.rung;
        bounded = k.bounded;
      })
      k

pub unregister_client-IsSound :
    (env : Env) (srv : Server) (client : ℕ)
    → IsSound srv
    → IsSound (unregister_client env srv client)
unfolding unregister_client
unregister_client-IsSound env srv client k =
    let idle = set_call_id-IsSound srv client "" k in
    Option-by IsSound (srv.at client).user _ _ k λ u _. release_number-IsSound _ client u.number (
      if-by IsSound ((srv.at client).call_id == "") _ _ idle
        (drop_call-IsSound env _ client _ idle))
