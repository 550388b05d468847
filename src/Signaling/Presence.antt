-- ===== src/Signaling/Presence.antt =====
-- Which client a number leads to: handleRegister enters a client in the table of clients, and
-- unregisterClient takes it out.
use open_carrier_network.Prelude.{
  ℕ, ◌≡◌, refl, sym, ap, ◌∙◌, Bool, true, none, some, String, Text, arith, ◌==◌, nat_eq, text_eq,
  string_eq, beq_refl, if◌then◌else◌, if-by, Option-by, ◌≢◌,
}
use open_carrier_network.Prelude.Table.{
  Table, lookup, delete, lookup-insert, lookup-insert_self, lookup-delete, lookup-delete_self,
}
use open_carrier_network.Store.Tables.{User}
use open_carrier_network.Signaling.State.{Env, Server}
use open_carrier_network.Signaling.Send.{is_online, holds_number, set_call_id}
use open_carrier_network.Signaling.Pending.{pending_number, remove_pending_by_call_id}
use open_carrier_network.Signaling.Bridge.{close_local_leg}
use open_carrier_network.Signaling.Register.{kick_previous, attach}
use open_carrier_network.Signaling.Clients.{
  drop_ring, drop_service, drop_call, release_number, unregister_client,
}
use open_carrier_network.Signaling.Kept.{
  Holds, close_local_leg-Holds, drop_ring-Holds, drop_service-Holds, disconnect_peers-Holds,
}

-- The end of a call leaves every number with its client.
drop_call-clients :
    (env : Env) (srv : Server) (client : ℕ) (id : String)
    → (drop_call env srv client id).clients ≡ srv.clients
unfolding drop_call remove_pending_by_call_id
drop_call-clients env srv client id = ended.0
  where
    closed : Server
    closed = (close_local_leg srv client id "disconnect").0

    unqueued : Server
    unqueued = (remove_pending_by_call_id closed id).0

    still : unqueued.clients ≡ srv.clients
    still =
        Option-by (λ (r : Server × Bool). r.0.clients ≡ srv.clients)
          (pending_number id closed.pending_calls) _ _ kept λ num _. kept
      where
        kept : closed.clients ≡ srv.clients
        kept =
            (close_local_leg-Holds srv.clients srv.pending_calls srv client id "disconnect"
              (refl, refl)).0

    ended : Holds srv.clients unqueued.pending_calls (drop_call env srv client id)
    ended =
        let dropped = drop_ring env unqueued client id in
        disconnect_peers-Holds srv.clients unqueued.pending_calls id client
          (drop_service dropped client id).clients (drop_service dropped client id)
          (drop_service-Holds srv.clients unqueued.pending_calls dropped client id (
            drop_ring-Holds srv.clients unqueued.pending_calls env unqueued client id
              (still, refl)))

-- The table of clients once the connection of `client`, registered under `num`, is gone.
abbrev released : Table Text ℕ → ℕ → Text → Table Text ℕ
released clients client num = elim (lookup num clients) [
  | none ↦ clients
  | some cur ↦ if cur == client then delete num clients else clients
]

released_offline :
    (clients : Table Text ℕ) (client : ℕ) (num : Text)
    → lookup num (released clients client num) ≢ some client
released_offline clients client num online = ground (arith, lookup-delete_self num clients)

released_others :
    (clients : Table Text ℕ) (client : ℕ) (mine num : Text) (other : ℕ)
    → lookup num clients ≡ some other
    → other ≢ client
    → lookup num (released clients client mine) ≡ some other
released_others clients client mine num other found differ =
    ground (arith, lookup-delete mine num clients, text_eq.same_iff mine num)

release_number-clients :
    (srv : Server) (client : ℕ) (num : Text)
    → (release_number srv client num).clients ≡ released srv.clients client num
unfolding release_number
release_number-clients srv client num = ground arith

unregister_client-clients :
    (env : Env) (srv : Server) (client : ℕ) (u : User)
    → (srv.at client).user ≡ some u
    → (unregister_client env srv client).clients ≡ released srv.clients client u.number
unfolding unregister_client set_call_id
unregister_client-clients env srv client u known =
    rw (known, unregister_client)
      (release_number-clients left client u.number ∙ ap (λ cs. released cs client u.number) same)
  where
    idle : Server
    idle = set_call_id srv client ""

    left : Server
    left =
        if (srv.at client).call_id == ""
        then idle
        else drop_call env idle client (srv.at client).call_id

    same : left.clients ≡ srv.clients
    same =
        if-by (λ (s : Server). s.clients ≡ srv.clients) ((srv.at client).call_id == "") idle _ refl
          (drop_call-clients env idle client (srv.at client).call_id)

-- When the socket of a registered client closes, its number no longer leads to it.
pub unregister_client-offline :
    (env : Env) (srv : Server) (client : ℕ) (u : User)
    → (srv.at client).user ≡ some u
    → lookup u.number (unregister_client env srv client).clients ≢ some client
unregister_client-offline env srv client u known online =
    released_offline srv.clients client u.number
      (sym (ap (lookup u.number) (unregister_client-clients env srv client u known)) ∙ online)

-- When the socket of a registered client closes, a number that leads to another client still leads
-- to that client, be it the same number.
pub unregister_client-others :
    (env : Env) (srv : Server) (client : ℕ) (u : User) (num : Text) (other : ℕ)
    → (srv.at client).user ≡ some u
    → lookup num srv.clients ≡ some other
    → other ≢ client
    → lookup num (unregister_client env srv client).clients ≡ some other
unregister_client-others env srv client u num other known found differ =
    ap (lookup num) (unregister_client-clients env srv client u known)
    ∙ released_others srv.clients client u.number num other found differ

kick_previous-clients :
    (srv : Server) (client : ℕ) (num : Text) → (kick_previous srv client num).clients ≡ srv.clients
unfolding kick_previous
kick_previous-clients srv client num =
    Option-by (λ (s : Server). s.clients ≡ srv.clients) (lookup num srv.clients) _ _ refl
      λ prev _. if-by (λ (s : Server). s.clients ≡ srv.clients) (prev == client) _ _ refl refl

-- When a client registers as a user, the user's number leads to it, it is online, and a number of
-- another user leads where it led.
pub attach-online :
    (srv : Server) (client : ℕ) (u : User) (num : Text)
    → let after = attach srv client u in
      (lookup u.number after.clients ≡ some client)
      × (is_online after (some client) ≡ true)
      × (u.number ≢ num → lookup num after.clients ≡ lookup num srv.clients)
unfolding attach is_online holds_number
attach-online srv client u num = (
  lookup-insert_self u.number client kicked.clients,
  online,
  λ differ. other differ ∙ ap (lookup num) (kick_previous-clients srv client u.number),
)
  where
    kicked : Server
    kicked = kick_previous srv client u.number

    online : is_online (attach srv client u) (some client) ≡ true
    online =
        let self : ((attach srv client u).at client).user ≡ some u = ground arith in
        rw (self, holds_number)
          (rw (lookup-insert_self u.number client kicked.clients) (beq_refl client))

    other : u.number ≢ num → lookup num (attach srv client u).clients ≡ lookup num kicked.clients
    other differ =
        ground
          (arith, lookup-insert u.number num client kicked.clients, text_eq.same_iff u.number num)
