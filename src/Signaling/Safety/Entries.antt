-- ===== src/Signaling/Safety/Entries.antt =====
-- `IsSound` through the handlers of direct messages.
use open_carrier_network.Prelude.{
  ℕ, ◌≡◌, ap, not, ◌&&◌, none, some, List, [], ◌∷◌, String, Text, ◌==◌, nat_eq, text_eq, string_eq,
  if-by, Option-by, subst,
}
use open_carrier_network.Prelude.Table.{lookup}
use open_carrier_network.Numbers.{parse_number}
use open_carrier_network.Store.Tables.{User}
use open_carrier_network.Store.Outbox.{list_pending_dm, get_dm, store_dm_preassigned}
use open_carrier_network.Signaling.Messages.{Envelope}
use open_carrier_network.Signaling.State.{Env, Server}
use open_carrier_network.Signaling.Send.{find_user}
use open_carrier_network.Signaling.Messaging.{
  DmSend, relay_dm_message, relay_all, open_rows, flush_pending_dm, relay_or_push, enqueue_dm,
  deliver_to, deliver_inbound_dm, send_local_dm, dm_refusal, send_remote_dm, route_dm,
  handle_dm_send, handle_dm_ack, handle_dm_attachment_get,
}
use open_carrier_network.Signaling.Safety.Parts.{
  IsSound, LeavesSound, send_message-IsSound, send_error-IsSound,
}
use open_carrier_network.Signaling.Safety.Queued.{queue_rules}

relay_dm_message-IsSound :
    (srv : Server) (num : Text) (env : Envelope)
    → IsSound srv
    → IsSound (relay_dm_message srv num env).0
unfolding relay_dm_message
relay_dm_message-IsSound srv num env k =
    Option-by LeavesSound (lookup num srv.clients) _ _ k λ c _. send_message-IsSound srv c _ k

relay_all-IsSound :
    (num : Text) (envs : List Envelope) (srv : Server)
    → IsSound srv
    → IsSound (relay_all srv num envs)
unfolding relay_all
relay_all-IsSound num [] srv k = k
relay_all-IsSound num (env ∷ rest) srv k =
    relay_all-IsSound num rest _ (relay_dm_message-IsSound srv num env k)

pub flush_pending_dm-IsSound :
    (world : Env) (srv : Server) (client : ℕ)
    → IsSound srv
    → IsSound (flush_pending_dm world srv client)
unfolding flush_pending_dm
flush_pending_dm-IsSound world srv client k = Option-by IsSound (srv.at client).user _ _ k λ u _.
    if-by IsSound (srv.has_dm && world.db_ok) _ _
      (relay_all-IsSound u.number (open_rows world u.number (list_pending_dm srv.db u.number)) srv
        k)
      k

relay_or_push-IsSound :
    (srv : Server) (num : Text) (callee : User) (env : Envelope)
    → IsSound srv
    → IsSound (relay_or_push srv num callee env)
unfolding relay_or_push
relay_or_push-IsSound srv num callee env k =
    if-by IsSound (relay_dm_message srv num env).1 _ _ (relay_dm_message-IsSound srv num env k)
      (if-by IsSound (not (callee.fcm_token == "") && srv.has_pusher) _ _ (search queue_rules) k)

enqueue_dm-IsSound :
    (world : Env) (srv : Server) (num : Text) (env : Envelope) (queued : Server)
    → enqueue_dm world srv num env ≡ some queued
    → IsSound srv
    → IsSound queued
unfolding enqueue_dm
enqueue_dm-IsSound world srv num env queued e k = kept queued e
  where
    kept : (q : Server) → enqueue_dm world srv num env ≡ some q → IsSound q
    kept =
        Option-by (λ o. (q : Server) → o ≡ some q → IsSound q)
          (store_dm_preassigned srv.db env.message_id num (world.seal num env) world.now) _ _
          (λ q e. cc)
          λ db _ q e.
            subst IsSound (ap (λ o. elim o [ none ↦ srv | some s ↦ s ]) e)
              (record { registered = k.registered; rung = k.rung; bounded = k.bounded })

deliver_to-IsSound :
    (world : Env) (srv : Server) (local : Text) (env : Envelope)
    → IsSound srv
    → IsSound (deliver_to world srv local env).0
unfolding deliver_to
deliver_to-IsSound world srv local env k =
    Option-by LeavesSound (find_user world srv local) _ _ k λ found _.
      Option-by LeavesSound found _ _ k λ callee _.
        Option-by LeavesSound (enqueue_dm world srv local env) _ _ k λ queued e.
          relay_or_push-IsSound queued local callee env
            (enqueue_dm-IsSound world srv local env queued e k)

pub deliver_inbound_dm-IsSound :
    (world : Env) (srv : Server) (env : Envelope)
    → IsSound srv
    → IsSound (deliver_inbound_dm world srv env).0
unfolding deliver_inbound_dm
deliver_inbound_dm-IsSound world srv env k = if-by LeavesSound (not srv.has_dm) _ _ k (
    Option-by LeavesSound (parse_number env.to srv.area_code) _ _ k λ r _.
      if-by LeavesSound (not (srv.area_code == []) && not (r.0 == srv.area_code)) _ _ k
        (deliver_to-IsSound world srv r.1 env k))

ruleset dm_rules = (queue_rules, relay_or_push-IsSound)

send_local_dm-IsSound :
    (world : Env) (srv : Server) (client : ℕ) (local : Text) (env : Envelope)
    → IsSound srv
    → IsSound (send_local_dm world srv client local env)
unfolding send_local_dm
send_local_dm-IsSound world srv client local env k =
    Option-by IsSound (find_user world srv local) _ _ (search dm_rules) λ found _.
      Option-by IsSound found _ _ (search dm_rules) λ callee _.
        Option-by IsSound (enqueue_dm world srv local env) _ _ (search dm_rules) λ queued e.
          send_message-IsSound _ client _ (
            relay_or_push-IsSound queued local callee env
              (enqueue_dm-IsSound world srv local env queued e k))

route_dm-IsSound :
    (world : Env) (srv : Server) (client : ℕ) (u : User) (req : DmSend)
    → IsSound srv
    → IsSound (route_dm world srv client u req)
unfolding route_dm
route_dm-IsSound world srv client u req k =
    Option-by IsSound (parse_number req.to srv.area_code) _ _ (search dm_rules) λ r _.
      if-by IsSound (not srv.has_dm) _ _ (search dm_rules) (
        if-by IsSound (not (srv.area_code == []) && not (r.0 == srv.area_code)) _ _
          (Option-by IsSound (send_remote_dm world srv r.0) _ _
            (send_message-IsSound srv client _ k) λ refusal _. send_error-IsSound srv client _ _ k)
          (send_local_dm-IsSound world srv client r.1 _ k))

pub handle_dm_send-IsSound :
    (world : Env) (srv : Server) (client : ℕ) (req : DmSend)
    → IsSound srv
    → IsSound (handle_dm_send world srv client req)
unfolding handle_dm_send
handle_dm_send-IsSound world srv client req k =
    Option-by IsSound (srv.at client).user _ _ (search dm_rules) λ u _.
      Option-by IsSound (dm_refusal req) _ _ (route_dm-IsSound world srv client u req k)
        λ refusal _. send_error-IsSound srv client _ _ k

pub handle_dm_ack-IsSound :
    (srv : Server) (client : ℕ) (id : String) → IsSound srv → IsSound (handle_dm_ack srv client id)
unfolding handle_dm_ack
handle_dm_ack-IsSound srv client id k = Option-by IsSound (srv.at client).user _ _ k λ u _.
    if-by IsSound (not (id == "") && srv.has_dm) _ _
      (record { registered = k.registered; rung = k.rung; bounded = k.bounded }) k

pub handle_dm_attachment_get-IsSound :
    (world : Env) (srv : Server) (client : ℕ) (id : String)
    → IsSound srv
    → IsSound (handle_dm_attachment_get world srv client id)
unfolding handle_dm_attachment_get
handle_dm_attachment_get-IsSound world srv client id k =
    Option-by IsSound (srv.at client).user _ _ k λ u _.
      if-by IsSound (not srv.has_dm) _ _ (search dm_rules) (
        Option-by IsSound (get_dm srv.db id u.number) _ _ (search dm_rules) λ row _.
          Option-by IsSound (world.unseal u.number row.envelope) _ _ (search dm_rules)
            λ env _. Option-by IsSound env.image _ _ (search dm_rules) λ image _. search dm_rules)
