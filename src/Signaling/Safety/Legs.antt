-- ===== src/Signaling/Safety/Legs.antt =====
-- `IsSound` through the handlers of bridge.go.
use open_carrier_network.Prelude.{
  ℕ, not, ◌||◌, Option, some, List, [], ◌∷◌, String, Text, text_eq, string_eq, ◌==◌, if-by,
  Option-by,
}
use open_carrier_network.Prelude.Table.{lookup}
use open_carrier_network.Store.Tables.{User}
use open_carrier_network.Store.Users.{is_some}
use open_carrier_network.Signaling.Messages.{
  Sdp, IceCandidate, PhoneNumber, CallEvent, incoming, answer, ice, hangup,
}
use open_carrier_network.Signaling.State.{Service, InLeg, Env, Server}
use open_carrier_network.Signaling.Voicemail.{find_user_or_nil, route_inbound_voicemail}
use open_carrier_network.Signaling.Bridge.{
  is_callee, close_local_leg, end_inbound_callee_ring, divert_remote, on_inbound_ring_timeout,
  decline_inbound_callee, inbound_remote_hangup,
}
use open_carrier_network.Signaling.Inbound.{
  handle_net_service, ring_online, queue_inbound, inbound_offline, inbound_incoming, inbound_ice,
  serve_event, close_leg, close_opened, close_stream,
}
use open_carrier_network.Signaling.Cross.{
  set_out_leg, open_leg, start_cross_call, start_service_call, end_outbound, outbound_event,
  StreamEnd, eof, broken, outbound_end,
}
use open_carrier_network.Signaling.Safety.Parts.{IsSound, LeavesSound}
use open_carrier_network.Signaling.Safety.Diverted.{route_inbound_voicemail-IsSound}
use open_carrier_network.Signaling.Safety.Queued.{
  remove_pending_by_call_id-IsSound, remove_in_leg-IsSound, queue_rules,
}

pub close_local_leg-IsSound :
    (srv : Server) (client : ℕ) (id reason : String)
    → IsSound srv
    → IsSound (close_local_leg srv client id reason).0
unfolding close_local_leg
close_local_leg-IsSound srv client id reason k =
    Option-by LeavesSound (lookup id srv.out_legs) _ _
      (Option-by LeavesSound (lookup id srv.in_legs) _ _ k
        λ leg _. if-by LeavesSound (is_callee leg client) _ _ (search queue_rules) k)
      λ leg _. search queue_rules

end_inbound_callee_ring-IsSound :
    (srv : Server) (id : String) → IsSound srv → IsSound (end_inbound_callee_ring srv id)
unfolding end_inbound_callee_ring
end_inbound_callee_ring-IsSound srv id k =
    Option-by IsSound (lookup id srv.in_legs) _ _ k
      λ leg _. Option-by IsSound leg.callee _ _ (search queue_rules) λ callee _. search queue_rules

divert_remote-IsSound :
    (env : Env) (srv : Server) (id : String) (stream : ℕ) (reason : String)
    → IsSound srv
    → IsSound (divert_remote env srv id stream reason)
unfolding divert_remote
divert_remote-IsSound env srv id stream reason k =
    let routed = route_inbound_voicemail-IsSound env srv id k in
    if-by IsSound (route_inbound_voicemail env srv id).1 _ _ routed (search queue_rules)

ruleset leg_rules = (queue_rules, end_inbound_callee_ring-IsSound, divert_remote-IsSound)

pub on_inbound_ring_timeout-IsSound :
    (env : Env) (srv : Server) (id : String)
    → IsSound srv
    → IsSound (on_inbound_ring_timeout env srv id)
unfolding on_inbound_ring_timeout
on_inbound_ring_timeout-IsSound env srv id k =
    Option-by IsSound (lookup id srv.in_legs) _ _ k λ leg _.
      if-by IsSound (not (is_some leg.callee) || leg.answered || is_some leg.service) _ _ k
        (search leg_rules)

pub decline_inbound_callee-IsSound :
    (env : Env) (srv : Server) (client : ℕ) (id : String)
    → IsSound srv
    → IsSound (decline_inbound_callee env srv client id).0
unfolding decline_inbound_callee
decline_inbound_callee-IsSound env srv client id k =
    Option-by LeavesSound (lookup id srv.in_legs) _ _ k λ leg _.
      if-by LeavesSound (not (is_callee leg client) || leg.answered || is_some leg.service) _ _ k
        (search leg_rules)

inbound_remote_hangup-IsSound :
    (srv : Server) (id reason : String)
    → IsSound srv
    → IsSound (inbound_remote_hangup srv id reason)
unfolding inbound_remote_hangup
inbound_remote_hangup-IsSound srv id reason k =
    Option-by IsSound (lookup id srv.in_legs) _ _ (remove_pending_by_call_id-IsSound srv id k)
      λ leg _.
        Option-by IsSound leg.service _ _
          (Option-by IsSound leg.callee _ _ (search queue_rules) λ callee _. search queue_rules)
          λ svc _. search queue_rules

handle_net_service-IsSound :
    (env : Env) (srv : Server) (stream : ℕ) (id : String) (offer : Option Sdp) (svc : Service)
    → IsSound srv
    → IsSound (handle_net_service env srv stream id offer svc).0
unfolding handle_net_service
handle_net_service-IsSound env srv stream id offer svc k =
    Option-by LeavesSound (env.media_answer id) _ _ (search queue_rules)
      λ sdp _. if-by LeavesSound (env.send_ok stream) _ _ (search queue_rules) (search queue_rules)

ring_online-IsSound :
    (srv : Server) (stream : ℕ) (id : String) (leg : InLeg) (callee : ℕ)
    → IsSound srv
    → IsSound (ring_online srv stream id leg callee)
unfolding ring_online
ring_online-IsSound srv stream id leg callee k = search queue_rules

queue_inbound-IsSound :
    (env : Env) (srv : Server) (stream : ℕ) (id : String) (leg : InLeg) (callee : User)
    → IsSound srv
    → IsSound (queue_inbound env srv stream id leg callee).0
unfolding queue_inbound
queue_inbound-IsSound env srv stream id leg callee k =
    if-by LeavesSound env.push_ok _ _
      (record { registered = k.registered; rung = k.rung; bounded = k.bounded })
      (remove_in_leg-IsSound _ id
        (record { registered = k.registered; rung = k.rung; bounded = k.bounded }))

inbound_offline-IsSound :
    (env : Env) (srv : Server) (stream : ℕ) (id : String) (leg : InLeg)
    → IsSound srv
    → IsSound (inbound_offline env srv stream id leg).0
unfolding inbound_offline
inbound_offline-IsSound env srv stream id leg k =
    Option-by LeavesSound (find_user_or_nil env srv leg.callee_num) _ _ (search queue_rules)
      λ callee _.
        if-by LeavesSound ((callee.fcm_token == "") || not srv.has_pusher) _ _
          (let routed = route_inbound_voicemail-IsSound env srv id k in
            if-by LeavesSound (route_inbound_voicemail env srv id).1 _ _ routed
              (search queue_rules))
          (queue_inbound-IsSound env srv stream id leg callee k)

ruleset inbound_rules =
    (leg_rules, handle_net_service-IsSound, ring_online-IsSound, inbound_offline-IsSound)

inbound_incoming-IsSound :
    (env : Env) (srv : Server) (stream : ℕ) (id : String) (caller : PhoneNumber)
    (name destination : Text) (offer : Option Sdp)
    → IsSound srv
    → IsSound (inbound_incoming env srv stream id caller name destination offer).0
unfolding inbound_incoming
inbound_incoming-IsSound env srv stream id caller name destination offer k =
    Option-by LeavesSound (lookup destination srv.net_svcs) _ _
      (Option-by LeavesSound (lookup destination srv.clients) _ _ (search inbound_rules)
        λ callee _. search inbound_rules)
      λ svc _. search inbound_rules

inbound_ice-IsSound :
    (srv : Server) (id : String) (c : IceCandidate) → IsSound srv → IsSound (inbound_ice srv id c)
unfolding inbound_ice
inbound_ice-IsSound srv id c k = Option-by IsSound (lookup id srv.in_legs) _ _ k λ leg _.
    Option-by IsSound leg.callee _ _
      (Option-by IsSound leg.service _ _ k λ svc _. search queue_rules)
      λ callee _. Option-by IsSound leg.service _ _ (search queue_rules) λ svc _. search queue_rules

pub serve_event-IsSound :
    (env : Env) (stream : ℕ) (srv : Server) (opened : List String) (ev : CallEvent)
    → IsSound srv
    → IsSound (serve_event env stream (srv, opened) ev).0
unfolding serve_event
serve_event-IsSound env stream srv opened (incoming id caller name destination offer) k =
    inbound_incoming-IsSound env srv stream id caller name destination offer k
serve_event-IsSound env stream srv opened (ice id (some c)) k = inbound_ice-IsSound srv id c k
serve_event-IsSound env stream srv opened (hangup id reason) k =
    inbound_remote_hangup-IsSound srv id reason k
serve_event-IsSound env stream srv opened _ k = k

close_leg-IsSound : (srv : Server) (id : String) → IsSound srv → IsSound (close_leg srv id)
unfolding close_leg
close_leg-IsSound srv id k = Option-by IsSound (lookup id srv.in_legs) _ _ k λ leg _.
    Option-by IsSound leg.service _ _
      (Option-by IsSound leg.callee _ _ (search queue_rules) λ callee _. search queue_rules)
      λ svc _. search queue_rules

pub close_stream-IsSound :
    (srv : Server) (opened : List String) → IsSound srv → IsSound (close_stream srv opened)
unfolding close_stream close_opened
close_stream-IsSound srv [] k = k
close_stream-IsSound srv (id ∷ rest) k =
    close_stream-IsSound (close_opened srv id) rest
      (remove_pending_by_call_id-IsSound _ id (close_leg-IsSound srv id k))

set_out_leg-IsSound :
    (srv : Server) (id : String) (stream : ℕ) → IsSound srv → IsSound (set_out_leg srv id stream)
set_out_leg-IsSound srv id stream k = record {
  registered = k.registered;
  rung = k.rung;
  bounded = k.bounded;
}

ruleset open_leg_rules = (queue_rules, set_out_leg-IsSound)

pub open_leg-IsSound :
    (env : Env) (srv : Server) (client : ℕ) (u : User) (addr : String) (destination : Text)
    (offer : Option Sdp) (text : String)
    → IsSound srv
    → IsSound (open_leg env srv client u addr destination offer text)
unfolding open_leg
open_leg-IsSound env srv client u addr destination offer text k =
    if-by IsSound (env.dial_ok addr) _ _
      (Option-by IsSound (env.bridge addr) _ _ (search queue_rules) λ stream _.
        if-by IsSound (env.send_ok stream) _ _ (search open_leg_rules) (search open_leg_rules))
      (search queue_rules)

end_outbound-IsSound :
    (srv : Server) (id : String) (caller : ℕ) → IsSound srv → IsSound (end_outbound srv id caller)
unfolding end_outbound
end_outbound-IsSound srv id caller k = search queue_rules

ruleset outbound_rules = (queue_rules, end_outbound-IsSound)

pub outbound_event-IsSound :
    (srv : Server) (id : String) (caller : ℕ) (ev : CallEvent)
    → IsSound srv
    → IsSound (outbound_event srv id caller ev).0
unfolding outbound_event
outbound_event-IsSound srv id caller (answer _ (some sdp)) k = search outbound_rules
outbound_event-IsSound srv id caller (ice _ (some c)) k = search outbound_rules
outbound_event-IsSound srv id caller _ k = search outbound_rules

pub outbound_end-IsSound :
    (srv : Server) (id : String) (caller : ℕ) (end : StreamEnd)
    → IsSound srv
    → IsSound (outbound_end srv id caller end)
unfolding outbound_end
outbound_end-IsSound srv id caller eof k = search outbound_rules
outbound_end-IsSound srv id caller broken k = search outbound_rules

pub start_cross_call-IsSound :
    (env : Env) (srv : Server) (client : ℕ) (u : User) (area num : Text) (offer : Option Sdp)
    → IsSound srv
    → IsSound (start_cross_call env srv client u area num offer)
unfolding start_cross_call
start_cross_call-IsSound env srv client u area num offer k =
    Option-by IsSound (env.route area) _ _ (search queue_rules)
      λ addr _. search (queue_rules, open_leg-IsSound)

pub start_service_call-IsSound :
    (env : Env) (srv : Server) (client : ℕ) (u : User) (addr : String) (destination : Text)
    (offer : Option Sdp)
    → IsSound srv
    → IsSound (start_service_call env srv client u addr destination offer)
unfolding start_service_call
start_service_call-IsSound env srv client u addr destination offer k =
    search (queue_rules, open_leg-IsSound)
