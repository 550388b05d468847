-- ===== src/Signaling/Safety/Calls.antt =====
-- `IsSound` through handleCall.
use open_carrier_network.Prelude.{
  ℕ, ◌≡◌, sym, ◌∙◌, ap, true≢false, if-when, Bool, true, false, not, ◌&&◌, ◌||◌, Option, none, some,
  [], ◌++◌, Text, codes, arith, text_beq, ◌==◌, nat_eq, text_eq, string_eq, if-by, Option-by, inl,
  inr, Option-cases,
}
use open_carrier_network.Prelude.Table.{lookup, Values-lookup}
use open_carrier_network.Numbers.{parse_number}
use open_carrier_network.Store.Tables.{User}
use open_carrier_network.Store.Users.{is_some}
use open_carrier_network.Signaling.Messages.{Sdp, CallRequest, incoming_call, call_ringing}
use open_carrier_network.Signaling.State.{Service, hosted, leave, Env, Server}
use open_carrier_network.Signaling.Send.{send_message, set_call_id, find_user}
use open_carrier_network.Signaling.Voicemail.{route_to_voicemail}
use open_carrier_network.Signaling.Call.{
  is_service_code, announce_caller, connect_service, handle_service_call, voicemail_or_404,
  queue_call, call_offline, call_online, call_remote, place_call, dial, handle_call_request,
}
use open_carrier_network.Signaling.Safety.Parts.{
  HasUser, IsSound, Returns, send_message-HasUser, set_call_id-HasUser,
}
use open_carrier_network.Signaling.Safety.Diverted.{route_to_voicemail-IsSound, start_ring-IsSound}
use open_carrier_network.Signaling.Safety.Queued.{queue_rules}
use open_carrier_network.Signaling.Safety.Legs.{
  start_cross_call-IsSound, start_service_call-IsSound,
}

announce_caller-IsSound :
    (env : Env) (srv : Server) (u : User) (svc : Service)
    → IsSound srv
    → IsSound (announce_caller env srv u svc)
unfolding announce_caller
announce_caller-IsSound env srv u (hosted code name true) k = record {
  registered = k.registered;
  rung = k.rung;
  bounded = k.bounded;
}
announce_caller-IsSound env srv u (hosted code name false) k = k
announce_caller-IsSound env srv u (leave _ _ _) k = k

connect_service-IsSound :
    (env : Env) (srv : Server) (client : ℕ) (svc : Service) (offer : Sdp)
    → IsSound srv
    → IsSound (connect_service env srv client svc offer)
unfolding connect_service
connect_service-IsSound env srv client svc offer k =
    Option-by IsSound (env.media_answer env.fresh) _ _ (search queue_rules)
      λ sdp _. search queue_rules

voicemail_or_404-IsSound :
    (env : Env) (srv : Server) (client : ℕ) (callee : User) (offer : Option Sdp)
    → IsSound srv
    → IsSound (voicemail_or_404 env srv client callee offer)
unfolding voicemail_or_404
voicemail_or_404-IsSound env srv client callee offer k =
    let r = route_to_voicemail env srv (some client) (some callee) offer "" in
    let routed = route_to_voicemail-IsSound env srv (some client) (some callee) offer "" k in
    if-by IsSound r.1 _ _ routed (search queue_rules)

ruleset call_rules = (queue_rules, voicemail_or_404-IsSound)

queue_call-IsSound :
    (env : Env) (srv : Server) (client : ℕ) (u callee : User) (num : Text) (offer : Option Sdp)
    → IsSound srv
    → IsSound (queue_call env srv client u callee num offer)
unfolding queue_call
queue_call-IsSound env srv client u callee num offer k =
    if-by IsSound env.push_ok _ _ (search call_rules) (search call_rules depth 9)

call_offline-IsSound :
    (env : Env) (srv : Server) (client : ℕ) (u : User) (num : Text) (offer : Option Sdp)
    → IsSound srv
    → IsSound (call_offline env srv client u num offer)
unfolding call_offline
call_offline-IsSound env srv client u num offer k =
    Option-by IsSound (find_user env srv num) _ _ (search call_rules) λ found _.
      Option-by IsSound found _ _ (search call_rules) λ callee _.
        if-by IsSound (not srv.has_pusher || callee.fcm_token == "") _ _ (search call_rules)
          (queue_call-IsSound env srv client u callee num offer k)

call_remote-IsSound :
    (env : Env) (srv : Server) (client : ℕ) (u : User) (area num : Text) (offer : Option Sdp)
    → IsSound srv
    → IsSound (call_remote env srv client u area num offer)
unfolding call_remote
call_remote-IsSound env srv client u area num offer k =
    if-by IsSound (not srv.has_registry) _ _ (search call_rules) (
      if-by IsSound (text_beq area (codes "800") || text_beq area (codes "900")) _ _
        (Option-by IsSound (env.resolve (area ++ num)) _ _ (search call_rules)
          λ addr _. start_service_call-IsSound env srv client u addr (area ++ num) offer k)
        (start_cross_call-IsSound env srv client u area num offer k))

-- The local number that is dialled leads to the caller, whatever the area code.
unfoldable pub calls_itself : Server → ℕ → CallRequest → Bool
unfolding parse_number lookup
calls_itself srv client msg = elim (parse_number msg.destination srv.area_code) [
  | none ↦ false
  | some (area, num) ↦ elim (lookup num srv.clients) [ none ↦ false | some c ↦ c == client ]
]

-- A call of a service code that carries no offer.
unfoldable pub lacks_offer : CallRequest → Bool
unfolding is_service_code
lacks_offer msg = is_service_code msg.destination && not (is_some msg.offer)

handle_service_call-IsSound :
    (env : Env) (srv : Server) (client : ℕ) (u : User) (msg : CallRequest)
    → is_some msg.offer ≡ true
    → IsSound srv
    → Returns IsSound (handle_service_call env srv client u msg)
unfolding handle_service_call
handle_service_call-IsSound env srv client u msg h k =
    Option-by (Returns IsSound) (lookup msg.destination srv.services) _ _ (search call_rules)
      λ svc _. elim (Option-cases msg.offer) [
        | inl e ↦ absurd (true≢false (sym h ∙ ap is_some e))
        | inr (offer, e) ↦ rw e (
            connect_service-IsSound env _ client svc offer
              (announce_caller-IsSound env srv u svc k))
      ]

call_online-IsSound :
    (env : Env) (srv : Server) (client : ℕ) (u : User) (callee : ℕ) (offer : Option Sdp)
    → (callee == client) ≡ false
    → HasUser srv.at callee
    → IsSound srv
    → Returns IsSound (call_online env srv client u callee offer)
unfolding call_online
call_online-IsSound env srv client u callee offer other h k =
    if-when (Returns IsSound) (callee == client) _ _ (λ e. absurd (true≢false (sym e ∙ other)))
      λ e.
        start_ring-IsSound ringing env.fresh client callee offer
          (search (send_message-HasUser, set_call_id-HasUser, h)) (search call_rules)
  where
    told : Server
    told = send_message srv callee (
        incoming_call env.fresh (record { area_code = u.area_code; number = u.number })
          u.display_name offer)

    ringing : Server
    ringing =
        send_message (set_call_id (set_call_id told client env.fresh) callee env.fresh) client
          (call_ringing env.fresh)

place_call-IsSound :
    (env : Env) (srv : Server) (client : ℕ) (u : User) (area num : Text) (offer : Option Sdp)
    → ((c : ℕ) → lookup num srv.clients ≡ some c → (c == client) ≡ false)
    → IsSound srv
    → Returns IsSound (place_call env srv client u area num offer)
unfolding place_call
place_call-IsSound env srv client u area num offer other k =
    if-by (Returns IsSound) (not (srv.area_code == []) && not (area == srv.area_code)) _ _
      (call_remote-IsSound env srv client u area num offer k)
      (Option-by (Returns IsSound) (lookup num srv.clients) _ _
        (call_offline-IsSound env srv client u num offer k)
        λ callee found.
          call_online-IsSound env srv client u callee offer (other callee found)
            (Values-lookup (HasUser srv.at) num callee srv.clients k.registered found) k)

self_test :
    (srv : Server) (client : ℕ) (msg : CallRequest) (r : Text × Text) (c : ℕ)
    → parse_number msg.destination srv.area_code ≡ some r
    → lookup r.1 srv.clients ≡ some c
    → calls_itself srv client msg ≡ false
    → (c == client) ≡ false
unfolding calls_itself
self_test srv client msg r c parsed found other = cc

pub handle_call_request-IsSound :
    (env : Env) (srv : Server) (client : ℕ) (msg : CallRequest)
    → calls_itself srv client msg ≡ false
    → lacks_offer msg ≡ false
    → IsSound srv
    → Returns IsSound (handle_call_request env srv client msg)
unfolding handle_call_request dial calls_itself lacks_offer
handle_call_request-IsSound env srv client msg other offered k =
    Option-by (Returns IsSound) (srv.at client).user _ _ (search call_rules) λ u _.
      if-when (Returns IsSound) (is_service_code msg.destination) _ _
        (λ e. handle_service_call-IsSound env srv client u msg (ground arith) k)
        λ e.
          Option-by (Returns IsSound) (parse_number msg.destination srv.area_code) _ _
            (search call_rules)
            λ r parsed.
              place_call-IsSound env srv client u r.0 r.1 msg.offer
                (λ c found. self_test srv client msg r c parsed found other) k
