-- ===== src/Signaling/Tests.antt =====
-- Two phones on an exchange: the theorems on call control, applied to them.
use open_carrier_network.Prelude.{
  ℕ, ◌≤◌, ◌≡◌, ◌≢◌, ◌↔◌, refl, true, false, Option, none, some, List, [], ◌∷◌, String, Text, codes,
  arith, text_beq, length, nat_eq, text_eq, string_eq, ◌==◌, if◌then◌else◌,
}
use open_carrier_network.Prelude.Table.{lookup}
use open_carrier_network.Numbers.{parse_number}
use open_carrier_network.Store.Tables.{User}
use open_carrier_network.Signaling.Messages.{Sdp, CallRequest, call_connected}
use open_carrier_network.Signaling.State.{
  Client, Service, hosted, RingState, PendingCall, Env, Server, Outcome, done, panicked, deadlocked,
}
use open_carrier_network.Signaling.Send.{update, is_online}
use open_carrier_network.Signaling.Ring.{on_ring_timeout}
use open_carrier_network.Signaling.Pending.{is_expired, expire_pending_calls}
use open_carrier_network.Signaling.Call.{is_service_code, handle_call_request}
use open_carrier_network.Signaling.Answer.{handle_call_answer, handle_ice_candidate}
use open_carrier_network.Signaling.Hangup.{handle_call_hangup}
use open_carrier_network.Signaling.Register.{attach}
use open_carrier_network.Signaling.Clients.{unregister_client}
use open_carrier_network.Signaling.Step.{
  call, call_answer, call_hangup, Event, received, socket_closed, ring_timer, expiry_tick, step,
  run,
}
use open_carrier_network.Signaling.Safety.Parts.{IsSound, Returns}
use open_carrier_network.Signaling.Safety.Steps.{
  is_hazard, step-IsSound, avoids_hazards, run-IsSound,
}
use open_carrier_network.Signaling.Presence.{
  unregister_client-offline, unregister_client-others, attach-online,
}
use open_carrier_network.Signaling.Expiry.{IsQueued, expire_pending_calls-IsQueued}
use open_carrier_network.Signaling.Races.{on_ring_timeout-answered, on_ring_timeout-twice}
use open_carrier_network.Signaling.Hazards.{run-bad_key_size}
use open_carrier_network.Signaling.Step.{challenge_request, register}
use open_carrier_network.Signaling.Call.{handle_service_call, dial, place_call, call_online}

abbrev phone : String → Text → User
phone key number = record {
  ksim_public_key = key;
  area_code = codes "440";
  number = number;
  display_name = codes "a phone";
  fcm_token = "";
  registered_at = 0;
  last_seen = 0;
}

abbrev alice : User
alice = phone "alice" (codes "1000001")

abbrev bob : User
bob = phone "bob" (codes "1000002")

abbrev socket : Option User → Client
socket user = record { user = user; call_id = ""; send_ch = []; open_conn = true }

abbrev sockets : ℕ → Client
sockets c =
    if c == 1 then socket (some alice) else if c == 2 then socket (some bob) else socket none

abbrev offer : Sdp
offer = record { sdp = "v=0"; type = "offer" }

abbrev info : Service
info = hosted "*00" "Information" false

abbrev waiting_call : PendingCall
waiting_call = record {
  call_id = "call_8";
  caller = some 1;
  remote = false;
  offer = some offer;
  created_at = 100;
}

abbrev exchange : Server
exchange = record {
  at = sockets;
  clients = (codes "1000001", 1) ∷ (codes "1000002", 2) ∷ [];
  db = record { users = alice ∷ bob ∷ []; tokens = []; dm_outbox = []; voicemail = [] };
  challenges = [];
  area_code = codes "440";
  services = (codes "*00", info) ∷ [];
  svc_calls = ("call_9", record { client = 1; service = info }) ∷ [];
  pending_calls = (codes "1000003", waiting_call) ∷ [];
  has_pusher = true;
  ice_servers = [];
  net_svcs = [];
  vm_enabled = true;
  has_dm = true;
  ring_states = [];
  ring_timeout = 20;
  pending_call_timeout = 60;
  has_registry = false;
  out_legs = [];
  in_legs = [];
  effects = [];
}

abbrev world : ℕ → Env
world now = record {
  fresh = "call_1";
  fresh_recording = "call_2";
  now = now;
  db_ok = true;
  media_answer = λ _. some "v=0";
  push_ok = true;
  route = λ _. none;
  resolve = λ _. none;
  dial_ok = λ _. false;
  bridge = λ _. none;
  send_ok = λ _. false;
  deliver_dm = λ _. none;
  verify = λ _ _ _ _. true;
  hash_token = λ t. t;
  attempts = λ _. record { now = now; draws = [] };
  seal = λ _ _. [];
  unseal = λ _ _. none;
  render = λ _ _. none;
}

abbrev to_bob : CallRequest
to_bob = record { destination = codes "1000002"; offer = some offer }

exchange-IsSound : IsSound exchange
exchange-IsSound = record { registered = (refl, (refl, tt)); rung = tt; bounded = empty }
  where
    empty : (c : ℕ) → length (sockets c).send_ch ≤ 64
    empty c = ground arith

-- Alice calls Bob, who answers.
abbrev a_call : List (Env × Event)
a_call =
    (world 100, received 1 (call to_bob))
    ∷ (world 105, received 2 (call_answer "call_1" (some offer)))
    ∷ (world 130, ring_timer "call_1")
    ∷ (world 150, received 1 call_hangup)
    ∷ (world 200, expiry_tick)
    ∷ (world 210, socket_closed 2)
    ∷ []

call_is_safe : avoids_hazards exchange a_call ≡ true
unfolding avoids_hazards step is_hazard handle_call_request handle_call_answer on_ring_timeout
    handle_call_hangup
call_is_safe = refl

run-IsSound_example : Returns IsSound (run exchange a_call)
run-IsSound_example = run-IsSound a_call exchange call_is_safe exchange-IsSound

first_is_safe : is_hazard exchange (received 1 (call to_bob)) ≡ false
unfolding is_hazard
first_is_safe = refl

step-IsSound_example : Returns IsSound (step (world 100) exchange (received 1 (call to_bob)))
step-IsSound_example =
    step-IsSound (world 100) exchange (received 1 (call to_bob)) first_is_safe exchange-IsSound

unregister_client-offline_example :
    lookup (codes "1000002") (unregister_client (world 100) exchange 2).clients ≢ some 2
unregister_client-offline_example = unregister_client-offline (world 100) exchange 2 bob refl

alice_is_there : lookup (codes "1000001") exchange.clients ≡ some 1
unfolding lookup text_beq
alice_is_there = refl

unregister_client-others_example :
    lookup (codes "1000001") (unregister_client (world 100) exchange 2).clients ≡ some 1
unregister_client-others_example =
    unregister_client-others (world 100) exchange 2 bob (codes "1000001") 1 refl alice_is_there
      (ground arith)

attach-online_example :
    let after = attach exchange 3 alice in
    (lookup alice.number after.clients ≡ some 3)
    × (is_online after (some 3) ≡ true)
    × (alice.number ≢ bob.number
        → lookup bob.number after.clients ≡ lookup bob.number exchange.clients)
attach-online_example = attach-online exchange 3 alice bob.number

expire_pending_calls-IsQueued_example :
    IsQueued
      (codes "1000003")
      waiting_call
      (expire_pending_calls (world 200) exchange).pending_calls
    ↔ (IsQueued (codes "1000003") waiting_call exchange.pending_calls
        × (is_expired exchange (world 200) waiting_call ≡ false))
expire_pending_calls-IsQueued_example =
    expire_pending_calls-IsQueued (world 200) exchange (codes "1000003") waiting_call

-- Bob's phone rings.
abbrev ring : RingState
ring = record { caller = 1; callee = 2; callee_user = some bob; offer = some offer }

abbrev in_call : ℕ → Client
in_call c = record (sockets c) { call_id = "call_1" }

abbrev ringing : Server
ringing = record exchange { at = in_call; ring_states = ("call_1", ring) ∷ [] }

abbrev answered : Server
answered = record ringing {
  at =
      update in_call 1
        (record (in_call 1) { send_ch = call_connected "call_1" (some offer) none ∷ [] });
  ring_states = [];
}

bob_answers : handle_call_answer ringing 2 "call_1" (some offer) ≡ done answered
unfolding handle_call_answer
bob_answers = refl

on_ring_timeout-answered_example : on_ring_timeout (world 130) answered "call_1" ≡ done answered
on_ring_timeout-answered_example =
    on_ring_timeout-answered (world 130) ringing answered 2 "call_1" (some offer) bob refl
      bob_answers

abbrev rung_out : Server
rung_out = after (on_ring_timeout (world 130) ringing "call_1")
  where
    after : Outcome Server → Server
    after (done s) = s
    after _ = ringing

ring_runs_out : on_ring_timeout (world 130) ringing "call_1" ≡ done rung_out
unfolding on_ring_timeout
ring_runs_out = refl

on_ring_timeout-twice_example : on_ring_timeout (world 140) rung_out "call_1" ≡ done rung_out
on_ring_timeout-twice_example =
    on_ring_timeout-twice (world 130) (world 140) ringing rung_out "call_1" ring_runs_out

-- A client that calls its own line locks its mutex twice.
calls_own_line :
    handle_call_request
      (world 100)
      exchange
      1
      (record { destination = codes "1000001"; offer = some offer })
    ≡ deadlocked
unfolding handle_call_request dial is_service_code place_call call_online parse_number lookup
    text_beq
calls_own_line = refl

-- A call of a service code with no offer, and a message for a service call with no candidate.
bare_service_messages :
    (handle_call_request (world 100) exchange 1 (record { destination = codes "*00"; offer = none })
      ≡ panicked)
    × (handle_ice_candidate exchange 1 "call_9" none ≡ panicked)
unfolding handle_call_request dial is_service_code handle_service_call handle_ice_candidate lookup
    text_beq
bare_service_messages = (refl, refl)

run-bad_key_size_example :
    run exchange (
      (world 100, received 3 (challenge_request (some "short") (some (7 ∷ []))))
      ∷ (
        world 110,
        received 3 (
            register (record {
              ksim_id = some "short";
              signature = some [];
              display_name = [];
              activation_token = "";
            })),
      )
      ∷ [])
    ≡ panicked
run-bad_key_size_example =
    run-bad_key_size (world 100) (world 110) exchange 3 "short" (7 ∷ []) [] [] "" refl
      (ground arith) (omega arith)
