-- ===== src/Registry/Tests.antt =====
-- Two exchanges on a registry: its theorems, applied to them.
use open_carrier_network.Prelude.{
  ℕ, ◌≡◌, refl, Bool, true, none, some, List, [], ◌∷◌, String, Text, codes, text_beq, arith, ◌==◌,
  text_eq, if◌then◌else◌,
}
use open_carrier_network.Registry.{
  active, ServerInfo, assigned, refused, area_taken, area_invalid, register_server, get_route,
  deregister_server, verify_push_auth,
}
use open_carrier_network.Registry.Areas.{IsRegistered, register_server-IsRegistered}
use open_carrier_network.Registry.Signatures.{deregister_server-verify_push_auth}
use open_carrier_network.Registry.Services.{
  ServiceNumber, allowed_service_full, claim_service_number, resolve_service,
}
use open_carrier_network.Registry.Resolution.{resolve_service-claim_service_number}
use open_carrier_network.Registry.Service.{RegistryService, PushRequest, ok, call_push, push_device}
use open_carrier_network.Registry.Service.{push_by_type}
use open_carrier_network.Registry.Pushes.{IsGuarded, push_device-IsGuarded}

abbrev exchange : Text → String → ServerInfo
exchange area key = record {
  area_code = area;
  name = codes "an exchange";
  description = [];
  server_addr = "host:443";
  public_key = key;
  registered_at = 0;
  status = active;
}

abbrev registry : List ServerInfo
registry = exchange (codes "440") "key_a" ∷ exchange (codes "216") "key_b" ∷ []

taken_by_another :
    (register_server registry (exchange (codes "440") "key_c") [] 100).1 ≡ refused area_taken
unfolding register_server
taken_by_another = refl

reserved_code :
    (register_server registry (exchange (codes "800") "key_c") [] 100).1 ≡ refused area_invalid
unfolding register_server
reserved_code = refl

drawn_code :
    (register_server registry (exchange (codes " ") "key_c") (240 ∷ 16 ∷ 17 ∷ []) 100).1
    ≡ assigned (codes "217")
unfolding register_server
drawn_code = refl

register_server-IsRegistered_example :
    IsRegistered registry
      (exchange [] "key_c")
      (register_server registry (exchange [] "key_c") (16 ∷ 17 ∷ []) 100)
register_server-IsRegistered_example =
    register_server-IsRegistered registry (exchange [] "key_c") (16 ∷ 17 ∷ []) 100
      (omega arith, (omega arith, tt))

abbrev signs : String → Text → ℕ → List ℕ → Bool
signs key area time signature = true

accepted : verify_push_auth signs registry (codes "440") 90 100 (7 ∷ []) ≡ none
unfolding verify_push_auth text_beq
accepted = refl

deregister_server-verify_push_auth_example :
    let after = deregister_server signs registry (codes "440") 90 100 (7 ∷ []) in
    (after.1 ≡ none)
    × (get_route (codes "216") after.0
        ≡ (if codes "440" == codes "216" then none else get_route (codes "216") registry))
deregister_server-verify_push_auth_example =
    deregister_server-verify_push_auth signs registry (codes "440") 90 100 (7 ∷ []) (codes "216")
      accepted

abbrev weather : ServiceNumber
weather = record {
  full_number = codes "8005551234";
  vanity = codes "WEATHER";
  name = codes "Weather";
  description = [];
  host_area = codes "440";
  status = active;
  created_at = 0;
}

claimed : (claim_service_number registry [] weather 100).1 ≡ none
unfolding claim_service_number
claimed = refl

resolve_service-claim_service_number_example :
    (allowed_service_full (codes "8005551234") ≡ true)
    × ((host : ServerInfo) × (get_route (codes "440") registry ≡ some host)
        × (resolve_service registry
              (claim_service_number registry [] weather 100).0
              (codes "8005551234")
            ≡ some (record weather { created_at = 100 }, host)))
resolve_service-claim_service_number_example =
    resolve_service-claim_service_number registry [] weather 100 claimed

abbrev service : RegistryService
service = record {
  servers = registry;
  services = [];
  pushes = true;
  stun = codes "stun.example:3478" ∷ [];
  turn_host = [];
  turn_user = [];
  turn_pass = [];
}

abbrev wake : PushRequest
wake = record {
  area_code = codes "440";
  timestamp = 90;
  signature = 7 ∷ [];
  token = codes "device";
  message_type = codes "call";
  call_id = codes "c1";
  caller_number = codes "4405550100";
  caller_name = [];
}

woken :
    push_device signs (λ p. true) 100 service wake
    ≡ (ok, call_push (codes "device") (codes "c1") (codes "4405550100") [] ∷ [])
unfolding push_device push_by_type verify_push_auth text_beq
woken = refl

push_device-IsGuarded_example :
    IsGuarded signs (λ p. true) 100 service wake (push_device signs (λ p. true) 100 service wake)
push_device-IsGuarded_example = push_device-IsGuarded signs (λ p. true) 100 service wake
