-- ===== src/Registry/Service.antt =====
-- registry_server/internal/registrysvc/service.go: the gRPC handlers over the tables of the registry. A
-- public key is the string of its bytes.
use open_carrier_network.Prelude.{
  ℕ, Bool, not, ◌&&◌, Option, none, some, List, [], ◌∷◌, ◌++◌, String, Text, codes, ◌==◌, text_eq,
  string_eq, nat_eq, if◌then◌else◌, length,
}
use open_carrier_network.Registry.{
  ServerInfo, RegistryError, area_invalid, area_taken, no_free_areas, server_not_found,
  bad_signature, register_server, Registered, assigned, refused, deregister_server, get_route,
  verify_push_auth,
}
use open_carrier_network.Registry.Services.{ServiceNumber, resolve_service}

-- The gRPC codes that the handlers answer.
pub data Code : Type 0 where
  ok not_found invalid_argument permission_denied resource_exhausted unavailable internal : Code

-- Server, with what it is configured with: the pushing of messages is off where there is no client.
pub record RegistryService : Type 0 where
  pub servers : List ServerInfo
  pub services : List ServiceNumber
  pub pushes : Bool
  pub stun : List Text
  pub turn_host : Text
  pub turn_user : Text
  pub turn_pass : Text

-- RegisterOCNServerResponse and the errors beside it.
pub data RegisterReply : Type 0 where
  success : Text → RegisterReply
  failure : RegistryError → RegisterReply
  status : Code → RegisterReply

abbrev pub reply_of : Registered → RegisterReply
reply_of (assigned area) = success area
reply_of (refused area_invalid) = failure area_invalid
reply_of (refused area_taken) = failure area_taken
reply_of (refused no_free_areas) = status resource_exhausted
reply_of (refused _) = status internal

-- RegisterOCNServer
unfoldable pub register_ocn_server :
    RegistryService → ServerInfo → List ℕ → ℕ → RegistryService × RegisterReply
register_ocn_server svc info draws now =
    if info.server_addr == ""
    then (svc, status invalid_argument)
    else if not (length (codes info.public_key) == 32)
    then (svc, status invalid_argument)
    else let (servers, outcome) = register_server svc.servers info draws now in
      (record svc { servers = servers }, reply_of outcome)

abbrev pub grpc_code : Option RegistryError → Code
grpc_code none = ok
grpc_code (some server_not_found) = not_found
grpc_code (some bad_signature) = permission_denied
grpc_code (some _) = internal

-- GetRoute: the exchange of an area, if it is found.
unfoldable pub get_route_reply : RegistryService → Text → Option ServerInfo
get_route_reply svc area = get_route area svc.servers

-- ResolveService
unfoldable pub resolve_service_reply : RegistryService → Text → Option (ServiceNumber × ServerInfo)
resolve_service_reply svc full = resolve_service svc.servers svc.services full

pub record PbIceServer : Type 0 where
  pub urls : List Text
  pub username : Text
  pub credential : Text

-- The loop over the STUN servers of GetICECandidates.
unfoldable pub stun_servers : List Text → List PbIceServer
stun_servers [] = []
stun_servers (c ∷ cs) =
    record { urls = (codes "stun:" ++ c) ∷ []; username = []; credential = [] } ∷ stun_servers cs

-- The first address that is not empty.
unfoldable pub reflexive_address : List Text → Text
reflexive_address [] = []
reflexive_address (c ∷ cs) = let rest = reflexive_address cs in if c == [] then rest else c

-- GetICECandidates
unfoldable pub get_ice_candidates : RegistryService → List PbIceServer × Text
get_ice_candidates svc = (stun_servers svc.stun ++ relay, reflexive_address svc.stun)
  where
    relay : List PbIceServer
    relay =
        if not (svc.turn_host == []) && not (svc.turn_user == [])
        then record {
          urls =
              (codes "turn:" ++ svc.turn_host ++ codes "?transport=udp")
              ∷ (codes "turn:" ++ svc.turn_host ++ codes "?transport=tcp")
              ∷ [];
          username = svc.turn_user;
          credential = svc.turn_pass;
        }
          ∷ []
        else []

pub record PushRequest : Type 0 where
  pub area_code : Text
  pub timestamp : ℕ
  pub signature : List ℕ
  pub token : Text
  pub message_type : Text
  pub call_id : Text
  pub caller_number : Text
  pub caller_name : Text

-- What the push client is asked to send.
pub data Push : Type 0 where
  call_push : Text → Text → Text → Text → Push
  voicemail_push : Text → Text → Text → Push
  message_push : Text → Text → Text → Push

-- A message that is sent, and the code by its success.
abbrev pub send : (Push → Bool) → Push → Code × List Push
send sends p = if sends p then (ok, p ∷ []) else (unavailable, p ∷ [])

-- The switch of PushDevice on the type of the message.
unfoldable pub push_by_type : (Push → Bool) → PushRequest → Code × List Push
push_by_type sends r =
    if r.message_type == codes "voicemail"
    then send sends (voicemail_push r.token r.caller_number r.caller_name)
    else if r.message_type == codes "message"
    then send sends (message_push r.token r.caller_number r.caller_name)
    else if r.call_id == []
    then (invalid_argument, [])
    else send sends (call_push r.token r.call_id r.caller_number r.caller_name)

module _ (verify : String → Text → ℕ → List ℕ → Bool) where
  -- DeregisterOCNServer
  unfoldable pub deregister_ocn_server :
      RegistryService → Text → ℕ → ℕ → List ℕ → RegistryService × Code
  deregister_ocn_server svc area ts now signature =
      let (servers, outcome) = deregister_server verify svc.servers area ts now signature in
      (record svc { servers = servers }, grpc_code outcome)

  -- PushDevice, with the answers of the push client: the code, and what it was asked to send.
  unfoldable pub push_device : (Push → Bool) → ℕ → RegistryService → PushRequest → Code × List Push
  push_device sends now svc r =
      if not svc.pushes
      then (unavailable, [])
      else (elim (verify_push_auth verify svc.servers r.area_code r.timestamp now r.signature) [
        | some _ ↦ (permission_denied, [])
        | none ↦ if r.token == [] then (invalid_argument, []) else push_by_type sends r
      ])
