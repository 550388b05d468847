-- ===== src/Registry/Services.antt =====
-- registry_server/internal/store/service_numbers.go: the 800 and 900 numbers, each hosted by an
-- exchange.
use open_carrier_network.Prelude.{
  ℕ, Bool, true, ◌&&◌, ◌||◌, Option, none, some, List, [], ◌∷◌, Text, codes, text_beq, nat_beq,
  ◌==◌, text_eq, if◌then◌else◌, leb, length, take,
}
use open_carrier_network.Registry.{ServerStatus, active, ServerInfo, is_active, get_route}

-- ServiceNumber, a row of `service_numbers`.
pub record ServiceNumber : Type 0 where
  pub full_number : Text
  pub vanity : Text
  pub name : Text
  pub description : Text
  pub host_area : Text
  pub status : ServerStatus
  pub created_at : ℕ

pub data ServiceError : Type 0 where
  service_invalid service_taken service_not_found host_not_found : ServiceError

unfoldable pub are_digits : Text → Bool
are_digits [] = true
are_digits (c ∷ cs) = (leb b'0' c && leb c b'9') && are_digits cs

-- AllowedServiceFull
unfoldable pub allowed_service_full : Text → Bool
unfolding are_digits text_beq
allowed_service_full full =
    nat_beq (length full) 10
    && are_digits full
    && (take 3 full == codes "800" || take 3 full == codes "900")

-- GetServiceNumber
unfoldable pub get_service_number : Text → List ServiceNumber → Option ServiceNumber
get_service_number full [] = none
get_service_number full (s ∷ ss) =
    if s.full_number == full then some s else get_service_number full ss

-- The INSERT of ClaimServiceNumber, with its primary key.
unfoldable pub insert_service :
    ServiceNumber → ℕ → List ServiceNumber → List ServiceNumber × Option ServiceError
unfolding get_service_number
insert_service sn now services = elim (get_service_number sn.full_number services) [
  | some old ↦ (services, some service_taken)
  | none ↦ (record sn { status = active; created_at = now } ∷ services, none)
]

-- ClaimServiceNumber. Its query for an active host is that of GetRoute.
unfoldable pub claim_service_number :
    List ServerInfo
    → List ServiceNumber
    → ServiceNumber
    → ℕ
    → List ServiceNumber × Option ServiceError
unfolding allowed_service_full get_route insert_service
claim_service_number servers services sn now =
    if allowed_service_full sn.full_number
    then elim (get_route sn.host_area servers) [
      | none ↦ (services, some host_not_found)
      | some host ↦ insert_service sn now services
    ]
    else (services, some service_invalid)

unfoldable pub set_rows : Text → ServerStatus → List ServiceNumber → List ServiceNumber
set_rows full status [] = []
set_rows full status (s ∷ ss) =
    (if s.full_number == full then record s { status = status } else s) ∷ set_rows full status ss

-- SetServiceStatus, for one of the two statuses that it takes.
unfoldable pub set_service_status :
    List ServiceNumber → Text → ServerStatus → List ServiceNumber × Option ServiceError
unfolding get_service_number set_rows
set_service_status services full status = elim (get_service_number full services) [
  | none ↦ (services, some service_not_found)
  | some s ↦ (set_rows full status services, none)
]

unfoldable pub drop_service_rows : Text → List ServiceNumber → List ServiceNumber
drop_service_rows full [] = []
drop_service_rows full (s ∷ ss) =
    let rest = drop_service_rows full ss in if s.full_number == full then rest else s ∷ rest

-- DeleteServiceNumber
unfoldable pub delete_service_number :
    List ServiceNumber → Text → List ServiceNumber × Option ServiceError
unfolding get_service_number drop_service_rows
delete_service_number services full = elim (get_service_number full services) [
  | none ↦ (services, some service_not_found)
  | some s ↦ (drop_service_rows full services, none)
]

-- ResolveService; `none` is any of its errors.
unfoldable pub resolve_service :
    List ServerInfo → List ServiceNumber → Text → Option (ServiceNumber × ServerInfo)
unfolding allowed_service_full get_service_number get_route
resolve_service servers services full =
    if allowed_service_full full
    then elim (get_service_number full services) [
      | none ↦ none
      | some sn ↦
          if is_active sn.status
          then elim (get_route sn.host_area servers) [ none ↦ none | some host ↦ some (sn, host) ]
          else none
    ]
    else none
