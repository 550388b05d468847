-- ===== src/Registry/Resolution.antt =====
-- A service number from its claim to its suspension.
use open_carrier_network.Prelude.{
  ℕ, ◌≡◌, ◌≢◌, refl, sym, ◌∙◌, true, Option, none, some, List, [], ◌∷◌, Text, arith, text_eq,
  beq_refl, if-when, Option-when,
}
use open_carrier_network.Registry.{ServerStatus, active, inactive, ServerInfo, get_route}
use open_carrier_network.Registry.Services.{
  ServiceNumber, ServiceError, allowed_service_full, get_service_number, insert_service,
  claim_service_number, set_rows, set_service_status, resolve_service,
}

-- A claim that succeeds: the number is one that may be claimed and has no row, and its host has a
-- route.
Claims : List ServerInfo → List ServiceNumber → ServiceNumber → ServerInfo → Type 0
Claims servers services sn host =
    (allowed_service_full sn.full_number ≡ true)
    × (get_route sn.host_area servers ≡ some host)
    × (get_service_number sn.full_number services ≡ none)

some≢none : {e : ServiceError} → some e ≢ none
some≢none q = cc

insert_service-Claims :
    (sn : ServiceNumber) (now : ℕ) (services : List ServiceNumber)
    → (insert_service sn now services).1 ≡ none
    → get_service_number sn.full_number services ≡ none
unfolding insert_service
insert_service-Claims sn now services =
    Option-when
      (λ (r : List ServiceNumber × Option ServiceError).
        r.1 ≡ none → get_service_number sn.full_number services ≡ none)
      (get_service_number sn.full_number services) _ _ (λ e q. e) λ old e q. absurd (some≢none q)

claim_service_number-Claims :
    (servers : List ServerInfo) (services : List ServiceNumber) (sn : ServiceNumber) (now : ℕ)
    → (claim_service_number servers services sn now).1 ≡ none
    → (host : ServerInfo) × Claims servers services sn host
unfolding claim_service_number Claims
claim_service_number-Claims servers services sn now =
    if-when P (allowed_service_full sn.full_number) _ _
      (λ allowed.
        Option-when P (get_route sn.host_area servers) _ _ (λ e q. absurd (some≢none q))
          λ host routed q. (host, (allowed, routed, insert_service-Claims sn now services q)))
      λ e q. absurd (some≢none q)
  where
    P : List ServiceNumber × Option ServiceError → Type 0
    P r = r.1 ≡ none → (host : ServerInfo) × Claims servers services sn host

resolve-fresh :
    (servers : List ServerInfo) (services : List ServiceNumber) (sn : ServiceNumber) (now : ℕ)
    (host : ServerInfo)
    → Claims servers services sn host
    → resolve_service servers (claim_service_number servers services sn now).0 sn.full_number
      ≡ some (record sn { status = active; created_at = now }, host)
unfolding Claims resolve_service claim_service_number insert_service get_service_number
resolve-fresh servers services sn now host (allowed, routed, free) =
    rw claimed (
      rw (allowed, resolve_service)
        (rw (mine, resolve_service) (rw (routed, resolve_service) refl)))
  where
    row : ServiceNumber
    row = record sn { status = active; created_at = now }

    claimed : (claim_service_number servers services sn now).0 ≡ row ∷ services
    claimed =
        rw (allowed, claim_service_number)
          (rw (routed, claim_service_number) (rw (free, insert_service) refl))

    mine : get_service_number sn.full_number (row ∷ services) ≡ some row
    mine = rw (beq_refl sn.full_number) refl

-- A service number that an exchange has claimed with success is one that may be claimed, and it
-- resolves to the active exchange that hosts it.
pub resolve_service-claim_service_number :
    (servers : List ServerInfo) (services : List ServiceNumber) (sn : ServiceNumber) (now : ℕ)
    → (claim_service_number servers services sn now).1 ≡ none
    → (allowed_service_full sn.full_number ≡ true)
      × ((host : ServerInfo) × (get_route sn.host_area servers ≡ some host)
          × (resolve_service servers (claim_service_number servers services sn now).0 sn.full_number
              ≡ some (record sn { status = active; created_at = now }, host)))
unfolding Claims
resolve_service-claim_service_number servers services sn now accepted =
    let (host, claims) = claim_service_number-Claims servers services sn now accepted in
    (claims.0, (host, claims.1, resolve-fresh servers services sn now host claims))

get_service_number-set_rows :
    (full : Text) (status : ServerStatus) (services : List ServiceNumber) (s : ServiceNumber)
    → get_service_number full services ≡ some s
    → get_service_number full (set_rows full status services) ≡ some (record s { status = status })
unfolding get_service_number set_rows
get_service_number-set_rows full status [] s found = cc
get_service_number-set_rows full status (r ∷ rs) s found =
    ground (arith, get_service_number-set_rows full status rs s)

get_service_number-set_service_status :
    (services : List ServiceNumber) (full : Text) (status : ServerStatus) (s : ServiceNumber)
    → get_service_number full (set_service_status services full status).0 ≡ some s
    → s.status ≡ status
unfolding set_service_status
get_service_number-set_service_status services full status s =
    Option-when
      (λ (r : List ServiceNumber × Option ServiceError).
        get_service_number full r.0 ≡ some s → s.status ≡ status)
      (get_service_number full services) _ _ (λ missing q. absurd (none≢some (sym missing ∙ q)))
      λ old found q. status_inj (sym q ∙ get_service_number-set_rows full status services old found)
  where
    none≢some : none ≢ some s
    none≢some e = cc

    status_inj : {t : ServiceNumber} → some s ≡ some t → s.status ≡ t.status
    status_inj e = cc

-- A service number that has been suspended resolves to nothing, whatever its host.
pub resolve_service-set_service_status :
    (servers : List ServerInfo) (services : List ServiceNumber) (full : Text)
    → resolve_service servers (set_service_status services full inactive).0 full ≡ none
unfolding resolve_service
resolve_service-set_service_status servers services full =
    if-when (λ r. r ≡ none) (allowed_service_full full) _ _
      (λ allowed.
        Option-when (λ r. r ≡ none)
          (get_service_number full (set_service_status services full inactive).0) _ _ (λ e. refl)
          λ s found. rw (get_service_number-set_service_status services full inactive s found) refl)
      λ e. refl
