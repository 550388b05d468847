-- ===== src/Admin/Routes.antt =====
-- ocnserver/internal/admin/server.go: the routes, and federation.go: how the exchange joins a registry.
use open_carrier_network.Prelude.{Bool, true, not, Option, none, some, [], Text}
use open_carrier_network.Prelude.{String, ◌==◌, text_eq, if◌then◌else◌}
use open_carrier_network.Admin.Accounts.{session_username}
use open_carrier_network.Store.Settings.{FederationSettings, get_setting, set_setting}
use open_carrier_network.Store.Settings.{get_federation_settings, save_federation_settings}
use open_carrier_network.Store.Settings.{clear_federation_settings}
use open_carrier_network.Admin.Panel.{Panel, Options, Outside, Request, Call, refused, done, status}
use open_carrier_network.Admin.Panel.{registered, bad_request, not_authenticated, internal}
use open_carrier_network.Admin.Panel.{address_required, bad_gateway, bearer_token, trim_space}
use open_carrier_network.Admin.Panel.{join_mint, login, logout, me, password, stats, list_lines}
use open_carrier_network.Admin.Panel.{update_line_of, delete_line_of, free_numbers, list_provisions}
use open_carrier_network.Admin.Panel.{create_provision, revoke_provision, federation_status}
use open_carrier_network.Admin.Panel.{federation_register, federation_clear}
use open_carrier_network.Admin.Handlers.{Answer, handle_login, handle_logout, handle_me}
use open_carrier_network.Admin.Handlers.{handle_password, handle_stats, handle_list_lines}
use open_carrier_network.Admin.Handlers.{
  handle_update_line, handle_delete_line, handle_free_numbers,
}
use open_carrier_network.Admin.Handlers.{handle_list_provisions, handle_create_provision}
use open_carrier_network.Admin.Handlers.{handle_revoke_provision, handle_join_mint}

-- handleFederationStatus
unfoldable pub handle_federation_status : Options → Outside → Panel → Answer
handle_federation_status o env p =
    let fs = get_federation_settings p.settings in
    let managed = not (fs.registry_address == []) in
    let address = if managed then fs.registry_address else o.registry_address in
    let area = get_setting "area_code" p.settings in
    let live = if env.live_area == [] then area else env.live_area in
    let shown : FederationSettings = record fs { registry_address = address } in
    (status (not (address == [])) managed shown area live, p)

-- The part of handleFederationRegister behind the registry's answer: save, then join at once.
unfoldable pub save_federation : Outside → FederationSettings → Text → Panel → Answer
save_federation env fs area p =
    let saved = set_setting "area_code" area (save_federation_settings fs p.settings) in
    let restart : Bool = elim env.activates [ none ↦ true | some joined ↦ not joined ] in
    (registered area restart, record p { settings = saved })

-- The request with its texts trimmed.
abbrev pub trim_settings : FederationSettings → FederationSettings
trim_settings fs = record fs {
  registry_address = trim_space fs.registry_address;
  requested_area_code = trim_space fs.requested_area_code;
  federation_public_addr = trim_space fs.federation_public_addr;
}

-- handleFederationRegister
unfoldable pub handle_federation_register : Outside → Option FederationSettings → Panel → Answer
handle_federation_register env none p = (refused bad_request, p)
handle_federation_register env (some body) p =
    let fs = trim_settings body in
    if fs.registry_address == []
    then (refused address_required, p)
    else if fs.federation_public_addr == []
    then (refused address_required, p)
    else if not env.loads_key
    then (refused internal, p)
    else if not env.dials
    then (refused bad_gateway, p)
    else elim env.registry_area [
      | none ↦ (refused bad_gateway, p)
      | some area ↦ save_federation env fs area p
    ]

-- handleFederationClear
unfoldable pub handle_federation_clear : Panel → Answer
handle_federation_clear p = (done, record p { settings = clear_federation_settings p.settings })

-- requireAuth: the handler behind it runs for the user of the session.
unfoldable pub require_auth : Outside → Request → (String → Panel → Answer) → Panel → Answer
require_auth env r next p =
    let (session, a) =
      session_username env.hash_token env.now (bearer_token r.authorization) p.accounts in
    elim session [
      | none ↦ (refused not_authenticated, record p { accounts = a })
      | some user ↦ next user (record p { accounts = a })
    ]

-- routes
unfoldable pub serve : Options → Outside → Request → Panel → Answer
serve o env r = route r.call
  where
    auth : (String → Panel → Answer) → Panel → Answer
    auth = require_auth env r

    route : Call → Panel → Answer
    route (join_mint name) = handle_join_mint o env r name
    route (login body) = handle_login env body
    route logout = auth (λ user. handle_logout env r)
    route me = auth handle_me
    route (password body) = auth (λ user. handle_password env user body)
    route stats = auth (λ user. handle_stats o env)
    route (list_lines search offset limit) =
        auth (λ user. handle_list_lines env search offset limit)
    route (update_line_of number body) = auth (λ user. handle_update_line number body)
    route (delete_line_of number) = auth (λ user. handle_delete_line number)
    route (free_numbers count) = auth (λ user. handle_free_numbers env count)
    route (list_provisions limit) = auth (λ user. handle_list_provisions limit)
    route (create_provision body) = auth (λ user. handle_create_provision o env r user body)
    route (revoke_provision id) = auth (λ user. handle_revoke_provision id)
    route federation_status = auth (λ user. handle_federation_status o env)
    route (federation_register body) = auth (λ user. handle_federation_register env body)
    route federation_clear = auth (λ user. handle_federation_clear)
