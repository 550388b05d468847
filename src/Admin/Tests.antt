-- ===== src/Admin/Tests.antt =====
-- Runs of the panel of ocnserver/internal/admin on small tables.
use open_carrier_network.Prelude.{Bool, true, false, Option, none, some, [], ◌∷◌, if-when, subst}
use open_carrier_network.Prelude.{String, Text, codes, ◌==◌, string_eq, text_eq, text_beq}
use open_carrier_network.Prelude.{if◌then◌else◌, ◌≡◌, refl}
use open_carrier_network.Prelude.Table.{lookup}
use open_carrier_network.Admin.Accounts.{Accounts, create_session, session_username}
use open_carrier_network.Admin.Accounts.{change_admin_password}
use open_carrier_network.Store.Settings.{FederationSettings, get_federation_settings, get_setting}
use open_carrier_network.Store.Settings.{save_federation_settings, clear_federation_settings}
use open_carrier_network.Admin.Panel.{Panel, Options, Outside, Request, negsuc, bearer_token}
use open_carrier_network.Admin.Panel.{trim_left, trim_right, delete_line_of, provision_uri}
use open_carrier_network.Admin.Panel.{signaling_address, without_port, query_escape, print_digits}
use open_carrier_network.Admin.Handlers.{handle_create_provision}
use open_carrier_network.Admin.Routes.{serve}
use open_carrier_network.Admin.Sessions.{user_of, session_username-create_session}
use open_carrier_network.Admin.Passwords.{IsChanged, IsHashing, change_admin_password-IsChanged}
use open_carrier_network.Store.Saved.{get_federation_settings-save, no_federation}
use open_carrier_network.Admin.Guarded.{IsHarmless, serve-IsHarmless}
use open_carrier_network.Admin.Minting.{IsTimely, handle_create_provision-IsTimely}

-- A hash of tokens, and hashes of passwords, for the runs.
abbrev short_hash : Text → String
short_hash token = if token == codes "secret" then "first" else "other"

abbrev fits_hash : String → Text → Bool
fits_hash hash password =
    if hash == "of admin" then password == codes "admin" else password == codes "longer"

abbrev hash_of : Text → Option String
hash_of password = if password == codes "longer" then some "of longer" else none

hash_of-IsHashing : IsHashing fits_hash hash_of
hash_of-IsHashing password h e =
    if-when (λ (r : Option String). r ≡ some h → fits_hash h password ≡ true)
      (password == codes "longer") (some "of longer") none
      (λ same made. subst (λ (x : String). fits_hash x password ≡ true) (some_injective made) same)
      (λ other none_made. absurd (none_differs none_made)) e
  where
    some_injective : some "of longer" ≡ some h → "of longer" ≡ h
    some_injective q = cc

    none_differs : none ≡ some h → ⊥
    none_differs q = cc

abbrev one_admin : Accounts
one_admin = record {
  accounts =
      (
        "admin",
        record { password_hash = "of admin"; created_at = 5; last_login = 0; must_change = true },
      )
      ∷ [];
  sessions = ("other", record { username = "guest"; created_at = 5; expires_at = 90000 }) ∷ [];
}

abbrev panel : Panel
panel = record {
  db = record { users = []; tokens = []; dm_outbox = []; voicemail = [] };
  accounts = one_admin;
  settings = [];
}

abbrev outside : Outside
outside = record {
  now = 100000;
  hash_token = short_hash;
  fits = fits_hash;
  make_hash = hash_of;
  random_token = some (codes "secret");
  renders = true;
  like = λ text search. false;
  online = [];
  draws = [];
  live_area = [];
  loads_key = true;
  dials = true;
  registry_area = none;
  activates = none;
}

abbrev options : Options
options = record {
  signaling_port = 0;
  public_address = [];
  area_code = [];
  server_name = codes "OCN";
  registry_address = [];
}

-- A request to release a line, with a token whose session has expired.
abbrev late_request : Request
late_request = record {
  authorization = codes "Bearer stale";
  host = codes "ocn.example:8080";
  tls = true;
  call = delete_line_of (codes "5550100");
}

link : provision_uri options late_request (codes "t/1") (codes "Jo B") ≡ (
  codes "ocnksim://ocn.example/?name=Jo+B&server=wss%3A%2F%2Focn.example%3A9100%2Fws&token=t%2F1",
  codes "ocn.example",
)
unfolding provision_uri signaling_address without_port query_escape print_digits trim_left
    trim_right text_beq
link = refl

session_username-create_session_example :
    user_of short_hash 43201
      (codes "secret")
      (create_session short_hash (some (codes "secret")) 1 "admin" one_admin).1
    ≡ some "admin"
unfolding text_beq
session_username-create_session_example =
    session_username-create_session short_hash (codes "secret") (codes "secret") 1 43201 "admin"
      one_admin (unfold lookup in refl)

change_admin_password-IsChanged_example :
    IsChanged fits_hash hash_of "admin"
      (codes "admin")
      (codes "longer")
      one_admin
      (change_admin_password fits_hash hash_of "admin" (codes "admin") (codes "longer") one_admin)
change_admin_password-IsChanged_example =
    change_admin_password-IsChanged fits_hash hash_of "admin" (codes "admin") (codes "longer")
      one_admin hash_of-IsHashing

abbrev joined : FederationSettings
joined = record {
  registry_address = codes "reg.example:9200";
  registry_insecure = true;
  requested_area_code = codes "555";
  federation_public_addr = codes "ocn.example:9300";
}

get_federation_settings-save_example :
    (get_federation_settings (save_federation_settings joined []) ≡ joined)
    × (get_federation_settings (clear_federation_settings []) ≡ no_federation)
    × (get_setting "area_code" (save_federation_settings joined []) ≡ get_setting "area_code" [])
    × (get_setting "area_code" (clear_federation_settings []) ≡ get_setting "area_code" [])
get_federation_settings-save_example = get_federation_settings-save joined []

serve-IsHarmless_example :
    IsHarmless 100000
      (delete_line_of (codes "5550100"))
      panel
      (serve options outside late_request panel)
serve-IsHarmless_example = serve-IsHarmless options outside late_request panel stale
  where
    stale : user_of short_hash 100000 (bearer_token (codes "Bearer stale")) one_admin ≡ none
    stale = unfold session_username bearer_token trim_left trim_right lookup text_beq in refl

handle_create_provision-IsTimely_example : IsTimely 100000 panel (
    handle_create_provision options outside late_request "admin"
      (some (record {
        number = codes " 5550100";
        display_name = [];
        notes = "";
        valid_hours = negsuc 4;
      }))
      panel)
handle_create_provision-IsTimely_example =
    handle_create_provision-IsTimely options outside late_request "admin"
      (some (record {
        number = codes " 5550100";
        display_name = [];
        notes = "";
        valid_hours = negsuc 4;
      }))
      panel
