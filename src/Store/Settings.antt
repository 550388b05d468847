-- ===== src/Store/Settings.antt =====
-- ocnserver/internal/store/settings.go: the table `settings`, and the federation settings in it.
use open_carrier_network.Prelude.{Bool, true, false, none, some, List, [], ◌∷◌, String, Text}
use open_carrier_network.Prelude.{codes, ◌==◌, string_eq, text_eq}
use open_carrier_network.Prelude.Table.{Table, lookup, insert, delete}

abbrev pub Settings : Type 0
Settings = Table String Text

-- SetSetting: INSERT … ON CONFLICT(key) DO UPDATE
unfoldable pub set_setting : String → Text → Settings → Settings
set_setting key value s = insert key value s

-- GetSetting: the value, or "" when absent.
unfoldable pub get_setting : String → Settings → Text
get_setting key s = elim (lookup key s) [ none ↦ [] | some v ↦ v ]

pub record FederationSettings : Type 0 where
  pub registry_address : Text
  pub registry_insecure : Bool
  pub requested_area_code : Text
  pub federation_public_addr : Text

abbrev pub key_registry_address : String
key_registry_address = "registry_address"

abbrev pub key_registry_insecure : String
key_registry_insecure = "registry_insecure"

abbrev pub key_registry_area_code : String
key_registry_area_code = "registry_area_code"

abbrev pub key_fed_public : String
key_fed_public = "federation_public_address"

-- strconv.FormatBool
abbrev pub format_bool : Bool → Text
format_bool true = codes "true"
format_bool false = codes "false"

unfoldable pub get_federation_settings : Settings → FederationSettings
get_federation_settings s = record {
  registry_address = get_setting key_registry_address s;
  registry_insecure = get_setting key_registry_insecure s == codes "true";
  requested_area_code = get_setting key_registry_area_code s;
  federation_public_addr = get_setting key_fed_public s;
}

unfoldable pub save_federation_settings : FederationSettings → Settings → Settings
save_federation_settings fs s =
    let s1 = set_setting key_registry_address fs.registry_address s in
    let s2 = set_setting key_registry_insecure (format_bool fs.registry_insecure) s1 in
    let s3 = set_setting key_registry_area_code fs.requested_area_code s2 in
    set_setting key_fed_public fs.federation_public_addr s3

-- ClearFederationSettings: the loop over the four keys.
unfoldable pub delete_settings : List String → Settings → Settings
delete_settings [] s = s
delete_settings (k ∷ ks) s = delete_settings ks (delete k s)

unfoldable pub clear_federation_settings : Settings → Settings
clear_federation_settings s =
    delete_settings
      (key_registry_address ∷ key_registry_insecure ∷ key_registry_area_code ∷ key_fed_public ∷ [])
      s
