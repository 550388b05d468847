-- ===== src/Store/Saved.antt =====
-- Theorems on the settings of ocnserver/internal/store/settings.go.
use open_carrier_network.Prelude.{Bool, true, false, [], String, Text, codes, text_beq, ◌==◌}
use open_carrier_network.Prelude.{string_eq, text_eq, if◌then◌else◌, ◌≡◌, refl, arith}
use open_carrier_network.Prelude.Table.{delete, lookup-insert, lookup-delete}
use open_carrier_network.Store.Settings.{Settings, FederationSettings, get_setting, set_setting}
use open_carrier_network.Store.Settings.{get_federation_settings, save_federation_settings}
use open_carrier_network.Store.Settings.{clear_federation_settings, delete_settings, format_bool}
use open_carrier_network.Store.Settings.{key_registry_address, key_registry_insecure}
use open_carrier_network.Store.Settings.{key_registry_area_code, key_fed_public}

pub get_setting-insert :
    (k j : String) (v : Text) (s : Settings)
    → get_setting j (set_setting k v s) ≡ (if k == j then v else get_setting j s)
unfolding get_setting set_setting
get_setting-insert k j v s = ground (arith, lookup-insert k j v s)

get_setting-delete :
    (k j : String) (s : Settings)
    → get_setting j (delete k s) ≡ (if k == j then [] else get_setting j s)
unfolding get_setting
get_setting-delete k j s = ground (arith, lookup-delete k j s)

module _ (fs : FederationSettings) (s : Settings) where
  -- What the save has written, key by key.
  saved_value : String → Text
  saved_value key =
      if key_fed_public == key
      then fs.federation_public_addr
      else if key_registry_area_code == key
      then fs.requested_area_code
      else if key_registry_insecure == key
      then format_bool fs.registry_insecure
      else if key_registry_address == key
      then fs.registry_address
      else get_setting key s

  get_setting-save :
      (key : String) → get_setting key (save_federation_settings fs s) ≡ saved_value key
  unfolding save_federation_settings saved_value
  get_setting-save key =
      rw (get_setting-insert, get_setting-insert, get_setting-insert, get_setting-insert) refl

cleared_value : Settings → String → Text
cleared_value s key =
    if key_fed_public == key
    then []
    else if key_registry_area_code == key
    then []
    else if key_registry_insecure == key
    then []
    else if key_registry_address == key
    then []
    else get_setting key s

get_setting-clear :
    (s : Settings) (key : String)
    → get_setting key (clear_federation_settings s) ≡ cleared_value s key
unfolding clear_federation_settings delete_settings cleared_value
get_setting-clear s key =
    rw (get_setting-delete, get_setting-delete, get_setting-delete, get_setting-delete) refl

flag_back : (b : Bool) → (format_bool b == codes "true") ≡ b
unfolding text_beq
flag_back true = refl
flag_back false = refl

abbrev pub no_federation : FederationSettings
no_federation = record {
  registry_address = [];
  registry_insecure = false;
  requested_area_code = [];
  federation_public_addr = [];
}

-- The federation settings that the panel has saved are the ones that it loads, the flag included,
-- whatever was there; after they have been cleared it loads empty ones; and neither the save nor the
-- clearing touches the area code that the registry has assigned.
pub get_federation_settings-save :
    (fs : FederationSettings) (s : Settings)
    → (get_federation_settings (save_federation_settings fs s) ≡ fs)
      × (get_federation_settings (clear_federation_settings s) ≡ no_federation)
      × (get_setting "area_code" (save_federation_settings fs s) ≡ get_setting "area_code" s)
      × (get_setting "area_code" (clear_federation_settings s) ≡ get_setting "area_code" s)
unfolding get_federation_settings saved_value cleared_value text_beq
get_federation_settings-save fs s = (
  rw
      (
        get_setting-save fs s key_registry_address,
        get_setting-save fs s key_registry_insecure,
        get_setting-save fs s key_registry_area_code,
        get_setting-save fs s key_fed_public,
        flag_back fs.registry_insecure,
      )
      refl,
  rw
      (
        get_setting-clear s key_registry_address,
        get_setting-clear s key_registry_insecure,
        get_setting-clear s key_registry_area_code,
        get_setting-clear s key_fed_public,
      )
      refl,
  get_setting-save fs s "area_code",
  get_setting-clear s "area_code",
)
