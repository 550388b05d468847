-- ===== src/Registry.antt =====
-- registry_server/internal/store/store.go: the registry of exchanges, a row for each area code. The
-- values that rand.Intn yields are an argument, and so is Ed25519 over an area code and a time.
pub mod Areas
pub mod Services
pub mod Resolution
pub mod Signatures
pub mod Service
pub mod Pushes
mod Tests
use open_carrier_network.Prelude.{
  ℕ, zero, suc, ◌+◌, ◌-◌, ◌*◌, ◌/◌, ◌%◌, Bool, true, false, not, ◌&&◌, ◌||◌, Option, none, some,
  List, [], ◌∷◌, String, Text, codes, text_beq, ◌==◌, text_eq, string_eq, if◌then◌else◌, ltb, leb,
  nat_beq, length, take,
}

pub data ServerStatus : Type 0 where
  active inactive : ServerStatus

-- ServerInfo, a row of `ocn_servers`; `inactive` is any status other than ACTIVE.
pub record ServerInfo : Type 0 where
  pub area_code : Text
  pub name : Text
  pub description : Text
  pub server_addr : String
  pub public_key : String
  pub registered_at : ℕ
  pub status : ServerStatus

pub data RegistryError : Type 0 where
  area_invalid area_taken no_free_areas server_not_found bad_signature : RegistryError

abbrev is_digit : ℕ → Bool
is_digit c = leb b'0' c && leb c b'9'

-- AllowedArea
unfoldable pub allowed_area : Text → Bool
unfolding text_beq
allowed_area (a ∷ b ∷ c ∷ []) =
    let area = a ∷ b ∷ c ∷ [] in
    let n = ((a - 48) * 10 + (b - 48)) * 10 + (c - 48) in
    not (area == codes "800" || area == codes "900")
    && (is_digit a && is_digit b && is_digit c)
    && (leb 200 n && leb n 999)
allowed_area _ = false

-- SELECT … FROM ocn_servers WHERE area_code = ?
unfoldable pub find_server : Text → List ServerInfo → Option ServerInfo
find_server area [] = none
find_server area (s ∷ ss) = if s.area_code == area then some s else find_server area ss

unfoldable pub is_used : Text → List ServerInfo → Bool
is_used area [] = false
is_used area (s ∷ ss) = s.area_code == area || is_used area ss

-- fmt.Sprintf("%03d", n) for n < 1000
abbrev pub sprintf03 : ℕ → Text
sprintf03 n = (48 + n / 100) ∷ (48 + n / 10 % 10) ∷ (48 + n % 10) ∷ []

-- The random attempts of pickFree; a draw is below 600.
unfoldable pub try_areas : List ℕ → List ServerInfo → Option Text
unfolding is_used
try_areas [] servers = none
try_areas (draw ∷ draws) servers =
    let rest = try_areas draws servers in
    if not (is_used (sprintf03 (200 + draw)) servers) then some (sprintf03 (200 + draw)) else rest

-- The scan of pickFree, with `left` codes from `n` on to try.
unfoldable pub scan_areas : ℕ → ℕ → List ServerInfo → Option Text
unfolding is_used allowed_area
scan_areas zero n servers = none
scan_areas (suc left) n servers =
    let rest = scan_areas left (n + 1) servers in
    if not (is_used (sprintf03 n) servers) && allowed_area (sprintf03 n)
    then some (sprintf03 n)
    else rest

-- pickFree; `none` is ErrNoFreeAreas.
unfoldable pub pick_free : List ℕ → List ServerInfo → Option Text
unfolding try_areas scan_areas
pick_free draws servers = elim (try_areas (take 500 draws) servers) [
  | none ↦ scan_areas 800 200 servers
  | some area ↦ some area
]

-- UPDATE ocn_servers SET name = ?, description = ?, server_address = ?, status = 'ACTIVE' WHERE …
unfoldable pub refresh : Text → ServerInfo → List ServerInfo → List ServerInfo
refresh area info [] = []
refresh area info (s ∷ ss) =
    (if s.area_code == area
      then record s {
        name = info.name;
        description = info.description;
        server_addr = info.server_addr;
        status = active;
      }
      else s)
    ∷ refresh area info ss

-- The INSERT of RegisterServer, under a code that is not in the table.
unfoldable pub add_server : Text → ServerInfo → ℕ → List ServerInfo → List ServerInfo
add_server area info now servers =
    record info { area_code = area; registered_at = now; status = active } ∷ servers

pub data Registered : Type 0 where
  assigned : Text → Registered
  refused : RegistryError → Registered

-- RegisterServer for the code that is asked for.
unfoldable pub register_asked :
    List ServerInfo → ServerInfo → Text → ℕ → List ServerInfo × Registered
unfolding allowed_area find_server refresh add_server
register_asked servers info area now =
    if allowed_area area
    then elim (find_server area servers) [
      | none ↦ (add_server area info now servers, assigned area)
      | some s ↦
          if s.public_key == info.public_key
          then (refresh area info servers, assigned area)
          else (servers, refused area_taken)
    ]
    else (servers, refused area_invalid)

-- RegisterServer for no code in particular. The code that pickFree has found is not in the table.
unfoldable pub register_any :
    List ServerInfo → ServerInfo → List ℕ → ℕ → List ServerInfo × Registered
unfolding pick_free add_server
register_any servers info draws now = elim (pick_free draws servers) [
  | none ↦ (servers, refused no_free_areas)
  | some area ↦ (add_server area info now servers, assigned area)
]

-- strings.TrimSpace, on ASCII.
abbrev is_space : ℕ → Bool
is_space c = (ltb 8 c && ltb c 14) || nat_beq c 32

unfoldable pub trim_start : Text → Text
trim_start [] = []
trim_start (c ∷ cs) = let rest = trim_start cs in if is_space c then rest else c ∷ cs

unfoldable pub trim_end : Text → Text
unfolding text_beq
trim_end [] = []
trim_end (c ∷ cs) = let rest = trim_end cs in if is_space c && (rest == []) then [] else c ∷ rest

-- RegisterServer
unfoldable pub register_server :
    List ServerInfo → ServerInfo → List ℕ → ℕ → List ServerInfo × Registered
unfolding register_any register_asked text_beq trim_start trim_end
register_server servers info draws now =
    let code = trim_end (trim_start info.area_code) in
    if code == [] then register_any servers info draws now else register_asked servers info code now

abbrev pub is_active : ServerStatus → Bool
is_active active = true
is_active inactive = false

-- GetRoute
unfoldable pub get_route : Text → List ServerInfo → Option ServerInfo
unfolding find_server
get_route area servers = elim (find_server area servers) [
  | none ↦ none
  | some s ↦ if is_active s.status then some s else none
]

unfoldable pub drop_server : Text → List ServerInfo → List ServerInfo
drop_server area [] = []
drop_server area (s ∷ ss) =
    let rest = drop_server area ss in if s.area_code == area then rest else s ∷ rest

-- authWindow, five minutes.
abbrev pub auth_window : ℕ
auth_window = 300

module _ (verify : String → Text → ℕ → List ℕ → Bool) where
  -- ValidAuth; `verify` includes the test of the signature's length.
  unfoldable pub valid_auth : String → Text → ℕ → ℕ → List ℕ → Bool
  valid_auth key area ts now signature =
      if ltb (now + auth_window) ts || ltb (ts + auth_window) now
      then false
      else verify key area ts signature

  -- DeregisterServer
  unfoldable pub deregister_server :
      List ServerInfo → Text → ℕ → ℕ → List ℕ → List ServerInfo × Option RegistryError
  unfolding find_server valid_auth drop_server
  deregister_server servers area ts now signature = elim (find_server area servers) [
    | none ↦ (servers, some server_not_found)
    | some s ↦
        if valid_auth s.public_key area ts now signature
        then (drop_server area servers, none)
        else (servers, some bad_signature)
  ]

  -- VerifyPushAuth
  unfoldable pub verify_push_auth : List ServerInfo → Text → ℕ → ℕ → List ℕ → Option RegistryError
  unfolding find_server valid_auth
  verify_push_auth servers area ts now signature = elim (find_server area servers) [
    | none ↦ some server_not_found
    | some s ↦
        if is_active s.status
        then (if valid_auth s.public_key area ts now signature then none else some bad_signature)
        else some server_not_found
  ]
