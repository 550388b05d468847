-- ===== src/Registry/Areas.antt =====
-- The area codes that RegisterServer hands out.
use open_carrier_network.Prelude.{
  ℕ, zero, suc, ◌+◌, ◌<◌, ◌≡◌, ◌≢◌, refl, sym, ap, subst, ◌∙◌, true, false, not, ◌&&◌, Option, none,
  some, List, [], ◌∷◌, String, Text, text_beq, arith, ◌==◌, text_eq, string_eq, beq_refl, if-by,
  if-when, Option-when, take,
}
use open_carrier_network.Registry.{
  active, ServerInfo, allowed_area, find_server, is_used, sprintf03, try_areas, scan_areas,
  pick_free, refresh, add_server, Registered, assigned, refused, register_asked, register_any,
  register_server, get_route, trim_start, trim_end,
}

-- A draw of rand.Intn(600).
abbrev pub AreDraws : List ℕ → Type 0
AreDraws [] = Unit
AreDraws (d ∷ ds) = (d < 600) × AreDraws ds

drawn_area-allowed : (d : ℕ) → d < 600 → allowed_area (sprintf03 (200 + d)) ≡ true
unfolding allowed_area text_beq
drawn_area-allowed d h = ground arith

is_used-find_server :
    (area : Text) (servers : List ServerInfo)
    → is_used area servers ≡ false
    → find_server area servers ≡ none
unfolding is_used find_server
is_used-find_server area [] h = refl
is_used-find_server area (s ∷ ss) h = ground (arith, is_used-find_server area ss)

-- A code that may be assigned, and is in no row.
abbrev IsOpen : List ServerInfo → Text → Type 0
IsOpen servers area = (allowed_area area ≡ true) × (find_server area servers ≡ none)

abbrev AllOpen : List ServerInfo → Option Text → Type 0
AllOpen servers none = Unit
AllOpen servers (some area) = IsOpen servers area

try_areas-IsOpen :
    (draws : List ℕ) (servers : List ServerInfo)
    → AreDraws draws
    → AllOpen servers (try_areas draws servers)
unfolding try_areas
try_areas-IsOpen [] servers h = tt
try_areas-IsOpen (d ∷ ds) servers h =
    if-when (AllOpen servers) (not (is_used (sprintf03 (200 + d)) servers)) _ _
      (λ e. (
        drawn_area-allowed d h.0,
        is_used-find_server (sprintf03 (200 + d)) servers (ground arith),
      ))
      λ e. try_areas-IsOpen ds servers h.1

scan_areas-IsOpen :
    (left n : ℕ) (servers : List ServerInfo) → AllOpen servers (scan_areas left n servers)
unfolding scan_areas
scan_areas-IsOpen zero n servers = tt
scan_areas-IsOpen (suc left) n servers =
    if-when (AllOpen servers) (not (is_used (sprintf03 n) servers) && allowed_area (sprintf03 n)) _
      _ (λ e. (ground arith, is_used-find_server (sprintf03 n) servers (ground arith)))
      λ e. scan_areas-IsOpen left (n + 1) servers

AreDraws-take : (n : ℕ) (draws : List ℕ) → AreDraws draws → AreDraws (take n draws)
AreDraws-take zero draws h = tt
AreDraws-take (suc n) [] h = tt
AreDraws-take (suc n) (d ∷ ds) h = (h.0, AreDraws-take n ds h.1)

pick_free-IsOpen :
    (draws : List ℕ) (servers : List ServerInfo)
    → AreDraws draws
    → AllOpen servers (pick_free draws servers)
unfolding pick_free
pick_free-IsOpen draws servers h =
    let random = try_areas-IsOpen (take 500 draws) servers (AreDraws-take 500 draws h) in
    Option-when (AllOpen servers) (try_areas (take 500 draws) servers) _ _
      (λ e. scan_areas-IsOpen 800 200 servers) λ area found. subst (AllOpen servers) found random

find_server-refresh :
    (area : Text) (info s : ServerInfo) (servers : List ServerInfo)
    → find_server area servers ≡ some s
    → find_server area (refresh area info servers)
      ≡ some (record s {
        name = info.name;
        description = info.description;
        server_addr = info.server_addr;
        status = active;
      })
unfolding find_server refresh
find_server-refresh area info s [] found = cc
find_server-refresh area info s (r ∷ rs) found = ground (arith, find_server-refresh area info s rs)

find_server-refresh_other :
    (area other : Text) (info : ServerInfo) (servers : List ServerInfo)
    → area ≢ other
    → find_server other (refresh area info servers) ≡ find_server other servers
unfolding find_server refresh
find_server-refresh_other area other info [] differ = refl
find_server-refresh_other area other info (r ∷ rs) differ = ground (
  arith,
  find_server-refresh_other area other info rs differ,
  text_eq.same_iff r.area_code area,
  text_eq.same_iff r.area_code other,
)

find_server-add_other :
    (area other : Text) (info : ServerInfo) (now : ℕ) (servers : List ServerInfo)
    → area ≢ other
    → find_server other (add_server area info now servers) ≡ find_server other servers
unfolding find_server add_server
find_server-add_other area other info now servers differ =
    ground (arith, text_eq.same_iff area other)

-- The exchange has the code, active and reachable at the address that it gives; if the code was in
-- the table before, it was under the same key; and no other code is touched.
pub record IsHolder (servers after : List ServerInfo) (info : ServerInfo) (area : Text)
    : Type 0 where
  pub allowed : allowed_area area ≡ true
  pub row : ServerInfo
  pub found : get_route area after ≡ some row
  pub reachable : row.server_addr ≡ info.server_addr
  pub keyed : row.public_key ≡ info.public_key
  pub unstolen :
      (s : ServerInfo) → find_server area servers ≡ some s → s.public_key ≡ info.public_key
  pub others : (other : Text) → area ≢ other → find_server other after ≡ find_server other servers

abbrev pub IsRegistered : List ServerInfo → ServerInfo → List ServerInfo × Registered → Type 0
IsRegistered servers info (after, refused e) = after ≡ servers
IsRegistered servers info (after, assigned area) = IsHolder servers after info area

find_server-add :
    (area : Text) (info : ServerInfo) (now : ℕ) (servers : List ServerInfo)
    → find_server area (add_server area info now servers)
      ≡ some (record info { area_code = area; registered_at = now; status = active })
unfolding find_server add_server
find_server-add area info now servers = rw (beq_refl area) refl

added-IsHolder :
    (servers : List ServerInfo) (info : ServerInfo) (area : Text) (now : ℕ)
    → IsOpen servers area
    → IsHolder servers (add_server area info now servers) info area
unfolding get_route
added-IsHolder servers info area now h = record {
  allowed = h.0;
  row = record info { area_code = area; registered_at = now; status = active };
  found = rw (find_server-add area info now servers, get_route) refl;
  reachable = refl;
  keyed = refl;
  unstolen = λ s e. absurd (none≢some (sym h.1 ∙ e));
  others = λ other differ. find_server-add_other area other info now servers differ;
}
  where
    none≢some : {s : ServerInfo} → none ≢ some s
    none≢some e = cc

refreshed-IsHolder :
    (servers : List ServerInfo) (info s : ServerInfo) (area : Text)
    → allowed_area area ≡ true
    → find_server area servers ≡ some s
    → (s.public_key == info.public_key) ≡ true
    → IsHolder servers (refresh area info servers) info area
unfolding get_route
refreshed-IsHolder servers info s area allowed found same =
    let key = (string_eq.same_iff s.public_key info.public_key).0 same in
    record {
      allowed = allowed;
      row = record s {
        name = info.name;
        description = info.description;
        server_addr = info.server_addr;
        status = active;
      };
      found = rw (find_server-refresh area info s servers found, get_route) refl;
      reachable = refl;
      keyed = key;
      unstolen = λ t e. ap (λ (o : Option ServerInfo). key_of o) (sym e ∙ found) ∙ key;
      others = λ other differ. find_server-refresh_other area other info servers differ;
    }
  where
    key_of : Option ServerInfo → String
    key_of none = ""
    key_of (some t) = t.public_key

register_asked-IsRegistered :
    (servers : List ServerInfo) (info : ServerInfo) (area : Text) (now : ℕ)
    → IsRegistered servers info (register_asked servers info area now)
unfolding register_asked
register_asked-IsRegistered servers info area now =
    if-when (IsRegistered servers info) (allowed_area area) _ _
      (λ allowed.
        Option-when (IsRegistered servers info) (find_server area servers) _ _
          (λ missing. added-IsHolder servers info area now (allowed, missing))
          λ s found.
            if-when (IsRegistered servers info) (s.public_key == info.public_key) _ _
              (λ same. refreshed-IsHolder servers info s area allowed found same) λ e. refl)
      λ e. refl

register_any-IsRegistered :
    (servers : List ServerInfo) (info : ServerInfo) (draws : List ℕ) (now : ℕ)
    → AreDraws draws
    → IsRegistered servers info (register_any servers info draws now)
unfolding register_any
register_any-IsRegistered servers info draws now h =
    let picked = pick_free-IsOpen draws servers h in
    Option-when (IsRegistered servers info) (pick_free draws servers) _ _ (λ e. refl)
      λ area e. added-IsHolder servers info area now (subst (AllOpen servers) e picked)

-- With draws in the range that rand.Intn promises, a registration either is refused, and the table
-- is as it was, or it assigns a code that may be assigned: the route of the code then leads to the
-- address that the exchange gave, under its key; a code that was in the table was there under the
-- same key; and the rows of all other codes are as they were.
pub register_server-IsRegistered :
    (servers : List ServerInfo) (info : ServerInfo) (draws : List ℕ) (now : ℕ)
    → AreDraws draws
    → IsRegistered servers info (register_server servers info draws now)
unfolding register_server
register_server-IsRegistered servers info draws now h =
    let code = trim_end (trim_start info.area_code) in
    if-by (IsRegistered servers info) (code == []) _ _
      (register_any-IsRegistered servers info draws now h)
      (register_asked-IsRegistered servers info code now)
