-- ===== src/Store/Users.antt =====
-- The queries on `users` of ocnserver/internal/store/store.go and lines.go. An INSERT or UPDATE that
-- breaks the UNIQUE constraints of the table is refused.
use open_carrier_network.Prelude.{
  ℕ, ◌-◌, Bool, true, false, ◌||◌, Option, none, some, List, [], ◌∷◌, String, Text, text_beq, ◌==◌,
  text_eq, string_eq, if◌then◌else◌, ltb, length,
}
use open_carrier_network.Store.Tables.{User, Status, issued, Token, Database}

-- SELECT … FROM users WHERE ksim_public_key = ?
unfoldable pub by_public_key : String → List User → Option User
by_public_key key [] = none
by_public_key key (u ∷ us) = if u.ksim_public_key == key then some u else by_public_key key us

-- SELECT … FROM users WHERE number = ?
unfoldable pub by_number : Text → List User → Option User
by_number number [] = none
by_number number (u ∷ us) = if u.number == number then some u else by_number number us

abbrev pub is_some {ℓ} : {A : Type ℓ} → Option A → Bool
is_some none = false
is_some (some a) = true

-- GetUserByPublicKey
unfoldable pub get_user_by_public_key : Database → String → Option User
unfolding by_public_key
get_user_by_public_key db key = by_public_key key db.users

-- GetUserByNumber
unfoldable pub get_user_by_number : Database → Text → Option User
unfolding by_number
get_user_by_number db number = by_number number db.users

-- NumberExists
unfoldable pub number_exists : Database → Text → Bool
unfolding by_number
number_exists db number = is_some (by_number number db.users)

-- INSERT INTO users, with the primary key and the UNIQUE number of the schema (migrate); `none` is the constraint's error.
unfoldable pub insert_user : User → List User → Option (List User)
unfolding by_public_key by_number
insert_user u us =
    if is_some (by_public_key u.ksim_public_key us) || is_some (by_number u.number us)
    then none
    else some (u ∷ us)

-- UPDATE users SET fcm_token = ? WHERE ksim_public_key = ?
unfoldable pub set_fcm_token : String → String → List User → List User
set_fcm_token key token [] = []
set_fcm_token key token (u ∷ us) =
    (if u.ksim_public_key == key then record u { fcm_token = token } else u)
    ∷ set_fcm_token key token us

-- UPDATE users SET last_seen = ? WHERE ksim_public_key = ?
unfoldable pub set_last_seen : String → ℕ → List User → List User
set_last_seen key now [] = []
set_last_seen key now (u ∷ us) =
    (if u.ksim_public_key == key then record u { last_seen = now } else u)
    ∷ set_last_seen key now us

-- UPDATE users SET display_name = ? WHERE ksim_public_key = ?
unfoldable pub set_display_name : String → Text → List User → List User
set_display_name key name [] = []
set_display_name key name (u ∷ us) =
    (if u.ksim_public_key == key then record u { display_name = name } else u)
    ∷ set_display_name key name us

-- UpdateFCMToken
unfoldable pub update_fcm_token : Database → String → String → Database
unfolding set_fcm_token
update_fcm_token db key token = record db { users = set_fcm_token key token db.users }

-- UpdateLastSeen
unfoldable pub update_last_seen : Database → String → ℕ → Database
unfolding set_last_seen
update_last_seen db key now = record db { users = set_last_seen key now db.users }

-- UpdateDisplayName
unfoldable pub update_display_name : Database → String → Text → Database
unfolding set_display_name
update_display_name db key name = record db { users = set_display_name key name db.users }

abbrev pub is_reservation : Text → Status → Option Text → Bool
is_reservation number issued (some n) = n == number
is_reservation number _ _ = false

-- SELECT COUNT(*) FROM provisioning_tokens WHERE status='issued' AND number = ?, as a test for none.
unfoldable pub reserved : Text → List Token → Bool
reserved number [] = false
reserved number (t ∷ ts) = is_reservation number t.status t.number || reserved number ts

-- NumberAvailable
unfoldable pub number_available : Database → Text → Bool
unfolding number_exists reserved
number_available db number =
    if number_exists db number then false else if reserved number db.tokens then false else true

-- DELETE FROM users WHERE number = ?
unfoldable pub delete_number : Text → List User → List User
delete_number number [] = []
delete_number number (u ∷ us) =
    let rest = delete_number number us in if u.number == number then rest else u ∷ rest

-- The errors of lines.go.
pub data LineError : Type 0 where
  line_not_found number_taken : LineError

-- DeleteLineByNumber, with its error.
unfoldable pub delete_line_by_number : Database → Text → Database × Option LineError
unfolding number_exists delete_number
delete_line_by_number db number =
    if number_exists db number
    then (record db { users = delete_number number db.users }, none)
    else (db, some line_not_found)

-- UPDATE users SET display_name = ?, number = ? WHERE number = ?
unfoldable pub rename_line : Text → Text → Text → List User → List User
rename_line number name target [] = []
rename_line number name target (u ∷ us) =
    (if u.number == number then record u { display_name = name; number = target } else u)
    ∷ rename_line number name target us

abbrev pub or_else {ℓ} : {A : Type ℓ} → Option A → A → A
or_else none a = a
or_else (some b) a = b

-- UpdateLine; a transaction that fails leaves the tables as they were.
unfoldable pub update_line :
    Database → Text → Option Text → Option Text → Database × Option LineError
unfolding by_number number_exists reserved rename_line
update_line db number new_name new_number = elim (by_number number db.users) [
  | none ↦ (db, some line_not_found)
  | some u ↦
      let name = or_else new_name u.display_name in
      let target = or_else new_number number in
      if target == number
      then (record db { users = rename_line number name number db.users }, none)
      else if number_exists db target
      then (db, some number_taken)
      else if reserved target db.tokens
      then (db, some number_taken)
      else (record db { users = rename_line number name target db.users }, none)
]

-- UPDATE users SET area_code = ? WHERE area_code = ''
unfoldable pub stamp_area : Text → List User → List User
stamp_area area [] = []
stamp_area area (u ∷ us) =
    (if u.area_code == [] then record u { area_code = area } else u) ∷ stamp_area area us

-- UpdateAreaCodeForUsers
unfoldable pub update_area_code_for_users : Database → Text → Database
unfolding stamp_area text_beq
update_area_code_for_users db area =
    if area == [] then db else record db { users = stamp_area area db.users }

-- CountUsers and FreeNumberEstimate
unfoldable pub free_number_estimate : Database → ℕ
free_number_estimate db =
    let total = length db.users in
    let capped = if ltb 9000000 total then 9000000 else total in 9000000 - capped
