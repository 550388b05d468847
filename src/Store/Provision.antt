-- ===== src/Store/Provision.antt =====
-- ocnserver/internal/store/provisioning.go: one-time activation tokens, and the lines that they
-- create. The values that rand.Intn yields are an argument, as in Numbers.antt.
use open_carrier_network.Prelude.{
  ℕ, zero, suc, ◌+◌, ◌-◌, Bool, true, false, ◌&&◌, ◌||◌, Option, none, some, List, [], ◌∷◌, ◌++◌,
  String, Text, text_beq, ◌==◌, text_eq, string_eq, if◌then◌else◌, ltb, leb, length, take,
}
use open_carrier_network.Numbers.{sprintf07, min_number, max_number}
use open_carrier_network.Store.Tables.{
  User, Status, issued, used, revoked, unknown, Token, Database,
}
use open_carrier_network.Store.Users.{is_some, by_number, insert_user, reserved}

pub data ProvisionError : Type 0 where
  token_required token_not_found token_used token_expired token_revoked number_taken no_available :
      ProvisionError

pub data Provisioned : Type 0 where
  line : Text → Provisioned
  failed : ProvisionError → Provisioned

-- SELECT … FROM provisioning_tokens WHERE token_hash = ?
unfoldable pub by_hash : String → List Token → Option Token
by_hash hash [] = none
by_hash hash (t ∷ ts) = if t.token_hash == hash then some t else by_hash hash ts

-- nullIfEmpty
unfoldable pub null_if_empty : Text → Option Text
unfolding text_beq
null_if_empty s = if s == [] then none else some s

abbrev clashes : Option Text → List Token → Bool
clashes none ts = false
clashes (some n) ts = reserved n ts

-- NewProvisionToken: the row breaks a constraint if its hash is there, or if its number is reserved.
unfoldable pub new_provision_token :
    Database → String → Text → Text → String → String → ℕ → ℕ → Database × Option ProvisionError
unfolding by_hash null_if_empty reserved
new_provision_token db hash number display_name notes created_by now ttl =
    if is_some (by_hash hash db.tokens) || clashes (null_if_empty number) db.tokens
    then (db, some number_taken)
    else (record db { tokens = token ∷ db.tokens }, none)
  where
    token : Token
    token = record {
      token_hash = hash;
      number = null_if_empty number;
      display_name = display_name;
      notes = notes;
      created_by = created_by;
      created_at = now;
      expires_at = now + ttl;
      status = issued;
      claimed_pub_key = none;
      claimed_at = none;
    }

abbrev pub is_issued : Status → Bool
is_issued issued = true
is_issued _ = false

-- UPDATE provisioning_tokens SET status = 'revoked' WHERE token_hash = ? AND status = 'issued'
unfoldable pub revoke_rows : String → List Token → List Token
revoke_rows hash [] = []
revoke_rows hash (t ∷ ts) =
    (if t.token_hash == hash && is_issued t.status then record t { status = revoked } else t)
    ∷ revoke_rows hash ts

unfoldable pub has_issued : String → List Token → Bool
has_issued hash [] = false
has_issued hash (t ∷ ts) = (t.token_hash == hash && is_issued t.status) || has_issued hash ts

-- RevokeProvisionToken
unfoldable pub revoke_provision_token : Database → String → Database × Option ProvisionError
unfolding has_issued revoke_rows
revoke_provision_token db hash =
    if has_issued hash db.tokens
    then (record db { tokens = revoke_rows hash db.tokens }, none)
    else (db, some token_not_found)

-- UPDATE provisioning_tokens SET status = 'used', … WHERE token_hash = ?
unfoldable pub use_rows : String → String → ℕ → List Token → List Token
use_rows hash key now [] = []
use_rows hash key now (t ∷ ts) =
    (if t.token_hash == hash
      then record t { status = used; claimed_pub_key = some key; claimed_at = some now }
      else t)
    ∷ use_rows hash key now ts

abbrev pub reservation : Status → Option Text → List Text → List Text
reservation issued (some n) rest = n ∷ rest
reservation _ _ rest = rest

-- The numbers of the tokens that takenNumberSet reads.
unfoldable pub reservations : List Token → List Text
reservations [] = []
reservations (t ∷ ts) = reservation t.status t.number (reservations ts)

unfoldable pub user_numbers : List User → List Text
user_numbers [] = []
user_numbers (u ∷ us) = u.number ∷ user_numbers us

-- takenNumberSet
unfoldable pub taken_number_set : Database → List Text
unfolding user_numbers reservations
taken_number_set db = user_numbers db.users ++ reservations db.tokens

-- used[ns]
unfoldable pub contains : Text → List Text → Bool
contains n [] = false
contains n (m ∷ ms) = m == n || contains n ms

-- The body of both loops of pickFreeNumbers: the numbers taken, and those picked so far.
abbrev pub Picks : Type 0
Picks = List Text × List Text

abbrev pub try_number : Text → Picks → Picks
try_number ns (taken, out) =
    if contains ns taken then (taken, out) else (ns ∷ taken, out ++ (ns ∷ []))

-- The random draws, while fewer than `n` are picked.
unfoldable pub pick_random : ℕ → List ℕ → Picks → Picks
pick_random n [] picks = picks
pick_random n (draw ∷ draws) picks =
    if leb n (length picks.1)
    then picks
    else pick_random n draws (try_number (sprintf07 (min_number + draw)) picks)

-- The linear scan, with `left` numbers from `num` on to try.
unfoldable pub pick_scan : ℕ → ℕ → ℕ → Picks → Picks
pick_scan n zero num picks = picks
pick_scan n (suc left) num picks = elim (leb n (length picks.1)) [
  | true ↦ picks
  | false ↦ pick_scan n left (num + 1) (try_number (sprintf07 num) picks)
]

-- pickFreeNumbers
unfoldable pub pick_free_numbers : ℕ → List ℕ → List Text → List Text
unfolding pick_random pick_scan contains
pick_free_numbers n draws taken =
    (pick_scan n (max_number - min_number + 1) min_number
      (pick_random n (take 2000 draws) (taken, []))).1

-- pickFreeNumber; `none` is its error "no available numbers".
unfoldable pub pick_free_number : List ℕ → List Text → Option Text
unfolding pick_free_numbers
pick_free_number draws taken = elim (pick_free_numbers 1 draws taken) [
  | [] ↦ none
  | ns ∷ rest ↦ some ns
]

-- A number for a token that names none.
unfoldable pub auto_assign : Database → List ℕ → Provisioned
unfolding pick_free_number taken_number_set
auto_assign db draws = elim (pick_free_number draws (taken_number_set db)) [
  | none ↦ failed no_available
  | some ns ↦ line ns
]

-- The number of a line: the token's own if that is free, or a fresh one.
unfoldable pub choose_number : Database → Token → List ℕ → Provisioned
unfolding auto_assign by_number text_beq
choose_number db t draws = elim t.number [
  | none ↦ auto_assign db draws
  | some [] ↦ auto_assign db draws
  | some (c ∷ cs) ↦
      if is_some (by_number (c ∷ cs) db.users) then failed number_taken else line (c ∷ cs)
]

-- What one attempt reads from outside: the clock, and the draws of rand.Intn.
pub record Attempt : Type 0 where
  pub now : ℕ
  pub draws : List ℕ

-- The guards of provisionUserOnce on the token's row.
unfoldable pub refusal : Token → ℕ → Option ProvisionError
refusal t now = refuse t.status
  where
    refuse : Status → Option ProvisionError
    refuse used = some token_used
    refuse revoked = some token_revoked
    refuse issued = if ltb t.expires_at now then some token_expired else none
    refuse unknown = if ltb t.expires_at now then some token_expired else some token_not_found

pub new_line : String → Text → Text → Text → ℕ → User
new_line key area number name now = record {
  ksim_public_key = key;
  area_code = area;
  number = number;
  display_name = name;
  fcm_token = "";
  registered_at = now;
  last_seen = now;
}

-- The two writes of the transaction; without both nothing is committed.
unfoldable pub commit_line :
    Database → String → String → Text → Text → ℕ → Text → Database × Provisioned
unfolding insert_user use_rows new_line
commit_line db hash key area name now num =
    elim (insert_user (new_line key area num name now) db.users) [
      | none ↦ (db, failed number_taken)
      | some us ↦ (record db { users = us; tokens = use_rows hash key now db.tokens }, line num)
    ]

-- provisionUserOnce
unfoldable pub provision_user_once :
    Database → String → String → Text → Text → Attempt → Database × Provisioned
unfolding by_hash refusal choose_number commit_line
provision_user_once db hash key area name attempt = elim (by_hash hash db.tokens) [
  | none ↦ (db, failed token_not_found)
  | some t ↦ elim (refusal t attempt.now) [
    | some e ↦ (db, failed e)
    | none ↦ elim (choose_number db t attempt.draws) [
      | failed e ↦ (db, failed e)
      | line num ↦ commit_line db hash key area name attempt.now num
    ]
  ]
]

-- The loop of ProvisionUser with `left` attempts to go, the last error at hand.
unfoldable pub provision_loop :
    ℕ
    → ℕ
    → ProvisionError
    → Database
    → String
    → String
    → Text
    → Text
    → (ℕ → Attempt)
    → Database × Provisioned
unfolding provision_user_once
provision_loop zero i last_err db hash key area name attempts = (db, failed last_err)
provision_loop (suc left) i last_err db hash key area name attempts =
    let (db', result) = provision_user_once db hash key area name (attempts i) in
    elim result [
      | line num ↦ (db', line num)
      | failed number_taken ↦
          provision_loop left (i + 1) number_taken db' hash key area name attempts
      | failed e ↦ (db', failed e)
    ]

-- ProvisionUser
unfoldable pub provision_user :
    Database → String → String → Text → Text → (ℕ → Attempt) → Database × Provisioned
unfolding provision_loop
provision_user db hash key area name attempts =
    if hash == ""
    then (db, failed token_required)
    else provision_loop 5 0 token_required db hash key area name attempts
