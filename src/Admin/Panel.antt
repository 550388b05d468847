-- ===== src/Admin/Panel.antt =====
-- ocnserver/internal/admin/server.go: the state of the panel, a request and its answer, and what the
-- handlers ask from outside.
use open_carrier_network.Prelude.{ℕ, zero, suc, ◌+◌, ◌/◌, ◌%◌, Bool, ◌&&◌, ◌||◌}
use open_carrier_network.Prelude.{Option, List, [], ◌∷◌, ◌++◌, String, Text, codes}
use open_carrier_network.Prelude.{
  ◌==◌, nat_eq, text_eq, leb, ltb, length, take, drop, if◌then◌else◌,
}
use open_carrier_network.Store.Tables.{Token, Database}
use open_carrier_network.Store.Users.{LineError}
use open_carrier_network.Store.Provision.{ProvisionError}
use open_carrier_network.Admin.Accounts.{Accounts, AccountError}
use open_carrier_network.Store.Settings.{Settings, FederationSettings}

-- The store behind the panel.
pub record Panel : Type 0 where
  pub db : Database
  pub accounts : Accounts
  pub settings : Settings

-- Options: what the panel is configured with.
pub record Options : Type 0 where
  pub signaling_port : ℕ
  pub public_address : Text
  pub area_code : Text
  pub server_name : Text
  pub registry_address : Text

-- An int: a number, or one less than the negative of a number.
pub data ℤ : Type 0 where
  pos : ℕ → ℤ
  negsuc : ℕ → ℤ

-- The bodies that the handlers decode; `none` is a body that does not decode.
pub record LoginBody : Type 0 where
  pub username : String
  pub password : Text

pub record PasswordBody : Type 0 where
  pub old_password : Text
  pub new_password : Text

pub record LineBody : Type 0 where
  pub display_name : Option Text
  pub number : Option Text

pub record ProvisionBody : Type 0 where
  pub number : Text
  pub display_name : Text
  pub notes : String
  pub valid_hours : ℤ

pub data Call : Type 0 where
  join_mint : Option Text → Call
  login : Option LoginBody → Call
  logout : Call
  me : Call
  password : Option PasswordBody → Call
  stats : Call
  list_lines : Text → ℕ → ℕ → Call
  update_line_of : Text → Option LineBody → Call
  delete_line_of : Text → Call
  free_numbers : ℕ → Call
  list_provisions : ℕ → Call
  create_provision : Option ProvisionBody → Call
  revoke_provision : String → Call
  federation_status : Call
  federation_register : Option FederationSettings → Call
  federation_clear : Call

pub record Request : Type 0 where
  pub authorization : Text
  pub host : Text
  pub tls : Bool
  pub call : Call

-- The errors that a handler writes, each with its status.
pub data Refusal : Type 0 where
  bad_request : Refusal
  not_authenticated : Refusal
  invalid_login : Refusal
  internal : Refusal
  account_error : AccountError → Refusal
  line_error : LineError → Refusal
  token_error : ProvisionError → Refusal
  number_conflict : Refusal
  address_required : Refusal
  bad_gateway : Refusal

-- lineDTO
pub record LineDto : Type 0 where
  pub number : Text
  pub display_number : Text
  pub display_name : Text
  pub online : Bool
  pub fcm : Bool
  pub registered_at : ℕ
  pub last_seen : ℕ

-- What a handler writes back.
pub data Reply : Type 0 where
  refused : Refusal → Reply
  done : Reply
  logged_in : Text → String → Bool → Reply
  who : String → Bool → Reply
  statistics : ℕ → ℕ → ℕ → ℕ → ℕ → Text → Text → Reply
  lines : List LineDto → ℕ → Reply
  numbers : List Text → Reply
  tokens : List Token → Reply
  created : Text → Text → Text → ℕ → Text → Reply
  status : Bool → Bool → FederationSettings → Text → Text → Reply
  registered : Text → Bool → Reply

-- The HTTP status of an answer.
abbrev pub http_status : Refusal → ℕ
http_status bad_request = 400
http_status not_authenticated = 401
http_status invalid_login = 401
http_status internal = 500
http_status (account_error e) = 400
http_status (line_error e) = 400
http_status (token_error e) = 400
http_status number_conflict = 409
http_status address_required = 400
http_status bad_gateway = 502

-- The answers from outside: the clock, bcrypt, SHA-256, the random source, the QR encoder, LIKE, the
-- signaling server, the server's key file and the registry.
pub record Outside : Type 0 where
  pub now : ℕ
  pub hash_token : Text → String
  pub fits : String → Text → Bool
  pub make_hash : Text → Option String
  pub random_token : Option Text
  pub renders : Bool
  pub like : Text → Text → Bool
  pub online : List Text
  pub draws : List ℕ
  pub live_area : Text
  pub loads_key : Bool
  pub dials : Bool
  pub registry_area : Option Text
  pub activates : Option Bool

-- strings.TrimSpace, on ASCII.
abbrev pub is_blank : ℕ → Bool
is_blank c = (leb 9 c && leb c 13) || (c == 32)

unfoldable pub trim_left : Text → Text
trim_left [] = []
trim_left (c ∷ s) = let rest = trim_left s in if is_blank c then rest else c ∷ s

unfoldable pub trim_right : Text → Text
trim_right [] = []
trim_right (c ∷ s) =
    let rest = trim_right s in if is_blank c && (length rest == 0) then [] else c ∷ rest

abbrev pub trim_space : Text → Text
trim_space s = trim_right (trim_left s)

-- bearerToken
unfoldable pub bearer_token : Text → Text
bearer_token h = if take 7 h == codes "Bearer " then trim_space (drop 7 h) else []

-- What stands before the last colon, or all of it.
unfoldable pub without_port : Text → Text
without_port [] = []
without_port (c ∷ s) =
    let rest = without_port s in if (c == b':') && (length rest == length s) then [] else c ∷ rest

-- fmt's %d, without leading zeros.
unfoldable pub print_digits : ℕ → ℕ → Text → Text
print_digits zero n out = out
print_digits (suc fuel) n out =
    let more = print_digits fuel (n / 10) ((48 + n % 10) ∷ out) in
    if ltb n 10 then (48 + n) ∷ out else more

-- url.QueryEscape: letters, digits and -_.~ as they are, a space as +, anything else as %XX.
abbrev pub hex_digit : ℕ → ℕ
hex_digit d = if ltb d 10 then 48 + d else 55 + d

abbrev pub is_plain : ℕ → Bool
is_plain c =
    (leb 97 c && leb c 122)
    || (leb 65 c && leb c 90)
    || (leb 48 c && leb c 57)
    || (c == 45)
    || (c == 95)
    || (c == 46)
    || (c == 126)

unfoldable pub query_escape : Text → Text
query_escape [] = []
query_escape (c ∷ s) =
    let rest = query_escape s in
    if is_plain c
    then c ∷ rest
    else (if c == 32 then 43 ∷ rest else 37 ∷ hex_digit (c / 16) ∷ hex_digit (c % 16) ∷ rest)

-- provisionURI: the address of the link, and the host in it. url.Values.Encode sorts by key.
unfoldable pub signaling_address : Options → Text → Text
signaling_address o host =
    let given = trim_space o.public_address in
    let bare = without_port host in
    let named = if bare == [] then codes "localhost" else bare in
    let port = if o.signaling_port == 0 then 9100 else o.signaling_port in
    if given == [] then named ++ (b':' ∷ print_digits 20 port []) else given

unfoldable pub provision_uri : Options → Request → Text → Text → Text × Text
provision_uri o r token name =
    let address = signaling_address o r.host in
    let scheme = if r.tls then codes "wss" else codes "ws" in
    let server = scheme ++ codes "://" ++ address ++ codes "/ws" in
    let named = if name == [] then [] else codes "name=" ++ query_escape name ++ codes "&" in
    let query =
      named ++ codes "server=" ++ query_escape server ++ codes "&token=" ++ query_escape token in
    let host = without_port address in (codes "ocnksim://" ++ host ++ codes "/?" ++ query, host)
