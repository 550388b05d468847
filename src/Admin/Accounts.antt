-- ===== src/Admin/Accounts.antt =====
-- ocnserver/internal/store/admin.go: the accounts of the admin panel and their sessions. bcrypt and
-- SHA-256 are parameters: whether a hash fits a password, the hash that bcrypt makes of a password
-- (`none` is its error), and the hash of a token. A password is the list of its bytes.
use open_carrier_network.Prelude.{ℕ, ◌+◌, Bool, true, false, Option, none, some, [], ◌∷◌}
use open_carrier_network.Prelude.{String, Text, length, ltb, ◌==◌, string_eq, text_eq}
use open_carrier_network.Prelude.{if◌then◌else◌}
use open_carrier_network.Prelude.Table.{Table, lookup, insert, delete}

-- A row of `admin_accounts`, under its user name.
pub record Account : Type 0 where
  pub password_hash : String
  pub created_at : ℕ
  pub last_login : ℕ
  pub must_change : Bool

-- A row of `admin_sessions`, under the hash of its token.
pub record Session : Type 0 where
  pub username : String
  pub created_at : ℕ
  pub expires_at : ℕ

pub record Accounts : Type 0 where
  pub accounts : Table String Account
  pub sessions : Table String Session

pub data AccountError : Type 0 where
  bad_credentials password_too_short hash_failed : AccountError

-- ensureDefaultAdmin, with the hash that bcrypt makes of "admin".
unfoldable pub ensure_default_admin : Option String → ℕ → Accounts → Option Accounts
ensure_default_admin hash now a = elim a.accounts [
  | [] ↦ elim hash [
    | none ↦ none
    | some h ↦ some (record a {
      accounts =
          insert "admin"
            (record { password_hash = h; created_at = now; last_login = 0; must_change = true }) [];
    })
  ]
  | _ ∷ _ ↦ some a
]

-- UPDATE admin_accounts SET last_login = ? WHERE username = ?
abbrev pub touch : String → Account → ℕ → Accounts → Accounts
touch username account now a = record a {
  accounts = insert username (record account { last_login = now }) a.accounts;
}

-- VerifyAdminLogin: whether the password has to be changed; `none` is ErrBadCredentials.
unfoldable pub verify_admin_login :
    (String → Text → Bool) → ℕ → String → Text → Accounts → Option Bool × Accounts
verify_admin_login fits now username password a = elim (lookup username a.accounts) [
  | none ↦ (none, a)
  | some account ↦
      if fits account.password_hash password
      then (some account.must_change, touch username account now a)
      else (none, a)
]

-- AdminMustChange; `none` is the error of a name that has no row.
unfoldable pub admin_must_change : String → Accounts → Option Bool
admin_must_change username a = elim (lookup username a.accounts) [
  | none ↦ none
  | some account ↦ some account.must_change
]

-- UPDATE admin_accounts SET password_hash = ?, must_change = 0 WHERE username = ?
abbrev pub set_hash : String → String → Accounts → Accounts
set_hash username hash a = elim (lookup username a.accounts) [
  | none ↦ a
  | some account ↦ record a {
    accounts =
        insert username (record account { password_hash = hash; must_change = false }) a.accounts;
  }
]

-- SetAdminPassword
unfoldable pub set_admin_password :
    (Text → Option String) → String → Text → Accounts → Option AccountError × Accounts
set_admin_password make_hash username new a =
    if ltb (length new) 6 then (some password_too_short, a) else (elim (make_hash new) [
      | none ↦ (some hash_failed, a)
      | some h ↦ (none, set_hash username h a)
    ])

-- ChangeAdminPassword: past the check of the current password it does what SetAdminPassword does.
unfoldable pub change_admin_password :
    (String → Text → Bool)
    → (Text → Option String)
    → String
    → Text
    → Text
    → Accounts
    → Option AccountError × Accounts
change_admin_password fits make_hash username current new a = elim (lookup username a.accounts) [
  | none ↦ (some bad_credentials, a)
  | some account ↦
      if fits account.password_hash current
      then set_admin_password make_hash username new a
      else (some bad_credentials, a)
]

-- 12 hours, in seconds.
abbrev pub session_ttl : ℕ
session_ttl = 43200

-- CreateSession: INSERT of a token's row; `none` where the random source fails, or where a row of the
-- same hash is there.
unfoldable pub create_session :
    (Text → String) → Option Text → ℕ → String → Accounts → Option Text × Accounts
create_session hash_token random now username a = elim random [
  | none ↦ (none, a)
  | some token ↦ elim (lookup (hash_token token) a.sessions) [
    | some _ ↦ (none, a)
    | none ↦ (
      some token,
      record a {
        sessions =
            insert (hash_token token)
              (record { username = username; created_at = now; expires_at = now + session_ttl })
              a.sessions;
      },
    )
  ]
]

-- DELETE FROM admin_sessions WHERE token_hash = ?
abbrev pub drop_session : String → Accounts → Accounts
drop_session hash a = record a { sessions = delete hash a.sessions }

-- SessionUsername; a session that has expired is removed.
unfoldable pub session_username : (Text → String) → ℕ → Text → Accounts → Option String × Accounts
session_username hash_token now token a =
    if token == [] then (none, a) else (elim (lookup (hash_token token) a.sessions) [
      | none ↦ (none, a)
      | some s ↦
          if ltb s.expires_at now
          then (none, drop_session (hash_token token) a)
          else (some s.username, a)
    ])

-- DeleteSession
unfoldable pub delete_session : (Text → String) → Text → Accounts → Accounts
delete_session hash_token token a = if token == [] then a else drop_session (hash_token token) a
