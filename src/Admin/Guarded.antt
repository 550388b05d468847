-- ===== src/Admin/Guarded.antt =====
-- Theorems on the routes of ocnserver/internal/admin/server.go: what a request can do without a
-- session.
use open_carrier_network.Prelude.{ℕ, ◌+◌, Bool, Option, none, some}
use open_carrier_network.Prelude.{List, [], ◌∷◌, String, Text, ltb, length, take, ◌==◌, string_eq}
use open_carrier_network.Prelude.{text_eq, nat_eq, if◌then◌else◌}
use open_carrier_network.Prelude.{
  text_beq, if-by, Option-by, ◌≡◌, ◌⊎◌, refl, ap, ◌∙◌, inl, inr, arith,
}
use open_carrier_network.Prelude.Table.{Table, lookup, lookup-insert}
use open_carrier_network.Store.Tables.{Token, Database, issued}
use open_carrier_network.Store.Provision.{null_if_empty}
use open_carrier_network.Admin.Accounts.{Accounts, Account, verify_admin_login, create_session}
use open_carrier_network.Admin.Accounts.{session_username, drop_session, touch}
use open_carrier_network.Admin.Panel.{Panel, Options, Outside, Request, Call, Reply, refused}
use open_carrier_network.Admin.Panel.{not_authenticated, bearer_token, join_mint, login}
use open_carrier_network.Admin.Panel.{LoginBody, internal, trim_space}
use open_carrier_network.Admin.Handlers.{Answer, handle_login, handle_join_mint, mint}
use open_carrier_network.Admin.Routes.{serve, require_auth}
use open_carrier_network.Admin.Minting.{IsStored, IsMinted, mint-IsMinted}

-- The hash of a user's password.
abbrev pub hash_of : String → Accounts → Option String
hash_of user a = elim (lookup user a.accounts) [ none ↦ none | some row ↦ some row.password_hash ]

-- A token that the public may have: it reserves no number and lasts 24 hours.
abbrev pub IsPublic : ℕ → Token → Type 0
IsPublic now t = (t.number ≡ none) × (t.status ≡ issued) × (t.expires_at ≡ now + 86400)

-- One more token at most, and that a public one.
abbrev pub MayGain : ℕ → List Token → List Token → Type 0
MayGain now old new = (new ≡ old) ⊎ ((t : Token) × (new ≡ t ∷ old) × IsPublic now t)

-- How a request without a session is answered: only the public page and the login serve it.
abbrev pub IsTurnedAway : Call → Reply → Type 0
IsTurnedAway (join_mint name) reply = Unit
IsTurnedAway (login body) reply = Unit
IsTurnedAway _ reply = reply ≡ refused not_authenticated

-- What a request without a session may have done to the panel, and how it was answered.
abbrev pub IsHarmless : ℕ → Call → Panel → Answer → Type 0
IsHarmless now call p (reply, q) =
    IsTurnedAway call reply
    × (q.settings ≡ p.settings)
    × (q.db.users ≡ p.db.users)
    × MayGain now p.db.tokens q.db.tokens
    × ((user : String) → hash_of user q.accounts ≡ hash_of user p.accounts)

-- Whether the request carries a session that is valid.
abbrev pub signed_in : Outside → Request → Panel → Option String
signed_in env r p =
    (session_username env.hash_token env.now (bearer_token r.authorization) p.accounts).0

abbrev IsKeeping : Panel → Accounts → Type 0
IsKeeping p a = (user : String) → hash_of user a ≡ hash_of user p.accounts

session_username-accounts :
    (hash_token : Text → String) (now : ℕ) (token : Text) (a : Accounts)
    → (session_username hash_token now token a).1.accounts ≡ a.accounts
unfolding session_username
session_username-accounts hash_token now token a =
    if-by Same (token == []) (none, a) _ refl
      (Option-by Same (lookup (hash_token token) a.sessions) (none, a) _ refl
        (λ s found.
          if-by Same (ltb s.expires_at now) (none, drop_session (hash_token token) a)
            (some s.username, a) refl refl))
  where
    Same : Option String × Accounts → Type 0
    Same x = x.1.accounts ≡ a.accounts

create_session-accounts :
    (hash_token : Text → String) (random : Option Text) (now : ℕ) (user : String) (a : Accounts)
    → (create_session hash_token random now user a).1.accounts ≡ a.accounts
unfolding create_session
create_session-accounts hash_token none now user a = refl
create_session-accounts hash_token (some token) now user a =
    Option-by Same (lookup (hash_token token) a.sessions) _ _ refl (λ s found. refl)
  where
    Same : Option Text × Accounts → Type 0
    Same x = x.1.accounts ≡ a.accounts

verify_admin_login-hash_of :
    (fits : String → Text → Bool) (now : ℕ) (name : String) (password : Text) (a : Accounts)
    (user : String)
    → hash_of user (verify_admin_login fits now name password a).1 ≡ hash_of user a
unfolding verify_admin_login
verify_admin_login-hash_of fits now name password a user =
    Option-by Same (lookup name a.accounts) (none, a) _ refl
      (λ account found.
        if-by Same (fits account.password_hash password) _ (none, a) (touched account found) refl)
  where
    Same : Option Bool × Accounts → Type 0
    Same x = hash_of user x.1 ≡ hash_of user a

    touched :
        (account : Account)
        → lookup name a.accounts ≡ some account
        → hash_of user (touch name account now a) ≡ hash_of user a
    touched account found = ground (
      arith,
      found,
      lookup-insert name user (record account { last_login = now }) a.accounts,
      string_eq.same_iff name user,
    )

hash_of-same :
    (user : String) (a b : Accounts) → a.accounts ≡ b.accounts → hash_of user a ≡ hash_of user b
hash_of-same user a b e =
    ap
      (λ (t : Table String Account). elim (lookup user t) as (λ x. Option String) [
        | none ↦ none
        | some row ↦ some row.password_hash
      ])
      e

-- A minted token without a number for 24 hours is public.
MayGain-IsStored :
    (now : ℕ) (old new : Database)
    → IsStored now 86400 [] old new
    → MayGain now old.tokens new.tokens
unfolding null_if_empty text_beq
MayGain-IsStored now old new (users, inl same) = inl same
MayGain-IsStored now old new (users, inr (t, more, number, status, expires)) =
    inr (t, more, (number, status, expires))

IsHarmless-mint :
    (now : ℕ) (body : Option Text) (p : Panel) (a : Answer)
    → IsMinted now 86400 [] p a
    → IsHarmless now (join_mint body) p a
IsHarmless-mint now body p (reply, q) (settings, accounts, stored) = (
  tt,
  settings,
  stored.0,
  MayGain-IsStored now p.db q.db stored,
  λ user. ap (hash_of user) accounts,
)

handle_join_mint-IsHarmless :
    (o : Options) (env : Outside) (r : Request) (body : Option Text) (p : Panel)
    → IsHarmless env.now (join_mint body) p (handle_join_mint o env r body p)
unfolding handle_join_mint
handle_join_mint-IsHarmless o env r none p = (tt, refl, refl, inl refl, λ user. refl)
handle_join_mint-IsHarmless o env r (some name) p =
    IsHarmless-mint env.now (some name) p minted
      (mint-IsMinted o env r "web" [] short "web join" 86400 (λ e. internal) p)
  where
    short : Text
    short =
        let trimmed = trim_space name in
        if ltb 60 (length trimmed) then take 60 trimmed else trimmed

    minted : Answer
    minted = mint o env r "web" [] short "web join" 86400 (λ e. internal) p

handle_login-IsHarmless :
    (env : Outside) (body : Option LoginBody) (p : Panel)
    → IsHarmless env.now (login body) p (handle_login env body p)
unfolding handle_login
handle_login-IsHarmless env none p = (tt, refl, refl, inl refl, λ user. refl)
handle_login-IsHarmless env (some b) p =
    Option-by Harmless (verify_admin_login env.fits env.now b.username b.password p.accounts).0 _ _
      (tt, refl, refl, inl refl, kept)
      (λ must right.
        Option-by Harmless (create_session env.hash_token env.random_token env.now b.username a).0 _
          _ (tt, refl, refl, inl refl, kept_more)
          (λ token made. (tt, refl, refl, inl refl, kept_more)))
  where
    Harmless : Answer → Type 0
    Harmless = IsHarmless env.now (login (some b)) p

    a : Accounts
    a = (verify_admin_login env.fits env.now b.username b.password p.accounts).1

    kept : (user : String) → hash_of user a ≡ hash_of user p.accounts
    kept user = verify_admin_login-hash_of env.fits env.now b.username b.password p.accounts user

    kept_more :
        (user : String)
        → hash_of user (create_session env.hash_token env.random_token env.now b.username a).1
          ≡ hash_of user p.accounts
    kept_more user =
        hash_of-same user (create_session env.hash_token env.random_token env.now b.username a).1 a
          (create_session-accounts env.hash_token env.random_token env.now b.username a)
        ∙ kept user

turned_away :
    (env : Outside) (call : Call) (r : Request) (p : Panel) (next : String → Panel → Answer)
    → IsTurnedAway call (refused not_authenticated)
    → signed_in env r p ≡ none
    → IsHarmless env.now call p (require_auth env r next p)
unfolding require_auth
turned_away env call r p next away out =
    rw (require_auth, out)
      (
        away,
        refl,
        refl,
        inl refl,
        (λ user.
            hash_of-same user
              (session_username env.hash_token env.now (bearer_token r.authorization) p.accounts).1
              p.accounts
              (session_username-accounts env.hash_token env.now (bearer_token r.authorization)
                p.accounts)),
      )

serve_call :
    (o : Options) (env : Outside) (r : Request) (p : Panel) (call : Call)
    → signed_in env r p ≡ none
    → IsHarmless env.now call p (serve o env (record r { call = call }) p)
unfolding serve
serve_call o env r p (join_mint name) out = handle_join_mint-IsHarmless o env _ name p
serve_call o env r p (login body) out = handle_login-IsHarmless env body p
serve_call o env r p call out = turned_away env call (record r { call = call }) p _ refl out

-- A request that carries no valid session changes no line, no setting and no password, whatever it
-- asks for: it is turned away, unless it is a login or asks for a number on the public page; and the
-- most that it leaves in the tables of lines and tokens is one token that reserves no number and
-- lasts 24 hours.
pub serve-IsHarmless :
    (o : Options) (env : Outside) (r : Request) (p : Panel)
    → signed_in env r p ≡ none
    → IsHarmless env.now r.call p (serve o env r p)
serve-IsHarmless o env r p out = serve_call o env r p r.call out
