-- ===== src/Admin/Sessions.antt =====
-- Theorems on the sessions of ocnserver/internal/store/admin.go.
use open_carrier_network.Prelude.{ℕ, ◌+◌, not, ◌&&◌, Option, none, some, []}
use open_carrier_network.Prelude.{
  String, Text, ltb, ◌==◌, string_eq, text_eq, if◌then◌else◌, Option-cases,
}
use open_carrier_network.Prelude.{◌≡◌, refl, inl, inr, arith}
use open_carrier_network.Prelude.Table.{lookup, insert, lookup-insert, lookup-delete}
use open_carrier_network.Admin.Accounts.{Accounts, Session, create_session, session_username}
use open_carrier_network.Admin.Accounts.{delete_session, drop_session, session_ttl}

-- Who a token stands for at a time.
abbrev pub user_of : (Text → String) → ℕ → Text → Accounts → Option String
user_of hash_token now token a = (session_username hash_token now token a).0

module _ (hash_token : Text → String) where
  -- The verdict on a token depends on the session under its hash alone.
  abbrev verdict : ℕ → Text → Option Session → Option String
  verdict now token none = none
  verdict now token (some s) =
      if token == [] then none else (if ltb s.expires_at now then none else some s.username)

  user_of_lem :
      (now : ℕ) (token : Text) (a : Accounts)
      → user_of hash_token now token a ≡ verdict now token (lookup (hash_token token) a.sessions)
  unfolding session_username
  user_of_lem now token a = elim (Option-cases (lookup (hash_token token) a.sessions)) [
    | inl gone ↦ ground (arith, gone)
    | inr (s, found) ↦ ground (arith, found)
  ]

  abbrev session : ℕ → String → Session
  session now username = record {
    username = username;
    created_at = now;
    expires_at = now + session_ttl;
  }

  -- The accounts with a new session.
  abbrev made : Text → ℕ → String → Accounts → Accounts
  made token now username a = record a {
    sessions = insert (hash_token token) (session now username) a.sessions;
  }

  create_session-made :
      (token : Text) (now : ℕ) (username : String) (a : Accounts)
      → lookup (hash_token token) a.sessions ≡ none
      → create_session hash_token (some token) now username a
        ≡ (some token, made token now username a)
  unfolding create_session
  create_session-made token now username a fresh = rw (create_session, fresh) refl

  -- A session that has been made for a user is the user's for 12 hours, to the second, and nobody's
  -- after that: so says every later question for its token (or another that is not empty and has the
  -- same hash), and for any other token the answer is what it was. No row with its hash was there.
  pub session_username-create_session :
      (token other : Text) (now later : ℕ) (username : String) (a : Accounts)
      → lookup (hash_token token) a.sessions ≡ none
      → user_of hash_token later other (create_session hash_token (some token) now username a).1 ≡ (
          if (hash_token token == hash_token other) && not (other == [])
          then (if ltb (now + 43200) later then none else some username)
          else user_of hash_token later other a)
  session_username-create_session token other now later username a fresh = ground (
    arith,
    create_session-made token now username a fresh,
    user_of_lem later other a,
    user_of_lem later other (made token now username a),
    lookup-insert (hash_token token) (hash_token other) (session now username) a.sessions,
  )

  -- A session that has been given up is nobody's, now or later; a token with another hash stands for
  -- whom it stood for.
  pub session_username-delete_session :
      (token other : Text) (later : ℕ) (a : Accounts)
      → user_of hash_token later other (delete_session hash_token token a) ≡ (
          if (hash_token token == hash_token other) && not (token == [])
          then none
          else user_of hash_token later other a)
  unfolding delete_session
  session_username-delete_session token other later a = ground (
    arith,
    user_of_lem later other a,
    user_of_lem later other (drop_session (hash_token token) a),
    lookup-delete (hash_token token) (hash_token other) a.sessions,
  )
