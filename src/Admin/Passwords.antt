-- ===== src/Admin/Passwords.antt =====
-- Theorems on the passwords of ocnserver/internal/store/admin.go.
use open_carrier_network.Prelude.{ℕ, ◌≤◌, Bool, true, false, Option, none, some}
use open_carrier_network.Prelude.{String, Text, ltb, length, ◌==◌, string_eq, text_eq}
use open_carrier_network.Prelude.{
  if◌then◌else◌, Option-cases, Option-when, if-when, ◌≡◌, ◌∙◌, beq_refl, refl, inl, inr, arith,
}
use open_carrier_network.Prelude.Table.{lookup, insert, lookup-insert}
use open_carrier_network.Admin.Accounts.{Accounts, Account, AccountError, verify_admin_login}
use open_carrier_network.Admin.Accounts.{bad_credentials, password_too_short, hash_failed, set_hash}
use open_carrier_network.Admin.Accounts.{change_admin_password, set_admin_password}

module _ (fits : String → Text → Bool) where
  -- What a login answers.
  abbrev pub login_of : ℕ → String → Text → Accounts → Option Bool
  login_of now username password a = (verify_admin_login fits now username password a).0

  -- The answer of a login depends on the row of its user name alone.
  abbrev answer : Text → Option Account → Option Bool
  answer password none = none
  answer password (some account) =
      if fits account.password_hash password then some account.must_change else none

  login_of_lem :
      (now : ℕ) (username : String) (password : Text) (a : Accounts)
      → login_of now username password a ≡ answer password (lookup username a.accounts)
  unfolding verify_admin_login
  login_of_lem now username password a = elim (Option-cases (lookup username a.accounts)) [
    | inl gone ↦ ground (arith, gone)
    | inr (account, found) ↦ ground (arith, found)
  ]

  -- What bcrypt promises: a password fits the hash that is made of it.
  abbrev pub IsHashing : (Text → Option String) → Type 0
  IsHashing make_hash =
      (password : Text) (h : String) → make_hash password ≡ some h → fits h password ≡ true

  -- What a change of the password has led to, from the accounts `a` to the accounts `b`.
  abbrev pub IsChanged :
      (Text → Option String)
      → String
      → Text
      → Text
      → Accounts
      → Option AccountError × Accounts
      → Type 0
  IsChanged make_hash username current new a (some e, b) = b ≡ a
  IsChanged make_hash username current new a (none, b) =
      (h : String) × (must : Bool) × (make_hash new ≡ some h)
      × (6 ≤ length new)
      × ((now : ℕ) → login_of now username current a ≡ some must)
      × ((now : ℕ) → login_of now username new b ≡ some false)
      × ((now : ℕ) (user : String) (password : Text)
          → login_of now user password b ≡ (
              if username == user
              then (if fits h password then some false else none)
              else login_of now user password a))

  login_of-set_hash :
      (now : ℕ) (username user h : String) (password : Text) (a : Accounts) (account : Account)
      → lookup username a.accounts ≡ some account
      → login_of now user password (set_hash username h a) ≡ (
          if username == user
          then (if fits h password then some false else none)
          else login_of now user password a)
  login_of-set_hash now username user h password a account found = ground (
    arith,
    set_hash-found,
    login_of_lem now user password a,
    login_of_lem now user password after,
    lookup-insert username user changed a.accounts,
  )
    where
      changed : Account
      changed = record account { password_hash = h; must_change = false }

      after : Accounts
      after = record a { accounts = insert username changed a.accounts }

      set_hash-found : set_hash username h a ≡ after
      set_hash-found = rw (set_hash, found) refl

  -- A change of a password either fails, and nothing has changed, or the current password was one that
  -- the user could log in with and the new one has 6 bytes or more: then the user logs in with the new
  -- one, with no further change asked for, and with those passwords alone that fit the hash that bcrypt
  -- has made of it, and every other user logs in as before. A password fits the hash that is made of it.
  pub change_admin_password-IsChanged :
      (make_hash : Text → Option String) (username : String) (current new : Text) (a : Accounts)
      → IsHashing make_hash
      → IsChanged make_hash username current new a
          (change_admin_password fits make_hash username current new a)
  unfolding change_admin_password set_admin_password
  change_admin_password-IsChanged make_hash username current new a hashing =
      Option-when Outcome (lookup username a.accounts) (some bad_credentials, a) _ (λ gone. refl)
        (λ account found.
          if-when Outcome (fits account.password_hash current) _ (some bad_credentials, a)
            (λ right.
              if-when Outcome (ltb (length new) 6) (some password_too_short, a) _ (λ short. refl)
                (λ long.
                  Option-when Outcome (make_hash new) (some hash_failed, a) _ (λ failed. refl)
                    (λ h made.
                      let after : (now : ℕ) (user : String) (password : Text)
                          → login_of now user password (set_hash username h a) ≡ (
                              if username == user
                              then (if fits h password then some false else none)
                              else login_of now user password a) =
                        λ now user password.
                          login_of-set_hash now username user h password a account found in
                      (
                        h,
                        account.must_change,
                        made,
                        ground arith,
                        λ now. ground (arith, login_of_lem now username current a, found, right),
                        λ now.
                            after now username new
                            ∙ rw (beq_refl username, hashing new h made) refl,
                        after,
                      ))))
            (λ wrong. refl))
    where
      Outcome : Option AccountError × Accounts → Type 0
      Outcome = IsChanged make_hash username current new a
