-- ===== src/Store/Activation.antt =====
-- ProvisionUser of ocnserver/internal/store/provisioning.go: what it leaves in the database.
use open_carrier_network.Prelude.{
  ℕ, zero, suc, ◌+◌, ◌≡◌, refl, sym, ap, subst, ◌∙◌, false, none, some, List, [], ◌∷◌, String, Text,
  arith, ◌==◌, text_eq, string_eq, if-by, if-when, Option-by, Option-when,
}
use open_carrier_network.Store.Tables.{User, used, Token, Database}
use open_carrier_network.Store.Users.{insert_user}
use open_carrier_network.Store.Provision.{
  ProvisionError, token_required, token_not_found, token_used, token_expired, token_revoked,
  number_taken, no_available, Provisioned, line, failed, by_hash, use_rows, choose_number, Attempt,
  refusal, new_line, commit_line, provision_user_once, provision_loop, provision_user,
}

-- The line `num` was created in one attempt: the token stands there and is not refused, the number
-- is the one that the token leads to, the row of the user breaks no constraint, and the user is
-- stored together with the token's new state.
pub record IsActivation (db : Database) (hash key : String) (area name : Text) (attempt : Attempt)
    (after : Database) (num : Text) : Type 0 where
  pub token : Token
  pub users : List User
  pub found : by_hash hash db.tokens ≡ some token
  pub allowed : refusal token attempt.now ≡ none
  pub chosen : choose_number db token attempt.draws ≡ line num
  pub inserted : insert_user (new_line key area num name attempt.now) db.users ≡ some users
  pub stored : after ≡ record db { users = users; tokens = use_rows hash key attempt.now db.tokens }

module _ (db : Database) (hash key : String) (area name : Text) where
  -- A result of one attempt, and of several: on failure the database is as it was.
  abbrev IsSettledOnce : Attempt → Database × Provisioned → Type 0
  IsSettledOnce attempt (after, failed e) = after ≡ db
  IsSettledOnce attempt (after, line num) = IsActivation db hash key area name attempt after num

  abbrev pub IsSettled : (ℕ → Attempt) → Database × Provisioned → Type 0
  IsSettled attempts (after, failed e) = after ≡ db
  IsSettled attempts (after, line num) =
      (i : ℕ) × IsActivation db hash key area name (attempts i) after num

  Provisioned-IsSettledOnce :
      (attempt : Attempt) (r : Provisioned) (f : Text → Database × Provisioned)
      → ((num : Text) → r ≡ line num → IsSettledOnce attempt (f num))
      → IsSettledOnce attempt (elim r [ failed e ↦ (db, failed e) | line num ↦ f num ])
  Provisioned-IsSettledOnce attempt (failed e) f h = refl
  Provisioned-IsSettledOnce attempt (line num) f h = h num refl

  provision_user_once-IsSettledOnce :
      (attempt : Attempt)
      → IsSettledOnce attempt (provision_user_once db hash key area name attempt)
  unfolding provision_user_once commit_line
  provision_user_once-IsSettledOnce attempt =
      Option-by (IsSettledOnce attempt) (by_hash hash db.tokens) _ _ refl λ t found.
        Option-when (IsSettledOnce attempt) (refusal t attempt.now) _ _
          (λ allowed.
            Provisioned-IsSettledOnce attempt (choose_number db t attempt.draws) _ λ num chosen.
              Option-by (IsSettledOnce attempt)
                (insert_user (new_line key area num name attempt.now) db.users) _ _ refl
                λ us inserted. record {
                  token = t;
                  users = us;
                  found = found;
                  allowed = allowed;
                  chosen = chosen;
                  inserted = inserted;
                  stored = refl;
                })
          λ e _. refl

  -- One round of the loop, the rest of the loop at hand.
  round :
      (attempts : ℕ → Attempt) (i : ℕ) (r : Database × Provisioned)
      (again : Database → Database × Provisioned)
      → IsSettledOnce (attempts i) r
      → IsSettled attempts (again db)
      → IsSettled attempts (elim r.1 [
        | line num ↦ (r.0, line num)
        | failed number_taken ↦ again r.0
        | failed e ↦ (r.0, failed e)
      ])
  round attempts i (d, line num) again h later = (i, h)
  round attempts i (d, failed number_taken) again h later =
      subst (λ x. IsSettled attempts (again x)) (sym h) later
  round attempts i (d, failed token_required) again h later = h
  round attempts i (d, failed token_not_found) again h later = h
  round attempts i (d, failed token_used) again h later = h
  round attempts i (d, failed token_expired) again h later = h
  round attempts i (d, failed token_revoked) again h later = h
  round attempts i (d, failed no_available) again h later = h

  provision_loop-IsSettled :
      (left i : ℕ) (e : ProvisionError) (attempts : ℕ → Attempt)
      → IsSettled attempts (provision_loop left i e db hash key area name attempts)
  unfolding provision_loop
  provision_loop-IsSettled zero i e attempts = refl
  provision_loop-IsSettled (suc left) i e attempts =
      round attempts i (provision_user_once db hash key area name (attempts i))
        (λ d. provision_loop left (i + 1) number_taken d hash key area name attempts)
        (provision_user_once-IsSettledOnce (attempts i))
        (provision_loop-IsSettled left (i + 1) number_taken attempts)

  -- An activation either fails, and the database is as it was, or it creates a line: in one of its
  -- attempts the token was in the table and was not refused, the number was the one that the token
  -- leads to, and the user was stored together with the token's new state.
  pub provision_user-IsSettled :
      (attempts : ℕ → Attempt) → IsSettled attempts (provision_user db hash key area name attempts)
  unfolding provision_user
  provision_user-IsSettled attempts =
      if-by (IsSettled attempts) (hash == "") _ _ refl
        (provision_loop-IsSettled 5 0 token_required attempts)

by_hash-use_rows :
    (hash key : String) (now : ℕ) (ts : List Token) (t : Token)
    → by_hash hash ts ≡ some t
    → by_hash hash (use_rows hash key now ts)
      ≡ some (record t { status = used; claimed_pub_key = some key; claimed_at = some now })
unfolding by_hash use_rows
by_hash-use_rows hash key now [] t found = cc
by_hash-use_rows hash key now (u ∷ ts) t found = ground (arith, by_hash-use_rows hash key now ts t)

named :
    (db after : Database) (hash key : String) (area name num : Text) (attempts : ℕ → Attempt)
    → provision_user db hash key area name attempts ≡ (after, line num)
    → (hash == "") ≡ false
unfolding provision_user
named db after hash key area name num attempts activated =
    if-when (λ r. r ≡ (after, line num) → (hash == "") ≡ false) (hash == "") _ _ (λ e q. cc)
      (λ e q. e) activated

module _ (db : Database) (hash key : String) (area name : Text) (attempts : ℕ → Attempt) (t : Token)
    (found : by_hash hash db.tokens ≡ some t) (spent : t.status ≡ used) where
  once-used :
      (attempt : Attempt)
      → provision_user_once db hash key area name attempt ≡ (db, failed token_used)
  unfolding provision_user_once refusal
  once-used attempt = rw (found, provision_user_once) (rw (spent, refusal) refl)

  user-used :
      (hash == "") ≡ false → provision_user db hash key area name attempts ≡ (db, failed token_used)
  unfolding provision_user provision_loop
  user-used there = rw there (
      rw (once-used (attempts 0), provision_loop)
        (ap (λ r. (r.0, failed token_used)) (once-used (attempts 0))))

-- A token works once: after an activation that has created a line, every further activation with
-- the same token fails because the token was used, and leaves the database as it is.
pub provision_user-once :
    (db after : Database) (hash key key' : String) (area name area' name' num : Text)
    (attempts attempts' : ℕ → Attempt)
    → provision_user db hash key area name attempts ≡ (after, line num)
    → provision_user after hash key' area' name' attempts' ≡ (after, failed token_used)
provision_user-once db after hash key key' area name area' name' num attempts attempts' activated =
    let settled =
      subst (IsSettled db hash key area name attempts) activated
        (provision_user-IsSettled db hash key area name attempts) in
    let now = (attempts settled.0).now in
    let row =
      ap (λ (d : Database). by_hash hash d.tokens) settled.1.stored
      ∙ by_hash-use_rows hash key now db.tokens settled.1.token settled.1.found in
    user-used after hash key' area' name' attempts' _ row refl
      (named db after hash key area name num attempts activated)
