-- ===== src/Signaling/Safety/Registered.antt =====
-- `IsSound` through handleChallengeRequest, handleRegister and handleRegisterFCM.
use open_carrier_network.Prelude.{
  ℕ, ◌≡◌, refl, true, Option, none, some, List, [], String, Text, ◌==◌, nat_eq, text_eq, string_eq,
  if-by, Option-by, arith,
}
use open_carrier_network.Prelude.Table.{lookup, Values-map, Values-insert}
use open_carrier_network.Store.Tables.{User, Database}
use open_carrier_network.Store.Users.{is_some, get_user_by_public_key}
use open_carrier_network.Store.Provision.{ProvisionError, Provisioned, provision_user, failed, line}
use open_carrier_network.Prelude.{
  Bool, not, ◌&&◌, length, codes, sym, ◌∙◌, true≢false, Option-when, false,
}
use open_carrier_network.Auth.{
  AuthError, Challenges, Verdict, verified, rejected, bad_key_size, verify_response,
  verify_challenge,
}
use open_carrier_network.Signaling.State.{Client, Env, Server, done, panicked}
use open_carrier_network.Signaling.Send.{update, send_error}
use open_carrier_network.Signaling.Register.{
  RegisterRequest, handle_challenge_request, kick_previous, attach, complete_register,
  register_known, register_new, register_verified, register_signed, handle_register,
  handle_register_fcm,
}
use open_carrier_network.Signaling.Safety.Parts.{
  HasUser, IsSound, Returns, update-HasUser, update-IsBounded, send_message-IsSound,
  send_error-IsSound,
}
use open_carrier_network.Signaling.Safety.Queued.{deliver_pending_call-IsSound}
use open_carrier_network.Signaling.Safety.Entries.{flush_pending_dm-IsSound}

-- A write to the database or to the challenges leaves the clients alone.
with_db-IsSound : (srv : Server) (db : Database) → IsSound srv → IsSound (record srv { db = db })
with_db-IsSound srv db k = record { registered = k.registered; rung = k.rung; bounded = k.bounded }

with_challenges-IsSound :
    (srv : Server) (c : Challenges) → IsSound srv → IsSound (record srv { challenges = c })
with_challenges-IsSound srv c k = record {
  registered = k.registered;
  rung = k.rung;
  bounded = k.bounded;
}

pub handle_challenge_request-IsSound :
    (env : Env) (srv : Server) (client : ℕ) (key : Option String) (nonce : Option (List ℕ))
    → IsSound srv
    → IsSound (handle_challenge_request env srv client key nonce)
unfolding handle_challenge_request
handle_challenge_request-IsSound env srv client none _ k = send_error-IsSound srv client _ _ k
handle_challenge_request-IsSound env srv client (some key) random k =
    if-by IsSound (length (codes key) == 0) _ _ (send_error-IsSound srv client _ _ k) (
      Option-by IsSound random _ _ (send_error-IsSound srv client _ _ k)
        λ nonce _. send_message-IsSound _ client _ (with_challenges-IsSound srv _ k))

pub kick_previous-IsSound :
    (srv : Server) (client : ℕ) (num : Text) → IsSound srv → IsSound (kick_previous srv client num)
unfolding kick_previous
kick_previous-IsSound srv client num k = Option-by IsSound (lookup num srv.clients) _ _ k λ prev _.
    if-by IsSound (prev == client) _ _ k (record {
      registered = update-HasUser srv.at prev _ srv.clients refl k.registered;
      rung = k.rung;
      bounded = update-IsBounded srv.at prev _ (k.bounded prev) k.bounded;
    })

-- The client has a user when it is entered under its number.
user_set :
    (at : ℕ → Client) (client : ℕ) (u : User) (d : ℕ)
    → HasUser at d
    → HasUser (update at client (record (at client) { user = some u })) d
user_set at client u d h = ground (arith)

entered :
    (at : ℕ → Client) (client : ℕ) (v : Client)
    → is_some v.user ≡ true
    → HasUser (update at client v) client
entered at client v h = ground arith

attach-IsSound :
    (srv : Server) (client : ℕ) (u : User) → IsSound srv → IsSound (attach srv client u)
unfolding attach
attach-IsSound srv client u k =
    let kicked = kick_previous-IsSound srv client u.number k in
    record {
      registered =
          Values-insert _ u.number client _
            (entered (kick_previous srv client u.number).at client _ refl)
            (Values-map (user_set (kick_previous srv client u.number).at client u) _
              kicked.registered);
      rung = kicked.rung;
      bounded =
          update-IsBounded (kick_previous srv client u.number).at client _ (kicked.bounded client)
            kicked.bounded;
    }

complete_register-IsSound :
    (env : Env) (srv : Server) (client : ℕ) (u : User)
    → IsSound srv
    → IsSound (complete_register env srv client u)
unfolding complete_register
complete_register-IsSound env srv client u k = flush_pending_dm-IsSound env _ client (
    deliver_pending_call-IsSound _ client
      (send_message-IsSound _ client _ (attach-IsSound srv client u k)))

register_known-IsSound :
    (env : Env) (srv : Server) (client : ℕ) (u : User) (key : String) (name : Text)
    → IsSound srv
    → IsSound (register_known env srv client u key name)
unfolding register_known
register_known-IsSound env srv client u key name k =
    if-by IsSound (name == []) _ _
      (complete_register-IsSound env _ client u (with_db-IsSound srv _ k))
      (complete_register-IsSound env _ client _ (with_db-IsSound srv _ k))

Provisioned-by :
    (P : Server → Type 0) (r : Provisioned) (f : ProvisionError → Server) (g : Text → Server)
    → ((e : ProvisionError) → P (f e))
    → ((num : Text) → P (g num))
    → P (elim r [ failed e ↦ f e | line num ↦ g num ])
Provisioned-by P (failed e) f g p q = p e
Provisioned-by P (line num) f g p q = q num

register_new-IsSound :
    (env : Env) (srv : Server) (client : ℕ) (key : String) (name : Text) (token : String)
    → IsSound srv
    → IsSound (register_new env srv client key name token)
unfolding register_new
register_new-IsSound env srv client key name token k =
    let p = provision_user srv.db (env.hash_token token) key srv.area_code name env.attempts in
    let stored = with_db-IsSound srv p.0 k in
    Provisioned-by IsSound p.1 _ _ (λ e. send_error-IsSound _ client _ _ stored)
      λ num. complete_register-IsSound env _ client _ stored

register_verified-IsSound :
    (env : Env) (srv : Server) (client : ℕ) (key : String) (name : Text) (token : String)
    → IsSound srv
    → IsSound (register_verified env srv client key name token)
unfolding register_verified
register_verified-IsSound env srv client key name token k =
    if-by IsSound env.db_ok _ _
      (Option-by IsSound (get_user_by_public_key srv.db key) _ _
        (register_new-IsSound env srv client key name token k)
        λ u _. register_known-IsSound env srv client u key name k)
      (send_error-IsSound srv client _ _ k)

-- A register with a signature for a key that has a pending challenge and does not have 32 bytes.
unfoldable pub signs_badly : Server → RegisterRequest → Bool
unfolding lookup
signs_badly srv msg = elim msg.ksim_id [
  | none ↦ false
  | some key ↦
      is_some msg.signature && is_some (lookup key srv.challenges) && not (length (codes key) == 32)
]

-- The panic is that of a key with a pending challenge and another size.
verify_response-bad_key_size :
    (verify : String → List ℕ → ℕ → List ℕ → Bool) (challenges : Challenges) (key : String)
    (now : ℕ) (signature : List ℕ)
    → (verify_response verify challenges key now signature).1 ≡ bad_key_size
    → (is_some (lookup key challenges) && not (length (codes key) == 32)) ≡ true
unfolding verify_response verify_challenge
verify_response-bad_key_size verify challenges key now signature =
    Option-when (λ (r : Challenges × Verdict). r.1 ≡ bad_key_size → Bad) (lookup key challenges) _ _
      (λ gone e. absurd (rejected_differs e)) (λ c found e. ground (arith, found))
  where
    Bad : Type 0
    Bad = (is_some (lookup key challenges) && not (length (codes key) == 32)) ≡ true

    rejected_differs : {e : AuthError} → rejected e ≡ bad_key_size → ⊥
    rejected_differs e = cc

register_signed-IsSound :
    (env : Env) (srv : Server) (client : ℕ) (key : String) (signature : List ℕ) (name : Text)
    (token : String)
    → (is_some (lookup key srv.challenges) && not (length (codes key) == 32)) ≡ false
    → IsSound srv
    → Returns IsSound (register_signed env srv client key signature name token)
unfolding register_signed
register_signed-IsSound env srv client key signature name token safe k = judged v.1 refl
  where
    v : Challenges × Verdict
    v = verify_response env.verify srv.challenges key env.now signature

    spent : IsSound (record srv { challenges = v.0 })
    spent = with_challenges-IsSound srv v.0 k

    judged :
        (verdict : Verdict)
        → v.1 ≡ verdict
        → Returns IsSound (elim verdict [
          | bad_key_size ↦ panicked
          | rejected e ↦
              done (send_error (record srv { challenges = v.0 }) client 401 "authentication failed")
          | verified ↦
              done (register_verified env (record srv { challenges = v.0 }) client key name token)
        ])
    judged bad_key_size e = true≢false (
        sym (verify_response-bad_key_size env.verify srv.challenges key env.now signature e) ∙ safe)
    judged (rejected e) same = send_error-IsSound _ client _ _ spent
    judged verified same = register_verified-IsSound env _ client key name token spent

pub handle_register-IsSound :
    (env : Env) (srv : Server) (client : ℕ) (msg : RegisterRequest)
    → signs_badly srv msg ≡ false
    → IsSound srv
    → Returns IsSound (handle_register env srv client msg)
unfolding handle_register signs_badly
handle_register-IsSound env srv client msg safe k =
    Option-when (Returns IsSound) msg.ksim_id _ _ (λ e. send_error-IsSound srv client _ _ k)
      λ key e.
        Option-when (Returns IsSound) msg.signature _ _ (λ e'. send_error-IsSound srv client _ _ k)
          λ signature e'.
            register_signed-IsSound env srv client key signature _ _ (ground (arith, safe, e, e')) k

pub handle_register_fcm-IsSound :
    (srv : Server) (client : ℕ) (token : String)
    → IsSound srv
    → IsSound (handle_register_fcm srv client token)
unfolding handle_register_fcm
handle_register_fcm-IsSound srv client token k =
    Option-by IsSound (srv.at client).user _ _ k λ u _. with_db-IsSound srv _ k
