-- ===== src/Signaling/Register.antt =====
-- handleChallengeRequest, handleRegister and handleRegisterFCM of server.go.
use open_carrier_network.Prelude.{
  ℕ, false, Option, none, some, List, [], String, Text, text_beq, ◌==◌, nat_eq, text_eq, string_eq,
  if◌then◌else◌, length, codes,
}
use open_carrier_network.Prelude.Table.{lookup, insert}
use open_carrier_network.Auth.{
  generate_challenge, verify_response, verified, rejected, bad_key_size,
}
use open_carrier_network.Store.Tables.{User, Database}
use open_carrier_network.Store.Users.{
  get_user_by_public_key, update_display_name, update_last_seen, update_fcm_token,
}
use open_carrier_network.Store.Provision.{
  ProvisionError, token_required, token_not_found, token_used, token_expired, token_revoked,
  number_taken, no_available, line, failed, provision_user,
}
use open_carrier_network.Signaling.Messages.{challenge_response, register_response}
use open_carrier_network.Signaling.State.{close_conn, Env, Server, Outcome, done, panicked}
use open_carrier_network.Signaling.Send.{update, send_message, send_error, act}
use open_carrier_network.Signaling.Pending.{deliver_pending_call}
use open_carrier_network.Signaling.Messaging.{flush_pending_dm}

-- handleChallengeRequest, with the nonce that crypto/rand draws, or its error; a missing
-- ksim_id is `none`.
unfoldable pub handle_challenge_request :
    Env → Server → ℕ → Option String → Option (List ℕ) → Server
unfolding send_message send_error generate_challenge
handle_challenge_request env srv client none _ = send_error srv client 400 "missing ksim_id"
handle_challenge_request env srv client (some key) random =
    if length (codes key) == 0 then send_error srv client 400 "missing ksim_id" else (elim random [
      | none ↦ send_error srv client 500 "failed to generate challenge"
      | some nonce ↦
          send_message
            (record srv { challenges = generate_challenge srv.challenges key nonce env.now }) client
            (challenge_response nonce env.now)
    ])

-- RegisterRequest; a display name that is missing is empty.
pub record RegisterRequest : Type 0 where
  pub ksim_id : Option String
  pub signature : Option (List ℕ)
  pub display_name : Text
  pub activation_token : String

-- What handleRegister tells a phone whose token is refused.
unfoldable pub provision_refusal : ProvisionError → ℕ × String
provision_refusal token_required = (400, "missing provisioning token in register")
provision_refusal token_not_found =
    (403, "invalid provisioning token - generate a fresh QR code from the admin panel")
provision_refusal token_expired = (403, "provisioning token has expired - generate a new one")
provision_refusal token_used = (403, "provisioning token was already used on another phone")
provision_refusal token_revoked = (403, "provisioning token was revoked by the admin")
provision_refusal number_taken =
    (409, "that number was just taken - generate a new provisioning code")
provision_refusal no_available = (500, "failed to register user")

-- `if prev, ok := srv.clients[user.Number]; ok && prev != client { go prev.conn.Close() }`
unfoldable pub kick_previous : Server → ℕ → Text → Server
unfolding lookup
kick_previous srv client number = elim (lookup number srv.clients) [
  | none ↦ srv
  | some prev ↦
      if prev == client
      then srv
      else act (close_conn prev)
          (record srv { at = update srv.at prev (record (srv.at prev) { open_conn = false }) })
]

-- The client takes its number: from the lock to `client.user = user`.
unfoldable pub attach : Server → ℕ → User → Server
unfolding insert kick_previous
attach srv client u =
    let kicked = kick_previous srv client u.number in
    record kicked {
      clients = insert u.number client kicked.clients;
      at = update kicked.at client (record (kicked.at client) { user = some u });
    }

-- The end of handleRegister.
unfoldable pub complete_register : Env → Server → ℕ → User → Server
unfolding attach send_message deliver_pending_call flush_pending_dm
complete_register env srv client u =
    flush_pending_dm env
      (deliver_pending_call
        (send_message (attach srv client u) client (
          register_response (record { area_code = u.area_code; number = u.number })
            srv.ice_servers))
        client)
      client

-- A key that has a line: its name and the time of its last registration are kept up to date.
unfoldable pub register_known : Env → Server → ℕ → User → String → Text → Server
unfolding update_display_name update_last_seen complete_register text_beq
register_known env srv client u key name =
    if name == []
    then complete_register env (seen srv.db) client u
    else complete_register env (seen (update_display_name srv.db key name)) client
        (record u { display_name = name })
  where
    seen : Database → Server
    seen db = record srv { db = update_last_seen db key env.now }

-- A key that has no line: a token makes one.
unfoldable pub register_new : Env → Server → ℕ → String → Text → String → Server
unfolding provision_user provision_refusal send_error complete_register
register_new env srv client key name token =
    let (db, result) =
      provision_user srv.db (env.hash_token token) key srv.area_code name env.attempts in
    elim result [
      | failed e ↦
          let (code, text) = provision_refusal e in
          send_error (record srv { db = db }) client code text
      | line num ↦ complete_register env (record srv { db = db }) client (new_user num)
    ]
  where
    new_user : Text → User
    new_user num = record {
      ksim_public_key = key;
      area_code = srv.area_code;
      number = num;
      display_name = name;
      fcm_token = "";
      registered_at = env.now;
      last_seen = env.now;
    }

-- handleRegister past the check of the signature.
unfoldable pub register_verified : Env → Server → ℕ → String → Text → String → Server
unfolding get_user_by_public_key register_known register_new send_error
register_verified env srv client key name token =
    if env.db_ok
    then elim (get_user_by_public_key srv.db key) [
      | none ↦ register_new env srv client key name token
      | some u ↦ register_known env srv client u key name
    ]
    else send_error srv client 500 "database error"

-- handleRegister for a key and a signature.
unfoldable pub register_signed : Env → Server → ℕ → String → List ℕ → Text → String → Outcome Server
unfolding verify_response register_verified send_error
register_signed env srv client key signature name token =
    let (challenges, verdict) = verify_response env.verify srv.challenges key env.now signature in
    let spent = record srv { challenges = challenges } in
    elim verdict [
      | bad_key_size ↦ panicked
      | rejected e ↦ done (send_error spent client 401 "authentication failed")
      | verified ↦ done (register_verified env spent client key name token)
    ]

-- handleRegister
unfoldable pub handle_register : Env → Server → ℕ → RegisterRequest → Outcome Server
unfolding register_signed send_error
handle_register env srv client msg = elim msg.ksim_id [
  | none ↦ done (send_error srv client 400 "missing ksim_id or challenge_response")
  | some key ↦ elim msg.signature [
    | none ↦ done (send_error srv client 400 "missing ksim_id or challenge_response")
    | some signature ↦
        register_signed env srv client key signature msg.display_name msg.activation_token
  ]
]

-- handleRegisterFCM
unfoldable pub handle_register_fcm : Server → ℕ → String → Server
unfolding update_fcm_token
handle_register_fcm srv client token = elim (srv.at client).user [
  | none ↦ srv
  | some u ↦ record srv { db = update_fcm_token srv.db u.ksim_public_key token }
]
