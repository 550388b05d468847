-- ===== src/Signaling/Hazards.antt =====
-- A key of the wrong size: handleChallengeRequest accepts it, and handleRegister hands it to
-- ed25519.Verify, which panics.
use open_carrier_network.Prelude.{
  ℕ, Bool, ◌+◌, ◌≤◌, ◌≡◌, ◌≢◌, refl, ap, false, some, List, [], ◌∷◌, String, Text, length, codes,
  arith, ◌==◌, nat_eq, string_eq,
}
use open_carrier_network.Prelude.Table.{lookup-insert_self}
use open_carrier_network.Auth.{
  Challenges, bad_key_size, generate_challenge, verify_response, verify_challenge, PendingChallenge,
}
use open_carrier_network.Signaling.State.{Env, Server, Outcome, panicked, ◌>>=◌}
use open_carrier_network.Signaling.Messages.{challenge_response}
use open_carrier_network.Signaling.Send.{send_message}
use open_carrier_network.Signaling.Register.{
  handle_challenge_request, register_signed, handle_register,
}
use open_carrier_network.Signaling.Step.{
  challenge_request, register, handle_message, received, step, run,
}

verify_response-wrong_size :
    (verify : String → List ℕ → ℕ → List ℕ → Bool) (challenges : Challenges) (key : String)
    (nonce signature : List ℕ) (now later : ℕ)
    → length (codes key) ≢ 32
    → later ≤ now + 300
    → (verify_response verify (generate_challenge challenges key nonce now) key later signature).1
      ≡ bad_key_size
unfolding verify_response verify_challenge generate_challenge
verify_response-wrong_size verify challenges key nonce signature now later wrong soon =
    let c : PendingChallenge = record { nonce = nonce; timestamp = now; created_at = now } in
    rw (lookup-insert_self key c challenges, verify_response) (ground arith)

register_signed-wrong_size :
    (env : Env) (srv : Server) (client : ℕ) (key : String) (signature : List ℕ) (name : Text)
    (token : String)
    → (verify_response env.verify srv.challenges key env.now signature).1 ≡ bad_key_size
    → register_signed env srv client key signature name token ≡ panicked
unfolding register_signed
register_signed-wrong_size env srv client key signature name token e = rw (register_signed, e) refl

-- Any client that can open a socket, with a user or none, brings the whole server down with two
-- messages: a request for a challenge for a key that has some bytes and not 32, and within five minutes a
-- register for this key, with any signature. This is so from every state of the server.
pub run-bad_key_size :
    (env later : Env) (srv : Server) (client : ℕ) (key : String) (nonce signature : List ℕ)
    (name : Text) (token : String)
    → (length (codes key) == 0) ≡ false
    → length (codes key) ≢ 32
    → later.now ≤ env.now + 300
    → run srv (
        (env, received client (challenge_request (some key) (some nonce)))
        ∷ (
          later,
          received client (
              register (record {
                ksim_id = some key;
                signature = some signature;
                display_name = name;
                activation_token = token;
              })),
        )
        ∷ [])
      ≡ panicked
unfolding run step handle_message handle_register handle_challenge_request send_message
run-bad_key_size env later srv client key nonce signature name token some_key wrong soon =
    rw some_key (
      ap (λ (o : Outcome Server). o >>= λ s. run s [])
        (register_signed-wrong_size later challenged client key signature name token (
          verify_response-wrong_size later.verify srv.challenges key nonce signature env.now
            later.now wrong soon)))
  where
    challenged : Server
    challenged =
        send_message
          (record srv { challenges = generate_challenge srv.challenges key nonce env.now }) client
          (challenge_response nonce env.now)
