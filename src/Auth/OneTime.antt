-- ===== src/Auth/OneTime.antt =====
-- A challenge of ocnserver/internal/auth/auth.go, from GenerateChallenge to VerifyResponse.
use open_carrier_network.Prelude.{
  ℕ, ◌+◌, ◌≤◌, ◌≡◌, refl, Bool, true, none, List, String, arith, string_eq, nat_eq, length, codes,
  Option-when, ◌↔◌,
}
use open_carrier_network.Prelude.Table.{lookup, lookup-insert_self, lookup-delete_self}
use open_carrier_network.Auth.{
  PendingChallenge, Verdict, verified, rejected, no_pending_challenge, challenge_ttl, Challenges,
  generate_challenge, verify_challenge, verify_response,
}

module _ (verify : String → List ℕ → ℕ → List ℕ → Bool) where
  -- An answer uses up the challenge of its key: whatever the first answer and its verdict were, a
  -- second one for the same key, at any time and with any signature, finds no pending challenge.
  pub verify_response-once :
      (challenges : Challenges) (key : String) (now later : ℕ) (signature signature' : List ℕ)
      → (verify_response verify
          (verify_response verify challenges key now signature).0
          key
          later
          signature').1
        ≡ rejected no_pending_challenge
  unfolding verify_response
  verify_response-once challenges key now later signature signature' =
      rw (gone, verify_response) refl
    where
      gone : lookup key (verify_response verify challenges key now signature).0 ≡ none
      gone =
          Option-when (λ (r : Challenges × Verdict). lookup key r.0 ≡ none) (lookup key challenges)
            _ _ (λ e. e) λ c _. lookup-delete_self key challenges

  abbrev IsAnswer : PendingChallenge → String → ℕ → List ℕ → Type 0
  IsAnswer c key now signature =
      (now ≤ c.timestamp + challenge_ttl)
      × (length (codes key) ≡ 32)
      × (verify key c.nonce c.timestamp signature ≡ true)

  verify_challenge-IsAnswer :
      (key : String) (c : PendingChallenge) (now : ℕ) (signature : List ℕ)
      → (verify_challenge verify key c now signature ≡ verified) ↔ IsAnswer c key now signature
  unfolding verify_challenge
  verify_challenge-IsAnswer key c now signature = ground arith

  -- A key that has been given a challenge is let in by an answer at the time `later` exactly when
  -- that is at most five minutes after the challenge, the key has 32 bytes, and the signature is one of the challenge's
  -- nonce and time under the key, whatever challenge the key had before.
  pub verify_response-generate_challenge :
      (challenges : Challenges) (key : String) (nonce : List ℕ) (now later : ℕ) (signature : List ℕ)
      → ((verify_response verify
            (generate_challenge challenges key nonce now)
            key
            later
            signature).1
          ≡ verified)
        ↔ ((later ≤ now + challenge_ttl)
            × (length (codes key) ≡ 32)
            × (verify key nonce now signature ≡ true))
  unfolding verify_response generate_challenge
  verify_response-generate_challenge challenges key nonce now later signature =
      let c : PendingChallenge = record { nonce = nonce; timestamp = now; created_at = now } in
      rw (lookup-insert_self key c challenges, verify_response)
        (verify_challenge-IsAnswer key c later signature)
