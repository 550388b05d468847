-- ===== src/Auth.antt =====
-- ocnserver/internal/auth/auth.go, with VerifyChallenge of ocnserver/internal/ksim/ksim.go: the
-- challenge that a phone signs with its kSIM key. Times are in seconds; Ed25519 and SHA-256 are a
-- parameter, which says whether a signature is one of a nonce and a time under a key. A key is the string
-- of its bytes; ed25519.Verify panics on a key that does not have 32 of them.
pub mod OneTime
mod Tests
use open_carrier_network.Prelude.{
  ℕ, ◌+◌, not, codes, length, nat_eq, Bool, true, false, Option, none, some, List, [], ◌∷◌, String,
  ◌==◌, string_eq, if◌then◌else◌, ltb,
}
use open_carrier_network.Prelude.Table.{Table, lookup, insert, delete}

-- PendingChallenge
pub record PendingChallenge : Type 0 where
  pub nonce : List ℕ
  pub timestamp : ℕ
  pub created_at : ℕ

pub data AuthError : Type 0 where
  no_pending_challenge challenge_expired invalid_signature : AuthError

-- challengeTTL and ksim.ChallengeTTL, five minutes.
abbrev pub challenge_ttl : ℕ
challenge_ttl = 300

-- AuthManager.challenges
abbrev pub Challenges : Type 0
Challenges = Table String PendingChallenge

-- GenerateChallenge, for a nonce that crypto/rand has drawn.
unfoldable pub generate_challenge : Challenges → String → List ℕ → ℕ → Challenges
unfolding insert
generate_challenge challenges key nonce now =
    insert key (record { nonce = nonce; timestamp = now; created_at = now }) challenges

-- ed25519.PublicKeySize
abbrev pub public_key_size : ℕ
public_key_size = 32

-- How VerifyChallenge and VerifyResponse end: with no error, with one, or in the panic of
-- ed25519.Verify.
pub data Verdict : Type 0 where
  verified : Verdict
  rejected : AuthError → Verdict
  bad_key_size : Verdict

module _ (verify : String → List ℕ → ℕ → List ℕ → Bool) where
  -- VerifyChallenge
  unfoldable pub verify_challenge : String → PendingChallenge → ℕ → List ℕ → Verdict
  verify_challenge key challenge now signature =
      if ltb (challenge.timestamp + challenge_ttl) now
      then rejected challenge_expired
      else if not (length (codes key) == public_key_size)
      then bad_key_size
      else if verify key challenge.nonce challenge.timestamp signature
      then verified
      else rejected invalid_signature

  -- VerifyResponse: the challenge is gone after it, whatever the verdict; a panic ends the process.
  unfoldable pub verify_response : Challenges → String → ℕ → List ℕ → Challenges × Verdict
  unfolding lookup delete verify_challenge
  verify_response challenges key now signature = elim (lookup key challenges) [
    | none ↦ (challenges, rejected no_pending_challenge)
    | some challenge ↦ (delete key challenges, verify_challenge key challenge now signature)
  ]

-- One tick of cleanupLoop.
unfoldable pub cleanup : Challenges → ℕ → Challenges
cleanup [] now = []
cleanup ((key, challenge) ∷ rest) now =
    let kept = cleanup rest now in
    if ltb (challenge.created_at + challenge_ttl) now then kept else (key, challenge) ∷ kept
