-- ===== src/Auth/Tests.antt =====
-- The theorems on challenges, applied to one phone.
use open_carrier_network.Prelude.{ℕ, ◌≡◌, ◌≤◌, ◌+◌, ◌↔◌, Bool, true, List, [], ◌∷◌, String}
use open_carrier_network.Prelude.{length, codes}
use open_carrier_network.Auth.{
  verified, rejected, no_pending_challenge, challenge_ttl, Challenges, generate_challenge,
  verify_response,
}
use open_carrier_network.Auth.OneTime.{verify_response-once, verify_response-generate_challenge}

abbrev accepts : String → List ℕ → ℕ → List ℕ → Bool
accepts key nonce time signature = true

abbrev pending : Challenges
pending =
    (
      "0123456789abcdef0123456789abcdef",
      record { nonce = 5 ∷ []; timestamp = 100; created_at = 100 },
    )
    ∷ []

verify_response-once_example :
    (verify_response accepts
      (verify_response accepts pending "0123456789abcdef0123456789abcdef" 120 (9 ∷ [])).0
      "0123456789abcdef0123456789abcdef"
      130
      (9 ∷ [])).1
    ≡ rejected no_pending_challenge
verify_response-once_example =
    verify_response-once accepts pending "0123456789abcdef0123456789abcdef" 120 130 (9 ∷ [])
      (9 ∷ [])

verify_response-generate_challenge_example :
    ((verify_response accepts
        (generate_challenge pending "0123456789abcdef0123456789abcdef" (6 ∷ []) 200)
        "0123456789abcdef0123456789abcdef"
        500
        (9 ∷ [])).1
      ≡ verified)
    ↔ ((500 ≤ 200 + challenge_ttl)
        × (length (codes "0123456789abcdef0123456789abcdef") ≡ 32)
        × (accepts "0123456789abcdef0123456789abcdef" (6 ∷ []) 200 (9 ∷ []) ≡ true))
verify_response-generate_challenge_example =
    verify_response-generate_challenge accepts pending "0123456789abcdef0123456789abcdef" (6 ∷ [])
      200 500 (9 ∷ [])
