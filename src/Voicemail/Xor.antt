-- ===== src/Voicemail/Xor.antt =====
-- Laws of Go's `^` on words, which the checksum of ocnserver/internal/voicemail/ogg.go is made of.
use Prim.Native.Nat.{bit_xor, differ, digits, bit_xor-bitwise}
use native.Mathlib.Nat.{pow-suc}
use open_carrier_network.Prelude.{ℕ, zero, suc, ◌+◌, ◌*◌, ◌/◌, ◌%◌, ◌^◌, ◌≤◌, ◌<◌}
use open_carrier_network.Prelude.{◌≡◌, refl, sym, ap, arith}

-- The exclusive or of two binary digits.
abbrev xor_digits : ℕ → ℕ → ℕ → ℕ
xor_digits n a b = digits (λ y. y) differ n a b

-- More fuel than the first number has digits changes nothing.
xor_digits_fuel : (n m a b : ℕ) → a ≤ n → a ≤ m → xor_digits n a b ≡ xor_digits m a b
xor_digits_fuel zero zero a b p q = refl
xor_digits_fuel zero (suc m) zero b p q = refl
xor_digits_fuel (suc n) zero zero b p q = refl
xor_digits_fuel (suc n) (suc m) zero b p q = refl
xor_digits_fuel zero m (suc a) b p q = absurd (omega arith)
xor_digits_fuel n zero (suc a) b p q = absurd (omega arith)
xor_digits_fuel (suc n) (suc m) (suc a) b p q =
    rw (xor_digits_fuel n m (suc a / 2) (b / 2) (omega arith) (omega arith)) refl

differ_parity : (p q : ℕ) → p < 2 → q < 2 → differ p q ≡ (p + q) % 2
differ_parity zero zero h k = refl
differ_parity zero (suc zero) h k = refl
differ_parity (suc zero) zero h k = refl
differ_parity (suc zero) (suc zero) h k = refl
differ_parity (suc (suc p)) q h k = absurd (omega arith)
differ_parity p (suc (suc q)) h k = absurd (omega arith)

-- One equation for the lowest digit.
pub bit_xor_step : (a b : ℕ) → bit_xor a b ≡ bit_xor (a / 2) (b / 2) * 2 + (a + b) % 2
bit_xor_step zero b = omega (arith, bit_xor-bitwise 0 b, bit_xor-bitwise 0 (b / 2))
bit_xor_step (suc a) b = omega (
  arith,
  bit_xor-bitwise (suc a) b,
  bit_xor-bitwise (suc a / 2) (b / 2),
  xor_digits_fuel a (suc a / 2) (suc a / 2) (b / 2) (omega arith) (omega arith),
  differ_parity (suc a % 2) (b % 2) (omega arith) (omega arith),
)

bit_xor_half : (a b : ℕ) → bit_xor a b / 2 ≡ bit_xor (a / 2) (b / 2)
bit_xor_half a b = omega (arith, bit_xor_step a b)

half : (k a : ℕ) → a < 2 ^ suc k → a / 2 < 2 ^ k
half k a h = omega (arith, pow-suc 2 k)

pub bit_xor_bound : (k a b : ℕ) → a < 2 ^ k → b < 2 ^ k → bit_xor a b < 2 ^ k
bit_xor_bound zero zero zero ha hb = omega arith
bit_xor_bound zero (suc a) b ha hb = absurd (omega arith)
bit_xor_bound zero a (suc b) ha hb = absurd (omega arith)
bit_xor_bound (suc k) a b ha hb = omega (
  arith,
  bit_xor_step a b,
  pow-suc 2 k,
  bit_xor_bound k (a / 2) (b / 2) (half k a ha) (half k b hb),
)

pub bit_xor_comm : (k a b : ℕ) → a < 2 ^ k → b < 2 ^ k → bit_xor a b ≡ bit_xor b a
bit_xor_comm zero zero zero ha hb = refl
bit_xor_comm zero (suc a) b ha hb = absurd (omega arith)
bit_xor_comm zero a (suc b) ha hb = absurd (omega arith)
bit_xor_comm (suc k) a b ha hb = omega (
  arith,
  bit_xor_step a b,
  bit_xor_step b a,
  bit_xor_comm k (a / 2) (b / 2) (half k a ha) (half k b hb),
)

pub bit_xor_assoc :
    (k a b c : ℕ)
    → a < 2 ^ k
    → b < 2 ^ k
    → c < 2 ^ k
    → bit_xor (bit_xor a b) c ≡ bit_xor a (bit_xor b c)
bit_xor_assoc zero zero zero zero ha hb hc = refl
bit_xor_assoc zero (suc a) b c ha hb hc = absurd (omega arith)
bit_xor_assoc zero a (suc b) c ha hb hc = absurd (omega arith)
bit_xor_assoc zero a b (suc c) ha hb hc = absurd (omega arith)
bit_xor_assoc (suc k) a b c ha hb hc = omega (
  arith,
  bit_xor_step (bit_xor a b) c,
  bit_xor_step a (bit_xor b c),
  bit_xor_step a b,
  bit_xor_step b c,
  ap (λ (t : ℕ). bit_xor t (c / 2)) (bit_xor_half a b),
  ap (λ (t : ℕ). bit_xor (a / 2) t) (bit_xor_half b c),
  bit_xor_assoc k (a / 2) (b / 2) (c / 2) (half k a ha) (half k b hb) (half k c hc),
)

pub bit_xor_self : (k a : ℕ) → a < 2 ^ k → bit_xor a a ≡ 0
bit_xor_self zero zero h = refl
bit_xor_self zero (suc a) h = absurd (omega arith)
bit_xor_self (suc k) a h = omega (arith, bit_xor_step a a, bit_xor_self k (a / 2) (half k a h))

pub bit_xor_zero : (k a : ℕ) → a < 2 ^ k → bit_xor a 0 ≡ a
bit_xor_zero zero zero h = refl
bit_xor_zero zero (suc a) h = absurd (omega arith)
bit_xor_zero (suc k) a h = omega (arith, bit_xor_step a 0, bit_xor_zero k (a / 2) (half k a h))

double : (k p : ℕ) → p * 2 ^ suc k ≡ 2 * (p * 2 ^ k)
double k p = omega (arith, ap (λ (t : ℕ). p * t) (pow-suc 2 k))

half_field : (k p a : ℕ) → (p * 2 ^ suc k + a) / 2 ≡ p * 2 ^ k + a / 2
half_field k p a = omega (arith, double k p)

-- Two fields of a word do not meet.
pub bit_xor_fields :
    (k p a q b : ℕ)
    → a < 2 ^ k
    → b < 2 ^ k
    → bit_xor (p * 2 ^ k + a) (q * 2 ^ k + b) ≡ bit_xor p q * 2 ^ k + bit_xor a b
bit_xor_fields zero p zero q zero ha hb = rw (drop_field p, drop_field q) (sym (drop_field _))
  where
    drop_field : (t : ℕ) → t * 1 + 0 ≡ t
    drop_field t = omega arith
bit_xor_fields zero p (suc a) q b ha hb = absurd (omega arith)
bit_xor_fields zero p a q (suc b) ha hb = absurd (omega arith)
bit_xor_fields (suc k) p a q b ha hb = omega (
  arith,
  bit_xor_step (p * 2 ^ suc k + a) (q * 2 ^ suc k + b),
  bit_xor_step a b,
  double k p,
  double k q,
  double k (bit_xor p q),
  ap (λ (t : ℕ). bit_xor t ((q * 2 ^ suc k + b) / 2)) (half_field k p a),
  ap (λ (t : ℕ). bit_xor (p * 2 ^ k + a / 2) t) (half_field k q b),
  bit_xor_fields k p (a / 2) q (b / 2) (half k a ha) (half k b hb),
)
