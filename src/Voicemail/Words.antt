-- ===== src/Voicemail/Words.antt =====
-- How the words that crcTable of ocnserver/internal/voicemail/ogg.go shifts add up.
use Prim.Native.Nat.{bit_xor}
use open_carrier_network.Prelude.{ℕ, zero, suc, ◌+◌, ◌*◌, ◌/◌, ◌%◌, ◌^◌, ◌<◌}
use open_carrier_network.Prelude.{◌≡◌, refl, sym, ap, ◌∙◌, arith}
use open_carrier_network.Prelude.{nat_eq, leb, Bool-cases, inl, inr}
use open_carrier_network.Voicemail.Ogg.{crc_shift, crc_shifts}
use open_carrier_network.Voicemail.Xor.{bit_xor_bound, bit_xor_comm, bit_xor_assoc, bit_xor_zero}
use open_carrier_network.Voicemail.Xor.{bit_xor_fields, bit_xor_step}

abbrev pub IsWord : ℕ → Type 0
IsWord c = c < 2 ^ 32

abbrev polynomial : ℕ
polynomial = 0x04c11db7

-- The register takes in one bit: the bit that falls out at the top, changed by the bit that comes in,
-- says whether the polynomial is added.
abbrev pub feed : ℕ → ℕ → ℕ
feed c bit = bit_xor (c * 2 % 2 ^ 32) ((c / 2 ^ 31 + bit) % 2 * 0x04c11db7)

pub bound : (a b : ℕ) → IsWord a → IsWord b → IsWord (bit_xor a b)
bound a b ha hb = bit_xor_bound 32 a b ha hb

-- Four words, added in another order.
pub bit_xor_swap :
    (a b c d : ℕ)
    → IsWord a
    → IsWord b
    → IsWord c
    → IsWord d
    → bit_xor (bit_xor a b) (bit_xor c d) ≡ bit_xor (bit_xor a c) (bit_xor b d)
bit_xor_swap a b c d ha hb hc hd =
    bit_xor_assoc 32 a b (bit_xor c d) ha hb (bound c d hc hd)
    ∙ ap (bit_xor a) (
        sym (bit_xor_assoc 32 b c d hb hc hd)
        ∙ ap (λ t. bit_xor t d) (bit_xor_comm 32 b c hb hc)
        ∙ bit_xor_assoc 32 c b d hc hb hd)
    ∙ sym (bit_xor_assoc 32 a c (bit_xor b d) ha hc (bound b d hb hd))

pub crc_shift-feed : (c : ℕ) → IsWord c → crc_shift c ≡ feed c 0
unfolding crc_shift
crc_shift-feed c h = elim (Bool-cases (leb 0x80000000 c)) [
  | inl high ↦ let top : (c / 2 ^ 31 + 0) % 2 ≡ 1 = ground arith in rw (high, top) refl
  | inr low ↦
      let top : (c / 2 ^ 31 + 0) % 2 ≡ 0 = ground arith in
      rw (low, top) (sym (bit_xor_zero 32 _ (omega arith)))
]

-- The bit that comes in adds the polynomial once more.
pub second_bit :
    (x top bit : ℕ)
    → IsWord x
    → top < 2
    → bit < 2
    → bit_xor x ((top + bit) % 2 * 0x04c11db7)
      ≡ bit_xor (bit_xor x ((top + 0) % 2 * 0x04c11db7)) (bit * 0x04c11db7)
second_bit x top zero hx h k = sym (bit_xor_zero 32 _ (bound x _ hx (omega arith)))
second_bit x zero (suc zero) hx h k = rw (bit_xor_zero 32 x hx) refl
second_bit x (suc zero) (suc zero) hx h k =
    sym (bit_xor_assoc 32 x polynomial polynomial hx (omega arith) (omega arith))
second_bit x (suc (suc top)) bit hx h k = absurd (omega arith)
second_bit x top (suc (suc bit)) hx h k = absurd (omega arith)

pub feed-bit :
    (c bit : ℕ) → IsWord c → bit < 2 → feed c bit ≡ bit_xor (crc_shift c) (bit * 0x04c11db7)
feed-bit c bit h k =
    second_bit (c * 2 % 2 ^ 32) (c / 2 ^ 31) bit (omega arith) (omega arith) k
    ∙ ap (λ t. bit_xor t (bit * 0x04c11db7)) (sym (crc_shift-feed c h))

pub feed-IsWord : (c bit : ℕ) → IsWord (feed c bit)
feed-IsWord c bit = bound _ _ (omega arith) (omega arith)

pub top_bits :
    (p q : ℕ)
    → p < 2
    → q < 2
    → (bit_xor p q + 0) % 2 * 0x04c11db7
      ≡ bit_xor ((p + 0) % 2 * 0x04c11db7) ((q + 0) % 2 * 0x04c11db7)
top_bits zero zero h k = refl
top_bits zero (suc zero) h k = refl
top_bits (suc zero) zero h k = refl
top_bits (suc zero) (suc zero) h k = refl
top_bits (suc (suc p)) q h k = absurd (omega arith)
top_bits p (suc (suc q)) h k = absurd (omega arith)

-- Words add field by field: the top bit and the bits that stay.
pub split_top :
    (a b : ℕ)
    → IsWord a
    → IsWord b
    → bit_xor a b ≡ bit_xor (a / 2 ^ 31) (b / 2 ^ 31) * 2 ^ 31 + bit_xor (a % 2 ^ 31) (b % 2 ^ 31)
split_top a b ha hb =
    rw (towards a, towards b) at
      (bit_xor_fields 31 (a / 2 ^ 31) (a % 2 ^ 31) (b / 2 ^ 31) (b % 2 ^ 31) (omega arith)
        (omega arith))
  where
    towards : (t : ℕ) → t / 2 ^ 31 * 2 ^ 31 + t % 2 ^ 31 ≡ t
    towards t = omega arith

pub feed-xor :
    (a b : ℕ) → IsWord a → IsWord b → feed (bit_xor a b) 0 ≡ bit_xor (feed a 0) (feed b 0)
feed-xor a b ha hb =
    rw (doubled, top)
      (ap (bit_xor (bit_xor (a * 2 % 2 ^ 32) (b * 2 % 2 ^ 32)))
          (top_bits (a / 2 ^ 31) (b / 2 ^ 31) (omega arith) (omega arith))
        ∙ bit_xor_swap (a * 2 % 2 ^ 32) (b * 2 % 2 ^ 32) _ _ (omega arith) (omega arith)
            (omega arith) (omega arith))
  where
    low : bit_xor (a % 2 ^ 31) (b % 2 ^ 31) < 2 ^ 31
    low = bit_xor_bound 31 (a % 2 ^ 31) (b % 2 ^ 31) (omega arith) (omega arith)

    top : bit_xor a b / 2 ^ 31 ≡ bit_xor (a / 2 ^ 31) (b / 2 ^ 31)
    top = omega (arith, split_top a b ha hb, low)

    halves : (t : ℕ) → t * 2 % 2 ^ 32 / 2 ≡ t % 2 ^ 31
    halves t = omega arith

    doubled : bit_xor a b * 2 % 2 ^ 32 ≡ bit_xor (a * 2 % 2 ^ 32) (b * 2 % 2 ^ 32)
    doubled = omega (
      arith,
      split_top a b ha hb,
      low,
      bit_xor_step (a * 2 % 2 ^ 32) (b * 2 % 2 ^ 32),
      ap (λ (t : ℕ). bit_xor t (b * 2 % 2 ^ 32 / 2)) (halves a),
      ap (λ (t : ℕ). bit_xor (a % 2 ^ 31) t) (halves b),
    )

pub crc_shift-xor :
    (a b : ℕ) → IsWord a → IsWord b → crc_shift (bit_xor a b) ≡ bit_xor (crc_shift a) (crc_shift b)
crc_shift-xor a b ha hb =
    rw (crc_shift-feed a ha, crc_shift-feed b hb, crc_shift-feed (bit_xor a b) (bound a b ha hb))
      (feed-xor a b ha hb)

pub crc_shift-IsWord : (c : ℕ) → IsWord c → IsWord (crc_shift c)
crc_shift-IsWord c h = rw (crc_shift-feed c h) (feed-IsWord c 0)

pub crc_shifts-IsWord : (n c : ℕ) → IsWord c → IsWord (crc_shifts n c)
unfolding crc_shifts
crc_shifts-IsWord zero c h = h
crc_shifts-IsWord (suc n) c h = crc_shifts-IsWord n (crc_shift c) (crc_shift-IsWord c h)

pub crc_shifts-xor :
    (n a b : ℕ)
    → IsWord a
    → IsWord b
    → crc_shifts n (bit_xor a b) ≡ bit_xor (crc_shifts n a) (crc_shifts n b)
unfolding crc_shifts
crc_shifts-xor zero a b ha hb = refl
crc_shifts-xor (suc n) a b ha hb =
    ap (crc_shifts n) (crc_shift-xor a b ha hb)
    ∙ crc_shifts-xor n _ _ (crc_shift-IsWord a ha) (crc_shift-IsWord b hb)
