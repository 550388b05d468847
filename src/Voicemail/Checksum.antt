-- ===== src/Voicemail/Checksum.antt =====
-- The checksum of a page, ocnserver/internal/voicemail/ogg.go: crcTable and crc32, beside the shift
-- register that the Ogg format describes.
use Prim.Native.Nat.{bit_xor}
use open_carrier_network.Prelude.{ℕ, zero, suc, ◌+◌, ◌*◌, ◌/◌, ◌%◌, ◌^◌, ◌<◌}
use open_carrier_network.Prelude.{◌≡◌, refl, sym, ap, ◌∙◌, arith}
use open_carrier_network.Prelude.{List, [], ◌∷◌, ◌++◌, nat_eq, Text, leb, if-by}
use open_carrier_network.Voicemail.Ogg.{crc_shift, crc_shifts, crc_table, crc_loop, crc32}
use open_carrier_network.Voicemail.Xor.{bit_xor_bound, bit_xor_comm, bit_xor_assoc, bit_xor_zero}
use open_carrier_network.Voicemail.Xor.{bit_xor_fields}
use open_carrier_network.Voicemail.Packing.{AreBytes}
use open_carrier_network.Voicemail.Words.{IsWord, feed, bound, crc_shift-feed}
use open_carrier_network.Voicemail.Words.{feed-bit, feed-IsWord}
use open_carrier_network.Voicemail.Words.{
  crc_shift-xor, crc_shift-IsWord, crc_shifts-IsWord, crc_shifts-xor,
}

abbrev pub shift_register : ℕ → List ℕ → ℕ
shift_register c [] = c
shift_register c (bit ∷ bits) = shift_register (feed c bit) bits

-- The bits of the bytes, the highest of each first.
abbrev pub bits_of : Text → List ℕ
bits_of [] = []
bits_of (b ∷ bytes) =
    (b / 128 % 2)
    ∷ (b / 64 % 2)
    ∷ (b / 32 % 2)
    ∷ (b / 16 % 2)
    ∷ (b / 8 % 2)
    ∷ (b / 4 % 2)
    ∷ (b / 2 % 2)
    ∷ (b % 2)
    ∷ bits_of bytes

-- A shift of a word that a 1 does not fall out of.
crc_shift-low : (c : ℕ) → c < 2 ^ 31 → crc_shift c ≡ c * 2
unfolding crc_shift
crc_shift-low c h = ground arith

crc_shifts-low : (lo : ℕ) → lo < 2 ^ 24 → crc_shifts 8 lo ≡ lo * 2 ^ 8
unfolding crc_shifts
crc_shifts-low lo h =
    rw
      (
        crc_shift-low lo (omega arith),
        crc_shift-low (lo * 2) (omega arith),
        crc_shift-low (lo * 2 * 2) (omega arith),
        crc_shift-low (lo * 2 * 2 * 2) (omega arith),
        crc_shift-low (lo * 2 * 2 * 2 * 2) (omega arith),
        crc_shift-low (lo * 2 * 2 * 2 * 2 * 2) (omega arith),
        crc_shift-low (lo * 2 * 2 * 2 * 2 * 2 * 2) (omega arith),
        crc_shift-low (lo * 2 * 2 * 2 * 2 * 2 * 2 * 2) (omega arith),
      )
      (omega arith)

-- A byte meets the top of a word only.
meet_top :
    (hi lo b : ℕ)
    → hi < 256
    → b < 256
    → lo < 2 ^ 24
    → bit_xor (hi * 2 ^ 24 + lo) (b * 2 ^ 24) ≡ bit_xor (bit_xor hi b * 2 ^ 24) lo
meet_top hi lo b h k l = omega (
  arith,
  bit_xor_fields 24 hi lo b 0 l (omega arith),
  bit_xor_fields 24 (bit_xor hi b) 0 0 lo (omega arith) l,
  bit_xor_zero 24 lo l,
  bit_xor_comm 24 0 lo (omega arith) l,
  bit_xor_zero 8 (bit_xor hi b) (bit_xor_bound 8 hi b h k),
  ap (λ (t : ℕ). bit_xor (hi * 2 ^ 24 + lo) t) (same (b * 2 ^ 24)),
  ap (λ (t : ℕ). bit_xor t lo) (same (bit_xor hi b * 2 ^ 24)),
  ap (λ (t : ℕ). bit_xor (bit_xor hi b * 2 ^ 24 + 0) t) none_above,
)
  where
    same : (t : ℕ) → t + 0 ≡ t
    same t = omega arith

    none_above : 0 * 2 ^ 24 + lo ≡ lo
    none_above = omega arith

-- One round of the loop, without the table.
crc_round :
    (hi lo b : ℕ)
    → hi < 256
    → lo < 2 ^ 24
    → b < 256
    → bit_xor (lo * 2 ^ 8) (crc_table (bit_xor hi b))
      ≡ crc_shifts 8 (bit_xor (hi * 2 ^ 24 + lo) (b * 2 ^ 24))
unfolding crc_table
crc_round hi lo b h l k =
    let small : bit_xor hi b < 256 = bit_xor_bound 8 hi b h k in
    let top : IsWord (bit_xor hi b * 2 ^ 24) = omega arith in
    sym (
      ap (crc_shifts 8) (meet_top hi lo b h k l)
      ∙ crc_shifts-xor 8 (bit_xor hi b * 2 ^ 24) lo top (omega arith)
      ∙ bit_xor_comm 32 _ _ (crc_shifts-IsWord 8 _ top) (crc_shifts-IsWord 8 lo (omega arith))
      ∙ ap (λ t. bit_xor t (crc_shifts 8 (bit_xor hi b * 2 ^ 24))) (crc_shifts-low lo l))

-- A word that goes into the register from the top, bit by bit, and what is left of it.
crc_shift-feed_word :
    (c t : ℕ)
    → IsWord c
    → IsWord t
    → crc_shift (bit_xor c t) ≡ bit_xor (feed c (t / 2 ^ 31)) (t * 2 % 2 ^ 32)
crc_shift-feed_word c t h k =
    crc_shift-xor c t h k
    ∙ ap (bit_xor (crc_shift c))
        (crc_shift-feed t k ∙ bit_xor_comm 32 (t * 2 % 2 ^ 32) _ (omega arith) (omega arith))
    ∙ sym (bit_xor_assoc 32 (crc_shift c) _ _ (crc_shift-IsWord c h) (omega arith) (omega arith))
    ∙ ap (λ s. bit_xor (bit_xor (crc_shift c) s) (t * 2 % 2 ^ 32)) top
    ∙ ap (λ s. bit_xor s (t * 2 % 2 ^ 32)) (sym (feed-bit c (t / 2 ^ 31) h (omega arith)))
  where
    top : (t / 2 ^ 31 + 0) % 2 * 0x04c11db7 ≡ t / 2 ^ 31 * 0x04c11db7
    top = omega arith

-- The highest bits of a word, as many as the first number says, and the word shifted by as many.
top_bits_of : ℕ → ℕ → List ℕ
top_bits_of zero t = []
top_bits_of (suc n) t = (t / 2 ^ 31) ∷ top_bits_of n (t * 2 % 2 ^ 32)

shifted : ℕ → ℕ → ℕ
shifted zero t = t
shifted (suc n) t = shifted n (t * 2 % 2 ^ 32)

crc_shifts-shift_register :
    (n c t : ℕ)
    → IsWord c
    → IsWord t
    → crc_shifts n (bit_xor c t) ≡ bit_xor (shift_register c (top_bits_of n t)) (shifted n t)
unfolding crc_shifts top_bits_of shifted
crc_shifts-shift_register zero c t h k = refl
crc_shifts-shift_register (suc n) c t h k =
    ap (crc_shifts n) (crc_shift-feed_word c t h k)
    ∙ crc_shifts-shift_register n (feed c (t / 2 ^ 31)) (t * 2 % 2 ^ 32)
        (feed-IsWord c (t / 2 ^ 31)) (omega arith)

shift_register-IsWord : (c : ℕ) (bits : List ℕ) → IsWord c → IsWord (shift_register c bits)
shift_register-IsWord c [] h = h
shift_register-IsWord c (bit ∷ bits) h = shift_register-IsWord (feed c bit) bits (feed-IsWord c bit)

top_bits_of-byte : (b : ℕ) → b < 256 → top_bits_of 8 (b * 2 ^ 24) ≡ bits_of (b ∷ [])
unfolding top_bits_of
top_bits_of-byte b h = ground arith

shifted-byte : (b : ℕ) → b < 256 → shifted 8 (b * 2 ^ 24) ≡ 0
unfolding shifted
shifted-byte b h = omega arith

shift_register-append :
    (c : ℕ) (xs ys : List ℕ) → shift_register c (xs ++ ys) ≡ shift_register (shift_register c xs) ys
shift_register-append c [] ys = refl
shift_register-append c (x ∷ xs) ys = shift_register-append (feed c x) xs ys

crc_byte :
    (c b : ℕ)
    → IsWord c
    → b < 256
    → bit_xor (c * 2 ^ 8 % 2 ^ 32) (crc_table (bit_xor (c / 2 ^ 24) b))
      ≡ shift_register c (bits_of (b ∷ []))
crc_byte c b h k =
    ap (λ t. bit_xor t (crc_table (bit_xor (c / 2 ^ 24) b))) low
    ∙ crc_round (c / 2 ^ 24) (c % 2 ^ 24) b (omega arith) (omega arith) k
    ∙ ap (λ t. crc_shifts 8 (bit_xor t (b * 2 ^ 24))) whole
    ∙ crc_shifts-shift_register 8 c (b * 2 ^ 24) h (omega arith)
    ∙ rw (top_bits_of-byte b k, shifted-byte b k)
        (bit_xor_zero 32 _ (shift_register-IsWord c (bits_of (b ∷ [])) h))
  where
    low : c * 2 ^ 8 % 2 ^ 32 ≡ c % 2 ^ 24 * 2 ^ 8
    low = omega arith

    whole : c / 2 ^ 24 * 2 ^ 24 + c % 2 ^ 24 ≡ c
    whole = omega arith

crc_loop-shift_register :
    (bytes : Text) (c : ℕ)
    → IsWord c
    → AreBytes bytes
    → crc_loop c bytes ≡ shift_register c (bits_of bytes)
unfolding crc_loop
crc_loop-shift_register [] c h k = refl
crc_loop-shift_register (b ∷ bytes) c h (k, ks) =
    ap (λ t. crc_loop t bytes) (crc_byte c b h k)
    ∙ crc_loop-shift_register bytes _ (shift_register-IsWord c (bits_of (b ∷ [])) h) ks

-- The checksum by the table is what the shift register holds that starts at zero, takes in the bits of
-- the data one by one, the highest of each byte first, and adds the polynomial 0x04c11db7 whenever
-- the bit that falls out and the bit that comes in differ. The data is a list of bytes.
pub crc32-shift_register :
    (bytes : Text) → AreBytes bytes → crc32 bytes ≡ shift_register 0 (bits_of bytes)
unfolding crc32
crc32-shift_register bytes h = crc_loop-shift_register bytes 0 (omega arith) h

shift-IsWord : (c : ℕ) → IsWord (crc_shift c)
unfolding crc_shift
shift-IsWord c =
    if-by IsWord (leb 0x80000000 c) _ _ (bound _ _ (omega arith) (omega arith)) (omega arith)

crc_table-IsWord : (i : ℕ) → IsWord (crc_table i)
unfolding crc_table crc_shifts
crc_table-IsWord i = shift-IsWord _

crc_loop-IsWord : (bytes : Text) (c : ℕ) → IsWord c → IsWord (crc_loop c bytes)
unfolding crc_loop
crc_loop-IsWord [] c h = h
crc_loop-IsWord (b ∷ bytes) c h =
    crc_loop-IsWord bytes _ (bound _ _ (omega arith) (crc_table-IsWord _))

pub crc32-IsWord : (bytes : Text) → crc32 bytes < 2 ^ 32
unfolding crc32
crc32-IsWord bytes = crc_loop-IsWord bytes 0 (omega arith)
