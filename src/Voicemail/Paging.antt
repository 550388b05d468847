-- ===== src/Voicemail/Paging.antt =====
-- The pages of ocnserver/internal/voicemail/ogg.go, beside a reader of Ogg pages: the format that a
-- player reads.
use open_carrier_network.Prelude.{ℕ, zero, suc, ◌+◌, ◌-◌, ◌*◌, ◌/◌, ◌%◌, ◌^◌, ◌≤◌, ◌<◌}
use open_carrier_network.Prelude.{◌≡◌, ◌↔◌, refl, sym, ap, ◌∙◌, arith, false, ◌&&◌}
use open_carrier_network.Prelude.{[], ◌∷◌, ◌++◌, Option, none, some, ◌>>=◌, Text, length}
use open_carrier_network.Prelude.{
  take, drop, if◌then◌else◌, ◌==◌, nat_eq, text_eq, leb, leb→le, ltb, Bool-cases, inl, inr,
}
use mathlib.Core.List.{append_assoc}
use open_carrier_network.Prelude.{take_of_length, drop_of_length, length-append}
use open_carrier_network.Voicemail.Frames.{put_uint32}
use open_carrier_network.Voicemail.Ogg.{OggWriter, segments, segment_table, page_head, page_tail}
use open_carrier_network.Voicemail.Ogg.{write_page, crc32}
use open_carrier_network.Voicemail.Checksum.{crc32-IsWord}

-- What a reader learns of a page.
pub record Page : Type 0 where
  pub flags : ℕ
  pub granule : ℕ
  pub serial : ℕ
  pub seq : ℕ
  pub packet : Text

-- A number of so many bytes, the lowest first, and what follows it.
abbrev pub read_number : ℕ → Text → Option (ℕ × Text)
read_number zero bytes = some (0, bytes)
read_number (suc k) [] = none
read_number (suc k) (b ∷ bytes) = read_number k bytes >>= λ (n, rest). some (b + 256 * n, rest)

-- The length of the one packet that a segment table holds: segments of 255 bytes, and a last one that is
-- shorter and may be empty.
abbrev pub packet_length : Text → Option ℕ
packet_length [] = none
packet_length (s ∷ []) = if ltb s 255 then some s else none
packet_length (s ∷ t ∷ segs) =
    let rest = packet_length (t ∷ segs) in if s == 255 then (rest >>= λ n. some (255 + n)) else none

-- What follows the header of a page: the segment table and the packet, under a checksum of the whole.
abbrev pub read_body : Text → ℕ → (Text → Page) → Text → Option (Page × Text)
read_body head crc page bytes = do
  (count, table) ← read_number 1 bytes
  n ← packet_length (take count table)
  let rest = drop count table
  let blank = head ++ (0 ∷ 0 ∷ 0 ∷ 0 ∷ []) ++ take (suc (count + n)) bytes
  if (crc == crc32 blank) && leb n (length rest)
      then some (page (take n rest), drop n rest)
      else none

-- A page whose checksum is right, and what follows it.
abbrev pub read_page : Text → Option (Page × Text)
read_page bytes = do
  (magic, r0) ← read_number 4 bytes
  (version, r1) ← read_number 1 r0
  (flags, r2) ← read_number 1 r1
  (granule, r3) ← read_number 8 r2
  (serial, r4) ← read_number 4 r3
  (seq, r5) ← read_number 4 r4
  (crc, r6) ← read_number 4 r5
  let page : Text → Page = λ packet. record {
    flags = flags;
    granule = granule;
    serial = serial;
    seq = seq;
    packet = packet;
  }
  if (magic == 0x5367674f) && (version == 0) then read_body (take 22 bytes) crc page r6 else none

packet_length-full :
    (segs : Text) (n : ℕ)
    → packet_length segs ≡ some n
    → packet_length (255 ∷ segs) ≡ some (255 + n)
packet_length-full [] n e = cc
packet_length-full (t ∷ segs) n e = rw e refl

-- The terminating segment.
abbrev ending : ℕ → Text
ending n = if n % 255 == 0 then 0 ∷ [] else []

ending_less : (n : ℕ) → 255 ≤ n → ending n ≡ ending (n - 255)
ending_less n h =
    let same : n % 255 ≡ (n - 255) % 255 = omega arith in
    ap (λ (t : ℕ). if t == 0 then 0 ∷ [] else []) same

packet_length-segments :
    (fuel n : ℕ) → n ≤ fuel → packet_length (segments fuel n ++ ending n) ≡ some n
unfolding segments
packet_length-segments zero zero h = refl
packet_length-segments zero (suc n) h = absurd (omega arith)
packet_length-segments (suc fuel) n h = elim (Bool-cases (leb 255 n)) [
  | inl long ↦
      let positive : (n == 0) ≡ false = ground arith in
      let less : 255 + (n - 255) ≡ n = omega (arith, leb→le _ _ long) in
      rw (positive, long, ending_less n (leb→le _ _ long))
        (packet_length-full (segments fuel (n - 255) ++ ending (n - 255)) (n - 255)
            (packet_length-segments fuel (n - 255) (omega arith))
          ∙ ap some less)
  | inr short ↦ rw short (ground arith)
]

length-segments : (fuel n : ℕ) → n ≤ fuel → length (segments fuel n ++ ending n) ≡ n / 255 + 1
unfolding segments
length-segments zero zero h = refl
length-segments zero (suc n) h = absurd (omega arith)
length-segments (suc fuel) n h = elim (Bool-cases (leb 255 n)) [
  | inl long ↦
      let positive : (n == 0) ≡ false = ground arith in
      let less : (n - 255) / 255 + 1 ≡ n / 255 = omega (arith, leb→le _ _ long) in
      rw (positive, long, ending_less n (leb→le _ _ long))
        (omega (arith, length-segments fuel (n - 255) (omega arith)))
  | inr short ↦ rw short (ground arith)
]

-- The segment table of a packet of n bytes has n / 255 + 1 segments, and tells the length of the
-- packet.
pub segment_table_lem :
    (n : ℕ) → (length (segment_table n) ≡ n / 255 + 1) × (packet_length (segment_table n) ≡ some n)
unfolding segment_table
segment_table_lem n = (length-segments n n (omega arith), packet_length-segments n n (omega arith))

-- The bytes of a page with the given checksum.
abbrev pub page_bytes : OggWriter → ℕ → ℕ → Text → Text
page_bytes w flags granule packet =
    let head = page_head w flags granule in
    let tail = page_tail packet in
    head ++ put_uint32 (crc32 (head ++ (0 ∷ 0 ∷ 0 ∷ 0 ∷ []) ++ tail)) ++ tail

-- The page of a packet that fits.
abbrev pub page_of : OggWriter → ℕ → ℕ → Text → Page
page_of w flags granule packet = record {
  flags = flags;
  granule = granule;
  serial = w.serial;
  seq = w.seq;
  packet = packet;
}

length-table :
    (packet : Text) → length packet < 65025 → length (segment_table (length packet)) < 256
length-table packet h = omega (arith, segment_table_lem (length packet))

-- The part of a page behind the header, with whatever follows the page.
abbrev body : Text → Text → Text
body segs packet = (length segs % 256 ∷ []) ++ segs ++ packet

read_body-body :
    (head : Text) (crc : ℕ) (page : Text → Page) (segs packet rest : Text)
    → length segs < 256
    → packet_length segs ≡ some (length packet)
    → crc ≡ crc32 (head ++ (0 ∷ 0 ∷ 0 ∷ 0 ∷ []) ++ body segs packet)
    → read_body head crc page (body segs packet ++ rest) ≡ some (page packet, rest)
read_body-body head crc page segs packet rest h told e =
    rw
      (
        append_assoc segs packet rest,
        small,
        take_of_length segs (packet ++ rest),
        told,
        drop_of_length segs (packet ++ rest),
        whole,
        take_of_length packet rest,
        drop_of_length packet rest,
      )
      (ground (arith, e, length-append packet rest))
  where
    small : length segs % 256 + 256 * 0 ≡ length segs
    small = omega arith

    whole : take (length segs + length packet) (segs ++ (packet ++ rest)) ≡ segs ++ packet
    whole =
        rw (sym (append_assoc segs packet rest), sym (length-append segs packet))
          (take_of_length (segs ++ packet) rest)

pub read_page-page_bytes :
    (w : OggWriter) (flags granule : ℕ) (packet rest : Text)
    → granule < 2 ^ 64
    → w.serial < 2 ^ 32
    → w.seq < 2 ^ 32
    → length packet < 65025
    → read_page (page_bytes w flags granule packet ++ rest)
      ≡ some (page_of w flags granule packet, rest)
unfolding page_tail
read_page-page_bytes w flags granule packet rest hg hs hq h =
    rw (one flags, four w.serial hs, four w.seq hq, eight granule hg)
      (read_body-body (page_head w flags granule) _ (page_of w flags granule)
        (segment_table (length packet)) packet rest (length-table packet h)
        (segment_table_lem (length packet)).1
        (four _
          (crc32-IsWord (page_head w flags granule ++ (0 ∷ 0 ∷ 0 ∷ 0 ∷ []) ++ page_tail packet))))
  where
    one : (n : ℕ) → n + 256 * 0 ≡ n
    one n = omega arith

    four :
        (n : ℕ)
        → n < 2 ^ 32
        → n % 256
            + 256
              * (n / 256 % 256 + 256 * (n / 65536 % 256 + 256 * (n / 65536 / 256 % 256 + 256 * 0)))
          ≡ n
    four n h = omega arith

    eight :
        (n : ℕ)
        → n < 2 ^ 64
        → n % 256
            + 256
              * (n / 256 % 256
                  + 256
                    * (n / 65536 % 256
                        + 256
                          * (n / 65536 / 256 % 256
                              + 256
                                * (n / 4294967296 % 256
                                    + 256
                                      * (n / 4294967296 / 256 % 256
                                          + 256
                                            * (n / 4294967296 / 65536 % 256
                                                + 256
                                                  * (n / 4294967296 / 65536 / 256 % 256
                                                      + 256 * 0)))))))
          ≡ n
    eight n h = omega arith

table_fits : (n : ℕ) → n < 65025 → ltb 255 (length (segment_table n)) ≡ false
table_fits n h = ground (arith, segment_table_lem n)

-- The writer behind a page.
abbrev pub after_page : OggWriter → ℕ → ℕ → Text → OggWriter
after_page w flags granule packet = record w {
  buf = w.buf ++ page_bytes w flags granule packet;
  seq = (w.seq + 1) % 2 ^ 32;
}

abbrev pub IsPacket : Text → Type 0
IsPacket packet = (0 < length packet) × (length packet < 65025)

pub write_page-fits :
    (packet : Text) (flags granule : ℕ) (w : OggWriter)
    → IsPacket packet
    → write_page packet flags granule w ≡ some (after_page w flags granule packet)
unfolding write_page
write_page-fits [] flags granule w (h, k) = absurd (omega arith)
write_page-fits (b ∷ packet) flags granule w (h, k) = rw (table_fits (suc (length packet)) k) refl

-- A packet is refused exactly when it has 65025 bytes or more: its segment table does not fit a page.
pub write_page-refused :
    (packet : Text) (flags granule : ℕ) (w : OggWriter)
    → (write_page packet flags granule w ≡ none) ↔ (65025 ≤ length packet)
unfolding write_page
write_page-refused [] flags granule w = ground arith
write_page-refused (b ∷ packet) flags granule w =
    ground (arith, segment_table_lem (suc (length packet)))
