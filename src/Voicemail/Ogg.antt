-- ===== src/Voicemail/Ogg.antt =====
-- ocnserver/internal/voicemail/ogg.go: BuildOgg, the pages of an Ogg/Opus file and their checksum.
use Prim.Native.Nat.{bit_xor}
use open_carrier_network.Prelude.{ℕ, zero, suc, ◌+◌, ◌-◌, ◌*◌, ◌/◌, ◌%◌, ◌^◌}
use open_carrier_network.Prelude.{Option, none, some, List, [], ◌∷◌, ◌++◌}
use open_carrier_network.Prelude.{leb, ltb, if◌then◌else◌, Text, codes, length}
use open_carrier_network.Prelude.{◌==◌, nat_eq, ◌>>=◌}
use open_carrier_network.Voicemail.Frames.{put_uint16, put_uint32, put_uint64}

abbrev pub frame_sample_rate : ℕ
frame_sample_rate = 48000

abbrev pub frame_channels : ℕ
frame_channels = 1

abbrev pub frame_size : ℕ
frame_size = 960

abbrev pub frame_ms : ℕ
frame_ms = 20

-- The segment table of a packet: the loop over the bytes that remain, on fuel, and the terminating
-- segment behind an exact multiple of 255.
unfoldable pub segments : ℕ → ℕ → Text
segments zero rem = []
segments (suc fuel) rem =
    let more = segments fuel (rem - 255) in
    if rem == 0 then [] else (if leb 255 rem then 255 ∷ more else rem ∷ [])

unfoldable pub segment_table : ℕ → Text
segment_table n = segments n n ++ (if n % 255 == 0 then 0 ∷ [] else [])

-- crcTable: the eight shifts of the inner loop, on 32-bit words, and the entry of a byte.
unfoldable pub crc_shift : ℕ → ℕ
crc_shift c = if leb 0x80000000 c then bit_xor (c * 2 % 2 ^ 32) 0x04c11db7 else c * 2 % 2 ^ 32

unfoldable pub crc_shifts : ℕ → ℕ → ℕ
crc_shifts zero c = c
crc_shifts (suc n) c = crc_shifts n (crc_shift c)

unfoldable pub crc_table : ℕ → ℕ
crc_table i = crc_shifts 8 (i * 2 ^ 24)

-- The loop over the bytes of the data, from the value that `c` has.
unfoldable pub crc_loop : ℕ → Text → ℕ
crc_loop c [] = c
crc_loop c (b ∷ bytes) =
    crc_loop (bit_xor (c * 2 ^ 8 % 2 ^ 32) (crc_table (bit_xor (c / 2 ^ 24) b))) bytes

unfoldable pub crc32 : Text → ℕ
crc32 bytes = crc_loop 0 bytes

pub record OggWriter : Type 0 where
  pub buf : Text
  pub serial : ℕ
  pub seq : ℕ

-- A page but for its checksum, which stands between the two parts.
abbrev pub page_head : OggWriter → ℕ → ℕ → Text
page_head w flags granule =
    codes "OggS"
    ++ (0 ∷ flags ∷ [])
    ++ put_uint64 granule
    ++ put_uint32 w.serial
    ++ put_uint32 w.seq

unfoldable pub page_tail : Text → Text
page_tail packet =
    let segs = segment_table (length packet) in (length segs % 256 ∷ []) ++ segs ++ packet

unfoldable pub write_page : Text → ℕ → ℕ → OggWriter → Option OggWriter
write_page [] flags granule w = some w
write_page packet flags granule w =
    let head = page_head w flags granule in
    let tail = page_tail packet in
    let crc = crc32 (head ++ (0 ∷ 0 ∷ 0 ∷ 0 ∷ []) ++ tail) in
    if ltb 255 (length (segment_table (length packet)))
    then none
    else some
        (record w { buf = w.buf ++ (head ++ put_uint32 crc ++ tail); seq = (w.seq + 1) % 2 ^ 32 })

-- OpusHead: version, channels, preskip, input rate, output gain, mapping family.
abbrev pub id_header : Text
id_header =
    codes "OpusHead"
    ++ (1 ∷ frame_channels ∷ [])
    ++ put_uint16 0
    ++ put_uint32 frame_sample_rate
    ++ put_uint16 0
    ++ (0 ∷ [])

abbrev pub comment_header : Text
comment_header = codes "OpusTags" ++ put_uint32 3 ++ codes "OCN" ++ (0 ∷ 0 ∷ 0 ∷ 0 ∷ [])

-- The loop over the frames from the i-th on: one page for each.
unfoldable pub write_frames : ℕ → List Text → OggWriter → Option OggWriter
write_frames i [] w = some w
write_frames i (f ∷ fs) w =
    let flags = if length fs == 0 then 4 else 0 in
    elim (write_page f flags ((i + 1) * frame_size % 2 ^ 64) w) [
      | none ↦ none
      | some v ↦ write_frames (i + 1) fs v
    ]

abbrev pub ogg_writer : OggWriter
ogg_writer = record { buf = []; serial = 0x4f434e31; seq = 0 }

-- `none` is the error of writePage.
unfoldable pub build_ogg : List Text → Option Text
build_ogg frames = do
  headed ← write_page id_header 2 0 ogg_writer
  tagged ← write_page comment_header 0 0 headed
  written ← write_frames 0 frames tagged
  some written.buf
