-- ===== src/Services/Speech.antt =====
-- ocnserver/internal/services/tts.go: the reader of the Ogg file that ffmpeg makes, and the cache of the
-- phrases that were spoken. serializeFrames and deserializeFrames are the code of voicemail/ogg.go once
-- more, and stand in Voicemail/Frames.
use open_carrier_network.Prelude.{
  ℕ, zero, suc, ◌+◌, ◌*◌, ◌%◌, ◌^◌, Bool, false, not, ◌&&◌, Option, none, some, List, [], ◌∷◌, ◌++◌,
  Text, codes, ◌==◌, nat_eq, text_eq, if◌then◌else◌, ltb, leb, length, take, drop,
}
use open_carrier_network.Prelude.Table.{Table, lookup, insert}
use open_carrier_network.Voicemail.Frames.{serialize_frames, deserialize_frames}

-- What parseOggOpus returns; `unfinished` stands for a loop that is out of fuel.
pub data Parsed : Type 0 where
  unfinished : Parsed
  invalid : Parsed
  parsed : List Text → Parsed

-- A packet that is kept.
unfoldable pub is_frame : Text → Bool
is_frame packet =
    let eight = leb 8 (length packet) in
    if eight && (take 8 packet == codes "OpusHead")
    then false
    else (if eight && (take 8 packet == codes "OpusTag") then false else ltb 0 (length packet))

-- The loop over the segments: packetLen, and what the page holds from packetStart on.
unfoldable pub take_packets : List ℕ → ℕ → Text → List Text
take_packets [] packet_len body = []
take_packets (seg_len ∷ segs) packet_len body =
    let longer = take_packets segs (packet_len + seg_len) body in
    let next = take_packets segs 0 (drop (packet_len + seg_len) body) in
    let packet = take (packet_len + seg_len) body in
    if not (ltb seg_len 255)
    then longer
    else (if leb (packet_len + seg_len) (length body) && is_frame packet
        then packet ∷ next
        else next)

abbrev pub page_data_size : List ℕ → ℕ
page_data_size [] = 0
page_data_size (s ∷ segs) = s + page_data_size segs

abbrev pub with_frames : List Text → Parsed → Parsed
with_frames packets unfinished = unfinished
with_frames packets invalid = invalid
with_frames packets (parsed frames) = parsed (packets ++ frames)

-- The loop over the pages, on what is left of the data from the offset on.
unfoldable pub parse_loop : ℕ → Text → Parsed
parse_loop zero bytes = unfinished
parse_loop (suc fuel) bytes = elim (drop 26 bytes) [
  | [] ↦ parsed []
  | num_segments ∷ rest ↦
      let seg_table = take num_segments rest in
      let page = drop num_segments rest in
      let size = page_data_size seg_table in
      let packets = take_packets seg_table 0 (take size page) in
      if not (take 4 bytes == codes "OggS")
      then invalid
      else (if ltb (length rest) num_segments
          then parsed []
          else (if ltb (length page) size
              then parsed []
              else with_frames packets (parse_loop fuel (drop size page))))
]

unfoldable pub parse_ogg_opus : Text → Parsed
parse_ogg_opus bytes = parse_loop (suc (length bytes)) bytes

-- A continuation byte of UTF-8, and the range of the second byte behind each first byte.
abbrev pub is_within : ℕ → ℕ → ℕ → Bool
is_within low high b = leb low b && leb b high

abbrev pub second_ok : ℕ → ℕ → Bool
second_ok first b =
    if first == 0xe0
    then is_within 0xa0 0xbf b
    else if first == 0xed
    then is_within 0x80 0x9f b
    else if first == 0xf0
    then is_within 0x90 0xbf b
    else if first == 0xf4
    then is_within 0x80 0x8f b
    else is_within 0x80 0xbf b

-- The rune at the start of a string with the given first byte, and the bytes behind the first that
-- belong to it: a range loop yields U+FFFD for a byte that starts no rune.
abbrev pub two_bytes : ℕ → Text → ℕ × ℕ
two_bytes a (b ∷ _) = if second_ok a b then ((a % 32) * 64 + b % 64, 1) else (0xfffd, 0)
two_bytes a _ = (0xfffd, 0)

abbrev pub three_bytes : ℕ → Text → ℕ × ℕ
three_bytes a (b ∷ c ∷ _) =
    if second_ok a b && is_within 0x80 0xbf c
    then ((a % 16) * 4096 + (b % 64) * 64 + c % 64, 2)
    else (0xfffd, 0)
three_bytes a _ = (0xfffd, 0)

abbrev pub four_bytes : ℕ → Text → ℕ × ℕ
four_bytes a (b ∷ c ∷ d ∷ _) =
    if second_ok a b && is_within 0x80 0xbf c && is_within 0x80 0xbf d
    then ((a % 8) * 262144 + (b % 64) * 4096 + (c % 64) * 64 + d % 64, 3)
    else (0xfffd, 0)
four_bytes a _ = (0xfffd, 0)

abbrev pub decode_rune : ℕ → Text → ℕ × ℕ
decode_rune a rest =
    if ltb a 0x80
    then (a, 0)
    else if is_within 0xc2 0xdf a
    then two_bytes a rest
    else if is_within 0xe0 0xef a
    then three_bytes a rest
    else if is_within 0xf0 0xf4 a
    then four_bytes a rest
    else (0xfffd, 0)

-- The runes that a range loop over a string visits, `skip` bytes being those of the last rune still.
unfoldable pub runes : ℕ → Text → List ℕ
runes skip [] = []
runes zero (b ∷ rest) = let (r, more) = decode_rune b rest in r ∷ runes more rest
runes (suc skip) (b ∷ rest) = runes skip rest

-- hashText: the loop over the runes, from the value that `h` has.
unfoldable pub hash_loop : ℕ → List ℕ → ℕ
hash_loop h [] = h
hash_loop h (c ∷ rest) = hash_loop ((h * 31 + c) % 2 ^ 32) rest

unfoldable pub hash_text : Text → ℕ
hash_text text = hash_loop 0 (runes 0 text)

-- The frames of a file of the cache, whose name is the hash; none where there is no such file.
unfoldable pub cached_frames : ℕ → Table ℕ Text → List Text
cached_frames hash cache = elim (lookup hash cache) [
  | none ↦ []
  | some bytes ↦ elim (deserialize_frames bytes) [ none ↦ [] | some frames ↦ frames ]
]

-- The frames of the file that ffmpeg made, and the cache after them; WriteFile may fail.
unfoldable pub keep_frames : Bool → ℕ → Table ℕ Text → Parsed → Option (List Text) × Table ℕ Text
keep_frames saves hash cache (parsed frames) =
    (some frames, if saves then insert hash (serialize_frames frames) cache else cache)
keep_frames saves hash cache _ = (none, cache)

-- GenerateOpusFrames: `speak` is espeak and ffmpeg, and `none` its error.
unfoldable pub generate_opus_frames :
    (Text → Option Text) → Bool → Text → Table ℕ Text → Option (List Text) × Table ℕ Text
generate_opus_frames speak saves text cache = elim (cached_frames (hash_text text) cache) [
  | f ∷ fs ↦ (some (f ∷ fs), cache)
  | [] ↦ elim (speak text) [
    | none ↦ (none, cache)
    | some ogg ↦ keep_frames saves (hash_text text) cache (parse_ogg_opus ogg)
  ]
]
