-- ===== src/Voicemail/Tests.antt =====
-- Runs of the code of ocnserver/internal/voicemail on small messages.
use open_carrier_network.Prelude.{
  ℕ, ◌+◌, ◌*◌, drop, ◌≡◌, refl, arith, Option, none, some, List, [], ◌∷◌, Text,
}
use open_carrier_network.Prelude.{codes}
use open_carrier_network.Voicemail.Frames.{deserialize_loop, deserialize_frames}
use open_carrier_network.Voicemail.Ogg.{segments, segment_table, crc_shift, crc_shifts, crc_table}
use open_carrier_network.Voicemail.Ogg.{crc_loop, crc32, build_ogg}
use open_carrier_network.Voicemail.Ogg.{id_header, comment_header}
use open_carrier_network.Voicemail.Packing.{deserialize_frames-IsRead}
use open_carrier_network.Voicemail.Packing.{IsRead}
use open_carrier_network.Voicemail.Checksum.{crc32-shift_register, shift_register, bits_of}
use open_carrier_network.Prelude.{true}
use open_carrier_network.Voicemail.Recorder.{
  kept_frames, Turn, packet, hung_up, record_loop, max_frames,
}
use open_carrier_network.Voicemail.Recorder.{
  max_duration, trim_silence, trim_loop, is_silent, peak_of,
}
use open_carrier_network.Voicemail.Manager.{Crypt, Manager, store_message}
use open_carrier_network.Voicemail.Recall.{IsReversible, left_of}
use open_carrier_network.Voicemail.Delivery.{IsRecalled, playback-store_message}
use open_carrier_network.Voicemail.Playback.{
  build_ogg-IsPlayable, IsPlayable, file_page, frame_pages,
}

-- A sealing for the runs, which is undone by taking its mark off.
abbrev plain_crypt : Crypt
plain_crypt = record {
  derive_key = λ master number. master;
  encrypt = λ key message. some (1 ∷ message);
  decrypt = λ key blob. some (drop 1 blob);
  encode = λ key. 1 ∷ key;
  decode = λ text. some (drop 1 text);
}

plain_crypt-IsReversible : IsReversible plain_crypt
plain_crypt-IsReversible = (λ key message blob e. ground arith, λ key. refl)

abbrev empty_manager : Manager
empty_manager = record {
  db = record { users = []; tokens = []; dm_outbox = []; voicemail = [] };
  settings = [];
  master = none;
}

-- Frames sound by their first byte.
abbrev sound_of : ℕ → Text → Option (List ℕ) × ℕ
sound_of n [] = (none, n + 1)
sound_of n (b ∷ f) = (some (b * 100 ∷ []), n + 1)

abbrev some_turns : List Turn
some_turns =
    packet 111 (7 ∷ 1 ∷ [])
    ∷ packet 0 (9 ∷ [])
    ∷ packet 111 (65 ∷ [])
    ∷ packet 111 (1 ∷ [])
    ∷ hung_up
    ∷ []

-- The loop takes the packets of kind 111, and the last frame is silent.
trimmed :
    trim_silence sound_of 0 (record_loop (max_frames 0) some_turns []).0
    ≡ (7 ∷ 1 ∷ []) ∷ (65 ∷ []) ∷ []
unfolding trim_silence trim_loop is_silent peak_of record_loop max_frames max_duration
trimmed = refl

playback-store_message_example :
    IsRecalled plain_crypt "m1"
      (codes "5550100")
      (some (5 ∷ []))
      none
      true
      (left_of sound_of (some 0) (record_loop (max_frames 0) some_turns []).0)
      empty_manager
      (store_message plain_crypt
        (some (5 ∷ []))
        true
        "m1"
        9
        (codes "5550100")
        (codes "5550101")
        (codes "Jo")
        (kept_frames sound_of (some 0) (record_loop (max_frames 0) some_turns []).0)
        empty_manager)
playback-store_message_example =
    playback-store_message sound_of (some 0) plain_crypt "m1" (codes "5550100") (some (5 ∷ [])) none
      true 0 9 (codes "5550101") (codes "Jo") some_turns empty_manager plain_crypt-IsReversible refl
      tt (ground arith)

abbrev two_frames : List Text
two_frames = (7 ∷ 8 ∷ 9 ∷ []) ∷ (1 ∷ []) ∷ []

-- A frame of three bytes, and a length that promises more than there is.
abbrev cut_short : Text
cut_short = 2 ∷ 0 ∷ 0 ∷ 0 ∷ 7 ∷ 8 ∷ 9 ∷ 0 ∷ 0 ∷ 0 ∷ 1 ∷ []

read_cut_short : deserialize_frames cut_short ≡ some ((7 ∷ 8 ∷ []) ∷ [])
unfolding deserialize_frames deserialize_loop
read_cut_short = refl

-- The check value of this checksum, for the digits 1 to 9.
crc32_check : crc32 (codes "123456789") ≡ 0x89a1897f
unfolding crc32 crc_loop crc_table crc_shifts crc_shift
crc32_check = refl

table_of_255 : segment_table 255 ≡ 255 ∷ 0 ∷ []
unfolding segment_table segments
table_of_255 = refl

deserialize_frames-IsRead_example : IsRead cut_short (deserialize_frames cut_short)
deserialize_frames-IsRead_example = deserialize_frames-IsRead cut_short (ground arith)

crc32-shift_register_example : crc32 (codes "OggS") ≡ shift_register 0 (bits_of (codes "OggS"))
crc32-shift_register_example = crc32-shift_register (codes "OggS") (ground arith)

build_ogg-IsPlayable_example :
    IsPlayable
      (file_page 2 0 0 id_header ∷ file_page 0 0 1 comment_header ∷ frame_pages 0 two_frames)
      (build_ogg two_frames)
build_ogg-IsPlayable_example =
    build_ogg-IsPlayable two_frames ((omega arith, omega arith), ((omega arith, omega arith), tt))
