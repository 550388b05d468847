-- ===== src/Services/Tests.antt =====
-- Runs of the mixer of ocnserver/internal/services/conference.go on a small room.
use open_carrier_network.Prelude.{◌≡◌, refl, arith, none, some, [], ◌∷◌, true, false}
use open_carrier_network.Services.Conference.{
  Conference, mix_frame, silence, mix_for, active_parts, frames_of, mixer_tick, conference_call,
  activate,
}
use open_carrier_network.Prelude.Table.{lookup, insert}
use open_carrier_network.Services.Mixing.{AreFrames, AreHeard, mixes, mixer_tick-mixes}
use mathlib.Core.Option.{map as map_option}
use open_carrier_network.Prelude.{Text, codes, text_beq, ◌++◌}
use open_carrier_network.Prelude.Table.{delete}
use open_carrier_network.Voicemail.Ogg.{build_ogg, comment_header}
use open_carrier_network.Services.Echo.{
  spoken_number, spoken_loop, trim_right, set_caller, echo_call, end_call,
  new_number_announce_service,
}
use open_carrier_network.Services.Speech.{
  parsed, parse_ogg_opus, parse_loop, take_packets, is_frame, hash_text, hash_loop, runes,
  generate_opus_frames, cached_frames, keep_frames,
}
use open_carrier_network.Prelude.{◌≢◌}
use open_carrier_network.Services.Speech.{unfinished}
use open_carrier_network.Services.Totality.{parse_ogg_opus-finishes}
use open_carrier_network.Services.Spoken.{frames_in, parse_ogg_opus-build_ogg}
use open_carrier_network.Services.Cached.{generate_opus_frames-again}

-- Three participants who speak, one of them too loud, and one who is still being welcomed.
abbrev loud_room : Conference
loud_room = record {
  parts =
      ("a", record { active = true; frame = some (65535 ∷ 32770 ∷ []) })
      ∷ ("b", record { active = true; frame = some (40000 ∷ 32760 ∷ []) })
      ∷ ("c", record { active = false; frame = some (1 ∷ 2 ∷ []) })
      ∷ ("d", record { active = true; frame = none })
      ∷ [];
  seq = 65535;
  ts = 0;
  started = true;
}

mixed_for_listener :
    mix_for 2 0 (frames_of (active_parts loud_room.parts)) (silence 3, false)
    ≡ (65535 ∷ 32762 ∷ 32768 ∷ [], true)
unfolding mix_for active_parts silence mix_frame
mixed_for_listener = refl

mixed_for_alone : mix_for 0 0 (some (1 ∷ []) ∷ none ∷ []) (silence 1, false) ≡ (32768 ∷ [], false)
unfolding mix_for silence
mixed_for_alone = refl

joined_and_welcomed :
    (activate "x"
      (conference_call true "x" (record { parts = []; seq = 0; ts = 0; started = false })).0).parts
    ≡ ("x", record { active = true; frame = none }) ∷ []
unfolding activate conference_call lookup insert
joined_and_welcomed = refl

mixer_tick-mixes_example :
    ((mixer_tick loud_room).0
      ≡ mixes 0 (active_parts loud_room.parts) (frames_of (active_parts loud_room.parts)))
    × AreHeard (mixer_tick loud_room).0
unfolding active_parts
mixer_tick-mixes_example = mixer_tick-mixes loud_room loud_frames
  where
    loud_frames : AreFrames (frames_of (active_parts loud_room.parts))
    loud_frames = ((omega arith, (omega arith, tt)), ((omega arith, (omega arith, tt)), tt))

-- A space stands before each comma, unlike in the comment on spokenNumber.
spoken_number_run : spoken_number (codes "440-952-2575") ≡ codes "4 4 0 , 9 5 2 , 2 5 7 5"
unfolding spoken_number spoken_loop trim_right text_beq runes
spoken_number_run = refl

-- The number of a caller whose call could not be set up stays behind when the call is ended.
caller_left_behind :
    (end_call "x"
      (echo_call false "x" (set_caller "x" (codes "9522575") new_number_announce_service)).0).caller
    ≡ ("x", codes "9522575") ∷ []
unfolding end_call echo_call set_caller lookup insert delete
caller_left_behind = refl

-- Two phrases with one file in the cache.
same_hash : hash_text (codes "BB") ≡ hash_text (codes "Aa")
unfolding hash_text hash_loop runes
same_hash = refl

-- A file of one page with one packet of two bytes.
abbrev tiny_ogg : Text
tiny_ogg =
    codes "OggS"
    ++ (0 ∷ 0 ∷ 0 ∷ 0 ∷ 0 ∷ 0 ∷ 0 ∷ 0 ∷ 0 ∷ 0 ∷ 0 ∷ 0 ∷ 0 ∷ 0 ∷ 0 ∷ 0 ∷ 0 ∷ 0 ∷ 0 ∷ 0 ∷ 0 ∷ 0 ∷ [])
    ++ (1 ∷ 2 ∷ 7 ∷ 8 ∷ [])

parse_ogg_opus_run : parse_ogg_opus tiny_ogg ≡ parsed ((7 ∷ 8 ∷ []) ∷ [])
unfolding parse_ogg_opus parse_loop take_packets is_frame text_beq
parse_ogg_opus_run = refl

parse_ogg_opus-build_ogg_example :
    map_option parse_ogg_opus (build_ogg ((1 ∷ 2 ∷ []) ∷ (codes "OpusHead") ∷ (3 ∷ []) ∷ []))
    ≡ some (parsed (comment_header ∷ frames_in ((1 ∷ 2 ∷ []) ∷ (codes "OpusHead") ∷ (3 ∷ []) ∷ [])))
parse_ogg_opus-build_ogg_example =
    parse_ogg_opus-build_ogg ((1 ∷ 2 ∷ []) ∷ (codes "OpusHead") ∷ (3 ∷ []) ∷ [])
      ((omega arith, omega arith), ((omega arith, omega arith), ((omega arith, omega arith), tt)))

generate_opus_frames-again_example :
    let spoken = (generate_opus_frames (λ text. some tiny_ogg) true (codes "Aa") []).1 in
    generate_opus_frames (λ text. none) false (codes "BB") spoken
    ≡ (some ((7 ∷ 8 ∷ []) ∷ []), spoken)
unfolding generate_opus_frames cached_frames keep_frames parse_ogg_opus parse_loop take_packets
    is_frame text_beq lookup
generate_opus_frames-again_example =
    generate_opus_frames-again (λ text. some tiny_ogg) (λ text. none) false (codes "Aa")
      (codes "BB") [] (7 ∷ 8 ∷ []) [] (omega arith, tt) same_hash refl

-- The runes of a text with ü, € and 😀, and of a byte that starts no rune.
runes_run :
    runes 0 (0x61 ∷ 0xc3 ∷ 0xbc ∷ 0xe2 ∷ 0x82 ∷ 0xac ∷ 0xf0 ∷ 0x9f ∷ 0x98 ∷ 0x80 ∷ 0xff ∷ [])
    ≡ 0x61 ∷ 0xfc ∷ 0x20ac ∷ 0x1f600 ∷ 0xfffd ∷ []
unfolding runes
runes_run = refl

-- A whole page, and the start of another.
parse_ogg_opus-finishes_example : parse_ogg_opus (tiny_ogg ++ codes "OggS") ≢ unfinished
parse_ogg_opus-finishes_example = parse_ogg_opus-finishes (tiny_ogg ++ codes "OggS")
