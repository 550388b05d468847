-- ===== src/Services/Totality.antt =====
-- The loop of parseOggOpus in ocnserver/internal/services/tts.go, on any bytes.
use open_carrier_network.Prelude.{
  ℕ, zero, suc, ◌-◌, ◌<◌, not, List, [], ◌∷◌, Text, codes, ◌==◌, text_eq, if◌then◌else◌, if-by, ltb,
  length, take, drop, length-drop, ◌≡◌, ◌≢◌, refl, arith,
}
use open_carrier_network.Services.Speech.{
  Parsed, unfinished, invalid, parsed, take_packets, page_data_size, with_frames, parse_loop,
  parse_ogg_opus,
}

abbrev Finishes : Parsed → Type 0
Finishes r = r ≢ unfinished

with_frames-finishes :
    (packets : List Text) (r : Parsed) → r ≢ unfinished → with_frames packets r ≢ unfinished
with_frames-finishes packets unfinished h e = h refl
with_frames-finishes packets invalid h e = h e
with_frames-finishes packets (parsed frames) h e = ground arith

parse_loop-finishes :
    (fuel : ℕ) (bytes : Text) → length bytes < fuel → parse_loop fuel bytes ≢ unfinished
unfolding parse_loop
parse_loop-finishes zero bytes h = absurd (omega arith)
parse_loop-finishes (suc fuel) bytes h =
    turn (λ rest. parse_loop-finishes fuel rest) (drop 26 bytes) (length-drop 26 bytes)
  where
    turn :
        ((rest : Text) → length rest < fuel → parse_loop fuel rest ≢ unfinished)
        → (left : Text) → length left ≡ length bytes - 26
        → (elim left [
          | [] ↦ parsed []
          | num_segments ∷ rest ↦
              let seg_table = take num_segments rest in
              let page = drop num_segments rest in
              let size = page_data_size seg_table in
              let packets = take_packets seg_table 0 (take size page) in
              if not (take 4 bytes == codes "OggS")
              then invalid
              else (if ltb (length rest) num_segments
                  then parsed []
                  else (if ltb (length page) size
                      then parsed []
                      else with_frames packets (parse_loop fuel (drop size page))))
        ])
          ≢ unfinished
    turn next [] e = ground arith
    turn next (n ∷ rest) e =
        let size : ℕ = page_data_size (take n rest) in
        let page : Text = drop n rest in
        let smaller : length (drop size page) < fuel =
          omega (arith, length-drop size page, length-drop n rest) in
        if-by Finishes _ invalid _ (ground arith) (
          if-by Finishes _ (parsed []) _ (ground arith) (
            if-by Finishes _ (parsed []) _ (ground arith)
              (with_frames-finishes _ _ (next (drop size page) smaller))))

-- parseOggOpus comes to an end on all bytes, be they an Ogg file or not.
pub parse_ogg_opus-finishes : (bytes : Text) → parse_ogg_opus bytes ≢ unfinished
unfolding parse_ogg_opus
parse_ogg_opus-finishes bytes = parse_loop-finishes (suc (length bytes)) bytes (omega arith)
