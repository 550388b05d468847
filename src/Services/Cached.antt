-- ===== src/Services/Cached.antt =====
-- The cache of spoken phrases in ocnserver/internal/services/tts.go.
use open_carrier_network.Prelude.{
  ℕ, Bool, true, Option, none, some, List, [], ◌∷◌, Text, nat_eq, ◌≡◌, refl, ◌∙◌, arith, ◌==◌,
}
use open_carrier_network.Prelude.Table.{Table, insert, lookup-insert}
use open_carrier_network.Voicemail.Frames.{serialize_frames}
use open_carrier_network.Voicemail.Packing.{AreShort, deserialize-serialize_frames}
use open_carrier_network.Services.Speech.{
  Parsed, unfinished, invalid, parsed, parse_ogg_opus, hash_text, cached_frames, keep_frames,
  generate_opus_frames,
}

-- Frames that are in the cache are what any phrase of their hash is spoken with.
generate_opus_frames-hit :
    (speak : Text → Option Text) (saves : Bool) (text : Text) (cache : Table ℕ Text) (f : Text)
    (fs : List Text)
    → cached_frames (hash_text text) cache ≡ f ∷ fs
    → generate_opus_frames speak saves text cache ≡ (some (f ∷ fs), cache)
unfolding generate_opus_frames
generate_opus_frames-hit speak saves text cache f fs e = rw (generate_opus_frames, e) refl

cached_frames-insert :
    (hash : ℕ) (cache : Table ℕ Text) (frames : List Text)
    → AreShort frames
    → cached_frames hash (insert hash (serialize_frames frames) cache) ≡ frames
unfolding cached_frames
cached_frames-insert hash cache frames h =
    let same : (hash == hash) ≡ true = ground arith in
    rw
      (
        cached_frames,
        lookup-insert hash hash (serialize_frames frames) cache,
        same,
        deserialize-serialize_frames frames h,
      )
      refl

-- Where these are the frames that a run returns, the cache behind it holds them.
abbrev IsKept : ℕ → List Text → Option (List Text) × Table ℕ Text → Type 0
IsKept hash frames (r, cache) = (r ≡ some frames) → cached_frames hash cache ≡ frames

keep_frames-IsKept :
    (hash : ℕ) (cache : Table ℕ Text) (frames : List Text) (r : Parsed)
    → AreShort frames
    → IsKept hash frames (keep_frames true hash cache r)
unfolding keep_frames
keep_frames-IsKept hash cache frames unfinished h e = ground arith
keep_frames-IsKept hash cache frames invalid h e = ground arith
keep_frames-IsKept hash cache frames (parsed found) h e =
    let same : found ≡ frames = ground arith in rw same (cached_frames-insert hash cache frames h)

generate_opus_frames-IsKept :
    (speak : Text → Option Text) (text : Text) (cache : Table ℕ Text) (frames found : List Text)
    → cached_frames (hash_text text) cache ≡ found
    → AreShort frames
    → IsKept (hash_text text) frames (generate_opus_frames speak true text cache)
unfolding generate_opus_frames
generate_opus_frames-IsKept speak text cache frames (f ∷ fs) e h =
    rw (generate_opus_frames, e) (λ same. e ∙ ground (arith, same))
generate_opus_frames-IsKept speak text cache frames [] e h =
    rw (generate_opus_frames, e) (spoken (speak text))
  where
    spoken :
        (r : Option Text)
        → IsKept (hash_text text) frames (elim r [
          | none ↦ (none, cache)
          | some ogg ↦ keep_frames true (hash_text text) cache (parse_ogg_opus ogg)
        ])
    spoken none same = ground arith
    spoken (some ogg) same =
        keep_frames-IsKept (hash_text text) cache frames (parse_ogg_opus ogg) h same

-- Once a phrase has been spoken with some frames and the file could be written, every phrase of the same
-- hash, the phrase itself or another, is spoken with these frames, whatever espeak and ffmpeg would
-- make of it, and the cache stays as it is. The frames are shorter than 2 ^ 32 bytes.
pub generate_opus_frames-again :
    (speak again : Text → Option Text) (saves : Bool) (text other : Text) (cache : Table ℕ Text)
    (f : Text) (fs : List Text)
    → AreShort (f ∷ fs)
    → hash_text other ≡ hash_text text
    → (generate_opus_frames speak true text cache).0 ≡ some (f ∷ fs)
    → let spoken = (generate_opus_frames speak true text cache).1 in
      generate_opus_frames again saves other spoken ≡ (some (f ∷ fs), spoken)
generate_opus_frames-again speak again saves text other cache f fs h same e =
    generate_opus_frames-hit again saves other _ f fs
      (rw same (generate_opus_frames-IsKept speak text cache (f ∷ fs) _ refl h e))
