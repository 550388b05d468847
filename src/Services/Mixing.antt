-- ===== src/Services/Mixing.antt =====
-- Theorems on the mixer of ocnserver/internal/services/conference.go.
use open_carrier_network.Prelude.{
  ℕ, zero, suc, ◌+◌, ◌%◌, ◌^◌, ◌<◌, Bool, true, false, Option, none, some, List, [], ◌∷◌, String,
  ◌==◌, nat_eq, if◌then◌else◌, if-by, length, ◌≡◌, refl, ap, ◌∙◌, arith,
}
use Prim.Native.Nat.{◌-◌, min}
use open_carrier_network.Services.Conference.{mix_sample}
use open_carrier_network.Services.Conference.{
  ConfPart, Conference, mix_frame, silence, mix_for, send_mixes, active_parts, frames_of,
  mixer_tick, mix_frame_size,
}

abbrev Source : Type 0
Source = Option (List ℕ)

-- A frame of samples.
abbrev pub AreSamples : List ℕ → Type 0
AreSamples [] = Unit
AreSamples (s ∷ pcm) = (s < 65536) × AreSamples pcm

abbrev pub AreFrames : List Source → Type 0
AreFrames [] = Unit
AreFrames (none ∷ mix) = AreFrames mix
AreFrames (some src ∷ mix) = AreSamples src × AreFrames mix

-- The frames of all the sources, and those of all but the one at the given place.
abbrev pub present : List Source → List (List ℕ)
present [] = []
present (none ∷ mix) = present mix
present (some src ∷ mix) = src ∷ present mix

abbrev pub others : ℕ → List Source → List (List ℕ)
others i [] = []
others zero (src ∷ mix) = present mix
others (suc i) (none ∷ mix) = others i mix
others (suc i) (some src ∷ mix) = src ∷ others i mix

shifted :
    (mix : List Source) (i j : ℕ) (so_far : List ℕ × Bool)
    → mix_for (j + suc i) (j + 1) mix so_far ≡ mix_for (j + 1 + i) (j + 1) mix so_far
shifted mix i j so_far =
    let same : j + suc i ≡ j + 1 + i = omega arith in
    ap (λ (t : ℕ). mix_for t (j + 1) mix so_far) same

-- The sum of two samples, where it is one of int16, and else the end of int16 that is next to it.
abbrev pub clipped : ℕ → ℕ → ℕ
clipped a b = min 65535 ((a + b) - 32768)

abbrev pub added : List ℕ → List ℕ → List ℕ
added [] src = []
added (a ∷ mixed) [] = a ∷ mixed
added (a ∷ mixed) (b ∷ src) = clipped a b ∷ added mixed src

mix_frame-added : (mixed src : List ℕ) → mix_frame mixed src ≡ added mixed src
unfolding mix_frame
mix_frame-added [] src = refl
mix_frame-added (a ∷ mixed) [] = refl
mix_frame-added (a ∷ mixed) (b ∷ src) =
    let same : mix_sample a b ≡ clipped a b = ground arith in
    rw (same, mix_frame-added mixed src) refl

-- Frames, added to a mix one after the other.
abbrev pub sum_of : List (List ℕ) → List ℕ → List ℕ
sum_of [] mixed = mixed
sum_of (src ∷ srcs) mixed = sum_of srcs (added mixed src)

abbrev pub are_any : List (List ℕ) → Bool
are_any [] = false
are_any _ = true

-- Whether there was another source before, or there is one now.
abbrev joined : Bool → List (List ℕ) → Bool
joined true srcs = true
joined false srcs = are_any srcs

joined_more :
    (other : Bool) (src : List ℕ) (srcs : List (List ℕ)) → joined other (src ∷ srcs) ≡ true
joined_more true src srcs = refl
joined_more false src srcs = refl

mix_for-present :
    (mix : List Source) (i j : ℕ) (mixed : List ℕ) (other : Bool)
    → i < j
    → mix_for i j mix (mixed, other) ≡ (sum_of (present mix) mixed, joined other (present mix))
unfolding mix_for
mix_for-present [] i j mixed true h = refl
mix_for-present [] i j mixed false h = refl
mix_for-present (none ∷ mix) i j mixed other h =
    mix_for-present mix i (j + 1) mixed other (omega arith)
mix_for-present (some src ∷ mix) i j mixed other h =
    let differs : (j == i) ≡ false = ground arith in
    rw (differs, joined_more other src (present mix), mix_frame-added mixed src)
      (mix_for-present mix i (j + 1) (added mixed src) true (omega arith))

mix_for-others :
    (mix : List Source) (i j : ℕ) (mixed : List ℕ) (other : Bool)
    → mix_for (j + i) j mix (mixed, other)
      ≡ (sum_of (others i mix) mixed, joined other (others i mix))
unfolding mix_for
mix_for-others [] i j mixed true = refl
mix_for-others [] i j mixed false = refl
mix_for-others (none ∷ mix) zero j mixed other =
    mix_for-present mix (j + zero) (j + 1) mixed other (omega arith)
mix_for-others (some src ∷ mix) zero j mixed other =
    let same : (j == j + zero) ≡ true = ground arith in
    rw same (mix_for-present mix (j + zero) (j + 1) mixed other (omega arith))
mix_for-others (none ∷ mix) (suc i) j mixed other =
    shifted mix i j (mixed, other) ∙ mix_for-others mix i (j + 1) mixed other
mix_for-others (some src ∷ mix) (suc i) j mixed other =
    let differs : (j == j + suc i) ≡ false = ground arith in
    rw (differs, joined_more other src (others i mix), mix_frame-added mixed src)
      (shifted mix i j (added mixed src, true)
        ∙ mix_for-others mix i (j + 1) (added mixed src) true)

added-AreSamples :
    (mixed src : List ℕ) → AreSamples mixed → AreSamples src → AreSamples (added mixed src)
added-AreSamples [] src h k = tt
added-AreSamples (a ∷ mixed) [] h k = h
added-AreSamples (a ∷ mixed) (b ∷ src) h k =
    let fits : clipped a b < 65536 = omega arith in (fits, added-AreSamples mixed src h.1 k.1)

abbrev AllSamples : List (List ℕ) → Type 0
AllSamples [] = Unit
AllSamples (src ∷ srcs) = AreSamples src × AllSamples srcs

sum_of-AreSamples :
    (srcs : List (List ℕ)) (mixed : List ℕ)
    → AllSamples srcs
    → AreSamples mixed
    → AreSamples (sum_of srcs mixed)
sum_of-AreSamples [] mixed h k = k
sum_of-AreSamples (src ∷ srcs) mixed (h, hs) k =
    sum_of-AreSamples srcs (added mixed src) hs (added-AreSamples mixed src k h)

present-AllSamples : (mix : List Source) → AreFrames mix → AllSamples (present mix)
present-AllSamples [] h = tt
present-AllSamples (none ∷ mix) h = present-AllSamples mix h
present-AllSamples (some src ∷ mix) (h, hs) = (h, present-AllSamples mix hs)

others-AllSamples : (mix : List Source) (i : ℕ) → AreFrames mix → AllSamples (others i mix)
others-AllSamples [] i h = tt
others-AllSamples (none ∷ mix) zero h = present-AllSamples mix h
others-AllSamples (some src ∷ mix) zero (h, hs) = present-AllSamples mix hs
others-AllSamples (none ∷ mix) (suc i) h = others-AllSamples mix i h
others-AllSamples (some src ∷ mix) (suc i) (h, hs) = (h, others-AllSamples mix i hs)

silence-AreSamples : (n : ℕ) → AreSamples (silence n)
unfolding silence
silence-AreSamples zero = tt
silence-AreSamples (suc n) = (omega arith, silence-AreSamples n)

length-added : (mixed src : List ℕ) → length (added mixed src) ≡ length mixed
length-added [] src = refl
length-added (a ∷ mixed) [] = refl
length-added (a ∷ mixed) (b ∷ src) = ap (λ (n : ℕ). suc n) (length-added mixed src)

length-sum_of : (srcs : List (List ℕ)) (mixed : List ℕ) → length (sum_of srcs mixed) ≡ length mixed
length-sum_of [] mixed = refl
length-sum_of (src ∷ srcs) mixed = length-sum_of srcs (added mixed src) ∙ length-added mixed src

length-silence : (n : ℕ) → length (silence n) ≡ n
unfolding silence
length-silence zero = refl
length-silence (suc n) = ap (λ (m : ℕ). suc m) (length-silence n)

-- What the participants from place i on are to hear: the sum of the others' frames, or nothing where
-- no other has one.
abbrev pub mixes : ℕ → List (String × ConfPart) → List Source → List (String × List ℕ)
mixes i [] sources = []
mixes i ((id, p) ∷ active) sources =
    let rest = mixes (i + 1) active sources in
    if are_any (others i sources)
    then (id, sum_of (others i sources) (silence mix_frame_size)) ∷ rest
    else rest

-- Whole frames of samples.
abbrev pub AreHeard : List (String × List ℕ) → Type 0
AreHeard [] = Unit
AreHeard ((id, pcm) ∷ sent) = (AreSamples pcm × (length pcm ≡ 960)) × AreHeard sent

mixed_for :
    (i : ℕ) (sources : List Source) (mixed : List ℕ)
    → mix_for i 0 sources (mixed, false)
      ≡ (sum_of (others i sources) mixed, are_any (others i sources))
mixed_for i sources mixed =
    let same : i ≡ 0 + i = omega arith in
    ap (λ (t : ℕ). mix_for t 0 sources (mixed, false)) same ∙ mix_for-others sources i 0 mixed false

send_mixes-mixes :
    (active : List (String × ConfPart)) (i : ℕ) (sources : List Source)
    → send_mixes i active sources ≡ mixes i active sources
unfolding send_mixes
send_mixes-mixes [] i sources = refl
send_mixes-mixes ((id, p) ∷ active) i sources =
    rw (mixed_for i sources (silence mix_frame_size), send_mixes-mixes active (i + 1) sources) refl

mixes-AreHeard :
    (active : List (String × ConfPart)) (i : ℕ) (sources : List Source)
    → AreFrames sources
    → AreHeard (mixes i active sources)
mixes-AreHeard [] i sources h = tt
mixes-AreHeard ((id, p) ∷ active) i sources h =
    if-by AreHeard (are_any (others i sources)) _ _
      ((samples, whole), mixes-AreHeard active (i + 1) sources h)
      (mixes-AreHeard active (i + 1) sources h)
  where
    samples : AreSamples (sum_of (others i sources) (silence mix_frame_size))
    samples =
        sum_of-AreSamples (others i sources) (silence mix_frame_size)
          (others-AllSamples sources i h) (silence-AreSamples mix_frame_size)

    whole : length (sum_of (others i sources) (silence mix_frame_size)) ≡ 960
    whole =
        length-sum_of (others i sources) (silence mix_frame_size) ∙ length-silence mix_frame_size

-- A tick of the mixer sends every active participant a mix of the latest frames of the other active
-- ones, its own left out, and nothing where no other has spoken yet. A mix starts from silence, and the
-- frames are added to it sample by sample, one after the other in the order of the participants, each
-- partial sum cut off at the ends of int16. What is sent is a whole frame whose samples all fit int16.
-- The frames hold samples of int16.
pub mixer_tick-mixes :
    (c : Conference)
    → AreFrames (frames_of (active_parts c.parts))
    → let active = active_parts c.parts in
      ((mixer_tick c).0 ≡ mixes 0 active (frames_of active)) × AreHeard (mixer_tick c).0
unfolding mixer_tick
mixer_tick-mixes c h = ticked (active_parts c.parts) h
  where
    moved : Conference
    moved = record c { seq = (c.seq + 1) % 2 ^ 16; ts = (c.ts + mix_frame_size) % 2 ^ 32 }

    ticked :
        (active : List (String × ConfPart))
        → AreFrames (frames_of active)
        → let sent : List (String × List ℕ) × Conference =
            (if length active == 0
              then ([], c)
              else (send_mixes 0 active (frames_of active), moved)) in
          (sent.0 ≡ mixes 0 active (frames_of active)) × AreHeard sent.0
    ticked [] h = (refl, tt)
    ticked (p ∷ active) h =
        let filled : (suc (length active) == 0) ≡ false = ground arith in
        rw (filled, send_mixes-mixes (p ∷ active) 0 (frames_of (p ∷ active)))
          (refl, mixes-AreHeard (p ∷ active) 0 (frames_of (p ∷ active)) h)
