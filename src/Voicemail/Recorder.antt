-- ===== src/Voicemail/Recorder.antt =====
-- ocnserver/internal/voicemail/recorder.go: the loop that records a message, and the silence that is
-- trimmed off its end. A sample is an int16 in two's complement. What a call reads is the list of what
-- it finds in each turn, up to the end of the track, which is an error; the Opus decoder is a step
-- function on a state of its own.
use open_carrier_network.Prelude.{ℕ, ◌-◌, ◌*◌, ◌/◌, Bool, true, false, not, ◌||◌, Option}
use open_carrier_network.Prelude.{
  none, some, List, [], ◌∷◌, ◌++◌, Text, length, take, ltb, leb, ◌==◌,
}
use open_carrier_network.Prelude.{nat_eq, if◌then◌else◌}
use open_carrier_network.Voicemail.Ogg.{frame_ms}

pub data Turn : Type 0 where
  hung_up : Turn
  broken : Turn
  packet : ℕ → Text → Turn

-- Manager.MaxDuration in milliseconds: 120 seconds where none is configured.
unfoldable pub max_duration : ℕ → ℕ
max_duration configured = if configured == 0 then 120000 else configured

-- The frames that a message may have.
unfoldable pub max_frames : ℕ → ℕ
max_frames configured =
    let frames = max_duration configured / frame_ms in
    if frames == 0 then 120 * 1000 / frame_ms else frames

-- The loop `recordLoop`: the frames, and whether the limit has ended it.
unfoldable pub record_loop : ℕ → List Turn → List Text → List Text × Bool
record_loop most [] frames = (frames, false)
record_loop most (hung_up ∷ turns) frames = (frames, false)
record_loop most (broken ∷ turns) frames = (frames, false)
record_loop most (packet kind payload ∷ turns) frames =
    let longer = frames ++ (payload ∷ []) in
    let go_on = record_loop most turns longer in
    let skip = record_loop most turns frames in
    if not (ltb (length frames) most)
    then (frames, false)
    else if not (kind == 111) || (length payload == 0)
    then skip
    else if leb most (length longer)
    then (longer, true)
    else go_on

-- The absolute value of a sample.
abbrev pub loudness : ℕ → ℕ
loudness s = if ltb s 32768 then s else 65536 - s

unfoldable pub peak_of : List ℕ → ℕ → ℕ
peak_of [] peak = peak
peak_of (s ∷ pcm) peak = peak_of pcm (if ltb peak (loudness s) then loudness s else peak)

-- isSilent
unfoldable pub is_silent : List ℕ → Bool
is_silent pcm = ltb (peak_of pcm 0) 120

-- 3 * 1000 / frameMS
abbrev pub removable : ℕ
removable = 150

-- A slice from its end to its start, in front of the second.
abbrev pub backwards : List Text → List Text → List Text
backwards [] out = out
backwards (f ∷ fs) out = backwards fs (f ∷ out)

module _ {ℓ} {D : Type ℓ} (decode : D → Text → Option (List ℕ) × D) where
  -- The loop of trimSilence, on the frames up to i, the last first: how many to keep.
  unfoldable pub trim_loop : D → List Text → ℕ → ℕ
  trim_loop dec [] keep = keep
  trim_loop dec (f ∷ before) keep =
      let i = length before in
      let (pcm, after) = decode dec f in
      let rest = trim_loop after before i in
      if ltb removable (keep - i) then keep else (elim pcm [
        | none ↦ keep
        | some samples ↦ if not (is_silent samples) then keep else rest
      ])

  -- trimSilence
  unfoldable pub trim_silence : D → List Text → List Text
  trim_silence dec frames = take (trim_loop dec (backwards frames []) (length frames)) frames

  -- What runRecordSession keeps of the frames; there is no trimming where no decoder could be made.
  unfoldable pub kept_frames : Option D → List Text → List Text
  kept_frames none frames = frames
  kept_frames (some dec) frames = if ltb 0 (length frames) then trim_silence dec frames else frames
