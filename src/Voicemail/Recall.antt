-- ===== src/Voicemail/Recall.antt =====
-- Theorems on recorder.go and manager.go of ocnserver/internal/voicemail: what becomes of a message
-- from its recording to its playback.
use open_carrier_network.Prelude.{
  ℕ, zero, suc, ◌+◌, ◌-◌, ◌<◌, Bool, true, false, not, ◌||◌, Option, none,
}
use open_carrier_network.Prelude.{some, List, [], ◌∷◌, ◌++◌, Text, length, take, ltb, leb, ◌==◌}
use open_carrier_network.Prelude.{nat_eq, if◌then◌else◌, if-by, if-when}
use open_carrier_network.Prelude.{◌≡◌, refl, ap, ◌∙◌}
use open_carrier_network.Prelude.{arith, text_eq, string_eq}
use open_carrier_network.Store.Settings.{Settings, get_setting}
use open_carrier_network.Voicemail.Packing.{AreShort}
use open_carrier_network.Voicemail.Playback.{ArePackets}
use open_carrier_network.Voicemail.Recorder.{Turn, hung_up, broken, packet, record_loop}
use open_carrier_network.Voicemail.Recorder.{
  kept_frames, is_silent, trim_loop, trim_silence, backwards,
}
use open_carrier_network.Voicemail.Manager.{Crypt, Manager, master_secret_key, not_empty}

module _ {ℓ} {D : Type ℓ} (decode : D → Text → Option (List ℕ) × D) where
  -- How many frames stand before the silence at the end, the frames the last first; a frame that does
  -- not decode is not silent.
  abbrev pub audible : D → List Text → ℕ
  audible dec [] = 0
  audible dec (f ∷ before) =
      let (pcm, after) = decode dec f in
      let rest = audible after before in
      elim pcm [
        | none ↦ suc (length before)
        | some samples ↦ if is_silent samples then rest else suc (length before)
      ]

  trim_loop-audible :
      (frames : List Text) (dec : D)
      → trim_loop decode dec frames (length frames) ≡ audible dec frames
  unfolding trim_loop
  trim_loop-audible [] dec = refl
  trim_loop-audible (f ∷ before) dec =
      rw one (same (trim_loop-audible before (decode dec f).1) (decode dec f).0)
    where
      one : ltb 150 (suc (length before) - length before) ≡ false
      one = ground arith

      after : D
      after = (decode dec f).1

      same :
          trim_loop decode after before (length before) ≡ audible after before
          → (pcm : Option (List ℕ))
          → (elim pcm [
            | none ↦ suc (length before)
            | some samples ↦
                if not (is_silent samples)
                then suc (length before)
                else trim_loop decode after before (length before)
          ])
            ≡ (elim pcm [
              | none ↦ suc (length before)
              | some samples ↦
                  if is_silent samples then audible after before else suc (length before)
            ])
      same ih none = refl
      same ih (some samples) = ground (arith, ih)

  -- What is left of a recording.
  abbrev pub heard : D → List Text → List Text
  heard dec frames = take (audible dec (backwards frames [])) frames

  length-backwards :
      (frames out : List Text) → length (backwards frames out) ≡ length frames + length out
  length-backwards [] out = omega arith
  length-backwards (f ∷ frames) out = omega (arith, length-backwards frames (f ∷ out))

  -- The whole silence at the end is trimmed, however long it is: the limit of three seconds never
  -- applies.
  pub trim_silence-heard :
      (dec : D) (frames : List Text) → trim_silence decode dec frames ≡ heard dec frames
  unfolding trim_silence
  trim_silence-heard dec frames =
      ap (λ (n : ℕ). take n frames)
        (ap (trim_loop decode dec (backwards frames [])) same
          ∙ trim_loop-audible (backwards frames []) dec)
    where
      same : length frames ≡ length (backwards frames [])
      same = omega (arith, length-backwards frames [])

  -- Where there is no decoder, all of it is left.
  abbrev pub left_of : Option D → List Text → List Text
  left_of none frames = frames
  left_of (some dec) frames = heard dec frames

  pub kept_frames-left_of :
      (dec : Option D) (frames : List Text) → kept_frames decode dec frames ≡ left_of dec frames
  unfolding kept_frames
  kept_frames-left_of none frames = refl
  kept_frames-left_of (some dec) [] = refl
  kept_frames-left_of (some dec) (f ∷ frames) =
      let filled : ltb 0 (suc (length frames)) ≡ true = ground arith in
      rw filled (trim_silence-heard dec (f ∷ frames))

-- A turn of the recording whose packet, if it brings one, fits a page.
abbrev pub AreSmall : List Turn → Type 0
AreSmall [] = Unit
AreSmall (hung_up ∷ turns) = AreSmall turns
AreSmall (broken ∷ turns) = AreSmall turns
AreSmall (packet kind payload ∷ turns) = (length payload < 65025) × AreSmall turns

ArePackets-append : (fs gs : List Text) → ArePackets fs → ArePackets gs → ArePackets (fs ++ gs)
ArePackets-append [] gs h k = k
ArePackets-append (f ∷ fs) gs (h, hs) k = (h, ArePackets-append fs gs hs k)

pub ArePackets-take : (n : ℕ) (fs : List Text) → ArePackets fs → ArePackets (take n fs)
ArePackets-take zero fs h = tt
ArePackets-take (suc n) [] h = tt
ArePackets-take (suc n) (f ∷ fs) (h, hs) = (h, ArePackets-take n fs hs)

pub ArePackets-left_of {ℓ} :
    {D : Type ℓ} (decode : D → Text → Option (List ℕ) × D) (dec : Option D) (fs : List Text)
    → ArePackets fs
    → ArePackets (left_of decode dec fs)
ArePackets-left_of decode none fs h = h
ArePackets-left_of decode (some dec) fs h = ArePackets-take _ fs h

pub AreShort-ArePackets : (fs : List Text) → ArePackets fs → AreShort fs
AreShort-ArePackets [] h = tt
AreShort-ArePackets (f ∷ fs) ((h, k), hs) = (omega arith, AreShort-ArePackets fs hs)

-- The loop takes up no empty packet.
pub record_loop-ArePackets :
    (most : ℕ) (turns : List Turn) (frames : List Text)
    → AreSmall turns
    → ArePackets frames
    → ArePackets (record_loop most turns frames).0
unfolding record_loop
record_loop-ArePackets most [] frames small h = h
record_loop-ArePackets most (hung_up ∷ turns) frames small h = h
record_loop-ArePackets most (broken ∷ turns) frames small h = h
record_loop-ArePackets most (packet kind payload ∷ turns) frames (small, more) h =
    if-by Good (not (ltb (length frames) most)) (frames, false) _ h
      (if-when Good (not (kind == 111) || (length payload == 0)) (record_loop most turns frames) _
        (λ skipped. record_loop-ArePackets most turns frames more h)
        (λ taken.
          let longer : ArePackets (frames ++ (payload ∷ [])) =
            ArePackets-append frames (payload ∷ []) h ((ground arith, small), tt) in
          if-by Good (leb most (length (frames ++ (payload ∷ [])))) _ _ longer
            (record_loop-ArePackets most turns (frames ++ (payload ∷ [])) more longer)))
  where
    Good : List Text × Bool → Type 0
    Good x = ArePackets x.0

-- What the documentation of AES-GCM and base64 promises: what was sealed opens again, and what was
-- encoded decodes.
abbrev pub IsReversible : Crypt → Type 0
IsReversible c =
    ((key message blob : Text)
      → c.encrypt key message ≡ some blob
      → c.decrypt key blob ≡ some message)
    × ((key : Text) → c.decode (c.encode key) ≡ some key)

-- The settings hold the secret.
abbrev pub Holds : Crypt → Text → Settings → Type 0
Holds c key s =
    (c.decode (get_setting master_secret_key s) ≡ some key)
    × (not_empty (get_setting master_secret_key s) ≡ true)

-- A manager whose secret, if it has loaded one, is the one in the settings.
abbrev pub IsReady : Crypt → Option Text → Settings → Type 0
IsReady c none s = Unit
IsReady c (some key) s = Holds c key s

-- A secret that the random source yields does not encode to nothing.
abbrev pub IsSeed : Crypt → Option Text → Type 0
IsSeed c none = Unit
IsSeed c (some key) = not_empty (c.encode key) ≡ true

abbrev pub restart : Manager → Manager
restart m = record m { master = none }
