-- ===== src/Voicemail/Packing.antt =====
-- Theorems on SerializeFrames and DeserializeFrames.
use open_carrier_network.Prelude.{ℕ, zero, suc, ◌/◌, ◌%◌, ◌^◌, ◌<◌}
use open_carrier_network.Prelude.{
  ◌≡◌, refl, sym, ap, subst, ◌∙◌, inl, inr, arith, Bool-cases, false,
}
use open_carrier_network.Prelude.{Option, none, some, List, [], ◌∷◌, ◌++◌, ltb, ltb→lt}
use open_carrier_network.Prelude.{Text, length, take, drop, length-append, length-drop}
use open_carrier_network.Prelude.{take_of_length, drop_of_length, take-append-drop, length-take}
use mathlib.Core.List.{append_assoc}
use mathlib.Core.Option.{map as map_option}
use open_carrier_network.Voicemail.Frames.{put_uint32, uint32, serialize_frames, deserialize_loop}
use open_carrier_network.Voicemail.Frames.{deserialize_frames}

-- Slices whose length fits 32 bits.
abbrev pub AreShort : List Text → Type 0
AreShort [] = Unit
AreShort (f ∷ fs) = (length f < 2 ^ 32) × AreShort fs

abbrev pub AreBytes : Text → Type 0
AreBytes [] = Unit
AreBytes (b ∷ bs) = (b < 256) × AreBytes bs

uint32-put :
    (n : ℕ)
    → n < 2 ^ 32
    → uint32
        (n % 2 ^ 32 % 256)
        (n % 2 ^ 32 / 256 % 256)
        (n % 2 ^ 32 / 65536 % 256)
        (n % 2 ^ 32 / 65536 / 256 % 256)
      ≡ n
uint32-put n h = omega arith

-- One round of the loop over a frame that is whole.
whole_frame :
    (fuel a b c d : ℕ) (front rest : Text)
    → uint32 a b c d ≡ length front
    → deserialize_loop (suc fuel) (a ∷ b ∷ c ∷ d ∷ front ++ rest)
      ≡ (elim (deserialize_loop fuel rest) [ none ↦ none | some fs ↦ some (front ∷ fs) ])
unfolding deserialize_loop
whole_frame fuel a b c d front rest e =
    rw (e, take_of_length front rest, drop_of_length front rest)
      (ground (arith, length-append front rest))

deserialize_loop-serialize_frames :
    (frames : List Text) (fuel : ℕ)
    → AreShort frames
    → length (serialize_frames frames) < fuel
    → deserialize_loop fuel (serialize_frames frames) ≡ some frames
unfolding deserialize_loop serialize_frames
deserialize_loop-serialize_frames [] (suc fuel) h enough = refl
deserialize_loop-serialize_frames (f ∷ fs) (suc fuel) (h, hs) enough =
    whole_frame fuel _ _ _ _ f (serialize_frames fs) (uint32-put (length f) h)
    ∙ rw
        (deserialize_loop-serialize_frames fs fuel hs
          (omega (arith, length-append f (serialize_frames fs))))
        refl
deserialize_loop-serialize_frames fs zero h enough = absurd (omega arith)

-- A message that is packed for the store is unpacked as it was, where each of its frames is shorter
-- than 2 ^ 32 bytes.
pub deserialize-serialize_frames :
    (frames : List Text)
    → AreShort frames
    → deserialize_frames (serialize_frames frames) ≡ some frames
unfolding deserialize_frames
deserialize-serialize_frames frames h =
    deserialize_loop-serialize_frames frames (suc (length (serialize_frames frames))) h
      (omega arith)

-- What is left where the loop stops: no whole length, or one that runs past the end.
abbrev pub IsCutShort : Text → Type 0
IsCutShort (a ∷ b ∷ c ∷ d ∷ rest) = length rest < uint32 a b c d
IsCutShort _ = Unit

abbrev pub IsRead : Text → Option (List Text) → Type 0
IsRead bytes none = ⊥
IsRead bytes (some frames) =
    (rest : Text) × (bytes ≡ serialize_frames frames ++ rest) × IsCutShort rest

put_uint32-uint32 :
    (a b c d : ℕ)
    → a < 256
    → b < 256
    → c < 256
    → d < 256
    → put_uint32 (uint32 a b c d % 2 ^ 32) ≡ a ∷ b ∷ c ∷ d ∷ []
put_uint32-uint32 a b c d ha hb hc hd = ground arith

AreBytes-drop : (n : ℕ) (bytes : Text) → AreBytes bytes → AreBytes (drop n bytes)
AreBytes-drop zero bytes h = h
AreBytes-drop (suc n) [] h = tt
AreBytes-drop (suc n) (b ∷ bytes) h = AreBytes-drop n bytes h.1

IsRead-frame :
    (a b c d : ℕ) (front rest : Text) (r : Option (List Text))
    → put_uint32 (length front % 2 ^ 32) ≡ a ∷ b ∷ c ∷ d ∷ []
    → IsRead rest r
    → IsRead (a ∷ b ∷ c ∷ d ∷ front ++ rest) (elim r [ none ↦ none | some fs ↦ some (front ∷ fs) ])
unfolding serialize_frames
IsRead-frame a b c d front rest none e h = h
IsRead-frame a b c d front rest (some fs) e (left, same, cut) = (
  left,
  ap (λ (t : Text). t ++ (front ++ rest)) (sym e)
      ∙ rw (same, append_assoc front (serialize_frames fs) left) refl,
  cut,
)

deserialize_loop-IsRead :
    (fuel : ℕ) (bytes : Text)
    → AreBytes bytes
    → length bytes < fuel
    → IsRead bytes (deserialize_loop fuel bytes)
unfolding deserialize_loop serialize_frames
deserialize_loop-IsRead zero bytes h enough = absurd (omega arith)
deserialize_loop-IsRead (suc fuel) [] h enough = ([], refl, tt)
deserialize_loop-IsRead (suc fuel) (a ∷ []) h enough = (_, refl, tt)
deserialize_loop-IsRead (suc fuel) (a ∷ b ∷ []) h enough = (_, refl, tt)
deserialize_loop-IsRead (suc fuel) (a ∷ b ∷ c ∷ []) h enough = (_, refl, tt)
deserialize_loop-IsRead (suc fuel) (a ∷ b ∷ c ∷ d ∷ bytes) (ha, (hb, (hc, (hd, h)))) enough =
    elim (Bool-cases (ltb (length bytes) n)) [
      | inl short ↦ rw short (_, refl, ltb→lt _ _ short)
      | inr whole ↦ rw whole (
          subst
            (λ (t : Text).
              IsRead (a ∷ b ∷ c ∷ d ∷ t)
                (map_option (λ fs. take n bytes ∷ fs) (deserialize_loop fuel (drop n bytes))))
            (take-append-drop n bytes)
            (IsRead-frame a b c d (take n bytes) (drop n bytes) _ (fits whole) (
              deserialize_loop-IsRead fuel (drop n bytes) (AreBytes-drop n bytes h)
                (omega (arith, length-drop n bytes)))))
    ]
  where
    n : ℕ
    n = uint32 a b c d

    fits :
        ltb (length bytes) n ≡ false
        → put_uint32 (length (take n bytes) % 2 ^ 32) ≡ a ∷ b ∷ c ∷ d ∷ []
    fits whole =
        let same : length (take n bytes) ≡ n = length-take n bytes (ground arith) in
        rw same (put_uint32-uint32 a b c d ha hb hc hd)

-- DeserializeFrames ends on all bytes, be they well formed or not: the frames that it returns, packed,
-- are the front of the data, and it leaves only a frame that the data does not hold in full.
pub deserialize_frames-IsRead :
    (bytes : Text) → AreBytes bytes → IsRead bytes (deserialize_frames bytes)
unfolding deserialize_frames
deserialize_frames-IsRead bytes h =
    deserialize_loop-IsRead (suc (length bytes)) bytes h (omega arith)
