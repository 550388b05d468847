-- ===== src/Voicemail/Frames.antt =====
-- ocnserver/internal/voicemail/ogg.go: SerializeFrames and DeserializeFrames. A byte is a number below
-- 256, and a slice of bytes the list of its bytes.
use open_carrier_network.Prelude.{ℕ, zero, suc, ◌+◌, ◌*◌, ◌/◌, ◌%◌, ◌^◌}
use open_carrier_network.Prelude.{Option, none, some, List, [], ◌∷◌, ◌++◌}
use open_carrier_network.Prelude.{ltb, if◌then◌else◌, Text, length, take, drop}
use mathlib.Core.Option.{map as map_option}

-- binary.LittleEndian: PutUint16, PutUint32, PutUint64, and Uint32 of the four bytes given.
abbrev pub put_uint16 : ℕ → Text
put_uint16 n = (n % 256) ∷ (n / 256 % 256) ∷ []

abbrev pub put_uint32 : ℕ → Text
put_uint32 n = put_uint16 n ++ put_uint16 (n / 65536)

abbrev pub put_uint64 : ℕ → Text
put_uint64 n = put_uint32 n ++ put_uint32 (n / 4294967296)

abbrev pub uint32 : ℕ → ℕ → ℕ → ℕ → ℕ
uint32 a b c d = a + 256 * b + 65536 * c + 16777216 * d

unfoldable pub serialize_frames : List Text → Text
serialize_frames [] = []
serialize_frames (f ∷ fs) = put_uint32 (length f % 2 ^ 32) ++ (f ++ serialize_frames fs)

-- The loop, on what is left of the data from the offset on; `none` when the fuel runs out.
unfoldable pub deserialize_loop : ℕ → Text → Option (List Text)
deserialize_loop zero bytes = none
deserialize_loop (suc fuel) (a ∷ b ∷ c ∷ d ∷ bytes) =
    let n = uint32 a b c d in
    let rest = deserialize_loop fuel (drop n bytes) in
    if ltb (length bytes) n then some [] else map_option (λ frames. take n bytes ∷ frames) rest
deserialize_loop (suc fuel) bytes = some []

unfoldable pub deserialize_frames : Text → Option (List Text)
deserialize_frames bytes = deserialize_loop (suc (length bytes)) bytes
