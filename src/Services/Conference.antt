-- ===== src/Services/Conference.antt =====
-- ocnserver/internal/services/conference.go: the room of a party line and its mixer. A sample is an
-- int16, as its distance from -32768, so that silence is 32768. What WebRTC and the Opus encoder do is
-- an answer from outside; a mix is what the encoder is given.
use open_carrier_network.Prelude.{
  ℕ, zero, suc, ◌+◌, ◌-◌, ◌%◌, ◌^◌, Bool, true, false, not, Option, none, some, List, [], ◌∷◌,
  String, ◌==◌, nat_eq, string_eq, if◌then◌else◌, ltb, length,
}
use open_carrier_network.Prelude.Table.{Table, lookup, insert, delete}

abbrev pub mix_frame_size : ℕ
mix_frame_size = 960

-- confPart, whose latest frame is nil at first.
pub record ConfPart : Type 0 where
  pub active : Bool
  pub frame : Option (List ℕ)

-- ConferenceService
pub record Conference : Type 0 where
  pub parts : Table String ConfPart
  pub seq : ℕ
  pub ts : ℕ
  pub started : Bool

-- remove, and EndCall
unfoldable pub remove : String → Conference → Conference
remove id c = record c { parts = delete id c.parts }

-- HandleCall, for a peer connection that was made, and what the negotiation answers: the room, and
-- whether the caller is in it.
unfoldable pub conference_call : Bool → String → Conference → Conference × Bool
conference_call negotiates id c =
    let joined : Conference = record c {
      parts = insert id (record { active = false; frame = none }) c.parts;
      started = true;
    } in
    if negotiates then (joined, true) else (remove id joined, false)

-- A frame that receiveAudio has decoded; one of another length is dropped.
unfoldable pub receive_frame : String → List ℕ → Conference → Conference
receive_frame id pcm c =
    if not (length pcm == mix_frame_size) then c else (elim (lookup id c.parts) [
      | none ↦ c
      | some p ↦ record c { parts = insert id (record p { frame = some pcm }) c.parts }
    ])

-- The end of welcome.
unfoldable pub activate : String → Conference → Conference
activate id c = elim (lookup id c.parts) [
  | none ↦ c
  | some p ↦ record c { parts = insert id (record p { active = true }) c.parts }
]

-- The sum of two samples, cut off at the ends of int16.
abbrev pub mix_sample : ℕ → ℕ → ℕ
mix_sample a b =
    if ltb 98303 (a + b) then 65535 else (if ltb (a + b) 32768 then 0 else (a + b) - 32768)

unfoldable pub mix_frame : List ℕ → List ℕ → List ℕ
mix_frame (a ∷ mixed) (b ∷ src) = mix_sample a b ∷ mix_frame mixed src
mix_frame mixed _ = mixed

unfoldable pub silence : ℕ → List ℕ
silence zero = []
silence (suc n) = 32768 ∷ silence n

-- The loop over the sources for the receiver at place i, from place j on: the mix, and hasOther.
unfoldable pub mix_for : ℕ → ℕ → List (Option (List ℕ)) → List ℕ × Bool → List ℕ × Bool
mix_for i j [] so_far = so_far
mix_for i j (none ∷ mix) so_far = mix_for i (j + 1) mix so_far
mix_for i j (some src ∷ mix) (mixed, other) =
    let skipped = mix_for i (j + 1) mix (mixed, other) in
    let added = mix_for i (j + 1) mix (mix_frame mixed src, true) in
    if j == i then skipped else added

-- The loop over the receivers, from place i on: who is sent which mix.
unfoldable pub send_mixes :
    ℕ → List (String × ConfPart) → List (Option (List ℕ)) → List (String × List ℕ)
send_mixes i [] mix = []
send_mixes i ((id, p) ∷ active) mix =
    let rest = send_mixes (i + 1) active mix in
    let (mixed, other) = mix_for i 0 mix (silence mix_frame_size, false) in
    if other then (id, mixed) ∷ rest else rest

unfoldable pub active_parts : List (String × ConfPart) → List (String × ConfPart)
active_parts [] = []
active_parts ((id, p) ∷ parts) =
    let rest = active_parts parts in if p.active then (id, p) ∷ rest else rest

abbrev pub frames_of : List (String × ConfPart) → List (Option (List ℕ))
frames_of [] = []
frames_of ((id, p) ∷ parts) = p.frame ∷ frames_of parts

-- A tick of the mixer: what is sent, and the room after it.
unfoldable pub mixer_tick : Conference → List (String × List ℕ) × Conference
mixer_tick c =
    let active = active_parts c.parts in
    if length active == 0 then ([], c) else (
      send_mixes 0 active (frames_of active),
      record c { seq = (c.seq + 1) % 2 ^ 16; ts = (c.ts + mix_frame_size) % 2 ^ 32 },
    )
