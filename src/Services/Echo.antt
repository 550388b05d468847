-- ===== src/Services/Echo.antt =====
-- ocnserver/internal/services/echo.go: the service that speaks a phrase, and then echoes or holds the call.
-- What WebRTC answers comes from outside; a call is known by its id alone.
use open_carrier_network.Prelude.{
  ℕ, ◌+◌, ◌%◌, ◌^◌, Bool, true, false, not, Option, none, some, List, [], ◌∷◌, ◌++◌, String, Text,
  codes, map, ◌==◌, nat_eq, text_eq, string_eq, if◌then◌else◌, take,
}
use open_carrier_network.Prelude.{◌/◌, ltb}
use open_carrier_network.Services.Speech.{runes}
use open_carrier_network.Prelude.Table.{Table, lookup, insert, delete}

pub record EchoService : Type 0 where
  pub code : Text
  pub name : Text
  pub phrase : Text
  pub echo : Bool
  pub whoami : Bool
  pub calls : Table String (Unit {0})
  pub caller : Table String Text

-- rtp.Packet, of version 2
pub record Packet : Type 0 where
  pub marker : Bool
  pub payload_type : ℕ
  pub sequence_number : ℕ
  pub timestamp : ℕ
  pub ssrc : ℕ
  pub payload : Text

-- NewEchoService, NewNumberAnnounceService and NewAnnouncementService
abbrev pub new_echo_service : EchoService
new_echo_service = record {
  code = codes "*01";
  name = codes "Echo Test";
  phrase = codes "Welcome to OpenCarrier Network's Echo Service";
  echo = true;
  whoami = false;
  calls = [];
  caller = [];
}

abbrev pub new_number_announce_service : EchoService
new_number_announce_service = record {
  code = codes "*02";
  name = codes "My Number";
  phrase = codes "Welcome to OpenCarrier Network";
  echo = false;
  whoami = true;
  calls = [];
  caller = [];
}

abbrev new_announcement_service : Text → Text → EchoService
new_announcement_service name phrase = record {
  code = [];
  name = name;
  phrase = phrase;
  echo = false;
  whoami = false;
  calls = [];
  caller = [];
}

unfoldable pub set_caller : String → Text → EchoService → EchoService
set_caller id full_number e = record e { caller = insert id full_number e.caller }

-- strings.TrimRight(s, " ")
unfoldable pub trim_right : Text → Text
trim_right [] = []
trim_right (c ∷ s) =
    let rest = trim_right s in if rest == [] then (if c == b' ' then [] else c ∷ []) else c ∷ rest

-- WriteRune
abbrev pub write_rune : ℕ → Text
write_rune r =
    if ltb r 0x80
    then r ∷ []
    else if ltb r 0x800
    then (0xc0 + r / 64) ∷ (0x80 + r % 64) ∷ []
    else if ltb r 0x10000
    then (0xe0 + r / 4096) ∷ (0x80 + r / 64 % 64) ∷ (0x80 + r % 64) ∷ []
    else (0xf0 + r / 262144) ∷ (0x80 + r / 4096 % 64) ∷ (0x80 + r / 64 % 64) ∷ (0x80 + r % 64) ∷ []

-- The loop of spokenNumber over the runes.
unfoldable pub spoken_loop : List ℕ → Text
spoken_loop [] = []
spoken_loop (r ∷ full) =
    let rest = spoken_loop full in
    if r == b'-' then b',' ∷ b' ' ∷ rest else write_rune r ++ (b' ' ∷ rest)

unfoldable pub spoken_number : Text → Text
spoken_number full = trim_right (spoken_loop (runes 0 full))

-- The phrase that a call begins with.
unfoldable pub call_phrase : String → EchoService → Text
call_phrase id e =
    let num : Text = elim (lookup id e.caller) [ none ↦ [] | some full ↦ full ] in
    if e.whoami
    then (if not (num == [])
        then codes "Your OpenCarrier Network number is " ++ spoken_number num
        else e.phrase)
    else e.phrase

-- HandleCall, for a peer connection that was made, and what the negotiation answers.
unfoldable pub echo_call : Bool → String → EchoService → EchoService × Bool
echo_call negotiates id e =
    let joined : EchoService = record e { calls = insert id tt e.calls } in
    if negotiates then (joined, true) else (record joined { calls = delete id joined.calls }, false)

-- The loop over the frames of the phrase.
unfoldable pub welcome_packets : ℕ → ℕ → List Text → List Packet
welcome_packets seq_num timestamp [] = []
welcome_packets seq_num timestamp (frame ∷ frames) =
    record {
      marker = true;
      payload_type = 111;
      sequence_number = seq_num;
      timestamp = timestamp;
      ssrc = 12345;
      payload = frame;
    }
    ∷ welcome_packets ((seq_num + 1) % 2 ^ 16) ((timestamp + 960) % 2 ^ 32) frames

abbrev echo_packet : Packet → Packet
echo_packet pkt = record pkt { ssrc = 54321 }

-- What the handler of OnTrack writes on a call that lasts for so many packets: the frames of the phrase,
-- none where it could not be spoken, and in echo mode the packets that are read.
unfoldable pub on_track : ℕ → EchoService → Option (List Text) → List Packet → List Packet
on_track lasts e frames received =
    let welcome : List Packet = elim frames [ none ↦ [] | some fs ↦ welcome_packets 0 0 fs ] in
    take lasts (welcome ++ (if e.echo then map echo_packet received else []))

unfoldable pub end_call : String → EchoService → EchoService
end_call id e = elim (lookup id e.calls) [
  | none ↦ e
  | some _ ↦ record e { calls = delete id e.calls; caller = delete id e.caller }
]
