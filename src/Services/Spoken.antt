-- ===== src/Services/Spoken.antt =====
-- The reader of Ogg files in ocnserver/internal/services/tts.go, beside the writer of voicemail/ogg.go.
use open_carrier_network.Prelude.{
  ℕ, zero, suc, ◌+◌, ◌%◌, ◌<◌, true, false, Option, none, some, List, [], ◌∷◌, ◌++◌, Text, text_beq,
  nat_eq, text_eq, if◌then◌else◌, ltb, length, take, ◌≡◌, refl, sym, ap, ◌∙◌, arith, ◌>>=◌, subst,
  take_of_length, drop_of_length, length-append,
}
use mathlib.Core.List.{append_assoc, append-nil}
use open_carrier_network.Voicemail.Ogg.{
  OggWriter, segment_table, page_tail, write_frames, build_ogg, id_header, comment_header,
  ogg_writer,
}
use open_carrier_network.Voicemail.Paging.{
  packet_length, segment_table_lem, page_bytes, after_page, IsPacket, write_page-fits,
}
use open_carrier_network.Voicemail.Playback.{
  ArePackets, write_frames_step, id_header-IsPacket, comment_header-IsPacket,
}
use mathlib.Core.Option.{map}
use open_carrier_network.Services.Speech.{
  Parsed, parsed, is_frame, take_packets, page_data_size, with_frames, parse_loop, parse_ogg_opus,
}

packet_length_more :
    (s t n : ℕ) (segs : Text)
    → packet_length (s ∷ t ∷ segs) ≡ some n
    → (s ≡ 255) × (m : ℕ) × (packet_length (t ∷ segs) ≡ some m) × (255 + m ≡ n)
packet_length_more s t n segs e = ground arith

page_data_size-packet_length :
    (segs : Text) (n : ℕ) → packet_length segs ≡ some n → page_data_size segs ≡ n
page_data_size-packet_length [] n e = ground arith
page_data_size-packet_length (s ∷ []) n e = ground arith
page_data_size-packet_length (s ∷ t ∷ segs) n e =
    let (full, m, told, more) = packet_length_more s t n segs e in
    omega (arith, full, more, page_data_size-packet_length (t ∷ segs) m told)

-- The frames that a packet gives.
abbrev pub frame_of : Text → List Text
frame_of packet = if is_frame packet then packet ∷ [] else []

whole : (n : ℕ) (body : Text) → n ≡ length body → take n body ≡ body
whole n body e =
    rw e (ap (λ (t : Text). take (length body) t) (sym (append-nil body)) ∙ take_of_length body [])

take_packets-packet_length :
    (segs : Text) (n packet_len : ℕ) (body : Text)
    → packet_length segs ≡ some n
    → packet_len + n ≡ length body
    → take_packets segs packet_len body ≡ frame_of body
unfolding take_packets
take_packets-packet_length [] n packet_len body e h = ground arith
take_packets-packet_length (s ∷ []) n packet_len body e h =
    let same : packet_len + s ≡ length body = ground arith in
    let short : ltb s 255 ≡ true = ground arith in
    rw (short, whole (packet_len + s) body same) (ground arith)
take_packets-packet_length (s ∷ t ∷ segs) n packet_len body e h =
    let (full, m, told, more) = packet_length_more s t n segs e in
    let long : ltb s 255 ≡ false = ground arith in
    rw long (take_packets-packet_length (t ∷ segs) m (packet_len + s) body told (omega arith))

-- With enough fuel the bytes are read to their end, as these frames.
abbrev Reads : Text → List Text → Type 0
Reads bytes frames = (fuel : ℕ) → length bytes < fuel → parse_loop fuel bytes ≡ parsed frames

Reads-end : Reads [] []
unfolding parse_loop
Reads-end zero h = absurd (omega arith)
Reads-end (suc fuel) h = refl

-- A page, as far as the reader looks at it.
parse_loop-page :
    (fuel : ℕ) (w : OggWriter) (flags granule : ℕ) (packet rest : Text) (r : Parsed)
    → length packet < 65025
    → parse_loop fuel rest ≡ r
    → parse_loop (suc fuel) (page_bytes w flags granule packet ++ rest)
      ≡ with_frames (frame_of packet) r
unfolding parse_loop page_tail text_beq
parse_loop-page fuel w flags granule packet rest r h e =
    let (few, told) = segment_table_lem (length packet) in
    let segs : Text = segment_table (length packet) in
    let small : length segs % 256 ≡ length segs = omega (arith, few) in
    let fits : ltb (length (segs ++ (packet ++ rest))) (length segs) ≡ false =
      ground (arith, length-append segs (packet ++ rest)) in
    let full : ltb (length (packet ++ rest)) (length packet) ≡ false =
      ground (arith, length-append packet rest) in
    rw
      (
        append_assoc segs packet rest,
        small,
        take_of_length segs (packet ++ rest),
        drop_of_length segs (packet ++ rest),
        page_data_size-packet_length segs (length packet) told,
        take_of_length packet rest,
        drop_of_length packet rest,
        take_packets-packet_length segs (length packet) 0 packet told (omega arith),
        fits,
        full,
        e,
      )
      refl

length-page :
    (w : OggWriter) (flags granule : ℕ) (packet rest : Text)
    → length rest + 26 < length (page_bytes w flags granule packet ++ rest)
unfolding page_tail
length-page w flags granule packet rest =
    let segs : Text = segment_table (length packet) in
    omega (arith, length-append (segs ++ packet) rest)

Reads-page :
    (w : OggWriter) (flags granule : ℕ) (packet rest : Text) (frames : List Text)
    → length packet < 65025
    → Reads rest frames
    → Reads (page_bytes w flags granule packet ++ rest) (frame_of packet ++ frames)
Reads-page w flags granule packet rest frames h reads zero enough = absurd (omega arith)
Reads-page w flags granule packet rest frames h reads (suc fuel) enough =
    parse_loop-page fuel w flags granule packet rest (parsed frames) h
      (reads fuel (omega (arith, length-page w flags granule packet rest)))

-- What a writer has put behind the bytes that it had is read as these frames.
abbrev Adds : OggWriter → List Text → Option OggWriter → Type 0
Adds w frames none = ⊥
Adds w frames (some v) = (more : Text) × (v.buf ≡ w.buf ++ more) × Reads more frames

Adds-page :
    (w : OggWriter) (flags granule : ℕ) (packet : Text) (frames : List Text) (r : Option OggWriter)
    → IsPacket packet
    → Adds (after_page w flags granule packet) frames r
    → Adds w (frame_of packet ++ frames) r
Adds-page w flags granule packet frames none h adds = adds
Adds-page w flags granule packet frames (some v) (_, fits) (more, same, reads) = (
  page_bytes w flags granule packet ++ more,
  same ∙ append_assoc w.buf (page_bytes w flags granule packet) more,
  Reads-page w flags granule packet more frames fits reads,
)

-- The packets that the reader takes for frames.
abbrev pub frames_in : List Text → List Text
frames_in [] = []
frames_in (f ∷ fs) = frame_of f ++ frames_in fs

write_frames-Adds :
    (frames : List Text) (i : ℕ) (w : OggWriter)
    → ArePackets frames
    → Adds w (frames_in frames) (write_frames i frames w)
unfolding write_frames
write_frames-Adds [] i w h = ([], sym (append-nil w.buf), Reads-end)
write_frames-Adds (f ∷ fs) i w (h, hs) =
    subst (Adds w (frames_in (f ∷ fs))) (sym (write_frames_step i f fs w h))
      (Adds-page w _ _ f (frames_in fs) _ h (write_frames-Adds fs (i + 1) _ hs))

parsed_file :
    (w : OggWriter) (frames : List Text) (r : Option OggWriter)
    → w.buf ≡ []
    → Adds w frames r
    → map parse_ogg_opus (r >>= λ v. some v.buf) ≡ some (parsed frames)
unfolding parse_ogg_opus
parsed_file w frames none e adds = absurd adds
parsed_file w frames (some v) e (more, same, reads) =
    rw (same, e) (ap some (reads (suc (length more)) (omega arith)))

-- The reader of parseOggOpus comes to the end of every file that BuildOgg makes of frames of 1 to 65024
-- bytes, and returns the comment header of the file as the first frame: behind it stand the frames, in
-- order and unchanged, less those that begin like a header.
pub parse_ogg_opus-build_ogg :
    (frames : List Text)
    → ArePackets frames
    → map parse_ogg_opus (build_ogg frames) ≡ some (parsed (comment_header ∷ frames_in frames))
unfolding build_ogg is_frame text_beq
parse_ogg_opus-build_ogg frames h =
    rw
      (
        write_page-fits id_header 2 0 ogg_writer id_header-IsPacket,
        write_page-fits comment_header 0 0 headed comment_header-IsPacket,
      )
      (parsed_file ogg_writer (comment_header ∷ frames_in frames) written refl (
        Adds-page ogg_writer 2 0 id_header (comment_header ∷ frames_in frames) written
          id_header-IsPacket
          (Adds-page headed 0 0 comment_header (frames_in frames) written comment_header-IsPacket
            (write_frames-Adds frames 0 tagged h))))
  where
    headed : OggWriter
    headed = after_page ogg_writer 2 0 id_header

    tagged : OggWriter
    tagged = after_page headed 0 0 comment_header

    written : Option OggWriter
    written = write_frames 0 frames tagged
