-- ===== src/Voicemail/Playback.antt =====
-- BuildOgg of ocnserver/internal/voicemail/ogg.go, beside the reader of Ogg pages.
use open_carrier_network.Prelude.{ℕ, ◌+◌, ◌*◌, ◌%◌, ◌^◌, ◌<◌}
use open_carrier_network.Prelude.{◌≡◌, refl, sym, subst, ◌∙◌, arith}
use open_carrier_network.Prelude.{List, [], ◌∷◌, ◌++◌, Option, none, some, ◌>>=◌, Text, length}
use open_carrier_network.Prelude.{if◌then◌else◌, ◌==◌, nat_eq}
use mathlib.Core.List.{append_assoc, append-nil}
use open_carrier_network.Voicemail.Ogg.{OggWriter, write_frames, build_ogg, frame_size}
use open_carrier_network.Voicemail.Ogg.{id_header, comment_header, ogg_writer}
use open_carrier_network.Voicemail.Paging.{Page, read_page, page_bytes, after_page, IsPacket}
use open_carrier_network.Voicemail.Paging.{read_page-page_bytes, write_page-fits}

-- The bytes are these pages, one behind the other, and nothing else.
abbrev pub IsFile : List Page → Text → Type 0
IsFile [] bytes = bytes ≡ []
IsFile (p ∷ pages) bytes = (rest : Text) × (read_page bytes ≡ some (p, rest)) × IsFile pages rest

abbrev pub file_page : ℕ → ℕ → ℕ → Text → Page
file_page flags granule seq packet = record {
  flags = flags;
  granule = granule;
  serial = 0x4f434e31;
  seq = seq;
  packet = packet;
}

-- One page for each frame, 960 samples long, and a mark on the last.
abbrev pub frame_pages : ℕ → List Text → List Page
frame_pages i [] = []
frame_pages i (f ∷ fs) =
    let flags = if length fs == 0 then 4 else 0 in
    file_page flags ((i + 1) * frame_size % 2 ^ 64) ((i + 2) % 2 ^ 32) f ∷ frame_pages (i + 1) fs

abbrev pub ArePackets : List Text → Type 0
ArePackets [] = Unit
ArePackets (f ∷ fs) = IsPacket f × ArePackets fs

-- A writer that has written so many pages.
abbrev HasWritten : ℕ → OggWriter → Type 0
HasWritten n w = (w.serial ≡ 0x4f434e31) × (w.seq ≡ n % 2 ^ 32)

-- What a writer has put behind the bytes that it had.
abbrev Appends : OggWriter → List Page → Option OggWriter → Type 0
Appends w pages none = ⊥
Appends w pages (some v) = (more : Text) × (v.buf ≡ w.buf ++ more) × IsFile pages more

IsFile-page :
    (w : OggWriter) (n flags granule : ℕ) (packet more : Text) (pages : List Page)
    → HasWritten n w
    → granule < 2 ^ 64
    → IsPacket packet
    → IsFile pages more
    → IsFile
        (file_page flags granule (n % 2 ^ 32) packet ∷ pages)
        (page_bytes w flags granule packet ++ more)
IsFile-page w n flags granule packet more pages (hs, hq) hg (_, fits) h = (
  more,
  read_page-page_bytes w flags granule packet more hg (omega arith) (omega arith) fits
      ∙ rw (hs, hq) refl,
  h,
)

-- A page, and what the rest of the loop appends.
Appends-page :
    (w : OggWriter) (n flags granule : ℕ) (packet : Text) (pages : List Page) (r : Option OggWriter)
    → HasWritten n w
    → granule < 2 ^ 64
    → IsPacket packet
    → Appends (after_page w flags granule packet) pages r
    → Appends w (file_page flags granule (n % 2 ^ 32) packet ∷ pages) r
Appends-page w n flags granule packet pages none hw hg hp h = h
Appends-page w n flags granule packet pages (some v) hw hg hp (more, same, file) = (
  page_bytes w flags granule packet ++ more,
  same ∙ append_assoc w.buf (page_bytes w flags granule packet) more,
  IsFile-page w n flags granule packet more pages hw hg hp file,
)

abbrev flags_of : List Text → ℕ
flags_of fs = if length fs == 0 then 4 else 0

abbrev granule_of : ℕ → ℕ
granule_of i = (i + 1) * frame_size % 2 ^ 64

pub write_frames_step :
    (i : ℕ) (f : Text) (fs : List Text) (w : OggWriter)
    → IsPacket f
    → write_frames i (f ∷ fs) w
      ≡ write_frames (i + 1) fs (after_page w (flags_of fs) (granule_of i) f)
unfolding write_frames
write_frames_step i f fs w h =
    rw (write_frames, write_page-fits f (flags_of fs) (granule_of i) w h) refl

write_frames-Appends :
    (frames : List Text) (i : ℕ) (w : OggWriter)
    → HasWritten (i + 2) w
    → ArePackets frames
    → Appends w (frame_pages i frames) (write_frames i frames w)
unfolding write_frames
write_frames-Appends [] i w hw h = ([], sym (append-nil w.buf), refl)
write_frames-Appends (f ∷ fs) i w hw (h, hs) =
    subst (Appends w (frame_pages i (f ∷ fs))) (sym (write_frames_step i f fs w h)) (
      Appends-page w (i + 2) (flags_of fs) (granule_of i) f (frame_pages (i + 1) fs) _ hw
        (omega arith) h
        (write_frames-Appends fs (i + 1) (after_page w (flags_of fs) (granule_of i) f) next hs))
  where
    next : HasWritten (i + 1 + 2) (after_page w (flags_of fs) (granule_of i) f)
    next = (hw.0, omega arith)

-- Both headers fit.
pub id_header-IsPacket : IsPacket id_header
id_header-IsPacket = (omega arith, omega arith)

pub comment_header-IsPacket : IsPacket comment_header
comment_header-IsPacket = (omega arith, omega arith)

abbrev pub IsPlayable : List Page → Option Text → Type 0
IsPlayable pages none = ⊥
IsPlayable pages (some file) = IsFile pages file

IsPlayable-Appends :
    (w : OggWriter) (pages : List Page) (r : Option OggWriter)
    → w.buf ≡ []
    → Appends w pages r
    → IsPlayable pages (r >>= λ v. some v.buf)
IsPlayable-Appends w pages none e h = h
IsPlayable-Appends w pages (some v) e (more, same, file) =
    subst (IsFile pages) (sym (rw e at same)) file

-- BuildOgg makes a file of every message whose frames have each from 1 to 65024 bytes. A reader that
-- checks every checksum finds in it the two headers and then the frames, unchanged and in order, one
-- to a page: pages are numbered from 0, a frame ends 960 samples after the one before, and the last is
-- marked as the end.
pub build_ogg-IsPlayable :
    (frames : List Text)
    → ArePackets frames
    → IsPlayable
        (file_page 2 0 0 id_header ∷ file_page 0 0 1 comment_header ∷ frame_pages 0 frames)
        (build_ogg frames)
unfolding build_ogg
build_ogg-IsPlayable frames h =
    rw
      (
        write_page-fits id_header 2 0 ogg_writer id_header-IsPacket,
        write_page-fits comment_header 0 0 headed comment_header-IsPacket,
      )
      (IsPlayable-Appends ogg_writer (file_page 2 0 0 id_header ∷ pages) written refl (
        Appends-page ogg_writer 0 2 0 id_header pages written (refl, refl) (omega arith)
          id_header-IsPacket
          (Appends-page headed 1 0 0 comment_header (frame_pages 0 frames) written (refl, refl)
            (omega arith) comment_header-IsPacket
            (write_frames-Appends frames 0 tagged (refl, refl) h))))
  where
    headed : OggWriter
    headed = after_page ogg_writer 2 0 id_header

    tagged : OggWriter
    tagged = after_page headed 0 0 comment_header

    written : Option OggWriter
    written = write_frames 0 frames tagged

    pages : List Page
    pages = file_page 0 0 1 comment_header ∷ frame_pages 0 frames
