-- ===== src/Voicemail/Delivery.antt =====
-- The way of a message through ocnserver/internal/voicemail: recorder.go, manager.go, ogg.go, and the
-- mailbox of the store.
use open_carrier_network.Prelude.{ℕ, Bool, not, ◌||◌, true, false, Option, none, some, List, []}
use open_carrier_network.Prelude.{◌∷◌, String, Text, length, ◌==◌, nat_eq, text_eq, string_eq}
use open_carrier_network.Prelude.{if-when, ◌>>=◌, bind-when, ◌≡◌, subst, ◌⊎◌, inl, inr}
use open_carrier_network.Prelude.{arith, beq_refl}
use open_carrier_network.Store.Tables.{Database, VoicemailRow}
use open_carrier_network.Store.Mailbox.{store_voicemail, has_mail, get_voicemail, find_mail}
use open_carrier_network.Voicemail.Frames.{serialize_frames}
use open_carrier_network.Voicemail.Ogg.{id_header, comment_header}
use open_carrier_network.Voicemail.Packing.{deserialize-serialize_frames}
use open_carrier_network.Voicemail.Paging.{Page}
use open_carrier_network.Voicemail.Playback.{ArePackets, IsPlayable, file_page, frame_pages}
use open_carrier_network.Voicemail.Playback.{build_ogg-IsPlayable}
use open_carrier_network.Voicemail.Recorder.{Turn, record_loop, max_frames, kept_frames}
use open_carrier_network.Voicemail.Manager.{Crypt, Manager, mailbox_key, store_message, render_ogg}
use open_carrier_network.Voicemail.Recall.{
  left_of, kept_frames-left_of, ArePackets-left_of, AreSmall, AreShort-ArePackets,
}
use open_carrier_network.Voicemail.Recall.{
  record_loop-ArePackets, IsReversible, Holds, IsReady, IsSeed,
}
use open_carrier_network.Voicemail.Recall.{restart}
use open_carrier_network.Voicemail.Secrets.{IsKeyed, mailbox_key-IsKeyed, mailbox_key-restart}

-- The pages of a file with these frames.
abbrev pub ogg_pages : List Text → List Page
ogg_pages frames = file_page 2 0 0 id_header ∷ file_page 0 0 1 comment_header ∷ frame_pages 0 frames

module _ (c : Crypt) (id : String) (recipient : Text) where
  -- What the recipient is played, after a restart of the server.
  abbrev pub playback : Option Text → Manager → Option Text
  playback random m =
      get_voicemail m.db id recipient >>= λ row. render_ogg c random recipient row (restart m)

  -- Why a message with these frames has not been stored: it has no frame, there is no key of the
  -- mailbox, the sealing under this key failed, or the INSERT did.
  abbrev pub IsLost : Option Text → Bool → List Text → Manager → Type 0
  IsLost random answers frames m =
      ((length frames == 0) ≡ true)
      ⊎ ((mailbox_key c random recipient m ≡ none)
          ⊎ (((n : Manager) × (key : Text) × (mailbox_key c random recipient m ≡ some (n, key))
                × (c.encrypt key (serialize_frames frames) ≡ none))
              ⊎ ((not answers || has_mail id m.db.voicemail) ≡ true)))

  -- Where a message has been stored, the recipient is played these frames.
  abbrev pub IsRecalled :
      Option Text → Option Text → Bool → List Text → Manager → Option Manager → Type 0
  IsRecalled random again answers frames m none = IsLost random answers frames m
  IsRecalled random again answers frames m (some n) =
      IsPlayable (ogg_pages frames) (playback again n)

  abbrev mail : Text → Text → Text → ℕ → ℕ → VoicemailRow
  mail caller name blob duration now = record {
    id = id;
    caller_number = caller;
    caller_name = name;
    recipient_number = recipient;
    encrypted_audio = blob;
    duration_seconds = duration;
    listened = false;
    created_at = now;
  }

  -- The mailboxes with a new message in front.
  abbrev with_mail : Database → VoicemailRow → Database
  with_mail db row = record db { voicemail = row ∷ db.voicemail }

  get_voicemail-with_mail :
      (db : Database) (caller name blob : Text) (duration now : ℕ)
      → get_voicemail (with_mail db (mail caller name blob duration now)) id recipient
        ≡ some (mail caller name blob duration now)
  unfolding get_voicemail find_mail
  get_voicemail-with_mail db caller name blob duration now =
      ground (arith, beq_refl id, beq_refl recipient)

  -- The playback of a message that is sealed under the key of its mailbox.
  playback-with_mail :
      (random : Option Text) (frames : List Text) (m : Manager) (caller name blob secret : Text)
      (duration now : ℕ)
      → IsReversible c
      → Holds c secret m.settings
      → ArePackets frames
      → (length frames == 0) ≡ false
      → c.encrypt (c.derive_key secret recipient) (serialize_frames frames) ≡ some blob
      → IsPlayable
          (ogg_pages frames)
          (playback random (record m { db = with_mail m.db (mail caller name blob duration now) }))
  unfolding render_ogg
  playback-with_mail random frames m caller name blob secret duration now (opens, _) held h
        some_left sealed =
      rw
        (
          get_voicemail-with_mail m.db caller name blob duration now,
          mailbox_key-restart c random recipient secret stored held,
          opens (c.derive_key secret recipient) (serialize_frames frames) blob sealed,
          deserialize-serialize_frames frames (AreShort-ArePackets frames h),
          some_left,
        )
        (build_ogg-IsPlayable frames h)
    where
      stored : Manager
      stored = record m { db = with_mail m.db (mail caller name blob duration now) }

  store_message-IsRecalled :
      (random again : Option Text) (answers : Bool) (now : ℕ) (caller name : Text)
      (frames : List Text) (m : Manager)
      → IsReversible c
      → IsSeed c random
      → IsReady c m.master m.settings
      → ArePackets frames
      → IsRecalled random again answers frames m
          (store_message c random answers id now recipient caller name frames m)
  unfolding store_message store_voicemail
  store_message-IsRecalled random again answers now caller name frames m sound seed ready h =
      if-when Recalled (length frames == 0) none _ (λ empty. inl empty)
        (λ some_left.
          bind-when Recalled (mailbox_key c random recipient m) _ (λ failed. inr (inl failed))
            (λ (n, key) keyed.
              let (secret, derived, held, same) =
                subst (IsKeyed c recipient m) keyed
                  (mailbox_key-IsKeyed c random recipient m sound seed ready) in
              bind-when Recalled (c.encrypt key (serialize_frames frames)) _
                (λ failed. inr (inr (inl (n, key, keyed, failed))))
                (λ blob sealed.
                  bind-when Recalled
                    (store_voicemail answers n.db id recipient caller name blob _ now) _
                    (λ failed. inr (inr (inr (refused n blob _ same failed))))
                    (λ db stored.
                      subst (λ (d : Database). Recalled (some (record n { db = d })))
                        (stored_as n blob _ db stored)
                        (playback-with_mail again frames n caller name blob secret _ now sound held
                          h some_left (rw derived at sealed))))))
    where
      Recalled : Option Manager → Type 0
      Recalled = IsRecalled random again answers frames m

      refused :
          (n : Manager) (blob : Text) (duration : ℕ)
          → n.db ≡ m.db
          → store_voicemail answers n.db id recipient caller name blob duration now ≡ none
          → (not answers || has_mail id m.db.voicemail) ≡ true
      refused n blob duration same failed =
          subst (λ (d : Database). (not answers || has_mail id d.voicemail) ≡ true) same
            (ground arith)

      stored_as :
          (n : Manager) (blob : Text) (duration : ℕ) (db : Database)
          → store_voicemail answers n.db id recipient caller name blob duration now ≡ some db
          → with_mail n.db (mail caller name blob duration now) ≡ db
      stored_as n blob duration db stored = ground arith

-- A caller's message reaches its recipient: whatever the call brought in (hangups, errors, packets of
-- other kinds, at most 65024 bytes each), the frames that the loop has recorded are stored without the
-- silence at their end (with it, where no decoder could be made), sealed, and the recipient is played
-- exactly those frames, in order, as an Ogg file, even after a restart of the server. The message is lost
-- only if nothing is left of it, if there is no secret and so no key of the mailbox, if the sealing under
-- this key failed, or if the INSERT failed. What was sealed opens again, what was encoded decodes, and
-- the secret is the one in the settings.
pub playback-store_message {ℓ} :
    {D : Type ℓ} (decode : D → Text → Option (List ℕ) × D) (dec : Option D) (c : Crypt)
    (id : String) (recipient : Text) (random again : Option Text) (answers : Bool)
    (configured now : ℕ) (caller name : Text) (turns : List Turn) (m : Manager)
    → IsReversible c
    → IsSeed c random
    → IsReady c m.master m.settings
    → AreSmall turns
    → let frames = (record_loop (max_frames configured) turns []).0 in
      IsRecalled c id recipient random again answers (left_of decode dec frames) m (
        store_message c random answers id now recipient caller name
          (kept_frames decode dec frames)
          m)
playback-store_message decode dec c id recipient random again answers configured now caller name
      turns m sound seed ready small =
    rw (kept_frames-left_of decode dec frames) (
      store_message-IsRecalled c id recipient random again answers now caller name
        (left_of decode dec frames) m sound seed ready
        (ArePackets-left_of decode dec frames
          (record_loop-ArePackets (max_frames configured) turns [] small tt)))
  where
    frames : List Text
    frames = (record_loop (max_frames configured) turns []).0
