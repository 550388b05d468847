-- ===== src/Store/Mailbox.antt =====
-- ocnserver/internal/store/voicemail.go: stored voicemail, scoped to its recipient.
use open_carrier_network.Prelude.{
  ℕ, ◌+◌, Bool, true, false, not, ◌&&◌, ◌||◌, Option, none, some, List, [], ◌∷◌, String, Text, ◌==◌,
  text_eq, string_eq, if◌then◌else◌, leb,
}
use open_carrier_network.Store.Tables.{VoicemailRow, Database}

-- WHERE id = ? AND recipient_number = ?
abbrev pub is_mail : String → Text → VoicemailRow → Bool
is_mail id recipient v = (v.id == id) && (v.recipient_number == recipient)

unfoldable pub has_mail : String → List VoicemailRow → Bool
has_mail id [] = false
has_mail id (v ∷ vs) = v.id == id || has_mail id vs

-- StoreVoicemail, for an id that uuid has made: `none` is the error of the INSERT, where the database
-- does not answer, or where a row of the id is there.
unfoldable pub store_voicemail :
    Bool → Database → String → Text → Text → Text → List ℕ → ℕ → ℕ → Option Database
unfolding has_mail
store_voicemail answers db id recipient caller name audio duration now =
    if not answers || has_mail id db.voicemail
    then none
    else some (record db { voicemail = mail ∷ db.voicemail })
  where
    mail : VoicemailRow
    mail = record {
      id = id;
      caller_number = caller;
      caller_name = name;
      recipient_number = recipient;
      encrypted_audio = audio;
      duration_seconds = duration;
      listened = false;
      created_at = now;
    }

unfoldable pub find_mail : String → Text → List VoicemailRow → Option VoicemailRow
find_mail id recipient [] = none
find_mail id recipient (v ∷ vs) =
    if is_mail id recipient v then some v else find_mail id recipient vs

-- GetVoicemail
unfoldable pub get_voicemail : Database → String → Text → Option VoicemailRow
unfolding find_mail
get_voicemail db id recipient = find_mail id recipient db.voicemail

unfoldable pub listen_rows : String → Text → List VoicemailRow → List VoicemailRow
listen_rows id recipient [] = []
listen_rows id recipient (v ∷ vs) =
    (if is_mail id recipient v then record v { listened = true } else v)
    ∷ listen_rows id recipient vs

-- MarkListened
unfoldable pub mark_listened : Database → String → Text → Database
unfolding listen_rows
mark_listened db id recipient = record db { voicemail = listen_rows id recipient db.voicemail }

unfoldable pub drop_mail : String → Text → List VoicemailRow → List VoicemailRow
drop_mail id recipient [] = []
drop_mail id recipient (v ∷ vs) =
    let rest = drop_mail id recipient vs in if is_mail id recipient v then rest else v ∷ rest

-- DeleteVoicemail
unfoldable pub delete_voicemail : Database → String → Text → Database
unfolding drop_mail
delete_voicemail db id recipient = record db { voicemail = drop_mail id recipient db.voicemail }

unfoldable pub count_rows : Text → List VoicemailRow → ℕ
count_rows recipient [] = 0
count_rows recipient (v ∷ vs) =
    let rest = count_rows recipient vs in
    if (v.recipient_number == recipient) && not v.listened then rest + 1 else rest

-- CountUnlistened
unfoldable pub count_unlistened : Database → Text → ℕ
unfolding count_rows
count_unlistened db recipient = count_rows recipient db.voicemail

-- ORDER BY created_at DESC
unfoldable pub insert_newest : VoicemailRow → List VoicemailRow → List VoicemailRow
insert_newest v [] = v ∷ []
insert_newest v (w ∷ ws) =
    let rest = insert_newest v ws in if leb w.created_at v.created_at then v ∷ w ∷ ws else w ∷ rest

-- ListVoicemails; ListVoicemailMeta reads the same rows without their audio.
unfoldable pub list_rows : Text → List VoicemailRow → List VoicemailRow
list_rows recipient [] = []
list_rows recipient (v ∷ vs) =
    let rest = list_rows recipient vs in
    if v.recipient_number == recipient then insert_newest v rest else rest

unfoldable pub list_voicemails : Database → Text → List VoicemailRow
list_voicemails db recipient = list_rows recipient db.voicemail
