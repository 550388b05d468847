-- ===== src/Signaling/Visual.antt =====
-- Visual voicemail of ocnserver/internal/signaling/server.go: the list, the playback, and the note to a
-- recipient that a message has come.
use open_carrier_network.Prelude.{
  ℕ, not, ◌||◌, Option, none, some, String, Text, map, ◌==◌, string_eq, text_eq, if◌then◌else◌,
}
use open_carrier_network.Prelude.Table.{lookup}
use open_carrier_network.Store.Tables.{User, VoicemailRow}
use open_carrier_network.Store.Mailbox.{
  get_voicemail, count_unlistened, list_voicemails, mark_listened, delete_voicemail,
}
use open_carrier_network.Signaling.Messages.{
  VoicemailInfo, voicemail_list_response, voicemail_get_response, voicemail_event,
}
use open_carrier_network.Signaling.State.{Env, Server, push_voicemail}
use open_carrier_network.Signaling.Send.{send_message, send_error, act, find_user}

abbrev pub info_of : VoicemailRow → VoicemailInfo
info_of v = record {
  id = v.id;
  caller_number = v.caller_number;
  caller_name = v.caller_name;
  duration_seconds = v.duration_seconds;
  listened = v.listened;
  created_at = v.created_at;
}

-- handleVoicemailList
unfoldable pub handle_voicemail_list : Env → Server → ℕ → Server
handle_voicemail_list env srv client = elim (srv.at client).user [
  | none ↦ srv
  | some u ↦
      if not env.db_ok
      then send_error srv client 500 "failed to list voicemail"
      else send_message srv client (
          voicemail_list_response (map info_of (list_voicemails srv.db u.number))
            (count_unlistened srv.db u.number))
]

-- The end of handleVoicemailGet, for what the mailbox has under the identifier.
abbrev pub play_back : Env → Server → ℕ → User → Option VoicemailRow → Server
play_back env srv client u none = send_error srv client 404 "voicemail not found"
play_back env srv client u (some msg) = elim (env.render u.number msg) [
  | none ↦ send_error srv client 500 "failed to load voicemail"
  | some ogg ↦ send_message srv client (voicemail_get_response msg.id ogg)
]

-- handleVoicemailGet; the audio is the Ogg file before its base64.
unfoldable pub handle_voicemail_get : Env → Server → ℕ → String → Server
handle_voicemail_get env srv client id = elim (srv.at client).user [
  | none ↦ srv
  | some u ↦
      if not srv.vm_enabled
      then send_error srv client 503 "voicemail unavailable"
      else play_back env srv client u (if env.db_ok then get_voicemail srv.db id u.number else none)
]

-- handleVoicemailDelete
unfoldable pub handle_voicemail_delete : Server → ℕ → String → Server
handle_voicemail_delete srv client id = elim (srv.at client).user [
  | none ↦ srv
  | some u ↦ record srv { db = delete_voicemail srv.db id u.number }
]

-- handleVoicemailMarkRead
unfoldable pub handle_voicemail_mark_read : Server → ℕ → String → Server
handle_voicemail_mark_read srv client id = elim (srv.at client).user [
  | none ↦ srv
  | some u ↦ record srv { db = mark_listened srv.db id u.number }
]

-- The push of NotifyVoicemailStored, for what the lookup of the recipient yields.
abbrev pub push_stored : Server → Text → Text → Option (Option User) → Server
push_stored srv caller name (some (some u)) =
    if (u.fcm_token == "") || not srv.has_pusher
    then srv
    else act (push_voicemail u.fcm_token caller name) srv
push_stored srv caller name _ = srv

-- NotifyVoicemailStored
unfoldable pub notify_voicemail_stored : Env → Server → Text → Text → Text → Server
notify_voicemail_stored env srv recipient caller name = elim (lookup recipient srv.clients) [
  | some c ↦ send_message srv c (voicemail_event caller name (count_unlistened srv.db recipient))
  | none ↦ push_stored srv caller name (find_user env srv recipient)
]
