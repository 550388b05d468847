-- ===== src/Signaling/Safety/Visual.antt =====
-- `IsSound` through visual voicemail.
use open_carrier_network.Prelude.{
  ℕ, not, ◌||◌, Option, none, some, String, Text, ◌==◌, text_eq, string_eq, if-by, Option-by,
}
use open_carrier_network.Prelude.Table.{lookup}
use open_carrier_network.Store.Tables.{User, VoicemailRow}
use open_carrier_network.Signaling.State.{Env, Server}
use open_carrier_network.Signaling.Send.{find_user}
use open_carrier_network.Signaling.Visual.{
  play_back, handle_voicemail_list, handle_voicemail_get, handle_voicemail_delete,
  handle_voicemail_mark_read, push_stored, notify_voicemail_stored,
}
use open_carrier_network.Signaling.Safety.Parts.{
  IsSound, send_message-IsSound, send_error-IsSound, act-IsSound,
}

pub handle_voicemail_list-IsSound :
    (env : Env) (srv : Server) (client : ℕ)
    → IsSound srv
    → IsSound (handle_voicemail_list env srv client)
unfolding handle_voicemail_list
handle_voicemail_list-IsSound env srv client k = Option-by IsSound (srv.at client).user _ _ k λ u _.
    if-by IsSound (not env.db_ok) _ _ (send_error-IsSound srv client 500 _ k)
      (send_message-IsSound srv client _ k)

play_back-IsSound :
    (env : Env) (srv : Server) (client : ℕ) (u : User) (row : Option VoicemailRow)
    → IsSound srv
    → IsSound (play_back env srv client u row)
play_back-IsSound env srv client u none k = send_error-IsSound srv client 404 _ k
play_back-IsSound env srv client u (some msg) k =
    Option-by IsSound (env.render u.number msg) _ _ (send_error-IsSound srv client 500 _ k)
      λ ogg _. send_message-IsSound srv client _ k

pub handle_voicemail_get-IsSound :
    (env : Env) (srv : Server) (client : ℕ) (id : String)
    → IsSound srv
    → IsSound (handle_voicemail_get env srv client id)
unfolding handle_voicemail_get
handle_voicemail_get-IsSound env srv client id k =
    Option-by IsSound (srv.at client).user _ _ k λ u _.
      if-by IsSound (not srv.vm_enabled) _ _ (send_error-IsSound srv client 503 _ k)
        (play_back-IsSound env srv client u _ k)

pub handle_voicemail_delete-IsSound :
    (srv : Server) (client : ℕ) (id : String)
    → IsSound srv
    → IsSound (handle_voicemail_delete srv client id)
unfolding handle_voicemail_delete
handle_voicemail_delete-IsSound srv client id k =
    Option-by IsSound (srv.at client).user _ _ k
      λ u _. record { registered = k.registered; rung = k.rung; bounded = k.bounded }

pub handle_voicemail_mark_read-IsSound :
    (srv : Server) (client : ℕ) (id : String)
    → IsSound srv
    → IsSound (handle_voicemail_mark_read srv client id)
unfolding handle_voicemail_mark_read
handle_voicemail_mark_read-IsSound srv client id k =
    Option-by IsSound (srv.at client).user _ _ k
      λ u _. record { registered = k.registered; rung = k.rung; bounded = k.bounded }

push_stored-IsSound :
    (srv : Server) (caller name : Text) (found : Option (Option User))
    → IsSound srv
    → IsSound (push_stored srv caller name found)
push_stored-IsSound srv caller name (some (some u)) k =
    if-by IsSound ((u.fcm_token == "") || not srv.has_pusher) _ _ k (act-IsSound _ srv k)
push_stored-IsSound srv caller name (some none) k = k
push_stored-IsSound srv caller name none k = k

pub notify_voicemail_stored-IsSound :
    (env : Env) (srv : Server) (recipient caller name : Text)
    → IsSound srv
    → IsSound (notify_voicemail_stored env srv recipient caller name)
unfolding notify_voicemail_stored
notify_voicemail_stored-IsSound env srv recipient caller name k =
    Option-by IsSound (lookup recipient srv.clients) _ _
      (push_stored-IsSound srv caller name (find_user env srv recipient) k)
      λ c _. send_message-IsSound srv c _ k
