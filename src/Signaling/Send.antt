-- ===== src/Signaling/Send.antt =====
-- The helpers of server.go that the handlers share: sendMessage, sendError, clearCallID,
-- endForClient, isOnline.
use open_carrier_network.Prelude.{
  ℕ, Bool, false, Option, none, some, List, [], ◌∷◌, ◌++◌, String, Text, ◌==◌, nat_eq, text_eq,
  string_eq, if◌then◌else◌, ltb, length,
}
use open_carrier_network.Prelude.Table.{lookup}
use open_carrier_network.Store.Tables.{User}
use open_carrier_network.Store.Users.{get_user_by_number}
use open_carrier_network.Signaling.Messages.{ServerMessage, call_ended, error}
use open_carrier_network.Signaling.State.{Client, Effect, Env, Server}

-- A write through a pointer.
abbrev pub update : (ℕ → Client) → ℕ → Client → ℕ → Client
update f c v d = if c == d then v else f d

-- The capacity of `sendCh`.
abbrev pub send_cap : ℕ
send_cap = 64

-- The select of sendMessage: a message that does not fit is dropped.
unfoldable pub enqueue : List ServerMessage → ServerMessage → List ServerMessage
enqueue q msg = if ltb (length q) send_cap then q ++ (msg ∷ []) else q

-- sendMessage
unfoldable pub send_message : Server → ℕ → ServerMessage → Server
unfolding enqueue
send_message srv c msg = record srv {
  at = update srv.at c (record (srv.at c) { send_ch = enqueue (srv.at c).send_ch msg });
}

-- sendError
unfoldable pub send_error : Server → ℕ → ℕ → String → Server
unfolding send_message
send_error srv c code text = send_message srv c (error code text)

-- client.callID = callID
unfoldable pub set_call_id : Server → ℕ → String → Server
set_call_id srv c call_id = record srv {
  at = update srv.at c (record (srv.at c) { call_id = call_id });
}

-- clearCallID
unfoldable pub clear_call_id : Server → ℕ → String → Server
unfolding set_call_id
clear_call_id srv c call_id = if (srv.at c).call_id == call_id then set_call_id srv c "" else srv

-- endForClient
unfoldable pub end_for_client : Server → ℕ → String → String → Server
unfolding clear_call_id send_message
end_for_client srv c call_id reason =
    send_message (clear_call_id srv c call_id) c (call_ended call_id reason)

-- srv.clients[number] == client
unfoldable pub holds_number : Server → ℕ → Option User → Bool
unfolding lookup
holds_number srv c none = false
holds_number srv c (some u) = elim (lookup u.number srv.clients) [ none ↦ false | some d ↦ d == c ]

-- isOnline
unfoldable pub is_online : Server → Option ℕ → Bool
unfolding holds_number
is_online srv none = false
is_online srv (some c) = holds_number srv c (srv.at c).user

-- Something done outside the server.
abbrev pub act : Effect → Server → Server
act e srv = record srv { effects = e ∷ srv.effects }

-- srv.store.GetUserByNumber: `none` is a failure of the database.
unfoldable pub find_user : Env → Server → Text → Option (Option User)
unfolding get_user_by_number
find_user env srv number = if env.db_ok then some (get_user_by_number srv.db number) else none
