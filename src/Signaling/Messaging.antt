-- ===== src/Signaling/Messaging.antt =====
-- Direct messages: handleDMSend, handleDMAck, handleDMAttachmentGet and their helpers in server.go,
-- deliverInboundDM of relaydm.go, and the manager of ocnserver/internal/dm/dm.go, whose encryption is
-- `seal` and `unseal` of the environment.
use open_carrier_network.Prelude.{
  ℕ, ◌+◌, ◌*◌, ◌/◌, Bool, true, false, not, ◌&&◌, ◌||◌, Option, none, some, List, [], ◌∷◌, String,
  Text, codes, text_beq, nat_beq, ◌==◌, text_eq, string_eq, if◌then◌else◌, ltb, length,
}
use open_carrier_network.Prelude.Table.{lookup}
use open_carrier_network.Numbers.{parse_number, canonical_number}
use open_carrier_network.Store.Tables.{User, OutboxRow}
use open_carrier_network.Store.Outbox.{store_dm_preassigned, list_pending_dm, get_dm, delete_dm}
use open_carrier_network.Signaling.Messages.{
  Image, Envelope, ServerMessage, dm_new, dm_status, dm_attachment,
}
use open_carrier_network.Signaling.State.{push_message, Env, Server}
use open_carrier_network.Signaling.Send.{send_message, send_error, act, find_user}

-- DMSend
pub record DmSend : Type 0 where
  pub to : Text
  pub client_id : String
  pub kind : Text
  pub text : Text
  pub image : Option Image

abbrev image_name : Option Image → String
image_name none = ""
image_name (some i) = i.name

abbrev image_mime : Option Image → String
image_mime none = ""
image_mime (some i) = i.mime

-- The "new" event of relayDMMessage; a phone fetches the bytes of an image on its own.
unfoldable pub new_event : Envelope → ServerMessage
new_event env =
    dm_new env.message_id env.from env.from_name env.kind env.text (image_name env.image)
      (image_mime env.image) env.created_at

-- relayDMMessage
unfoldable pub relay_dm_message : Server → Text → Envelope → Server × Bool
unfolding lookup send_message new_event
relay_dm_message srv recipient env = elim (lookup recipient srv.clients) [
  | none ↦ (srv, false)
  | some c ↦ (send_message srv c (new_event env), true)
]

-- Manager.Pending: rows that cannot be read are passed over.
unfoldable pub open_rows : Env → Text → List OutboxRow → List Envelope
open_rows world recipient [] = []
open_rows world recipient (r ∷ rs) =
    let rest = open_rows world recipient rs in
    elim (world.unseal recipient r.envelope) [ none ↦ rest | some env ↦ env ∷ rest ]

unfoldable pub relay_all : Server → Text → List Envelope → Server
unfolding relay_dm_message
relay_all srv recipient [] = srv
relay_all srv recipient (env ∷ rest) =
    relay_all (relay_dm_message srv recipient env).0 recipient rest

-- flushPendingDM
unfoldable pub flush_pending_dm : Env → Server → ℕ → Server
unfolding list_pending_dm open_rows relay_all
flush_pending_dm world srv client = elim (srv.at client).user [
  | none ↦ srv
  | some u ↦
      if srv.has_dm && world.db_ok
      then relay_all srv u.number (open_rows world u.number (list_pending_dm srv.db u.number))
      else srv
]

-- Relay to a phone that is online, or wake the phone: the end of handleDMSend and deliverInboundDM.
unfoldable pub relay_or_push : Server → Text → User → Envelope → Server
unfolding relay_dm_message
relay_or_push srv local callee env =
    let (relayed, online) = relay_dm_message srv local env in
    if online
    then relayed
    else if not (callee.fcm_token == "") && srv.has_pusher
    then act (push_message callee.fcm_token env.from env.from_name) srv
    else srv

-- Manager.Enqueue and EnqueueRemote
unfoldable pub enqueue_dm : Env → Server → Text → Envelope → Option Server
unfolding store_dm_preassigned
enqueue_dm world srv recipient env =
    elim (store_dm_preassigned srv.db env.message_id recipient (world.seal recipient env)
      world.now) [ none ↦ none | some db ↦ some (record srv { db = db }) ]

-- What deliverInboundDM answers to the other exchange.
pub data Delivery : Type 0 where
  accepted messaging_unavailable invalid_recipient not_hosted_here database_error user_not_found
        store_failed :
      Delivery

unfoldable pub deliver_to : Env → Server → Text → Envelope → Server × Delivery
unfolding find_user enqueue_dm relay_or_push
deliver_to world srv local env = elim (find_user world srv local) [
  | none ↦ (srv, database_error)
  | some none ↦ (srv, user_not_found)
  | some (some callee) ↦ elim (enqueue_dm world srv local env) [
    | none ↦ (srv, store_failed)
    | some queued ↦ (relay_or_push queued local callee env, accepted)
  ]
]

-- deliverInboundDM
unfoldable pub deliver_inbound_dm : Env → Server → Envelope → Server × Delivery
unfolding parse_number deliver_to text_beq
deliver_inbound_dm world srv env =
    if not srv.has_dm
    then (srv, messaging_unavailable)
    else elim (parse_number env.to srv.area_code) [
      | none ↦ (srv, invalid_recipient)
      | some (area, local) ↦
          if not (srv.area_code == []) && not (area == srv.area_code)
          then (srv, not_hosted_here)
          else deliver_to world srv local env
    ]

-- unicode.IsSpace on the bytes of ASCII, and strings.TrimSpace(text) == "".
abbrev is_space : ℕ → Bool
is_space c = (ltb 8 c && ltb c 14) || nat_beq c 32

unfoldable pub is_blank : Text → Bool
is_blank [] = true
is_blank (c ∷ cs) = is_space c && is_blank cs

-- dm.MaxImageBytes*4/3 + 8
abbrev pub max_image_b64 : ℕ
max_image_b64 = 4194304 * 4 / 3 + 8

abbrev no_image : Option Image → Bool
no_image none = true
no_image (some i) = text_beq i.b64 []

abbrev image_length : Option Image → ℕ
image_length none = 0
image_length (some i) = length i.b64

-- The guards of handleDMSend on the request, in their order.
unfoldable pub dm_refusal : DmSend → Option (ℕ × String)
unfolding is_blank text_beq
dm_refusal req =
    let is_text = req.kind == codes "text" in
    let is_image = req.kind == codes "image" in
    if req.to == []
    then some (400, "missing destination")
    else if not is_text && not is_image
    then some (400, "invalid message kind")
    else if is_text && is_blank req.text
    then some (400, "empty message")
    else if is_image && no_image req.image
    then some (400, "missing image data")
    else if is_image && ltb max_image_b64 (image_length req.image)
    then some (413, "image too large")
    else none

new_envelope : Env → User → DmSend → Text → Text → Envelope
new_envelope world u req area local = record {
  message_id = world.fresh;
  client_id = req.client_id;
  from = canonical_number u.area_code u.number;
  from_name = u.display_name;
  to = canonical_number area local;
  kind = req.kind;
  text = req.text;
  image = req.image;
  created_at = world.now;
}

-- sendRemoteDM: the error that the sender is told, or `none` when the other exchange has accepted.
unfoldable pub send_remote_dm : Env → Server → Text → Option (ℕ × String)
send_remote_dm world srv area =
    if not srv.has_registry
    then some (501, "cross-server messaging requires federation")
    else elim (world.route area) [
      | none ↦ some (404, "number unreachable (no route)")
      | some addr ↦
          if world.dial_ok addr
          then elim (world.deliver_dm addr) [
            | none ↦ some (502, "delivery failed")
            | some false ↦ some (404, "delivery failed")
            | some true ↦ none
          ]
          else some (502, "delivery failed")
    ]

abbrev refuse_dm : Server → ℕ → ℕ × String → Server
refuse_dm srv client (code, text) = send_error srv client code text

abbrev acknowledge : Server → ℕ → Envelope → Server
acknowledge srv client env =
    send_message srv client (dm_status env.message_id env.client_id "delivered")

-- handleDMSend for a line of this exchange.
unfoldable pub send_local_dm : Env → Server → ℕ → Text → Envelope → Server
unfolding find_user enqueue_dm relay_or_push send_message send_error
send_local_dm world srv client local env = elim (find_user world srv local) [
  | none ↦ send_error srv client 500 "database error"
  | some none ↦ send_error srv client 404 "user not found"
  | some (some callee) ↦ elim (enqueue_dm world srv local env) [
    | none ↦ send_error srv client 500 "failed to send"
    | some queued ↦ acknowledge (relay_or_push queued local callee env) client env
  ]
]

-- handleDMSend past its guards on the request.
unfoldable pub route_dm : Env → Server → ℕ → User → DmSend → Server
unfolding parse_number send_remote_dm send_local_dm new_envelope send_message send_error text_beq
route_dm world srv client u req = elim (parse_number req.to srv.area_code) [
  | none ↦ send_error srv client 400 "invalid destination"
  | some (area, local) ↦
      let env = new_envelope world u req area local in
      if not srv.has_dm
      then send_error srv client 503 "messaging unavailable"
      else if not (srv.area_code == []) && not (area == srv.area_code)
      then elim (send_remote_dm world srv area) [
        | some refusal ↦ refuse_dm srv client refusal
        | none ↦ acknowledge srv client env
      ]
      else send_local_dm world srv client local env
]

-- handleDMSend
unfoldable pub handle_dm_send : Env → Server → ℕ → DmSend → Server
unfolding dm_refusal route_dm send_error
handle_dm_send world srv client req = elim (srv.at client).user [
  | none ↦ send_error srv client 401 "not registered"
  | some u ↦ elim (dm_refusal req) [
    | some refusal ↦ refuse_dm srv client refusal
    | none ↦ route_dm world srv client u req
  ]
]

-- handleDMAck
unfoldable pub handle_dm_ack : Server → ℕ → String → Server
unfolding delete_dm
handle_dm_ack srv client message_id = elim (srv.at client).user [
  | none ↦ srv
  | some u ↦
      if not (message_id == "") && srv.has_dm
      then record srv { db = delete_dm srv.db message_id u.number }
      else srv
]

-- handleDMAttachmentGet
unfoldable pub handle_dm_attachment_get : Env → Server → ℕ → String → Server
unfolding get_dm send_message send_error
handle_dm_attachment_get world srv client message_id = elim (srv.at client).user [
  | none ↦ srv
  | some u ↦
      if not srv.has_dm
      then send_error srv client 503 "messaging unavailable"
      else elim (get_dm srv.db message_id u.number) [
        | none ↦ not_found
        | some row ↦ elim (world.unseal u.number row.envelope) [
          | none ↦ not_found
          | some env ↦ elim env.image [
            | none ↦ not_found
            | some image ↦ send_message srv client (dm_attachment message_id image)
          ]
        ]
      ]
]
  where
    not_found : Server
    not_found = send_error srv client 404 "attachment not found"
