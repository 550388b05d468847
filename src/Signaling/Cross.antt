-- ===== src/Signaling/Cross.antt =====
-- An outbound leg of bridge.go, whose caller is a phone of this exchange: startCrossCall,
-- startServiceCall, and the loop that reads what the other exchange sends.
use open_carrier_network.Prelude.{
  ℕ, Bool, true, false, Option, none, some, [], String, Text, text_beq, text_eq, string_eq,
  if◌then◌else◌,
}
use open_carrier_network.Prelude.Table.{insert, delete}
use open_carrier_network.Store.Tables.{User}
use open_carrier_network.Signaling.Messages.{
  Sdp, call_ringing, call_connected, call_ended, ice_candidate, CallEvent, incoming, ringing,
  answer, ice, hangup, busy,
}
use open_carrier_network.Signaling.State.{sent, Env, Server}
use open_carrier_network.Signaling.Send.{send_message, send_error, set_call_id, clear_call_id, act}
use open_carrier_network.Signaling.Bridge.{or_default}

-- The display name of a caller, or its number.
abbrev pub caller_label : User → Text
caller_label u = if text_beq u.display_name [] then u.number else u.display_name

-- srv.outLegs[callID] = &outLeg{snd: stream.Send}
abbrev pub set_out_leg : Server → String → ℕ → Server
set_out_leg srv call_id stream = record srv {
  out_legs = insert call_id (record { stream = stream }) srv.out_legs;
}

-- bridgeConn, BridgeCall, the INCOMING event, and the leg: the common end of startCrossCall and
-- startServiceCall, which differ in the text of their 502.
unfoldable pub open_leg : Env → Server → ℕ → User → String → Text → Option Sdp → String → Server
unfolding insert send_error set_call_id
open_leg env srv client u addr destination offer unreachable =
    if env.dial_ok addr
    then elim (env.bridge addr) [
      | none ↦ send_error srv client 502 unreachable
      | some stream ↦
          let offered =
            act
              (sent stream (
                incoming env.fresh (record { area_code = srv.area_code; number = u.number })
                  (caller_label u) destination offer))
              srv in
          if env.send_ok stream
          then set_out_leg (set_call_id offered client env.fresh) env.fresh stream
          else send_error offered client 502 unreachable
    ]
    else send_error srv client 502 unreachable

-- startCrossCall, for a client whose user is `u`.
unfoldable pub start_cross_call : Env → Server → ℕ → User → Text → Text → Option Sdp → Server
unfolding send_error open_leg
start_cross_call env srv client u remote_area local_num offer = elim (env.route remote_area) [
  | none ↦ send_error srv client 404 "number unreachable (no route)"
  | some addr ↦ open_leg env srv client u addr local_num offer "destination server unreachable"
]

-- startServiceCall, for a client whose user is `u`.
unfoldable pub start_service_call : Env → Server → ℕ → User → String → Text → Option Sdp → Server
unfolding open_leg
start_service_call env srv client u addr full_number offer =
    open_leg env srv client u addr full_number offer "service host unreachable"

-- The deferred end of outboundReadLoop.
unfoldable pub end_outbound : Server → String → ℕ → Server
unfolding delete clear_call_id
end_outbound srv call_id caller =
    clear_call_id (record srv { out_legs = delete call_id srv.out_legs }) caller call_id

-- One event of outboundReadLoop; with `true` the loop has returned.
unfoldable pub outbound_event : Server → String → ℕ → CallEvent → Server × Bool
unfolding send_message end_outbound or_default
outbound_event srv call_id caller (ringing _) =
    (send_message srv caller (call_ringing call_id), false)
outbound_event srv call_id caller (answer _ (some sdp)) =
    (send_message srv caller (call_connected call_id (some sdp) none), false)
outbound_event srv call_id caller (ice _ (some candidate)) =
    (send_message srv caller (ice_candidate call_id (some candidate)), false)
outbound_event srv call_id caller (hangup _ reason) = (
  end_outbound (send_message srv caller (call_ended call_id (or_default reason "hangup"))) call_id
      caller,
  true,
)
outbound_event srv call_id caller (busy _ reason) = (
  end_outbound (send_message srv caller (call_ended call_id (or_default reason "hangup"))) call_id
      caller,
  true,
)
outbound_event srv call_id caller _ = (srv, false)

-- How Recv ends a stream: io.EOF, or any other error.
pub data StreamEnd : Type 0 where
  eof broken : StreamEnd

unfoldable pub outbound_end : Server → String → ℕ → StreamEnd → Server
unfolding send_message end_outbound
outbound_end srv call_id caller eof = end_outbound srv call_id caller
outbound_end srv call_id caller broken =
    end_outbound (send_message srv caller (call_ended call_id "disconnect")) call_id caller
