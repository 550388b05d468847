-- ===== src/Signaling/Answer.antt =====
-- handleCallAnswer and handleICECandidate of server.go.
use open_carrier_network.Prelude.{
  ℕ, Bool, true, false, not, ◌&&◌, Option, none, some, [], ◌∷◌, String, Text, ◌==◌, nat_eq,
  string_eq, if◌then◌else◌,
}
use open_carrier_network.Prelude.Table.{Table, lookup, insert}
use open_carrier_network.Signaling.Messages.{
  Sdp, IceCandidate, call_connected, ice_candidate, answer, ice,
}
use open_carrier_network.Signaling.State.{sent, handle_ice, InLeg, Server, Outcome, done, panicked}
use open_carrier_network.Signaling.Send.{send_message, send_error, act}
use open_carrier_network.Signaling.Voicemail.{set_leg}
use open_carrier_network.Signaling.Ring.{take_ring}
use open_carrier_network.Signaling.Bridge.{is_callee}

-- c.callID == callID && c != client
abbrev pub is_peer : Server → String → ℕ → ℕ → Bool
is_peer srv call_id client c = (srv.at c).call_id == call_id && not (c == client)

-- The range loop of handleCallAnswer: the last client that fits.
unfoldable pub find_peer : Server → String → ℕ → Table Text ℕ → Option ℕ → Option ℕ
find_peer srv call_id client [] found = found
find_peer srv call_id client ((num, c) ∷ rest) found =
    find_peer srv call_id client rest (if is_peer srv call_id client c then some c else found)

-- The leg once its callee has answered.
abbrev answered_leg : InLeg → ℕ → InLeg
answered_leg leg client = record leg {
  timer = false;
  answered = true;
  callee = elim leg.callee [ none ↦ some client | some c ↦ some c ];
}

-- Forward an answer to the local caller. The log line reads its number through a pointer.
unfoldable pub answer_local : Server → ℕ → String → Option Sdp → Outcome Server
unfolding find_peer send_error send_message
answer_local srv client call_id sdp = elim (find_peer srv call_id client srv.clients none) [
  | none ↦ done (send_error srv client 404 "call not found")
  | some caller ↦ elim (srv.at caller).user [
    | none ↦ panicked
    | some u ↦ done (send_message srv caller (call_connected call_id sdp none))
  ]
]

-- handleCallAnswer
unfoldable pub handle_call_answer : Server → ℕ → String → Option Sdp → Outcome Server
unfolding send_error take_ring lookup insert answer_local
handle_call_answer srv client call_id sdp = elim (srv.at client).user [
  | none ↦ done (send_error srv client 401 "not registered")
  | some u ↦
      let stopped = (take_ring srv call_id).0 in
      elim (lookup call_id stopped.in_legs) [
        | some leg ↦ done (
            act (sent leg.stream (answer call_id sdp))
              (set_leg stopped call_id (answered_leg leg client)))
        | none ↦ answer_local stopped client call_id sdp
      ]
]

-- The last range loop of handleICECandidate.
unfoldable pub forward_candidate : Server → String → ℕ → Option IceCandidate → Table Text ℕ → Server
unfolding send_message
forward_candidate srv call_id client candidate [] = srv
forward_candidate srv call_id client candidate ((num, c) ∷ rest) =
    forward_candidate
      (if is_peer srv call_id client c
        then send_message srv c (ice_candidate call_id candidate)
        else srv)
      call_id client candidate rest

-- handleICECandidate; for a service call the candidate is read with no test of the pointer.
unfoldable pub handle_ice_candidate : Server → ℕ → String → Option IceCandidate → Outcome Server
unfolding lookup forward_candidate
handle_ice_candidate srv client call_id candidate = elim (srv.at client).user [
  | none ↦ done srv
  | some u ↦ elim (lookup call_id srv.svc_calls) [
    | some sc ↦ elim candidate [
      | none ↦ panicked
      | some c ↦ done (act (handle_ice sc.service call_id c) srv)
    ]
    | none ↦ elim (lookup call_id srv.out_legs) [
      | some leg ↦ done (act (sent leg.stream (ice call_id candidate)) srv)
      | none ↦ elim (lookup call_id srv.in_legs) [
        | none ↦ done (forward_candidate srv call_id client candidate srv.clients)
        | some leg ↦
            if is_callee leg client
            then done (act (sent leg.stream (ice call_id candidate)) srv)
            else done (forward_candidate srv call_id client candidate srv.clients)
      ]
    ]
  ]
]
