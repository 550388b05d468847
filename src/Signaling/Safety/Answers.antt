-- ===== src/Signaling/Safety/Answers.antt =====
-- `IsSound` through handleCallAnswer.
use open_carrier_network.Prelude.{
  ℕ, ◌≡◌, sym, ◌∙◌, ap, true≢false, Option, none, some, [], ◌∷◌, String, Text, nat_eq, text_eq,
  string_eq, if-by, Option-by, inl, inr, Option-cases,
}
use open_carrier_network.Prelude.Table.{Table, lookup, Values}
use open_carrier_network.Store.Users.{is_some}
use open_carrier_network.Signaling.Messages.{Sdp, call_connected}
use open_carrier_network.Signaling.State.{Server, done, panicked}
use open_carrier_network.Signaling.Send.{send_message}
use open_carrier_network.Signaling.Ring.{take_ring}
use open_carrier_network.Signaling.Answer.{is_peer, find_peer, answer_local, handle_call_answer}
use open_carrier_network.Signaling.Safety.Parts.{HasUser, IsSound, Returns}
use open_carrier_network.Signaling.Safety.Diverted.{take_ring-IsSound}
use open_carrier_network.Signaling.Safety.Queued.{queue_rules}

ruleset answer_rules = (queue_rules, take_ring-IsSound)

find_peer-HasUser :
    (srv : Server) (id : String) (client : ℕ) (clients : Table Text ℕ) (found : Option ℕ) (c : ℕ)
    → Values (HasUser srv.at) clients
    → ((d : ℕ) → found ≡ some d → HasUser srv.at d)
    → find_peer srv id client clients found ≡ some c
    → HasUser srv.at c
unfolding find_peer
find_peer-HasUser srv id client [] found c all h e = h c e
find_peer-HasUser srv id client ((num, d) ∷ rest) found c (u, all) h e =
    find_peer-HasUser srv id client rest _ c all
      (if-by (λ o. (x : ℕ) → o ≡ some x → HasUser srv.at x) (is_peer srv id client d) _ _
        (λ x same. cc) h)
      e

answer_local-IsSound :
    (srv : Server) (client : ℕ) (id : String) (sdp : Option Sdp)
    → IsSound srv
    → Returns IsSound (answer_local srv client id sdp)
unfolding answer_local
answer_local-IsSound srv client id sdp k =
    Option-by (Returns IsSound) (find_peer srv id client srv.clients none) _ _ (search answer_rules)
      λ c found.
        user_there c
          (find_peer-HasUser srv id client srv.clients none c k.registered (λ d e. cc) found)
  where
    user_there :
        (c : ℕ)
        → HasUser srv.at c
        → Returns IsSound (elim (srv.at c).user [
          | none ↦ panicked
          | some u ↦ done (send_message srv c (call_connected id sdp none))
        ])
    user_there c h = elim (Option-cases (srv.at c).user) [
      | inl e ↦ absurd (true≢false (sym h ∙ ap is_some e))
      | inr (u, e) ↦ rw e (search answer_rules)
    ]

pub handle_call_answer-IsSound :
    (srv : Server) (client : ℕ) (id : String) (sdp : Option Sdp)
    → IsSound srv
    → Returns IsSound (handle_call_answer srv client id sdp)
unfolding handle_call_answer
handle_call_answer-IsSound srv client id sdp k =
    let stopped = take_ring-IsSound srv id k in
    Option-by (Returns IsSound) (srv.at client).user _ _ (search answer_rules) λ u _.
      Option-by (Returns IsSound) (lookup id (take_ring srv id).0.in_legs) _ _
        (answer_local-IsSound _ client id sdp stopped)
        λ leg _. record {
          registered = stopped.registered;
          rung = stopped.rung;
          bounded = stopped.bounded;
        }
