-- ===== src/Signaling/Expiry.antt =====
-- The pending calls after a tick of expirePendingCalls.
use open_carrier_network.Prelude.{
  ℕ, ◌≡◌, refl, sym, ap, ◌∙◌, subst, false, true≢false, ◌↔◌, ◌⊎◌, inl, inr, if-when, some, [], ◌∷◌,
  Text, text_eq, string_eq, if-by, Option-by,
}
use open_carrier_network.Prelude.Table.{Table, lookup}
use open_carrier_network.Signaling.Messages.{call_ended}
use open_carrier_network.Signaling.State.{PendingCall, Env, Server}
use open_carrier_network.Signaling.Send.{is_online, clear_call_id}
use open_carrier_network.Signaling.Voicemail.{
  find_user_or_nil, route_to_voicemail, route_inbound_voicemail,
}
use open_carrier_network.Signaling.Pending.{
  remove_in_leg, is_expired, expired_calls, waiting_calls, expire_remote, expire_local, expire_call,
  expire_all, expire_pending_calls,
}
use open_carrier_network.Signaling.Kept.{
  Holds, told-Holds, clear_call_id-Holds, route_to_voicemail-Holds, route_inbound_voicemail-Holds,
}

module _ (cs : Table Text ℕ) (ps : Table Text PendingCall) where
  expire_remote-Holds :
      (env : Env) (srv : Server) (p : PendingCall)
      → Holds cs ps srv
      → Holds cs ps (expire_remote env srv p)
  unfolding expire_remote remove_in_leg
  expire_remote-Holds env srv p h =
      let routed = route_inbound_voicemail-Holds cs ps env srv p.call_id h in
      Option-by (Holds cs ps) (lookup p.call_id srv.in_legs) _ _ h
        λ leg _. if-by (Holds cs ps) (route_inbound_voicemail env srv p.call_id).1 _ _ routed routed

  expire_local-Holds :
      (env : Env) (srv : Server) (num : Text) (p : PendingCall) (caller : ℕ)
      → Holds cs ps srv
      → Holds cs ps (expire_local env srv num p caller)
  unfolding expire_local
  expire_local-Holds env srv num p caller h =
      let found = find_user_or_nil env srv num in
      let r = route_to_voicemail env srv (some caller) found p.offer p.call_id in
      let routed = route_to_voicemail-Holds cs ps env srv (some caller) found p.offer p.call_id h in
      if-by (Holds cs ps) r.1 _ _ routed (
        told-Holds cs ps (clear_call_id r.0 caller p.call_id) caller
          (call_ended p.call_id "no answer")
          (clear_call_id-Holds cs ps r.0 caller p.call_id routed))

  expire_call-Holds :
      (env : Env) (srv : Server) (num : Text) (p : PendingCall)
      → Holds cs ps srv
      → Holds cs ps (expire_call env srv num p)
  unfolding expire_call
  expire_call-Holds env srv num p h =
      if-by (Holds cs ps) p.remote _ _ (expire_remote-Holds env srv p h) (
        if-by (Holds cs ps) (is_online srv p.caller) _ _
          (Option-by (Holds cs ps) p.caller _ _ h
            λ caller _. expire_local-Holds env srv num p caller h)
          h)

  expire_all-Holds :
      (env : Env) (calls : Table Text PendingCall) (srv : Server)
      → Holds cs ps srv
      → Holds cs ps (expire_all env calls srv)
  unfolding expire_all
  expire_all-Holds env [] srv h = h
  expire_all-Holds env ((num, p) ∷ rest) srv h =
      expire_all-Holds env rest (expire_call env srv num p) (expire_call-Holds env srv num p h)

-- The call is queued under the number.
abbrev pub IsQueued : Text → PendingCall → Table Text PendingCall → Type 0
IsQueued num p [] = ⊥
IsQueued num p ((n, q) ∷ rest) = ((n ≡ num) × (q ≡ p)) ⊎ IsQueued num p rest

waiting_calls-IsQueued :
    (srv : Server) (env : Env) (num : Text) (p : PendingCall) (calls : Table Text PendingCall)
    → IsQueued num p (waiting_calls srv env calls)
      ↔ (IsQueued num p calls × (is_expired srv env p ≡ false))
unfolding waiting_calls
waiting_calls-IsQueued srv env num p [] = (λ q. absurd q, λ q. absurd q.0)
waiting_calls-IsQueued srv env num p ((n, q) ∷ rest) =
    let later = waiting_calls-IsQueued srv env num p rest in
    if-when
      (λ calls.
        IsQueued num p calls ↔ (IsQueued num p ((n, q) ∷ rest) × (is_expired srv env p ≡ false)))
      (is_expired srv env q) _ _
      (λ old. (
        λ m. (inr (later.0 m).0, (later.0 m).1),
        λ m. elim m.0 [
          | inl here ↦ absurd (true≢false (sym old ∙ ap (is_expired srv env) here.1 ∙ m.1))
          | inr there ↦ later.1 (there, m.1)
        ],
      ))
      λ young. (
        λ m. elim m [
          | inl here ↦ (inl here, sym (ap (is_expired srv env) here.1) ∙ young)
          | inr there ↦ (inr (later.0 there).0, (later.0 there).1)
        ],
        λ m. elim m.0 [ inl here ↦ inl here | inr there ↦ inr (later.1 (there, m.1)) ],
      )

-- A tick of the expiry loop takes out exactly the calls that have waited longer than the timeout: a
-- call is queued afterwards if and only if it was queued before and is not expired.
pub expire_pending_calls-IsQueued :
    (env : Env) (srv : Server) (num : Text) (p : PendingCall)
    → IsQueued num p (expire_pending_calls env srv).pending_calls
      ↔ (IsQueued num p srv.pending_calls × (is_expired srv env p ≡ false))
unfolding expire_pending_calls
expire_pending_calls-IsQueued env srv num p =
    subst
      (λ calls.
        IsQueued num p calls ↔ (IsQueued num p srv.pending_calls × (is_expired srv env p ≡ false)))
      (sym left) (waiting_calls-IsQueued srv env num p srv.pending_calls)
  where
    waiting : Table Text PendingCall
    waiting = waiting_calls srv env srv.pending_calls

    left : (expire_pending_calls env srv).pending_calls ≡ waiting
    left =
        (expire_all-Holds srv.clients waiting env (expired_calls srv env srv.pending_calls)
          (record srv { pending_calls = waiting }) (refl, refl)).1
