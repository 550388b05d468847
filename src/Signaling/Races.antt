-- ===== src/Signaling/Races.antt =====
-- The no-answer timer of onRingTimeout against an answer, and against itself.
use open_carrier_network.Prelude.{
  ℕ, ◌≡◌, refl, sym, ap, subst, ◌∙◌, ◌&&◌, Option, none, some, String, ◌==◌, nat_eq, text_eq,
  string_eq, if-by, Option-by, Option-when, Option-cases, inl, inr, ◌≢◌, arith,
}
use open_carrier_network.Prelude.Table.{Table, lookup, lookup-delete_self}
use open_carrier_network.Store.Tables.{User}
use open_carrier_network.Signaling.Messages.{Sdp, call_ended}
use open_carrier_network.Signaling.State.{
  RingState, Env, Server, Outcome, done, panicked, deadlocked,
}
use open_carrier_network.Signaling.Send.{
  send_message, send_error, set_call_id, clear_call_id, end_for_client, is_online,
}
use open_carrier_network.Signaling.Voicemail.{answer_by_voicemail, route_to_voicemail}
use open_carrier_network.Signaling.Ring.{take_ring, divert_caller, ring_out, on_ring_timeout}
use open_carrier_network.Signaling.Answer.{find_peer, answer_local, handle_call_answer}

module _ (rs : Table String RingState) where
  abbrev Rings : Server → Type 0
  Rings s = s.ring_states ≡ rs

  abbrev RingsAfter {ℓ} : {A : Type ℓ} → Server × A → Type 0
  RingsAfter r = Rings r.0

  clear_call_id-Rings :
      (srv : Server) (c : ℕ) (id : String) → Rings srv → Rings (clear_call_id srv c id)
  unfolding clear_call_id set_call_id
  clear_call_id-Rings srv c id h = if-by Rings ((srv.at c).call_id == id) _ _ h h

  route_to_voicemail-Rings :
      (env : Env) (srv : Server) (caller : Option ℕ) (recipient : Option User) (offer : Option Sdp)
      (id : String)
      → Rings srv
      → Rings (route_to_voicemail env srv caller recipient offer id).0
  unfolding route_to_voicemail answer_by_voicemail set_call_id send_message
  route_to_voicemail-Rings env srv none recipient offer id h = h
  route_to_voicemail-Rings env srv (some caller) none offer id h = h
  route_to_voicemail-Rings env srv (some caller) (some recipient) none id h = h
  route_to_voicemail-Rings env srv (some caller) (some recipient) (some offer) id h =
      if-by RingsAfter (srv.vm_enabled && is_online srv (some caller)) _ _
        (Option-by RingsAfter (env.media_answer _) _ _ h λ sdp _. h) h

  divert_caller-Rings :
      (env : Env) (srv : Server) (ring : RingState) (id reason : String)
      → Rings srv
      → Rings (divert_caller env srv ring id reason)
  unfolding divert_caller end_for_client send_message
  divert_caller-Rings env srv ring id reason h =
      let r = route_to_voicemail env srv (some ring.caller) ring.callee_user ring.offer id in
      let routed =
        route_to_voicemail-Rings env srv (some ring.caller) ring.callee_user ring.offer id h in
      if-by Rings r.1 _ _ routed (clear_call_id-Rings r.0 ring.caller id routed)

-- A handler that returns leaves no ring for the call.
abbrev LeavesNoRing : String → Outcome Server → Type 0
LeavesNoRing id (done s) = lookup id s.ring_states ≡ none
LeavesNoRing id panicked = Unit
LeavesNoRing id deadlocked = Unit

take_ring-gone : (srv : Server) (id : String) → lookup id (take_ring srv id).0.ring_states ≡ none
unfolding take_ring
take_ring-gone srv id =
    Option-when (λ (r : Server × Option RingState). lookup id r.0.ring_states ≡ none)
      (lookup id srv.ring_states) _ _ (λ e. e) λ rs _. lookup-delete_self id srv.ring_states

on_ring_timeout-none :
    (env : Env) (srv : Server) (id : String)
    → lookup id srv.ring_states ≡ none
    → on_ring_timeout env srv id ≡ done srv
unfolding on_ring_timeout take_ring
on_ring_timeout-none env srv id gone =
    let e : take_ring srv id ≡ (srv, none) = rw (gone, take_ring) refl in
    rw (e, on_ring_timeout) refl

missed_ring :
    (srv : Server) (id : String) (rs : RingState)
    → lookup id srv.ring_states ≡ some rs
    → (take_ring srv id).1 ≢ none
unfolding take_ring
missed_ring srv id rs e missed = ground arith

ring_out-gone :
    (env : Env) (srv : Server) (rs : RingState) (id : String)
    → lookup id srv.ring_states ≡ none
    → LeavesNoRing id (ring_out env srv rs id)
unfolding ring_out send_message
ring_out-gone env srv rs id gone = Option-by (LeavesNoRing id) rs.callee_user _ _ tt λ u _.
    if-by (λ (s : Server). lookup id s.ring_states ≡ none) (is_online stopped (some rs.caller)) _ _
      (ap (lookup id) (divert_caller-Rings srv.ring_states env stopped rs id "no answer" still)
        ∙ gone)
      (ap (lookup id) still ∙ gone)
  where
    stopped : Server
    stopped = send_message (clear_call_id srv rs.callee id) rs.callee (call_ended id "no answer")

    still : stopped.ring_states ≡ srv.ring_states
    still = clear_call_id-Rings srv.ring_states srv rs.callee id refl

on_ring_timeout-gone :
    (env : Env) (srv : Server) (id : String) → LeavesNoRing id (on_ring_timeout env srv id)
unfolding on_ring_timeout
on_ring_timeout-gone env srv id = elim (Option-cases (lookup id srv.ring_states)) [
  | inl e ↦ subst (LeavesNoRing id) (sym (on_ring_timeout-none env srv id e)) e
  | inr (rs, e) ↦
      Option-when (LeavesNoRing id) (take_ring srv id).1 _ _
        (λ missed. absurd (missed_ring srv id rs e missed))
        λ ring _. ring_out-gone env (take_ring srv id).0 ring id (take_ring-gone srv id)
]

handle_call_answer-gone :
    (srv : Server) (client : ℕ) (id : String) (sdp : Option Sdp) (u : User)
    → (srv.at client).user ≡ some u
    → LeavesNoRing id (handle_call_answer srv client id sdp)
unfolding handle_call_answer answer_local send_message send_error
handle_call_answer-gone srv client id sdp u known =
    rw (known, handle_call_answer)
      (Option-by (LeavesNoRing id) (lookup id (take_ring srv id).0.in_legs) _ _
        (Option-by (LeavesNoRing id)
          (find_peer (take_ring srv id).0 id client (take_ring srv id).0.clients none) _ _
          (take_ring-gone srv id)
          λ caller _.
            Option-by (LeavesNoRing id) ((take_ring srv id).0.at caller).user _ _ tt
              λ v _. take_ring-gone srv id)
        λ leg _. take_ring-gone srv id)

-- Once a registered client has answered a call, the no-answer timer of that call changes nothing
-- when it fires: the caller is not diverted into voicemail.
pub on_ring_timeout-answered :
    (env : Env) (srv s : Server) (client : ℕ) (id : String) (sdp : Option Sdp) (u : User)
    → (srv.at client).user ≡ some u
    → handle_call_answer srv client id sdp ≡ done s
    → on_ring_timeout env s id ≡ done s
on_ring_timeout-answered env srv s client id sdp u known answered =
    on_ring_timeout-none env s id
      (subst (LeavesNoRing id) answered (handle_call_answer-gone srv client id sdp u known))

-- The no-answer timer of a call acts at most once: fired again after it has run, with whatever
-- answers from outside, it changes nothing.
pub on_ring_timeout-twice :
    (env env' : Env) (srv s : Server) (id : String)
    → on_ring_timeout env srv id ≡ done s
    → on_ring_timeout env' s id ≡ done s
on_ring_timeout-twice env env' srv s id fired =
    on_ring_timeout-none env' s id (subst (LeavesNoRing id) fired (on_ring_timeout-gone env srv id))
