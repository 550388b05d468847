-- ===== src/Signaling/Safety/Parts.antt =====
-- `IsSound`, and the helpers of server.go.
use open_carrier_network.Prelude.{
  ℕ, ◌≡◌, refl, true, List, [], ◌∷◌, ◌++◌, ◌≤◌, ◌+◌, length, length-append, ltb, ltb→lt, if-by,
  if-when, String, Text, arith, ◌==◌, nat_eq, text_eq, string_eq, inl, inr, Bool-cases,
}
use open_carrier_network.Prelude.Table.{Table, Values, Values-map}
use open_carrier_network.Store.Users.{is_some}
use open_carrier_network.Signaling.Messages.{ServerMessage}
use open_carrier_network.Signaling.State.{
  Client, Effect, RingState, InLeg, OutLeg, Server, Outcome, done, panicked, deadlocked,
}
use open_carrier_network.Signaling.Send.{
  update, send_cap, enqueue, send_message, act, send_error, set_call_id, clear_call_id,
  end_for_client,
}
use open_carrier_network.Signaling.Voicemail.{set_leg}

-- client.user is not nil.
abbrev pub HasUser : (ℕ → Client) → ℕ → Type 0
HasUser at c = is_some (at c).user ≡ true

-- rs.calleeUser is not nil.
abbrev pub HasCallee : RingState → Type 0
HasCallee rs = is_some rs.callee_user ≡ true

-- The buffered channel holds no more than its capacity.
abbrev pub IsBounded : (ℕ → Client) → ℕ → Type 0
IsBounded at c = length (at c).send_ch ≤ send_cap

pub record IsSound (srv : Server) : Type 0 where
  pub registered : Values (HasUser srv.at) srv.clients
  pub rung : Values HasCallee srv.ring_states
  pub bounded : (c : ℕ) → IsBounded srv.at c

-- The server that a helper leaves beside its answer.
abbrev pub LeavesSound {ℓ} : {A : Type ℓ} → Server × A → Type 0
LeavesSound r = IsSound r.0

-- A handler ends with a server that has the property: it neither panics nor blocks.
abbrev pub Returns {ℓ} : {A : Type ℓ} → (A → Type 0) → Outcome A → Type 0
Returns P (done a) = P a
Returns P panicked = ⊥
Returns P deadlocked = ⊥

-- A write that leaves the user alone.
update-still :
    (at : ℕ → Client) (c : ℕ) (v : Client) (d : ℕ)
    → v.user ≡ (at c).user
    → HasUser at d
    → HasUser (update at c v) d
update-still at c v d same h = ground (arith)

pub update-HasUser :
    (at : ℕ → Client) (c : ℕ) (v : Client) (clients : Table Text ℕ)
    → v.user ≡ (at c).user
    → Values (HasUser at) clients
    → Values (HasUser (update at c v)) clients
update-HasUser at c v clients same = Values-map (λ d h. update-still at c v d same h) clients

pub update-IsBounded :
    (at : ℕ → Client) (c : ℕ) (v : Client)
    → length v.send_ch ≤ send_cap
    → ((d : ℕ) → IsBounded at d)
    → (d : ℕ) → IsBounded (update at c v) d
update-IsBounded at c v h all d =
    if-by {A = Client} (λ w. length w.send_ch ≤ send_cap) (c == d) _ _ h (all d)

enqueue-IsBounded :
    (q : List ServerMessage) (msg : ServerMessage)
    → length q ≤ send_cap
    → length (enqueue q msg) ≤ send_cap
unfolding enqueue
enqueue-IsBounded q msg h =
    if-when (λ r. length r ≤ send_cap) (ltb (length q) send_cap) (q ++ (msg ∷ [])) q fits (λ e. h)
  where
    fits : ltb (length q) send_cap ≡ true → length (q ++ (msg ∷ [])) ≤ send_cap
    fits e =
        let room = ltb→lt (length q) send_cap e in
        let added : length (q ++ (msg ∷ [])) ≡ length q + 1 = length-append q (msg ∷ []) in
        omega arith

pub send_message-HasUser :
    (srv : Server) (c : ℕ) (msg : ServerMessage) (d : ℕ)
    → HasUser srv.at d
    → HasUser (send_message srv c msg).at d
unfolding send_message
send_message-HasUser srv c msg d h = update-still srv.at c _ d refl h

pub set_call_id-HasUser :
    (srv : Server) (c : ℕ) (id : String) (d : ℕ)
    → HasUser srv.at d
    → HasUser (set_call_id srv c id).at d
unfolding set_call_id
set_call_id-HasUser srv c id d h = update-still srv.at c _ d refl h

pub send_message-IsSound :
    (srv : Server) (c : ℕ) (msg : ServerMessage) → IsSound srv → IsSound (send_message srv c msg)
unfolding send_message
send_message-IsSound srv c msg k = record {
  registered = update-HasUser srv.at c _ srv.clients refl k.registered;
  rung = k.rung;
  bounded = update-IsBounded srv.at c _ (enqueue-IsBounded _ msg (k.bounded c)) k.bounded;
}

pub send_error-IsSound :
    (srv : Server) (c code : ℕ) (text : String) → IsSound srv → IsSound (send_error srv c code text)
unfolding send_error
send_error-IsSound srv c code text k = record {
  registered = update-HasUser srv.at c _ srv.clients refl k.registered;
  rung = k.rung;
  bounded = update-IsBounded srv.at c _ (enqueue-IsBounded _ _ (k.bounded c)) k.bounded;
}

pub set_call_id-IsSound :
    (srv : Server) (c : ℕ) (id : String) → IsSound srv → IsSound (set_call_id srv c id)
unfolding set_call_id
set_call_id-IsSound srv c id k = record {
  registered = update-HasUser srv.at c _ srv.clients refl k.registered;
  rung = k.rung;
  bounded = update-IsBounded srv.at c _ (k.bounded c) k.bounded;
}

pub clear_call_id-IsSound :
    (srv : Server) (c : ℕ) (id : String) → IsSound srv → IsSound (clear_call_id srv c id)
unfolding clear_call_id
clear_call_id-IsSound srv c id k = elim (Bool-cases ((srv.at c).call_id == id)) [
  | inl e ↦ rw e (set_call_id-IsSound srv c "" k)
  | inr e ↦ rw e k
]

pub end_for_client-IsSound :
    (srv : Server) (c : ℕ) (id reason : String)
    → IsSound srv
    → IsSound (end_for_client srv c id reason)
unfolding end_for_client
end_for_client-IsSound srv c id reason k =
    send_message-IsSound _ c _ (clear_call_id-IsSound srv c id k)

pub act-IsSound : (e : Effect) (srv : Server) → IsSound srv → IsSound (act e srv)
act-IsSound e srv k = record { registered = k.registered; rung = k.rung; bounded = k.bounded }

pub set_leg-IsSound :
    (srv : Server) (id : String) (leg : InLeg) → IsSound srv → IsSound (set_leg srv id leg)
set_leg-IsSound srv id leg k = record {
  registered = k.registered;
  rung = k.rung;
  bounded = k.bounded;
}

pub out_legs-IsSound :
    (srv : Server) (legs : Table String OutLeg)
    → IsSound srv
    → IsSound (record srv { out_legs = legs })
out_legs-IsSound srv legs k = record {
  registered = k.registered;
  rung = k.rung;
  bounded = k.bounded;
}

pub ruleset sound_rules = (
  act-IsSound, set_leg-IsSound, out_legs-IsSound, send_message-IsSound, send_error-IsSound,
  set_call_id-IsSound, clear_call_id-IsSound, end_for_client-IsSound,
)
