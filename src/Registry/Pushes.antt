-- ===== src/Registry/Pushes.antt =====
-- Theorems on PushDevice of registry_server/internal/registrysvc/service.go.
use open_carrier_network.Prelude.{
  ℕ, ◌+◌, ◌≤◌, Bool, true, false, not, none, some, List, [], ◌∷◌, String, Text, codes, ◌==◌,
  text_eq, if◌then◌else◌, if-when, Option-when, ◌≡◌, ◌≢◌, refl, sym, ◌∙◌, arith, true≢false,
}
use open_carrier_network.Registry.{
  ServerInfo, RegistryError, find_server, is_active, verify_push_auth, valid_auth,
}
use open_carrier_network.Registry.Service.{
  RegistryService, PushRequest, Push, Code, ok, unavailable,
}
use open_carrier_network.Registry.Service.{call_push, voicemail_push, message_push, push_device}
use open_carrier_network.Registry.Service.{invalid_argument, push_by_type, send}

some≢none : {e : RegistryError} → some e ≢ none
some≢none q = cc

other_text : (t u : Text) → (t == u) ≡ false → t ≢ u
other_text t u h e = true≢false (sym ((text_eq.same_iff t u).1 e) ∙ h)

filled_text : (t : Text) → (t == []) ≡ false → t ≢ []
filled_text t h = other_text t [] h

module _ (verify : String → Text → ℕ → List ℕ → Bool) where
  -- The exchange that a request names is registered and active, and has signed its area code and its
  -- time, which is at most five minutes off.
  abbrev pub IsAuthentic : ℕ → RegistryService → PushRequest → Type 0
  IsAuthentic now svc r =
      (s : ServerInfo) × (find_server r.area_code svc.servers ≡ some s)
      × (is_active s.status ≡ true)
      × (r.timestamp ≤ now + 300)
      × (now ≤ r.timestamp + 300)
      × (verify s.public_key r.area_code r.timestamp r.signature ≡ true)

  -- A token that is not empty, and the caller.
  abbrev pub IsFor : PushRequest → Text → Text → Text → Type 0
  IsFor r token number name =
      (r.token ≢ []) × (token ≡ r.token) × (number ≡ r.caller_number) × (name ≡ r.caller_name)

  -- What the type of a request asks for, with its token, its call and its caller: a notice of a
  -- voicemail or of a message, and of a call for every other type.
  abbrev pub IsAsked : PushRequest → Push → Type 0
  IsAsked r (call_push token id number name) =
      (r.message_type ≢ codes "voicemail")
      × (r.message_type ≢ codes "message")
      × (r.call_id ≢ [])
      × (id ≡ r.call_id)
      × IsFor r token number name
  IsAsked r (voicemail_push token number name) =
      (r.message_type ≡ codes "voicemail") × IsFor r token number name
  IsAsked r (message_push token number name) =
      (r.message_type ≡ codes "message") × IsFor r token number name

  abbrev pub IsGuarded :
      (Push → Bool) → ℕ → RegistryService → PushRequest → Code × List Push → Type 0
  IsGuarded sends now svc r (code, []) = code ≢ ok
  IsGuarded sends now svc r (code, p ∷ []) =
      IsAuthentic now svc r × IsAsked r p × (code ≡ (if sends p then ok else unavailable))
  IsGuarded sends now svc r (code, p ∷ q ∷ ps) = ⊥

  IsAuthentic-verify_push_auth :
      (now : ℕ) (svc : RegistryService) (r : PushRequest)
      → verify_push_auth verify svc.servers r.area_code r.timestamp now r.signature ≡ none
      → IsAuthentic now svc r
  unfolding verify_push_auth valid_auth
  IsAuthentic-verify_push_auth now svc r =
      Option-when (λ o. o ≡ none → IsAuthentic now svc r) (find_server r.area_code svc.servers) _ _
        (λ e q. absurd (some≢none q))
        (λ s found.
          if-when (λ o. o ≡ none → IsAuthentic now svc r) (is_active s.status) _ _
            (λ up q. (s, found, up, ground arith, ground arith, ground arith))
            (λ down q. absurd (some≢none q)))

  IsGuarded-send :
      (sends : Push → Bool) (now : ℕ) (svc : RegistryService) (r : PushRequest) (p : Push)
      → IsAuthentic now svc r
      → IsAsked r p
      → IsGuarded sends now svc r (send sends p)
  IsGuarded-send sends now svc r p authentic asked =
      if-when (IsGuarded sends now svc r) (sends p) _ _ (λ taken. (authentic, asked, rw taken refl))
        (λ lost. (authentic, asked, rw lost refl))

  IsGuarded-push_by_type :
      (sends : Push → Bool) (now : ℕ) (svc : RegistryService) (r : PushRequest)
      → IsAuthentic now svc r
      → r.token ≢ []
      → IsGuarded sends now svc r (push_by_type sends r)
  unfolding push_by_type
  IsGuarded-push_by_type sends now svc r authentic named =
      if-when Guarded (r.message_type == codes "voicemail") _ _
        (λ same.
          sent (voicemail_push r.token r.caller_number r.caller_name) (
            (text_eq.same_iff r.message_type (codes "voicemail")).0 same,
            (named, refl, refl, refl),
          ))
        (λ differs.
          if-when Guarded (r.message_type == codes "message") _ _
            (λ same. sent (message_push r.token r.caller_number r.caller_name) (
              (text_eq.same_iff r.message_type (codes "message")).0 same,
              (named, refl, refl, refl),
            ))
            (λ differs_too.
              if-when Guarded (r.call_id == []) (invalid_argument, []) _ (λ empty e. cc)
                (λ filled. sent (call_push r.token r.call_id r.caller_number r.caller_name) (
                  other_text r.message_type (codes "voicemail") differs,
                  other_text r.message_type (codes "message") differs_too,
                  filled_text r.call_id filled,
                  refl,
                  (named, refl, refl, refl),
                ))))
    where
      Guarded : Code × List Push → Type 0
      Guarded = IsGuarded sends now svc r

      sent : (p : Push) → IsAsked r p → Guarded (send sends p)
      sent p asked = IsGuarded-send sends now svc r p authentic asked

  -- PushDevice wakes a phone only for an exchange that is registered and active and has signed its area
  -- code and its time, at most five minutes off, and then once, with the token and the caller of the
  -- request: of a voicemail or a message where its type says so, else of its call; it answers OK only if it has sent a message, and that one was taken.
  pub push_device-IsGuarded :
      (sends : Push → Bool) (now : ℕ) (svc : RegistryService) (r : PushRequest)
      → IsGuarded sends now svc r (push_device verify sends now svc r)
  unfolding push_device
  push_device-IsGuarded sends now svc r =
      if-when Guarded (not svc.pushes) (unavailable, []) _ (λ off e. cc)
        (λ on.
          Option-when Guarded
            (verify_push_auth verify svc.servers r.area_code r.timestamp now r.signature) _ _
            (λ accepted.
              if-when Guarded (r.token == []) (invalid_argument, []) _ (λ empty e. cc)
                (λ named.
                  IsGuarded-push_by_type sends now svc r
                    (IsAuthentic-verify_push_auth now svc r accepted) (filled_text r.token named)))
            (λ error failed e. cc))
    where
      Guarded : Code × List Push → Type 0
      Guarded = IsGuarded sends now svc r
