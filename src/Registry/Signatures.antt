-- ===== src/Registry/Signatures.antt =====
-- What a signature of an exchange is good for: VerifyPushAuth and DeregisterServer.
use open_carrier_network.Prelude.{
  ℕ, ◌≡◌, ◌≢◌, refl, ap, ◌∙◌, Bool, true, none, some, List, [], ◌∷◌, String, Text, arith, ◌==◌,
  text_eq, string_eq, if◌then◌else◌, if-when, Option-when,
}
use open_carrier_network.Registry.{
  ServerInfo, RegistryError, find_server, is_active, get_route, drop_server, valid_auth,
  deregister_server, verify_push_auth,
}

find_server-drop_server :
    (area other : Text) (servers : List ServerInfo)
    → find_server other (drop_server area servers)
      ≡ (if area == other then none else find_server other servers)
unfolding find_server drop_server
find_server-drop_server area other [] = ground arith
find_server-drop_server area other (r ∷ rs) = ground (
  arith,
  find_server-drop_server area other rs,
  text_eq.same_iff r.area_code area,
  text_eq.same_iff r.area_code other,
  text_eq.same_iff area other,
)

some≢none : {e : RegistryError} → some e ≢ none
some≢none q = cc

module _ (verify : String → Text → ℕ → List ℕ → Bool) (servers : List ServerInfo) (area : Text)
    (ts now : ℕ) (signature : List ℕ) where
  abbrev IsSigned : ServerInfo → Type 0
  IsSigned s =
      (find_server area servers ≡ some s)
      × (valid_auth verify s.public_key area ts now signature ≡ true)

  verify_push_auth-IsSigned :
      verify_push_auth verify servers area ts now signature ≡ none → (s : ServerInfo) × IsSigned s
  unfolding verify_push_auth
  verify_push_auth-IsSigned =
      Option-when (λ r. r ≡ none → (s : ServerInfo) × IsSigned s) (find_server area servers) _ _
        (λ e q. absurd (some≢none q))
        λ s found.
          if-when (λ r. r ≡ none → (s : ServerInfo) × IsSigned s) (is_active s.status) _ _
            (λ up.
              if-when (λ r. r ≡ none → (s : ServerInfo) × IsSigned s)
                (valid_auth verify s.public_key area ts now signature) _ _
                (λ valid q. (s, (found, valid))) λ e q. absurd (some≢none q))
            λ e q. absurd (some≢none q)

  deregister_server-IsSigned :
      (s : ServerInfo)
      → IsSigned s
      → deregister_server verify servers area ts now signature ≡ (drop_server area servers, none)
  unfolding deregister_server
  deregister_server-IsSigned s (found, valid) =
      rw (found, deregister_server) (rw (valid, deregister_server) refl)

get_route-drop_server :
    (area other : Text) (servers : List ServerInfo)
    → get_route other (drop_server area servers)
      ≡ (if area == other then none else get_route other servers)
unfolding get_route
get_route-drop_server area other servers =
    rw (find_server-drop_server area other servers, get_route) (ground arith)

-- A signature that an exchange has made to have a phone woken also takes the exchange off the
-- registry: wherever VerifyPushAuth accepts it, DeregisterServer with the same area, time and
-- signature succeeds, and the area has no route any more, while every other area keeps its own.
pub deregister_server-verify_push_auth :
    (verify : String → Text → ℕ → List ℕ → Bool) (servers : List ServerInfo) (area : Text)
    (ts now : ℕ) (signature : List ℕ) (other : Text)
    → verify_push_auth verify servers area ts now signature ≡ none
    → let after = deregister_server verify servers area ts now signature in
      (after.1 ≡ none)
      × (get_route other after.0 ≡ (if area == other then none else get_route other servers))
deregister_server-verify_push_auth verify servers area ts now signature other accepted =
    let signed = verify_push_auth-IsSigned verify servers area ts now signature accepted in
    let gone = deregister_server-IsSigned verify servers area ts now signature signed.0 signed.1 in
    (
      ap (λ r. r.1) gone,
      ap (λ r. get_route other r.0) gone ∙ get_route-drop_server area other servers,
    )
