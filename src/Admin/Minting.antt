-- ===== src/Admin/Minting.antt =====
-- Theorems on the tokens that the panel of ocnserver/internal/admin makes.
use open_carrier_network.Prelude.{ℕ, ◌+◌, ◌*◌, ◌≤◌, true, false, not, ◌&&◌, Option, none, some}
use open_carrier_network.Prelude.{[], ◌∷◌, String, Text, ◌==◌, string_eq}
use open_carrier_network.Prelude.{text_eq, nat_eq, if-when}
use open_carrier_network.Prelude.{
  text_beq, if-by, Option-by, ◌≡◌, ◌⊎◌, refl, sym, subst, inl, inr, arith,
}
use open_carrier_network.Store.Tables.{Token, Database, issued}
use open_carrier_network.Store.Users.{number_available}
use open_carrier_network.Store.Provision.{
  ProvisionError, number_taken, new_provision_token, null_if_empty,
}
use open_carrier_network.Admin.Panel.{
  Panel, Options, Outside, Request, Refusal, refused, ℤ, pos, negsuc,
}
use open_carrier_network.Admin.Panel.{ProvisionBody, internal, number_conflict, trim_space}
use open_carrier_network.Admin.Handlers.{Answer, mint}
use open_carrier_network.Admin.Handlers.{handle_create_provision, clamp_hours, creation_error}

-- A token that NewProvisionToken has stored, in the tables that it leads to.
abbrev pub IsStored : ℕ → ℕ → Text → Database → Database → Type 0
IsStored now ttl number db new =
    (new.users ≡ db.users)
    × ((new.tokens ≡ db.tokens)
        ⊎ ((t : Token) × (new.tokens ≡ t ∷ db.tokens)
            × (t.number ≡ null_if_empty number)
            × (t.status ≡ issued)
            × (t.expires_at ≡ now + ttl)))

new_provision_token-IsStored :
    (db : Database) (hash : String) (number name : Text) (notes creator : String) (now ttl : ℕ)
    → IsStored now ttl number db (new_provision_token db hash number name notes creator now ttl).0
unfolding new_provision_token
new_provision_token-IsStored db hash number name notes creator now ttl =
    if-by (λ (x : Database × Option ProvisionError). IsStored now ttl number db x.0) _
      (db, some number_taken) _ (refl, inl refl) (refl, inr (_, refl, refl, refl, refl))

-- What handleCreateProvision and handleJoinMint leave.
abbrev pub IsMinted : ℕ → ℕ → Text → Panel → Answer → Type 0
IsMinted now ttl number p (reply, q) =
    (q.settings ≡ p.settings) × (q.accounts ≡ p.accounts) × IsStored now ttl number p.db q.db

pub mint-IsMinted :
    (o : Options) (env : Outside) (r : Request) (creator : String) (number name : Text)
    (notes : String) (ttl : ℕ) (on_error : ProvisionError → Refusal) (p : Panel)
    → IsMinted env.now ttl number p (mint o env r creator number name notes ttl on_error p)
unfolding mint
mint-IsMinted o env r creator number name notes ttl on_error p =
    Option-by Minted env.random_token (refused internal, p) _ (refl, refl, (refl, inl refl))
      (λ secret drawn.
        let stored =
          new_provision_token-IsStored p.db (env.hash_token secret) number name notes creator
            env.now ttl in
        Option-by Minted
          (new_provision_token p.db (env.hash_token secret) number name notes creator env.now ttl).1
          _ _ (if-by Minted env.renders _ _ (refl, refl, stored) (refl, refl, stored))
          (λ e failed. (refl, refl, stored)))
  where
    Minted : Answer → Type 0
    Minted = IsMinted env.now ttl number p

-- A number that a token may reserve: none, or one that is available.
abbrev pub IsOffered : Database → Option Text → Type 0
IsOffered db none = Unit
IsOffered db (some number) = number_available db number ≡ true

-- How long a token lasts that an operator makes.
abbrev pub IsTimely : ℕ → Panel → Answer → Type 0
IsTimely now p (reply, q) =
    (q.db.users ≡ p.db.users)
    × ((q.db.tokens ≡ p.db.tokens)
        ⊎ ((t : Token) × (q.db.tokens ≡ t ∷ p.db.tokens)
            × (t.status ≡ issued)
            × (now + 3600 ≤ t.expires_at)
            × (t.expires_at ≤ now + 2592000)
            × IsOffered p.db t.number))

IsOffered-null_if_empty :
    (db : Database) (number : Text)
    → (not (number == []) && not (number_available db number)) ≡ false
    → IsOffered db (null_if_empty number)
unfolding null_if_empty text_beq
IsOffered-null_if_empty db [] free = tt
IsOffered-null_if_empty db (c ∷ number) free = ground arith

-- The hours of the request, 24 where they are none or negative, and 720 at most.
clamp_hours_lem : (hours : ℤ) → (1 ≤ clamp_hours hours) × (clamp_hours hours ≤ 720)
unfolding clamp_hours
clamp_hours_lem (pos hours) = ground arith
clamp_hours_lem (negsuc n) = (omega arith, omega arith)

-- A token that an operator makes, whatever the number of hours in the request, negative ones included, lasts an hour at least
-- and 30 days at most, and the number that it reserves, if any, was one that was available; no line
-- changes, and there is one such token at most.
pub handle_create_provision-IsTimely :
    (o : Options) (env : Outside) (r : Request) (user : String) (body : Option ProvisionBody)
    (p : Panel)
    → IsTimely env.now p (handle_create_provision o env r user body p)
unfolding handle_create_provision
handle_create_provision-IsTimely o env r user none p = (refl, inl refl)
handle_create_provision-IsTimely o env r user (some b) p =
    if-when Timely (not (number == []) && not (number_available p.db number))
      (refused number_conflict, p) minted (λ taken. (refl, inl refl))
      (λ free.
        timely minted
          (mint-IsMinted o env r user number b.display_name b.notes ttl creation_error p)
          (IsOffered-null_if_empty p.db number free))
  where
    Timely : Answer → Type 0
    Timely = IsTimely env.now p

    number : Text
    number = trim_space b.number

    ttl : ℕ
    ttl = clamp_hours b.valid_hours * 3600

    minted : Answer
    minted = mint o env r user number b.display_name b.notes ttl creation_error p

    timely :
        (a : Answer)
        → IsMinted env.now ttl number p a
        → IsOffered p.db (null_if_empty number)
        → Timely a
    timely (reply, q) (settings, accounts, (users, inl same)) o = (users, inl same)
    timely (reply, q) (settings, accounts, (users, inr (t, more, named, status, expires))) o = (
      users,
      inr (
        t,
        more,
        status,
        omega (arith, clamp_hours_lem b.valid_hours),
        omega (arith, clamp_hours_lem b.valid_hours),
        subst (IsOffered p.db) (sym named) o,
      ),
    )
