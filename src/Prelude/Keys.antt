-- ===== src/Prelude/Keys.antt =====
-- Go's `==` on the types that the program compares: integers, strings that it takes apart (their
-- bytes) and strings that it only passes on.
use Prim.Native.Nat.{ℕ}
use Prim.Native.String.{String}
use Prim.Native.Char.{code}
use mathlib.Core.Path.{◌≡◌, refl}
use mathlib.Core.Logic.{◌↔◌}
use mathlib.Core.Bool.{Bool, true, false, ◌&&◌}
use mathlib.Core.List.{List, [], ◌∷◌}
use native.Mathlib.Omega.{arith}
use text.Mathlib.Text.{◌==◌ as str_eq}
use text.Mathlib.TextEquality.{eq_iff}
use open_carrier_network.Prelude.Tests.{nat_beq, nat_beq_iff}

-- A type whose values Go can compare, with what the comparison decides.
pub record Eq {ℓ} (K : Type ℓ) : Type ℓ where
  pub same : K → K → Bool
  pub same_iff : (j k : K) → (same j k ≡ true) ↔ (j ≡ k)

infix 50 ◌==◌
abbrev pub ◌==◌ {ℓ} : {K : Type ℓ} ⦃keys : Eq K⦄ (j k : K) → Bool
◌==◌ ⦃keys⦄ j k = keys.same j k

pub beq_refl {ℓ} : {K : Type ℓ} ⦃keys : Eq K⦄ (k : K) → (k == k) ≡ true
beq_refl ⦃keys⦄ k = (keys.same_iff k k).1 refl

-- The bytes of a Go string.
abbrev pub Text : Type 0
Text = List ℕ

-- A literal of the source: its bytes, all ASCII.
abbrev pub codes : String → Text
codes String.[] = []
codes (String.◌∷◌ first rest) = code first ∷ codes rest

unfoldable pub text_beq : Text → Text → Bool
text_beq [] [] = true
text_beq (a ∷ s) (b ∷ t) = nat_beq a b && text_beq s t
text_beq _ _ = false

text_beq_refl : (s : Text) → text_beq s s ≡ true
unfolding text_beq
text_beq_refl [] = refl
text_beq_refl (a ∷ s) = ground (arith, text_beq_refl s)

text_beq_sound : (s t : Text) → text_beq s t ≡ true → s ≡ t
unfolding text_beq
text_beq_sound [] [] h = refl
text_beq_sound (a ∷ s) (b ∷ t) h = ground (arith, text_beq_sound s t)
text_beq_sound _ _ h = ground arith

text_beq_complete : (s t : Text) → s ≡ t → text_beq s t ≡ true
text_beq_complete s t h = ground (arith, text_beq_refl s)

pub text_beq_iff : (s t : Text) → (text_beq s t ≡ true) ↔ (s ≡ t)
text_beq_iff s t = (text_beq_sound s t, text_beq_complete s t)

instance abbrev pub text_eq : Eq Text
text_eq = record { same = text_beq; same_iff = text_beq_iff }

instance abbrev pub nat_eq : Eq ℕ
nat_eq = record { same_iff = nat_beq_iff; same = nat_beq }

-- A string that is only compared.
instance abbrev pub string_eq : Eq String
string_eq = record { same_iff = eq_iff; same = str_eq }
