-- ===== src/Prelude/Table.antt =====
-- Go's maps, as association lists. A map is read, written and deleted from by its key; a range loop
-- visits the entries in the order of the list, where Go leaves the order open.
use mathlib.Core.Path.{◌≡◌, subst}
use mathlib.Core.Logic.{inl, inr}
use mathlib.Core.Option.{Option, none, some}
use mathlib.Core.List.{List, [], ◌∷◌}
use native.Mathlib.Omega.{arith}
use open_carrier_network.Prelude.Tests.{if◌then◌else◌, Bool-cases}
use open_carrier_network.Prelude.Keys.{Eq, ◌==◌, beq_refl}

abbrev pub Table {ℓ κ} : Type ℓ → Type κ → Type (ℓ ⊔ κ)
Table K V = List (K × V)

module _ {ℓ κ} {K : Type ℓ} {V : Type κ} ⦃e : Eq K⦄ where
  -- m[k]
  unfoldable pub lookup : K → Table K V → Option V
  lookup k [] = none
  lookup k ((j, v) ∷ m) = if j == k then some v else lookup k m

  -- delete(m, k)
  unfoldable pub delete : K → Table K V → Table K V
  delete k [] = []
  delete k ((j, v) ∷ m) = let rest = delete k m in if j == k then rest else (j, v) ∷ rest

  -- m[k] = v
  unfoldable pub insert : K → V → Table K V → Table K V
  unfolding delete
  insert k v m = (k, v) ∷ delete k m

  pub lookup-delete :
      (k j : K) (m : Table K V) → lookup j (delete k m) ≡ (if k == j then none else lookup j m)
  unfolding lookup delete
  lookup-delete k j [] = ground arith
  lookup-delete k j ((i, v) ∷ m) =
      ground (arith, lookup-delete k j m, e.same_iff i k, e.same_iff i j, e.same_iff k j)

  pub lookup-insert :
      (k j : K) (v : V) (m : Table K V)
      → lookup j (insert k v m) ≡ (if k == j then some v else lookup j m)
  unfolding lookup insert
  lookup-insert k j v m = ground (arith, lookup-delete k j m)

  pub lookup-insert_self : (k : K) (v : V) (m : Table K V) → lookup k (insert k v m) ≡ some v
  lookup-insert_self k v m = ground (arith, lookup-insert k k v m, beq_refl k)

  pub lookup-delete_self : (k : K) (m : Table K V) → lookup k (delete k m) ≡ none
  lookup-delete_self k m = ground (arith, lookup-delete k k m, beq_refl k)

module _ {ℓ κ μ} {K : Type ℓ} {V : Type κ} where
  -- Every value of the table has the property.
  abbrev pub Values : (V → Type μ) → Table K V → Type μ
  Values P [] = Unit
  Values P ((k, v) ∷ m) = P v × Values P m

  pub Values-map :
      {P Q : V → Type μ} → ((v : V) → P v → Q v) → (m : Table K V) → Values P m → Values Q m
  Values-map f [] h = tt
  Values-map f ((k, v) ∷ m) h = (f v h.0, Values-map f m h.1)

module _ {ℓ κ μ} {K : Type ℓ} {V : Type κ} ⦃e : Eq K⦄ (P : V → Type μ) where
  pub Values-delete : (k : K) (m : Table K V) → Values P m → Values P (delete k m)
  unfolding delete
  Values-delete k [] h = tt
  Values-delete k ((j, v) ∷ m) h = elim (Bool-cases (j == k)) [
    | inl hit ↦ rw hit (Values-delete k m h.1)
    | inr miss ↦ rw miss (h.0, Values-delete k m h.1)
  ]

  pub Values-insert : (k : K) (v : V) (m : Table K V) → P v → Values P m → Values P (insert k v m)
  unfolding insert
  Values-insert k v m p h = (p, Values-delete k m h)

  pub Values-lookup : (k : K) (v : V) (m : Table K V) → Values P m → lookup k m ≡ some v → P v
  unfolding lookup
  Values-lookup k v [] h found = absurd (none≢some found)
    where
      none≢some : none ≡ some v → ⊥
      none≢some q = cc
  Values-lookup k v ((j, w) ∷ m) h found = elim (Bool-cases (j == k)) [
    | inl hit ↦ let same : w ≡ v = ground arith in subst P same h.0
    | inr miss ↦ Values-lookup k v m h.1 (rw miss at found)
  ]
