-- ===== src/Numbers/Allocation.antt =====
-- What allocation promises, over Allocate in allocator.go.
use open_carrier_network.Prelude.{
  ℕ, zero, suc, ◌+◌, ◌-◌, ◌≤◌, ◌<◌, ◌≡◌, refl, subst, ◌⊎◌, inl, inr, Bool, true, false, Option,
  none, some, List, [], ◌∷◌, arith, Text, take,
}
use open_carrier_network.Numbers.{
  min_number, max_number, sprintf07, Allocated, allocated, exists_failed, no_available, try_random,
  scan_numbers, allocate,
}

-- What a result of `Allocate` says of the numbers from `low` on, `count` of them: an allocated
-- number is one of those and free, a failure comes from a failed check of one of those, and
-- exhaustion means that all of those are taken.
abbrev pub IsRight : (Text → Option Bool) → ℕ → ℕ → Allocated → Type 0
IsRight exists_fn low count (allocated num_str) =
    (num : ℕ) × (low ≤ num)
    × (num < low + count)
    × (num_str ≡ sprintf07 num)
    × (exists_fn num_str ≡ some false)
IsRight exists_fn low count exists_failed =
    (num : ℕ) × (low ≤ num) × (num < low + count) × (exists_fn (sprintf07 num) ≡ none)
IsRight exists_fn low count no_available =
    (num : ℕ) → low ≤ num → num < low + count → exists_fn (sprintf07 num) ≡ some true

module _ (exists_fn : Text → Option Bool) where
  widen :
      (low count : ℕ) (r : Allocated)
      → exists_fn (sprintf07 low) ≡ some true
      → IsRight exists_fn (low + 1) count r
      → IsRight exists_fn low (suc count) r
  widen low count (allocated num_str) taken (num, a, b, c, d) =
      (num, omega arith, omega arith, c, d)
  widen low count exists_failed taken (num, a, b, c) = (num, omega arith, omega arith, c)
  widen low count no_available taken all_taken = λ num a b. elim (Nat_split low num a) [
    | inl here ↦ subst (λ n. exists_fn (sprintf07 n) ≡ some true) here taken
    | inr above ↦ all_taken num above (omega arith)
  ]
    where
      Nat_split : (a b : ℕ) → a ≤ b → (a ≡ b) ⊎ (a + 1 ≤ b)
      Nat_split a b h = grind arith

  scan_numbers-IsRight :
      (left num : ℕ) → IsRight exists_fn num left (scan_numbers exists_fn left num)
  unfolding scan_numbers
  scan_numbers-IsRight zero num = λ n a b. absurd (omega arith)
  scan_numbers-IsRight (suc left) num =
      split (exists_fn (sprintf07 num)) refl (scan_numbers-IsRight left (num + 1))
    where
      split :
          (e : Option Bool)
          → exists_fn (sprintf07 num) ≡ e
          → IsRight exists_fn (num + 1) left (scan_numbers exists_fn left (num + 1))
          → IsRight exists_fn num (suc left) (elim e [
            | none ↦ exists_failed
            | some true ↦ scan_numbers exists_fn left (num + 1)
            | some false ↦ allocated (sprintf07 num)
          ])
      split none h r = (num, omega arith, omega arith, h)
      split (some true) h r = widen num left _ h r
      split (some false) h r = (num, omega arith, omega arith, refl, h)

  -- rand.Intn(count) is below `count`.
  abbrev pub AreBelow : ℕ → List ℕ → Type 0
  AreBelow count [] = Unit {0}
  AreBelow count (d ∷ ds) = (d < count) × AreBelow count ds

  abbrev pub IsRight? : ℕ → ℕ → Option Allocated → Type 0
  IsRight? low count none = Unit {0}
  IsRight? low count (some r) = IsRight exists_fn low count r

  try_random-IsRight :
      (count tries : ℕ) (draws : List ℕ)
      → AreBelow count draws
      → IsRight? min_number count (try_random exists_fn (take tries draws))
  unfolding try_random
  try_random-IsRight count zero draws h = tt
  try_random-IsRight count (suc tries) [] h = tt
  try_random-IsRight count (suc tries) (d ∷ ds) h =
      split (exists_fn (sprintf07 (min_number + d))) refl (try_random-IsRight count tries ds h.1)
    where
      split :
          (e : Option Bool)
          → exists_fn (sprintf07 (min_number + d)) ≡ e
          → IsRight? min_number count (try_random exists_fn (take tries ds))
          → IsRight? min_number count (elim e [
            | none ↦ some exists_failed
            | some true ↦ try_random exists_fn (take tries ds)
            | some false ↦ some (allocated (sprintf07 (min_number + d)))
          ])
      split none e r = (min_number + d, omega arith, omega arith, e)
      split (some true) e r = r
      split (some false) e r = (min_number + d, omega arith, omega arith, refl, e)

  -- With draws in the range that rand.Intn promises, Allocate hands out a seven-digit number that is
  -- free, fails only where the check of a number of the pool fails, and gives up only where every
  -- number of the pool, 1000000 to 9999999, is taken.
  pub allocate-IsRight :
      (draws : List ℕ)
      → AreBelow (max_number - min_number + 1) draws
      → IsRight exists_fn min_number (max_number - min_number + 1) (allocate exists_fn draws)
  unfolding allocate
  allocate-IsRight draws h =
      first_found (try_random exists_fn (take 100 draws))
        (try_random-IsRight (max_number - min_number + 1) 100 draws h)
    where
      first_found :
          (o : Option Allocated)
          → IsRight? min_number (max_number - min_number + 1) o
          → IsRight exists_fn min_number (max_number - min_number + 1) (elim o [
            | some result ↦ result
            | none ↦ scan_numbers exists_fn (max_number - min_number + 1) min_number
          ])
      first_found none u = scan_numbers-IsRight (max_number - min_number + 1) min_number
      first_found (some r) u = u
