-- ===== src/Store/Picks.antt =====
-- The number that pickFreeNumber finds for a token that names none.
use open_carrier_network.Prelude.{
  ℕ, zero, suc, ◌+◌, ◌-◌, ◌≡◌, subst, Bool, true, false, Option, none, some, List, [], ◌∷◌, ◌++◌,
  Text, arith, text_eq, if-by, if-when, leb, length, take, refl, ◌<◌, Bool-cases, inl, inr, ap, sym,
  ◌∙◌, ◌⊎◌, true≢false,
}
use open_carrier_network.Numbers.{sprintf07, min_number, max_number}
use open_carrier_network.Prelude.{◌≢◌, ◌==◌}
use open_carrier_network.Store.Tables.{
  User, Token, Status, issued, used, revoked, unknown, Database,
}
use open_carrier_network.Store.Provision.{
  line, failed, no_available, contains, Picks, try_number, pick_random, pick_scan,
  pick_free_numbers, pick_free_number, taken_number_set, auto_assign, user_numbers, reservations,
  reservation,
}

-- Each of the numbers is free: none of them is taken.
abbrev pub AreFree : List Text → List Text → Type 0
AreFree taken [] = Unit
AreFree taken (n ∷ ns) = (contains n taken ≡ false) × AreFree taken ns

AreFree-snoc :
    (taken ns : List Text) (n : Text)
    → AreFree taken ns
    → contains n taken ≡ false
    → AreFree taken (ns ++ (n ∷ []))
AreFree-snoc taken [] n h free = (free, tt)
AreFree-snoc taken (m ∷ ns) n h free = (h.0, AreFree-snoc taken ns n h.1 free)

contains-tail : (n m : Text) (ms : List Text) → contains n (m ∷ ms) ≡ false → contains n ms ≡ false
unfolding contains
contains-tail n m ms free = ground arith

module _ (taken : List Text) where
  -- What the loops keep: the picks are free, and what was taken at first is still taken.
  abbrev IsPicking : Picks → Type 0
  IsPicking (now, out) =
      AreFree taken out × ((n : Text) → contains n now ≡ false → contains n taken ≡ false)

  try_number-IsPicking :
      (ns : Text) (picks : Picks) → IsPicking picks → IsPicking (try_number ns picks)
  try_number-IsPicking ns (now, out) h =
      if-when IsPicking (contains ns now) _ _ (λ e. h)
        λ e.
          (AreFree-snoc taken out ns h.0 (h.1 ns e), λ n free. h.1 n (contains-tail n ns now free))

  pick_random-IsPicking :
      (n : ℕ) (draws : List ℕ) (picks : Picks)
      → IsPicking picks
      → IsPicking (pick_random n draws picks)
  unfolding pick_random
  pick_random-IsPicking n [] picks h = h
  pick_random-IsPicking n (draw ∷ draws) picks h =
      if-by IsPicking (leb n (length picks.1)) _ _ h
        (pick_random-IsPicking n draws _ (try_number-IsPicking _ picks h))

  pick_scan-IsPicking :
      (n left num : ℕ) (picks : Picks) → IsPicking picks → IsPicking (pick_scan n left num picks)
  unfolding pick_scan
  pick_scan-IsPicking n zero num picks h = h
  pick_scan-IsPicking n (suc left) num picks h =
      scanned (leb n (length picks.1))
        (pick_scan-IsPicking n left (num + 1) _ (try_number-IsPicking _ picks h))
    where
      scanned :
          (b : Bool)
          → IsPicking (pick_scan n left (num + 1) (try_number (sprintf07 num) picks))
          → IsPicking (elim b [
            | true ↦ picks
            | false ↦ pick_scan n left (num + 1) (try_number (sprintf07 num) picks)
          ])
      scanned true later = h
      scanned false later = later

  -- Whatever the random draws are, the numbers that pickFreeNumbers returns were not taken.
  pub pick_free_numbers-AreFree :
      (n : ℕ) (draws : List ℕ) → AreFree taken (pick_free_numbers n draws taken)
  unfolding pick_free_numbers
  pick_free_numbers-AreFree n draws =
      (pick_scan-IsPicking n (max_number - min_number + 1) min_number _
        (pick_random-IsPicking n (take 2000 draws) (taken, []) (tt, λ m free. free))).0

line_inj : {m n : Text} → line m ≡ line n → m ≡ n
line_inj e = cc

auto_assign-not_taken :
    (db : Database) (draws : List ℕ) (num : Text)
    → auto_assign db draws ≡ line num
    → contains num (taken_number_set db) ≡ false
unfolding auto_assign pick_free_number
auto_assign-not_taken db draws num assigned =
    first (pick_free_numbers 1 draws (taken_number_set db))
      (pick_free_numbers-AreFree (taken_number_set db) 1 draws) assigned
  where
    first :
        (ns : List Text)
        → AreFree (taken_number_set db) ns
        → (elim (elim ns as (λ x. Option Text) [ [] ↦ none | m ∷ rest ↦ some m ]) [
          | none ↦ failed no_available
          | some m ↦ line m
        ])
          ≡ line num
        → contains num (taken_number_set db) ≡ false
    first [] free e = cc
    first (m ∷ rest) free e =
        subst (λ x. contains x (taken_number_set db) ≡ false) (line_inj e) free.0

contains-append :
    (n : Text) (xs ys : List Text)
    → contains n (xs ++ ys) ≡ false
    → (contains n xs ≡ false) × (contains n ys ≡ false)
unfolding contains
contains-append n [] ys h = (refl, h)
contains-append n (x ∷ xs) ys h = ground (arith, contains-append n xs ys)

differs : (m n : Text) → (m == n) ≡ false → m ≢ n
differs m n h e = true≢false (sym ((text_eq.same_iff m n).1 e) ∙ h)

-- No user has the number.
abbrev pub IsNobodys : Text → List User → Type 0
IsNobodys num [] = Unit
IsNobodys num (u ∷ us) = (u.number ≢ num) × IsNobodys num us

-- No token that is still open names the number.
abbrev pub IsUnreserved : Text → List Token → Type 0
IsUnreserved num [] = Unit
IsUnreserved num (t ∷ ts) = ((t.status ≡ issued) → (t.number ≡ some num) → ⊥) × IsUnreserved num ts

user_numbers-IsNobodys :
    (num : Text) (us : List User) → contains num (user_numbers us) ≡ false → IsNobodys num us
unfolding contains user_numbers
user_numbers-IsNobodys num [] h = tt
user_numbers-IsNobodys num (u ∷ us) h =
    (differs u.number num (ground arith), user_numbers-IsNobodys num us (ground arith))

-- A token with this state and this number is no reservation of `num`, and the rest holds none either.
reservation-open :
    (num : Text) (s : Status) (named : Option Text) (rest : List Text)
    → contains num (reservation s named rest) ≡ false
    → ((s ≡ issued) → (named ≡ some num) → ⊥) × (contains num rest ≡ false)
unfolding contains
reservation-open num issued (some n) rest h =
    (λ e named. differs n num (ground arith) (some_inj named), ground arith)
  where
    some_inj : some n ≡ some num → n ≡ num
    some_inj e = cc
reservation-open num issued none rest h = (λ e named. none_differs named, h)
  where
    none_differs : none ≡ some num → ⊥
    none_differs e = cc
reservation-open num used named rest h = (λ e. absurd (other e), h)
  where
    other : used ≡ issued → ⊥
    other e = cc
reservation-open num revoked named rest h = (λ e. absurd (other e), h)
  where
    other : revoked ≡ issued → ⊥
    other e = cc
reservation-open num unknown named rest h = (λ e. absurd (other e), h)
  where
    other : unknown ≡ issued → ⊥
    other e = cc

reservations-IsUnreserved :
    (num : Text) (ts : List Token) → contains num (reservations ts) ≡ false → IsUnreserved num ts
unfolding reservations
reservations-IsUnreserved num [] h = tt
reservations-IsUnreserved num (t ∷ ts) h =
    let (unreserved, rest) = reservation-open num t.status t.number (reservations ts) h in
    (unreserved, reservations-IsUnreserved num ts rest)

-- A number that is assigned to a token which names none is the number of no user in the table, and no
-- token that is still open names it, whatever the random draws are.
pub auto_assign-free :
    (db : Database) (draws : List ℕ) (num : Text)
    → auto_assign db draws ≡ line num
    → IsNobodys num db.users × IsUnreserved num db.tokens
unfolding taken_number_set
auto_assign-free db draws num assigned =
    let (nobodys, unreserved) =
      contains-append num (user_numbers db.users) (reservations db.tokens)
        (auto_assign-not_taken db draws num assigned) in
    (
      user_numbers-IsNobodys num db.users nobodys,
      reservations-IsUnreserved num db.tokens unreserved,
    )

-- Once a number is picked, the scan for one number ends.
scan_ends :
    (left num : ℕ) (taken ns : List Text) (n : Text)
    → pick_scan 1 left num (taken, n ∷ ns) ≡ (taken, n ∷ ns)
unfolding pick_scan
scan_ends zero num taken ns n = refl
scan_ends (suc left) num taken ns n =
    let enough : leb 1 (suc (length ns)) ≡ true = ground arith in rw (pick_scan, enough) refl

scan_held :
    (left num : ℕ) (taken : List Text)
    → contains (sprintf07 num) taken ≡ true
    → pick_scan 1 (suc left) num (taken, []) ≡ pick_scan 1 left (num + 1) (taken, [])
unfolding pick_scan
scan_held left num taken held = rw held refl

scan_free :
    (left num : ℕ) (taken : List Text)
    → contains (sprintf07 num) taken ≡ false
    → (pick_scan 1 (suc left) num (taken, [])).1 ≡ sprintf07 num ∷ []
unfolding pick_scan
scan_free left num taken free =
    rw free (
      ap (λ (p : Picks). p.1) (scan_ends left (num + 1) (sprintf07 num ∷ taken) [] (sprintf07 num)))

first_held :
    (left num : ℕ) (taken : List Text)
    → (pick_scan 1 (suc left) num (taken, [])).1 ≡ []
    → contains (sprintf07 num) taken ≡ true
first_held left num taken none_left = elim (Bool-cases (contains (sprintf07 num) taken)) [
  | inl held ↦ held
  | inr free ↦ absurd (filled (sym (scan_free left num taken free) ∙ none_left))
]
  where
    filled : sprintf07 num ∷ [] ≡ [] → ⊥
    filled e = cc

-- A scan for one number that picks none has found every number taken.
scan_full :
    (left num : ℕ) (taken : List Text) (k : ℕ)
    → (pick_scan 1 left num (taken, [])).1 ≡ []
    → k < left
    → contains (sprintf07 (num + k)) taken ≡ true
scan_full zero num taken k none_left h = absurd (omega arith)
scan_full (suc left) num taken zero none_left h =
    subst (λ (n : ℕ). contains (sprintf07 n) taken ≡ true) (omega arith)
      (first_held left num taken none_left)
scan_full (suc left) num taken (suc k) none_left h =
    subst (λ (n : ℕ). contains (sprintf07 n) taken ≡ true) (omega arith)
      (scan_full left (num + 1) taken k
        (sym (
            ap (λ (p : Picks). p.1)
              (scan_held left num taken (first_held left num taken none_left)))
          ∙ none_left)
        (omega arith))

-- Draws that pick nothing leave the numbers as they were.
random_ends :
    (draws : List ℕ) (taken ns : List Text) (n : Text)
    → pick_random 1 draws (taken, n ∷ ns) ≡ (taken, n ∷ ns)
unfolding pick_random
random_ends [] taken ns n = refl
random_ends (d ∷ draws) taken ns n =
    let enough : leb 1 (suc (length ns)) ≡ true = ground arith in rw enough refl

-- Draws have picked nothing, or one number.
random_cases :
    (draws : List ℕ) (taken : List Text)
    → (pick_random 1 draws (taken, []) ≡ (taken, []))
      ⊎ ((n : Text) × (pick_random 1 draws (taken, []) ≡ (n ∷ taken, n ∷ [])))
unfolding pick_random
random_cases [] taken = inl refl
random_cases (d ∷ draws) taken = elim (Bool-cases (contains (sprintf07 (min_number + d)) taken)) [
  | inl held ↦ rw held (random_cases draws taken)
  | inr free ↦ rw free (inr (_, random_ends draws (sprintf07 (min_number + d) ∷ taken) [] _))
]

rest_full :
    (left num : ℕ) (taken : List Text) (k : ℕ) (picks : Picks)
    → (picks ≡ (taken, [])) ⊎ ((n : Text) × (picks ≡ (n ∷ taken, n ∷ [])))
    → (pick_scan 1 left num picks).1 ≡ []
    → k < left
    → contains (sprintf07 (num + k)) taken ≡ true
rest_full left num taken k picks (inl same) empty h =
    scan_full left num taken k (subst (λ (r : Picks). (pick_scan 1 left num r).1 ≡ []) same empty) h
rest_full left num taken k picks (inr (n, one)) empty h = absurd (
    filled (
      sym (ap (λ (p : Picks). p.1) (scan_ends left num (n ∷ taken) [] n))
      ∙ subst (λ (r : Picks). (pick_scan 1 left num r).1 ≡ []) one empty))
  where
    filled : n ∷ [] ≡ [] → ⊥
    filled e = cc

none_picked :
    (draws : List ℕ) (taken : List Text) (k : ℕ)
    → pick_free_numbers 1 draws taken ≡ []
    → k < 9000000
    → contains (sprintf07 (1000000 + k)) taken ≡ true
unfolding pick_free_numbers
none_picked draws taken k empty h =
    rest_full 9000000 1000000 taken k (pick_random 1 (take 2000 draws) (taken, []))
      (random_cases (take 2000 draws) taken) empty h

-- A token that names no number is always given one, whatever the random draws are, as long as some
-- number of the pool, 1000000 to 9999999, belongs to no user and is reserved by no token.
pub auto_assign-line :
    (db : Database) (draws : List ℕ) (k : ℕ)
    → k < 9000000
    → contains (sprintf07 (1000000 + k)) (taken_number_set db) ≡ false
    → (num : Text) × (auto_assign db draws ≡ line num)
unfolding auto_assign pick_free_number
auto_assign-line db draws k h free =
    assigned (pick_free_numbers 1 draws (taken_number_set db))
      (λ empty. true≢false (sym (none_picked draws (taken_number_set db) k empty h) ∙ free))
  where
    assigned :
        (ns : List Text)
        → (ns ≡ [] → ⊥)
        → (num : Text) × ((elim (elim ns as (λ x. Option Text) [ [] ↦ none | m ∷ rest ↦ some m ]) [
          | none ↦ failed no_available
          | some m ↦ line m
        ])
            ≡ line num)
    assigned [] filled = absurd (filled refl)
    assigned (m ∷ rest) filled = (m, refl)
