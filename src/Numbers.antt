-- ===== src/Numbers.antt =====
-- ocnserver/internal/numbers/allocator.go: how phone numbers are written, dialled and allocated.
-- A Go string is the list of its bytes.
pub mod Dial
pub mod Allocation
mod Tests
use open_carrier_network.Prelude.{
  ℕ, zero, suc, ◌+◌, ◌-◌, ◌/◌, ◌%◌, Bool, true, false, not, Option, none, some, List, [], ◌∷◌, ◌++◌,
  Text, text_beq, ◌==◌, nat_eq, text_eq, if◌then◌else◌, length, take, drop, keep,
}

abbrev pub min_number : ℕ
min_number = 1000000

abbrev pub max_number : ℕ
max_number = 9999999

-- The last `width` decimal digits of `n`, zeros in front: what `%07d` and `%03d` print of a number
-- that has no more digits than that.
unfoldable pub decimal : ℕ → ℕ → Text
decimal zero n = []
decimal (suc width) n = decimal width (n / 10) ++ (48 + n % 10) ∷ []

-- fmt.Sprintf("%07d", num)
abbrev pub sprintf07 : ℕ → Text
sprintf07 n = decimal 7 n

-- FormatLocal
unfoldable pub format_local : Text → Text
format_local number = if length number == 7 then take 3 number ++ (b'-' ∷ drop 3 number) else number

-- FormatNumber
unfoldable pub format_number : Text → Text → Text
unfolding format_local text_beq
format_number area_code number =
    if area_code == [] then format_local number else area_code ++ (b'-' ∷ format_local number)

-- strings.ReplaceAll(dial, "-", "")
unfoldable pub strip_dashes : Text → Text
unfolding keep
strip_dashes = keep (λ c. not (c == b'-'))

-- ParseNumber: the area code and the local number, or `none` for its error.
unfoldable pub parse_number : Text → Text → Option (Text × Text)
unfolding strip_dashes text_beq
parse_number dial default_area_code =
    let clean = strip_dashes dial in
    if length clean == 7
    then some (default_area_code, clean)
    else if length clean == 10
    then (if default_area_code == []
        then some (take 3 clean, drop 3 clean)
        else some (take 3 clean, drop 3 clean))
    else none

-- canonicalNumber in signaling, Canonical in dm.
unfoldable pub canonical_number : Text → Text → Text
unfolding text_beq
canonical_number area number = if area == [] then number else area ++ number

-- The three ends of `Allocate`.
pub data Allocated : Type 0 where
  allocated : Text → Allocated
  exists_failed no_available : Allocated

-- The first loop: `draws` are the values of rand.Intn that are left to come, `none` is a loop that
-- ran out of tries.
unfoldable pub try_random : (Text → Option Bool) → List ℕ → Option Allocated
try_random exists_fn [] = none
try_random exists_fn (draw ∷ draws) =
    let num_str = sprintf07 (min_number + draw) in
    elim (exists_fn num_str) [
      | none ↦ some exists_failed
      | some true ↦ try_random exists_fn draws
      | some false ↦ some (allocated num_str)
    ]

-- The second loop, with `left` numbers from `num` on to try.
unfoldable pub scan_numbers : (Text → Option Bool) → ℕ → ℕ → Allocated
scan_numbers exists_fn zero num = no_available
scan_numbers exists_fn (suc left) num = elim (exists_fn (sprintf07 num)) [
  | none ↦ exists_failed
  | some true ↦ scan_numbers exists_fn left (num + 1)
  | some false ↦ allocated (sprintf07 num)
]

-- Allocate: a hundred draws, then every number in turn.
unfoldable pub allocate : (Text → Option Bool) → List ℕ → Allocated
allocate exists_fn draws = elim (try_random exists_fn (take 100 draws)) [
  | some result ↦ result
  | none ↦ scan_numbers exists_fn (max_number - min_number + 1) min_number
]
