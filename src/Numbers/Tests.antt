-- ===== src/Numbers/Tests.antt =====
-- Numbers on concrete input.
use open_carrier_network.Prelude.{
  ◌≡◌, refl, inl, inr, Bool, Option, none, some, [], ◌∷◌, Text, codes, text_beq, arith,
}
use open_carrier_network.Numbers.{
  parse_number, format_number, canonical_number, strip_dashes, allocated, allocate, try_random,
  scan_numbers, decimal,
}
use open_carrier_network.Numbers.Dial.{
  parse-format_number, parse-canonical_number, Dials, parse_number-Dials,
}
use open_carrier_network.Numbers.Allocation.{IsRight, allocate-IsRight}

parse_full : parse_number (codes "440-555-1234") [] ≡ some (codes "440", codes "5551234")
unfolding parse_number
parse_full = refl

-- The bytes need not be digits.
parse_letters : parse_number (codes "abcdefg") (codes "440") ≡ some (codes "440", codes "abcdefg")
unfolding parse_number
parse_letters = refl

parse_short : parse_number (codes "911") (codes "440") ≡ none
unfolding parse_number
parse_short = refl

parse-format_number_example :
    parse_number (format_number (codes "440") (codes "5551234")) (codes "216")
    ≡ some (codes "440", codes "5551234")
unfolding text_beq
parse-format_number_example =
    parse-format_number (codes "440") (codes "5551234") (codes "216") (inr refl) refl refl refl

parse-canonical_number_example :
    parse_number (canonical_number [] (codes "5551234")) (codes "216")
    ≡ some (codes "216", codes "5551234")
unfolding text_beq
parse-canonical_number_example =
    parse-canonical_number [] (codes "5551234") (codes "216") (inl refl) refl refl refl

parse_number-Dials_example :
    Dials [] (strip_dashes (codes "440-555-1234")) (parse_number (codes "440-555-1234") [])
parse_number-Dials_example = parse_number-Dials (codes "440-555-1234") []

abbrev one_taken : Text → Option Bool
one_taken t = some (text_beq t (codes "1000007"))

allocate_next : allocate one_taken (7 ∷ 8 ∷ []) ≡ allocated (codes "1000008")
unfolding allocate try_random scan_numbers decimal text_beq
allocate_next = refl

allocate_scan : allocate one_taken [] ≡ allocated (codes "1000000")
unfolding allocate try_random scan_numbers decimal text_beq
allocate_scan = refl

allocate-IsRight_example : IsRight one_taken 1000000 9000000 (allocate one_taken (7 ∷ 8 ∷ []))
allocate-IsRight_example = allocate-IsRight one_taken (7 ∷ 8 ∷ []) (omega arith)
