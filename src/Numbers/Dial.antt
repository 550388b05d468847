-- ===== src/Numbers/Dial.antt =====
-- What dialling promises, over allocator.go: a printed number dials back to itself, and dashes do
-- not matter.
use open_carrier_network.Prelude.{
  ℕ, ◌≡◌, refl, sym, ap, subst, ◌∙◌, ◌≢◌, nat_beq_iff, ◌⊎◌, inl, inr, Bool, true, not, Option, none,
  some, [], ◌∷◌, ◌++◌, arith, Text, text_beq, ◌==◌, nat_eq, text_eq, if◌then◌else◌, length, take,
  drop, all, keep, Bool-cases, length-append, length-take, length-drop, take-append-drop,
  take_of_length, drop_of_length,
}
use open_carrier_network.Numbers.{
  format_local, format_number, strip_dashes, parse_number, canonical_number,
}

abbrev pub no_dash : Text → Bool
no_dash = all (λ c. not (c == b'-'))

keep_append : (p : ℕ → Bool) (s t : Text) → keep p (s ++ t) ≡ keep p s ++ keep p t
unfolding keep
keep_append p [] t = refl
keep_append p (c ∷ s) t = ground (arith, keep_append p s t)

keep-all : (p : ℕ → Bool) (s : Text) → all p s ≡ true → keep p s ≡ s
unfolding keep
keep-all p [] h = refl
keep-all p (c ∷ s) h = ground (arith, keep-all p s)

keep_idem : (p : ℕ → Bool) (s : Text) → keep p (keep p s) ≡ keep p s
unfolding keep
keep_idem p [] = refl
keep_idem p (c ∷ s) = ground (arith, keep_idem p s)

strip-append : (s t : Text) → strip_dashes (s ++ t) ≡ strip_dashes s ++ strip_dashes t
unfolding strip_dashes
strip-append s t = keep_append _ s t

pub strip_of_no_dash : (s : Text) → no_dash s ≡ true → strip_dashes s ≡ s
unfolding strip_dashes
strip_of_no_dash s h = keep-all _ s h

strip-dash : (s : Text) → strip_dashes (b'-' ∷ s) ≡ strip_dashes s
unfolding strip_dashes keep
strip-dash s = refl

strip-format_local : (number : Text) → strip_dashes (format_local number) ≡ strip_dashes number
unfolding format_local
strip-format_local number = elim (Bool-cases (length number == 7)) [
  | inr other ↦ rw other refl
  | inl seven ↦
      rw (seven, strip-append (take 3 number) (b'-' ∷ drop 3 number), strip-dash (drop 3 number))
        (rw (← strip-append (take 3 number) (drop 3 number), take-append-drop 3 number))
]

-- The number that a text of ten bytes stands for, and the one that a text of seven does.
parse_ten :
    (dial default area number : Text)
    → strip_dashes dial ≡ area ++ number
    → length area ≡ 3
    → length number ≡ 7
    → parse_number dial default ≡ some (area, number)
unfolding parse_number
parse_ten dial default area number e p q =
    let ten : length (area ++ number) ≡ 10 = omega (arith, length-append {0} area number) in
    let front : take 3 (area ++ number) ≡ area =
      subst (λ n. take n (area ++ number) ≡ area) p (take_of_length area number) in
    let back : drop 3 (area ++ number) ≡ number =
      subst (λ n. drop n (area ++ number) ≡ number) p (drop_of_length area number) in
    rw (e, ten, front, back) (ground arith)

parse_seven :
    (dial default number : Text)
    → strip_dashes dial ≡ number
    → length number ≡ 7
    → parse_number dial default ≡ some (default, number)
unfolding parse_number
parse_seven dial default number e q = rw (e, q)

-- A number that the exchange prints, with an area code or without one, dials back to itself: to its
-- own area code, or to the caller's where none was printed. Neither part may hold a dash.
pub parse-format_number :
    (area number default : Text)
    → (area ≡ []) ⊎ (length area ≡ 3)
    → length number ≡ 7
    → no_dash area ≡ true
    → no_dash number ≡ true
    → parse_number (format_number area number) default
      ≡ some (if area == [] then default else area, number)
unfolding format_number text_beq
parse-format_number [] number default a n da dn =
    parse_seven (format_local number) default number
      (strip-format_local number ∙ strip_of_no_dash number dn) n
parse-format_number (c ∷ cs) number default a n da dn =
    parse_ten _ default (c ∷ cs) number
      (strip-append (c ∷ cs) (b'-' ∷ format_local number)
        ∙ rw (strip_of_no_dash (c ∷ cs) da, strip-dash, strip-format_local)
            (ap (◌++◌ (c ∷ cs)) (strip_of_no_dash number dn)))
      (ground arith) n

-- So does the canonical form that federation passes between exchanges.
pub parse-canonical_number :
    (area number default : Text)
    → (area ≡ []) ⊎ (length area ≡ 3)
    → length number ≡ 7
    → no_dash area ≡ true
    → no_dash number ≡ true
    → parse_number (canonical_number area number) default
      ≡ some (if area == [] then default else area, number)
unfolding canonical_number text_beq
parse-canonical_number [] number default a n da dn =
    parse_seven number default number (strip_of_no_dash number dn) n
parse-canonical_number (c ∷ cs) number default a n da dn =
    parse_ten _ default (c ∷ cs) number
      (rw (strip-append (c ∷ cs) number, strip_of_no_dash (c ∷ cs) da, strip_of_no_dash number dn))
      (ground arith) n

-- What a dial string stands for, dashes left out: seven bytes are a local number under the caller's
-- area code, ten are an area code of three and a local number of seven, and no other text is a
-- number.
pub data Dials (default : Text) : Text → Option (Text × Text) → Type 0 where
  seven : (clean : Text) → length clean ≡ 7 → Dials default clean (some (default, clean))
  ten :
      (clean area number : Text)
      → clean ≡ area ++ number
      → length area ≡ 3
      → length number ≡ 7
      → Dials default clean (some (area, number))
  refused : (clean : Text) → length clean ≢ 7 → length clean ≢ 10 → Dials default clean none

-- ParseNumber reads every text, the area code of the server set or not, the way `Dials` says.
pub parse_number-Dials :
    (dial default : Text) → Dials default (strip_dashes dial) (parse_number dial default)
unfolding parse_number
parse_number-Dials dial default = dials (strip_dashes dial)
  where
    ten_digits :
        (clean : Text) → length clean ≡ 10 → Dials default clean (some (take 3 clean, drop 3 clean))
    ten_digits clean h =
        ten clean (take 3 clean) (drop 3 clean) (sym (take-append-drop 3 clean))
          (length-take 3 clean (omega arith)) (omega (arith, length-drop {0} 3 clean))

    dials :
        (clean : Text)
        → Dials default clean (
            if length clean == 7
            then some (default, clean)
            else if length clean == 10
            then (if default == []
                then some (take 3 clean, drop 3 clean)
                else some (take 3 clean, drop 3 clean))
            else none)
    dials clean = elim (Bool-cases (length clean == 7)) [
      | inl e ↦ rw e (seven clean ((nat_beq_iff _ _).0 e))
      | inr n ↦ elim (Bool-cases (length clean == 10)) [
        | inl e ↦ elim (Bool-cases (default == [])) [
          | inl d ↦ rw (n, e, d) (ten_digits clean ((nat_beq_iff _ _).0 e))
          | inr d ↦ rw (n, e, d) (ten_digits clean ((nat_beq_iff _ _).0 e))
        ]
        | inr t ↦ rw (n, t) (refused clean (ground arith) (ground arith))
      ]
    ]
