-- ===== src/Prelude/Decimal.antt =====
-- Decimal numbers: the bound of a parsed one, and reading back a printed one.
use pangolin_gateway_api.Prelude.{
  ℕ, zero, suc, ◌+◌, ◌*◌, ◌-◌, ◌/◌, ◌%◌, ◌≤◌, ◌<◌, ◌≡◌, refl, ap, ◌∙◌, true, false, ◌&&◌, [], ◌∷◌,
  some, arith, All, Bool-cases, inl, inr, Text, ltb, leb, ◌==◌, is_digit, to_radix, to_decimal,
  scan_decimal, parse_unsigned, digit,
}

scan_decimal_bound :
    (most n : ℕ) (s : Text) (m : ℕ) → n ≤ most → scan_decimal most n s ≡ some m → m ≤ most
unfolding scan_decimal
scan_decimal_bound most n [] m h e = ground arith
scan_decimal_bound most n (c ∷ s) m h e =
    let next = n * 10 + (c - b'0') in
    elim (Bool-cases (is_digit c && leb next most)) [
      | inl t ↦ scan_decimal_bound most next s m (ground arith) (ground arith)
      | inr t ↦ absurd (ground arith)
    ]

-- A parsed number fits its type.
pub parse_unsigned_bound : (most : ℕ) (s : Text) (m : ℕ) → parse_unsigned most s ≡ some m → m ≤ most
unfolding parse_unsigned
parse_unsigned_bound most [] m e = ground arith
parse_unsigned_bound most (c ∷ []) m e = elim (Bool-cases (is_digit c)) [
  | inl t ↦ scan_decimal_bound most 0 (c ∷ []) m (omega arith) (ground arith)
  | inr t ↦ absurd (ground arith)
]
parse_unsigned_bound most (c ∷ d ∷ s) m e = elim (Bool-cases (c == b'+')) [
  | inl t ↦ scan_decimal_bound most 0 (d ∷ s) m (omega arith) (ground arith)
  | inr t ↦ scan_decimal_bound most 0 (c ∷ d ∷ s) m (omega arith) (ground arith)
]

scan-digit :
    (most n d : ℕ) (s : Text)
    → d < 10
    → n * 10 + d ≤ most
    → scan_decimal most n (digit d ∷ s) ≡ scan_decimal most (n * 10 + d) s
unfolding scan_decimal
scan-digit most n d s h k =
    let small : ltb d 10 ≡ true = ground arith in
    let same : (48 + d) - 48 ≡ d = omega arith in
    let numeral : is_digit (48 + d) ≡ true = ground arith in
    let fits : leb (n * 10 + d) most ≡ true = ground arith in rw (small, same, numeral, fits) refl

scan-to_radix :
    (most fuel n : ℕ) (out : Text)
    → n < fuel
    → n ≤ most
    → scan_decimal most 0 (to_radix 10 fuel n out) ≡ scan_decimal most n out
unfolding to_radix
scan-to_radix most zero n out f h = absurd (omega arith)
scan-to_radix most (suc fuel) n out f h = elim (Bool-cases (ltb n 10)) [
  | inl e ↦
      let last : n % 10 ≡ n = ground arith in
      let value : 0 * 10 + n ≡ n = omega arith in
      rw (e, last)
        (scan-digit most 0 n out (ground arith) (omega arith)
          ∙ ap (λ m. scan_decimal most m out) value)
  | inr e ↦
      let split : (n / 10) * 10 + n % 10 ≡ n = omega arith in
      rw e (
        scan-to_radix most fuel (n / 10) (digit (n % 10) ∷ out) (ground arith) (omega arith)
        ∙ scan-digit most (n / 10) (n % 10) out (omega arith) (omega arith)
        ∙ ap (λ m. scan_decimal most m out) split)
]

-- The printed digits of a number start with no plus sign.
abbrev pub StartsWithDigit : Text → Type 0
StartsWithDigit [] = ⊥
StartsWithDigit (c ∷ s) = is_digit c ≡ true

to_radix-StartsWithDigit :
    (fuel n : ℕ) (out : Text) → n < fuel → StartsWithDigit (to_radix 10 fuel n out)
unfolding to_radix
to_radix-StartsWithDigit zero n out f = absurd (omega arith)
to_radix-StartsWithDigit (suc fuel) n out f = elim (Bool-cases (ltb n 10)) [
  | inl e ↦ rw e (ground arith)
  | inr e ↦ rw e (to_radix-StartsWithDigit fuel (n / 10) (digit (n % 10) ∷ out) (ground arith))
]

parse_unsigned_digits :
    (most : ℕ) (s : Text) → StartsWithDigit s → parse_unsigned most s ≡ scan_decimal most 0 s
unfolding parse_unsigned
parse_unsigned_digits most [] h = absurd h
parse_unsigned_digits most (c ∷ []) h = rw h refl
parse_unsigned_digits most (c ∷ d ∷ s) h =
    let unsigned : (c == b'+') ≡ false = ground arith in rw unsigned refl

-- A printed number that fits its type is read back.
pub parse_unsigned-to_decimal :
    (most n : ℕ) → n ≤ most → parse_unsigned most (to_decimal n) ≡ some n
unfolding to_decimal
parse_unsigned-to_decimal most n h =
    parse_unsigned_digits most (to_radix 10 (suc n) n [])
      (to_radix-StartsWithDigit (suc n) n [] (omega arith))
    ∙ scan-to_radix most (suc n) n [] (omega arith) h
    ∙ (unfold scan_decimal in refl)

to_radix-IsDigit :
    (fuel n : ℕ) (out : Text)
    → All (λ c. is_digit c ≡ true) out
    → All (λ c. is_digit c ≡ true) (to_radix 10 fuel n out)
unfolding to_radix
to_radix-IsDigit zero n out h = h
to_radix-IsDigit (suc fuel) n out h =
    let small : n % 10 < 10 = omega arith in
    elim (Bool-cases (ltb n 10)) [
      | inl e ↦ rw e (ground arith, h)
      | inr e ↦ rw e (to_radix-IsDigit fuel (n / 10) (digit (n % 10) ∷ out) (ground arith, h))
    ]

-- A printed number has digits alone.
pub to_decimal-IsDigit : (n : ℕ) → All (λ c. is_digit c ≡ true) (to_decimal n)
unfolding to_decimal
to_decimal-IsDigit n = to_radix-IsDigit (suc n) n [] tt
