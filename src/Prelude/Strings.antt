-- ===== src/Prelude/Strings.antt =====
-- Rust's `String` and `str` as lists of code points, with the methods of the standard library that
-- the program calls. UTF-8 keeps the order of code points and never splits an ASCII character, so
-- comparing texts, and looking for ASCII characters byte by byte, agree with the code points.
use Prim.Native.Char.{code}
use Prim.Native.String.{String}
use Prim.Native.Nat.{ℕ, zero, suc, ◌+◌, ◌-◌, ◌*◌, ◌/◌, ◌%◌}
use mathlib.Core.Path.{◌≡◌, refl}
use mathlib.Core.Logic.{◌↔◌}
use mathlib.Core.Bool.{Bool, true, false, ◌&&◌, ◌||◌}
use mathlib.Core.Option.{Option, none, some}
use mathlib.Core.List.{List, [], ◌∷◌, ◌++◌, map}
use native.Mathlib.Omega.{arith}
use pangolin_gateway_api.Prelude.Tests.{ltb, leb, ◌==◌, if◌then◌else◌, map_some}
use pangolin_gateway_api.Prelude.Lists.{drop_while, is_empty}

abbrev pub Text : Type 0
Text = List ℕ

-- The code points of a literal.
abbrev pub codes : String → Text
codes String.[] = []
codes (String.◌∷◌ c s) = code c ∷ codes s

infix 50 ◌≟◌
-- `==` on texts.
unfoldable pub ◌≟◌ : Text → Text → Bool
[] ≟ [] = true
[] ≟ (d ∷ t) = false
(c ∷ s) ≟ [] = false
(c ∷ s) ≟ (d ∷ t) = (c == d) && (s ≟ t)

pub ≟_iff : (s t : Text) → ((s ≟ t) ≡ true) ↔ (s ≡ t)
unfolding ◌≟◌
≟_iff [] [] = ground arith
≟_iff [] (d ∷ t) = ground arith
≟_iff (c ∷ s) [] = ground arith
≟_iff (c ∷ s) (d ∷ t) = ground (arith, ≟_iff s t)

pub ≟_refl : (s : Text) → (s ≟ s) ≡ true
≟_refl s = (≟_iff s s).1 refl

-- `char::is_whitespace`: the code points with the Unicode property White_Space.
unfoldable pub is_whitespace : ℕ → Bool
is_whitespace c =
    (leb 9 c && leb c 13)
    || c == 0x20
    || c == 0x85
    || c == 0xa0
    || c == 0x1680
    || (leb 0x2000 c && leb c 0x200a)
    || c == 0x2028
    || c == 0x2029
    || c == 0x202f
    || c == 0x205f
    || c == 0x3000

abbrev pub is_upper : ℕ → Bool
is_upper c = leb b'A' c && leb c b'Z'

abbrev pub is_lower : ℕ → Bool
is_lower c = leb b'a' c && leb c b'z'

abbrev pub is_digit : ℕ → Bool
is_digit c = leb b'0' c && leb c b'9'

-- `char::is_ascii_alphabetic`.
abbrev pub is_alphabetic : ℕ → Bool
is_alphabetic c = is_upper c || is_lower c

-- `char::to_ascii_lowercase`.
abbrev pub to_lower : ℕ → ℕ
to_lower c = if is_upper c then c + 32 else c

-- `str::to_ascii_lowercase`.
abbrev pub to_lowercase : Text → Text
to_lowercase = map to_lower

-- `char::to_ascii_uppercase`.
abbrev pub to_upper : ℕ → ℕ
to_upper c = if is_lower c then c - 32 else c

-- `trim_end_matches`: drops the trailing characters that pass the test.
abbrev pub trim_end : (ℕ → Bool) → Text → Text
trim_end p [] = []
trim_end p (c ∷ s) = let rest = trim_end p s in if is_empty rest && p c then [] else c ∷ rest

-- `trim_start_matches`.
abbrev pub trim_start : (ℕ → Bool) → Text → Text
trim_start = drop_while

-- `str::trim`.
unfoldable pub trim : Text → Text
unfolding is_whitespace
trim s = trim_end is_whitespace (trim_start is_whitespace s)

-- `str::strip_prefix`.
unfoldable pub strip_prefix : Text → Text → Option Text
strip_prefix [] s = some s
strip_prefix (p ∷ ps) [] = none
strip_prefix (p ∷ ps) (c ∷ s) = if p == c then strip_prefix ps s else none

-- `str::starts_with`.
unfoldable pub starts_with : Text → Text → Bool
starts_with [] s = true
starts_with (p ∷ ps) [] = false
starts_with (p ∷ ps) (c ∷ s) = (p == c) && starts_with ps s

-- Behind a character of the first part.
abbrev prepend : ℕ → Text × Text → Text × Text
prepend c (a, b) = (c ∷ a, b)

-- `str::split_once` at one character: the first place.
unfoldable pub split_once : ℕ → Text → Option (Text × Text)
split_once sep [] = none
split_once sep (c ∷ s) =
    let later = split_once sep s in if c == sep then some ([], s) else map_some (prepend c) later

-- `str::rsplit_once` at one character: the last place.
unfoldable pub rsplit_once : ℕ → Text → Option (Text × Text)
rsplit_once sep [] = none
rsplit_once sep (c ∷ s) = elim (rsplit_once sep s) [
  | some (a, b) ↦ some (c ∷ a, b)
  | none ↦ if c == sep then some ([], s) else none
]

abbrev pub extend : ℕ → List Text → List Text
extend c [] = (c ∷ []) ∷ []
extend c (part ∷ parts) = (c ∷ part) ∷ parts

-- `str::split` at one character.
unfoldable pub split : ℕ → Text → List Text
split sep [] = [] ∷ []
split sep (c ∷ s) = let rest = split sep s in if c == sep then [] ∷ rest else extend c rest

-- `[String]::join` at one character.
abbrev pub join : ℕ → List Text → Text
join sep [] = []
join sep (part ∷ []) = part
join sep (part ∷ next ∷ parts) = part ++ (sep ∷ join sep (next ∷ parts))

-- Unsigned decimal digits read behind the value `n`, for a type whose largest value is `most`.
unfoldable pub scan_decimal : ℕ → ℕ → Text → Option ℕ
scan_decimal most n [] = some n
scan_decimal most n (c ∷ s) =
    let m = n * 10 + (c - b'0') in
    let rest = scan_decimal most m s in if is_digit c && leb m most then rest else none

-- `str::parse` into an unsigned integer: an optional plus sign, then at least one digit.
unfoldable pub parse_unsigned : ℕ → Text → Option ℕ
unfolding scan_decimal
parse_unsigned most [] = none
parse_unsigned most (c ∷ []) = if is_digit c then scan_decimal most 0 (c ∷ []) else none
parse_unsigned most (c ∷ d ∷ s) =
    if c == b'+' then scan_decimal most 0 (d ∷ s) else scan_decimal most 0 (c ∷ d ∷ s)

-- The digit for a value below 16, in lower case.
abbrev pub digit : ℕ → ℕ
digit d = if ltb d 10 then b'0' + d else d + 87

-- Digits of `n` in front of `out`, at most as many as the fuel says.
unfoldable pub to_radix : ℕ → ℕ → ℕ → Text → Text
to_radix base zero n out = out
to_radix base (suc fuel) n out =
    let more = to_radix base fuel (n / base) (digit (n % base) ∷ out) in
    if ltb n base then digit (n % base) ∷ out else more

-- `{:x}` of a number below 2 ^ 32: eight digits are enough.
unfoldable pub to_hex : ℕ → Text
unfolding to_radix
to_hex n = to_radix 16 8 n []

-- `{}` of a number: it has at most `n + 1` digits.
unfoldable pub to_decimal : ℕ → Text
unfolding to_radix
to_decimal n = to_radix 10 (suc n) n []
