-- ===== src/Prelude/Int.antt =====
-- Signed machine integers (`i32`, `i64`) as integers over the native numbers.
use Prim.Native.Nat.{ℕ, zero, suc}
use mathlib.Core.Path.{◌≡◌}
use mathlib.Core.Logic.{◌↔◌}
use mathlib.Core.Bool.{Bool, true, false}
use mathlib.Core.Option.{Option, none}
use mathlib.Core.List.{◌∷◌}
use native.Mathlib.Omega.{arith}
use pangolin_gateway_api.Prelude.Tests.{◌==◌, if◌then◌else◌, map_some}
use pangolin_gateway_api.Prelude.Strings.{Text, parse_unsigned, to_decimal}

-- `negsuc n` is -(n + 1).
pub data ℤ : Type 0 where
  pos : ℕ → ℤ
  negsuc : ℕ → ℤ

infix 50 ◌==ℤ◌
unfoldable pub ◌==ℤ◌ : ℤ → ℤ → Bool
pos m ==ℤ pos n = m == n
negsuc m ==ℤ negsuc n = m == n
_ ==ℤ _ = false

pub ==ℤ_iff : (a b : ℤ) → ((a ==ℤ b) ≡ true) ↔ (a ≡ b)
unfolding ◌==ℤ◌
==ℤ_iff (pos m) (pos n) = ground arith
==ℤ_iff (pos m) (negsuc n) = ground arith
==ℤ_iff (negsuc m) (pos n) = ground arith
==ℤ_iff (negsuc m) (negsuc n) = ground arith

abbrev negate : ℕ → ℤ
negate zero = pos 0
negate (suc n) = negsuc n

-- `str::parse` into an `i32`: the sign, then digits.
unfoldable pub parse_i32 : Text → Option ℤ
unfolding parse_unsigned
parse_i32 (c ∷ d ∷ s) =
    if c == b'-'
    then (if d == b'+' then none else map_some negate (parse_unsigned 2147483648 (d ∷ s)))
    else map_some pos (parse_unsigned 2147483647 (c ∷ d ∷ s))
parse_i32 s = map_some pos (parse_unsigned 2147483647 s)

-- `{}` of an integer.
unfoldable pub show_int : ℤ → Text
unfolding to_decimal
show_int (pos n) = to_decimal n
show_int (negsuc n) = b'-' ∷ to_decimal (suc n)
