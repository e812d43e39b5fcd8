-- ===== src/Prelude/Lists.antt =====
-- Lists measured by native numbers, and the loops over lists that the components share.
use Prim.Native.Nat.{ℕ, zero, suc, ◌+◌, ◌≤◌}
use mathlib.Core.Path.{◌≡◌, refl, sym, subst}
use mathlib.Core.Bool.{Bool, true, false, ◌||◌}
use mathlib.Core.List.{List, [], ◌∷◌, ◌++◌}
use native.Mathlib.Omega.{arith}
use pangolin_gateway_api.Prelude.Tests.{if◌then◌else◌, Bool-cases}
use mathlib.Core.Logic.{◌⊎◌, inl, inr}

-- Every element satisfies `P`.
abbrev pub All {ℓ κ} : {A : Type ℓ} → (A → Type κ) → List A → Type κ
All P [] = Unit
All P (x ∷ xs) = P x × All P xs

module _ {ℓ} {A : Type ℓ} where
  abbrev pub length : List A → ℕ
  length [] = 0
  length (x ∷ xs) = suc (length xs)

  abbrev pub take : ℕ → List A → List A
  take zero xs = []
  take (suc n) [] = []
  take (suc n) (x ∷ xs) = x ∷ take n xs

  -- `Vec::is_empty`.
  abbrev pub is_empty : List A → Bool
  is_empty [] = true
  is_empty (x ∷ xs) = false

  -- `Iterator::any`.
  abbrev pub any : (A → Bool) → List A → Bool
  any p [] = false
  any p (x ∷ xs) = p x || any p xs

  pub length-append : (xs ys : List A) → length (xs ++ ys) ≡ length xs + length ys
  length-append [] ys = omega arith
  length-append (x ∷ xs) ys = omega (arith, length-append xs ys)

  pub length-take : (n : ℕ) (xs : List A) → length (take n xs) ≤ n
  length-take zero xs = omega arith
  length-take (suc n) [] = omega arith
  length-take (suc n) (x ∷ xs) = omega (arith, length-take n xs)

module _ {ℓ} {A : Type ℓ} (p : A → Bool) where
  -- The leading elements that pass the test.
  abbrev pub take_while : List A → List A
  take_while [] = []
  take_while (x ∷ xs) = if p x then x ∷ take_while xs else []

  -- What is left behind them.
  abbrev pub drop_while : List A → List A
  drop_while [] = []
  drop_while (x ∷ xs) = if p x then drop_while xs else x ∷ xs

  pub length-drop_while : (xs : List A) → length (drop_while xs) ≤ length xs
  length-drop_while [] = omega arith
  length-drop_while (x ∷ xs) = ground (arith, length-drop_while xs)

  pub take_while-append_drop_while : (xs : List A) → take_while xs ++ drop_while xs ≡ xs
  take_while-append_drop_while [] = refl
  take_while-append_drop_while (x ∷ xs) = ground (arith, take_while-append_drop_while xs)

module _ {ℓ κ} {A : Type ℓ} (P : A → Type κ) where
  pub All-append : (xs ys : List A) → All P xs → All P ys → All P (xs ++ ys)
  All-append [] ys hx hy = hy
  All-append (x ∷ xs) ys hx hy = (hx.0, All-append xs ys hx.1 hy)

  pub All-take : (n : ℕ) (xs : List A) → All P xs → All P (take n xs)
  All-take zero xs h = tt
  All-take (suc n) [] h = tt
  All-take (suc n) (x ∷ xs) (p, h) = (p, All-take n xs h)

  pub All-drop_while : (q : A → Bool) (xs : List A) → All P xs → All P (drop_while q xs)
  All-drop_while q [] h = tt
  All-drop_while q (x ∷ xs) (p, h) = elim (Bool-cases (q x)) [
    | inl e ↦ rw e (All-drop_while q xs h)
    | inr e ↦ rw e (p, h)
  ]

-- Membership.
abbrev pub IsIn : {A : Type 0} → A → List A → Type 0
IsIn a [] = ⊥
IsIn a (x ∷ xs) = (a ≡ x) ⊎ IsIn a xs

pub All-IsIn {κ} : {A : Type 0} (P : A → Type κ) (a : A) (xs : List A) → All P xs → IsIn a xs → P a
All-IsIn P a [] h m = absurd m
All-IsIn P a (x ∷ xs) (p, h) (inl e) = subst P (sym e) p
All-IsIn P a (x ∷ xs) (p, h) (inr m) = All-IsIn P a xs h m

pub IsIn-append_left : {A : Type 0} (a : A) (xs ys : List A) → IsIn a xs → IsIn a (xs ++ ys)
IsIn-append_left a [] ys m = absurd m
IsIn-append_left a (x ∷ xs) ys (inl e) = inl e
IsIn-append_left a (x ∷ xs) ys (inr m) = inr (IsIn-append_left a xs ys m)

pub IsIn-append_last : {A : Type 0} (a : A) (xs : List A) → IsIn a (xs ++ a ∷ [])
IsIn-append_last a [] = inl refl
IsIn-append_last a (x ∷ xs) = inr (IsIn-append_last a xs)

pub All-map {ℓ κ} :
    {A : Type ℓ} {P Q : A → Type κ} (f : (a : A) → P a → Q a) (xs : List A) → All P xs → All Q xs
All-map f [] h = tt
All-map f (x ∷ xs) (p, h) = (f x p, All-map f xs h)

pub All-IsIn_self : {A : Type 0} (xs : List A) → All (λ a. IsIn a xs) xs
All-IsIn_self [] = tt
All-IsIn_self (x ∷ xs) = (inl refl, All-map (λ a m. inr m) xs (All-IsIn_self xs))
