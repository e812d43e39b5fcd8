-- ===== src/Prelude/Split.antt =====
-- Splitting a text at a character, joining the parts again, and trimming.
use pangolin_gateway_api.Prelude.{
  ℕ, ◌≡◌, ◌≢◌, refl, ap, ◌∙◌, Bool, true, false, List, [], ◌∷◌, ◌++◌, arith, ◌==◌, All, Bool-cases,
  inl, inr, map, Text, split, split_once, extend, join, Option, none, some, map_some, trim,
  trim_end, drop_while, is_whitespace,
}

-- No part holds the separator.
abbrev pub AreApart : ℕ → List Text → Type 0
AreApart sep = All (All (λ c. (c == sep) ≡ false))

pub split-ne-nil : (sep : ℕ) (s : Text) → split sep s ≢ []
unfolding split
split-ne-nil sep [] = λ e. cc
split-ne-nil sep (c ∷ s) = elim (Bool-cases (c == sep)) [
  | inl t ↦ rw t (λ e. cc)
  | inr t ↦ rw t (extend-ne-nil (split sep s))
]
  where
    extend-ne-nil : (parts : List Text) → extend c parts ≢ []
    extend-ne-nil [] = λ e. cc
    extend-ne-nil (p ∷ ps) = λ e. cc

pub split-AreApart : (sep : ℕ) (s : Text) → AreApart sep (split sep s)
unfolding split
split-AreApart sep [] = (tt, tt)
split-AreApart sep (c ∷ s) = elim (Bool-cases (c == sep)) [
  | inl t ↦ rw t (tt, split-AreApart sep s)
  | inr t ↦ rw t (extended t (split sep s) (split-AreApart sep s))
]
  where
    extended :
        (c == sep) ≡ false
        → (parts : List Text) → AreApart sep parts
        → AreApart sep (extend c parts)
    extended t [] h = ((t, tt), tt)
    extended t (p ∷ ps) (q, h) = ((t, q), h)

join-nil : (sep : ℕ) (parts : List Text) → parts ≢ [] → join sep ([] ∷ parts) ≡ sep ∷ join sep parts
join-nil sep [] h = absurd (h refl)
join-nil sep (p ∷ ps) h = refl

join-extend :
    (sep c : ℕ) (parts : List Text) → parts ≢ [] → join sep (extend c parts) ≡ c ∷ join sep parts
join-extend sep c [] h = absurd (h refl)
join-extend sep c (p ∷ []) h = refl
join-extend sep c (p ∷ q ∷ ps) h = refl

pub join-split : (sep : ℕ) (s : Text) → join sep (split sep s) ≡ s
unfolding split
join-split sep [] = refl
join-split sep (c ∷ s) = elim (Bool-cases (c == sep)) [
  | inl t ↦
      let same : c ≡ sep = ground arith in
      rw t (join-nil sep (split sep s) (split-ne-nil sep s) ∙ cc (same, join-split sep s))
  | inr t ↦
      rw t (join-extend sep c (split sep s) (split-ne-nil sep s) ∙ ap (◌∷◌ c) (join-split sep s))
]

split-append :
    (sep : ℕ) (p : Text) (s : Text)
    → All (λ c. (c == sep) ≡ false) p
    → split sep (p ++ (sep ∷ s)) ≡ p ∷ split sep s
unfolding split
split-append sep [] s h = let e : (sep == sep) ≡ true = ground arith in rw e refl
split-append sep (c ∷ p) s (e, h) = rw (e, split-append sep p s h) refl

split_single : (sep : ℕ) (p : Text) → All (λ c. (c == sep) ≡ false) p → split sep p ≡ p ∷ []
unfolding split
split_single sep [] h = refl
split_single sep (c ∷ p) (e, h) = rw (e, split_single sep p h) refl

pub split-join :
    (sep : ℕ) (parts : List Text)
    → parts ≢ []
    → AreApart sep parts
    → split sep (join sep parts) ≡ parts
split-join sep [] n h = absurd (n refl)
split-join sep (p ∷ []) n (q, h) = split_single sep p q
split-join sep (p ∷ next ∷ parts) n (q, h) =
    split-append sep p (join sep (next ∷ parts)) q
    ∙ ap (◌∷◌ p) (split-join sep (next ∷ parts) (λ e. cc) h)

map-append : (f : ℕ → ℕ) (s t : Text) → map f (s ++ t) ≡ map f s ++ map f t
map-append f [] t = refl
map-append f (c ∷ s) t = ap (◌∷◌ (f c)) (map-append f s t)

-- A map of the characters goes into the parts, where it keeps the separator.
pub map-join :
    (f : ℕ → ℕ) (sep : ℕ) (parts : List Text)
    → f sep ≡ sep
    → map f (join sep parts) ≡ join sep (map (map f) parts)
map-join f sep [] e = refl
map-join f sep (p ∷ []) e = refl
map-join f sep (p ∷ next ∷ parts) e =
    map-append f p (sep ∷ join sep (next ∷ parts)) ∙ rw (e, map-join f sep (next ∷ parts) e) refl

pub drop_while-none : (p : ℕ → Bool) (s : Text) → All (λ c. p c ≡ false) s → drop_while p s ≡ s
drop_while-none p [] h = refl
drop_while-none p (c ∷ s) (e, h) = rw e refl

pub trim_end-none : (p : ℕ → Bool) (s : Text) → All (λ c. p c ≡ false) s → trim_end p s ≡ s
trim_end-none p [] h = refl
trim_end-none p (c ∷ s) (e, h) = ground (arith, trim_end-none p s h)

pub trim-none : (s : Text) → All (λ c. is_whitespace c ≡ false) s → trim s ≡ s
unfolding trim
trim-none s h =
    ap (trim_end is_whitespace) (drop_while-none is_whitespace s h)
    ∙ trim_end-none is_whitespace s h

pub split_once-none :
    (sep : ℕ) (s : Text) → All (λ c. (c == sep) ≡ false) s → split_once sep s ≡ none
unfolding split_once
split_once-none sep [] h = refl
split_once-none sep (c ∷ s) (e, h) = rw (e, split_once-none sep s h) refl

pub split_once-append :
    (sep : ℕ) (s t : Text)
    → All (λ c. (c == sep) ≡ false) s
    → split_once sep (s ++ (sep ∷ t)) ≡ some (s, t)
unfolding split_once
split_once-append sep [] t h = let e : (sep == sep) ≡ true = ground arith in rw e refl
split_once-append sep (c ∷ s) t (e, h) = rw (e, split_once-append sep s t h) refl

-- What stands in front of the separator has none.
pub split_once-front :
    (sep : ℕ) (s a b : Text) → split_once sep s ≡ some (a, b) → All (λ c. (c == sep) ≡ false) a
unfolding split_once
split_once-front sep [] a b e = cc
split_once-front sep (c ∷ s) a b e = elim (Bool-cases (c == sep)) [
  | inl t ↦ let front : a ≡ [] = ground arith in rw front tt
  | inr t ↦ behind t (split_once-front sep s) (split_once sep s) refl (rw t at e)
]
  where
    behind :
        (c == sep) ≡ false
        → ((a' b' : Text) → split_once sep s ≡ some (a', b') → All (λ d. (d == sep) ≡ false) a')
        → (found : Option (Text × Text)) → split_once sep s ≡ found
        → map_some {B = Text × Text} (λ (r : Text × Text). (c ∷ r.0, r.1)) found ≡ some (a, b)
        → All (λ d. (d == sep) ≡ false) a
    behind t ih none f q = cc
    behind t ih (some (a', b')) f q =
        let front : a ≡ c ∷ a' = ground arith in rw front (t, ih a' b' f)
