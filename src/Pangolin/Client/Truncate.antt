-- ===== src/Pangolin/Client/Truncate.antt =====
-- client.rs: `truncate` cuts between characters.
use mathlib.Core.List.{append-nil}
use pangolin_gateway_api.Prelude.{
  ℕ, zero, suc, ◌+◌, ◌-◌, ◌≤◌, ◌<◌, ◌≡◌, refl, sym, ap, ◌∙◌, true, false, [], ◌∷◌, ◌++◌, Option,
  none, some, arith, leb, if◌then◌else◌, Bool-cases, inl, inr, map_some, is_some, Text, ◌⊎◌,
}
use pangolin_gateway_api.Pangolin.Client.{
  len_utf8, byte_length, slice_to, is_char_boundary, boundary_before, truncate,
}

pub len_utf8-pos : (c : ℕ) → 1 ≤ len_utf8 c
len_utf8-pos c = ground arith

slice_to-cons :
    (n c : ℕ) (s : Text)
    → len_utf8 c ≤ n
    → slice_to n (c ∷ s) ≡ map_some (◌∷◌ c) (slice_to (n - len_utf8 c) s)
unfolding slice_to
slice_to-cons zero c s h = absurd (omega (arith, len_utf8-pos c))
slice_to-cons (suc n) c s h = let e : leb (len_utf8 c) (suc n) ≡ true = ground arith in rw e refl

-- What is cut off in front.
abbrev IsSlice : ℕ → Text → Option Text → Type 0
IsSlice idx s none = Unit {0}
IsSlice idx s (some t) = (rest : Text) × (s ≡ t ++ rest) × (byte_length t ≡ idx)

slice_to-IsSlice : (idx : ℕ) (s : Text) → IsSlice idx s (slice_to idx s)
unfolding slice_to
slice_to-IsSlice zero s = (s, refl, refl)
slice_to-IsSlice (suc idx) [] = tt
slice_to-IsSlice (suc idx) (c ∷ s) = elim (Bool-cases (leb (len_utf8 c) (suc idx))) [
  | inr e ↦ rw e tt
  | inl e ↦ rw e (
      behind (ground arith) (slice_to (suc idx - len_utf8 c) s)
        (slice_to-IsSlice (suc idx - len_utf8 c) s))
]
  where
    behind :
        len_utf8 c ≤ suc idx
        → (o : Option Text) → IsSlice (suc idx - len_utf8 c) s o
        → IsSlice (suc idx) (c ∷ s) (map_some (◌∷◌ c) o)
    behind le none h = tt
    behind le (some t) (rest, e, q) = (rest, ap (◌∷◌ c) e, omega arith)

slice_to-append : (t rest : Text) → slice_to (byte_length t) (t ++ rest) ≡ some t
slice_to-append [] rest = unfold slice_to in refl
slice_to-append (c ∷ t) rest =
    let same : len_utf8 c + byte_length t - len_utf8 c ≡ byte_length t = omega arith in
    slice_to-cons (len_utf8 c + byte_length t) c (t ++ rest) (omega arith)
    ∙ rw (same, slice_to-append t rest) refl

boundary_before-le : (idx : ℕ) (s : Text) → boundary_before idx s ≤ idx
unfolding boundary_before
boundary_before-le zero s = omega arith
boundary_before-le (suc idx) s = ground (arith, boundary_before-le idx s)

boundary_before-is_char_boundary :
    (idx : ℕ) (s : Text) → is_char_boundary (boundary_before idx s) s ≡ true
unfolding boundary_before
boundary_before-is_char_boundary zero s = unfold is_char_boundary slice_to in refl
boundary_before-is_char_boundary (suc idx) s = elim (Bool-cases (is_char_boundary (suc idx) s)) [
  | inl e ↦ rw (e, e) refl
  | inr e ↦ rw e (boundary_before-is_char_boundary idx s)
]

-- No boundary is passed over.
boundary_before-last :
    (idx n : ℕ) (s : Text) → n ≤ idx → is_char_boundary n s ≡ true → n ≤ boundary_before idx s
unfolding boundary_before
boundary_before-last zero n s h q = omega arith
boundary_before-last (suc idx) n s h q = elim (Bool-cases (is_char_boundary (suc idx) s)) [
  | inl e ↦ rw e h
  | inr e ↦ rw e (boundary_before-last idx n s (smaller e (Bool-cases (leb n idx))) q)
]
  where
    smaller :
        is_char_boundary (suc idx) s ≡ false → (leb n idx ≡ true) ⊎ (leb n idx ≡ false) → n ≤ idx
    smaller e (inl a) = ground arith
    smaller e (inr a) =
        let same : n ≡ suc idx = ground arith in
        absurd (cc (e, q, ap (λ m. is_char_boundary m s) same))

-- A text in front: not above the bound, and with the next character it would be.
pub record IsTruncated (s : Text) (max : ℕ) (t : Text) : Type 0 where
  pub rest : Text
  pub is_prefix : s ≡ t ++ rest
  pub within : byte_length t ≤ max
  pub is_longest :
      (rest ≡ [])
      ⊎ ((c : ℕ) × (later : Text) × (rest ≡ c ∷ later) × (max < byte_length t + len_utf8 c))

-- The boundary behind one more character.
next_boundary :
    (t : Text) (c : ℕ) (later : Text)
    → is_char_boundary (byte_length t + len_utf8 c) (t ++ (c ∷ later)) ≡ true
unfolding is_char_boundary
next_boundary t c later =
    let longer : byte_length (t ++ (c ∷ [])) ≡ byte_length t + len_utf8 c = byte_length-last t in
    let split : t ++ (c ∷ later) ≡ (t ++ (c ∷ [])) ++ later = append-last t in
    rw (← longer, split, slice_to-append (t ++ (c ∷ [])) later) refl
  where
    byte_length-last : (u : Text) → byte_length (u ++ (c ∷ [])) ≡ byte_length u + len_utf8 c
    byte_length-last [] = omega arith
    byte_length-last (d ∷ u) = omega (arith, byte_length-last u)

    append-last : (u : Text) → u ++ (c ∷ later) ≡ (u ++ (c ∷ [])) ++ later
    append-last [] = refl
    append-last (d ∷ u) = ap (◌∷◌ d) (append-last u)

longest :
    (s t rest : Text) (max : ℕ)
    → s ≡ t ++ rest
    → byte_length t ≡ boundary_before max s
    → (rest ≡ [])
      ⊎ ((c : ℕ) × (later : Text) × (rest ≡ c ∷ later) × (max < byte_length t + len_utf8 c))
longest s t [] max e b = inl refl
longest s t (c ∷ later) max e b = inr (c, later, refl, above (Bool-cases (leb next max)))
  where
    next : ℕ
    next = byte_length t + len_utf8 c

    above : (leb next max ≡ true) ⊎ (leb next max ≡ false) → max < next
    above (inr q) = ground arith
    above (inl q) =
        let is_next : is_char_boundary next s ≡ true = rw e (next_boundary t c later) in
        let small : next ≤ boundary_before max s =
          boundary_before-last max next s (ground arith) is_next in
        absurd (omega (arith, len_utf8-pos c))

-- A text that is at most as long as the bound is kept; of a longer one the slice is there, a prefix
-- within the bound, and the longest such prefix that ends between characters.
pub truncate-IsTruncated :
    (s : Text) (max : ℕ) → (t : Text) × (truncate s max ≡ some t) × IsTruncated s max t
unfolding truncate
truncate-IsTruncated s max = elim (Bool-cases (leb (byte_length s) max)) [
  | inl e ↦ (
    s,
    rw e refl,
    record {
      rest = [];
      is_prefix = sym (append-nil s);
      within = ground arith;
      is_longest = inl refl;
    },
  )
  | inr e ↦
      cut e (slice_to (boundary_before max s) s) refl (slice_to-IsSlice (boundary_before max s) s)
        (unfold is_char_boundary in boundary_before-is_char_boundary max s)
]
  where
    cut :
        leb (byte_length s) max ≡ false
        → (o : Option Text) → slice_to (boundary_before max s) s ≡ o
        → IsSlice (boundary_before max s) s o
        → is_some (slice_to (boundary_before max s) s) ≡ true
        → (t : Text) × ((if leb (byte_length s) max
              then some s
              else slice_to (boundary_before max s) s)
            ≡ some t)
          × IsTruncated s max t
    cut e none f h q = absurd (cc (q, ap is_some f))
    cut e (some t) f (rest, p, b) q = (
      t,
      rw e f,
      record {
        rest = rest;
        is_prefix = p;
        within = omega (arith, boundary_before-le max s);
        is_longest = longest s t rest max p b;
      },
    )
