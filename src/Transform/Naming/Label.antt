-- ===== src/Transform/Naming/Label.antt =====
-- naming.rs: every name is a DNS-1123 label.
use pangolin_gateway_api.Prelude.{
  ℕ, zero, suc, ◌+◌, ◌-◌, ◌/◌, ◌%◌, ◌^◌, ◌≤◌, ◌<◌, ◌≡◌, ◌≢◌, refl, ◌⊎◌, inl, inr, Bool, true, false,
  ◌&&◌, ◌||◌, [], ◌∷◌, ◌++◌, map, arith, leb, ltb, ◌==◌, if◌then◌else◌, Bool-cases, is_empty,
  length, take, All, All-append, All-take, All-drop_while, length-append, length-take, Text, codes,
  is_lower, is_digit, trim_end, trim_start, digit, to_radix, to_hex,
}
use pangolin_gateway_api.Transform.Naming.{
  max_dns_label, clean, collapse_from, is_dash, base_label, hash_suffix, truncated, dns_label,
}

-- A lower-case letter or a digit.
abbrev pub IsAlnum : ℕ → Type 0
IsAlnum c = (is_lower c || is_digit c) ≡ true

-- A character that a label may hold.
abbrev pub IsLabelChar : ℕ → Type 0
IsLabelChar c = (is_lower c || is_digit c || c == b'-') ≡ true

abbrev pub StartsAlnum : Text → Type 0
StartsAlnum [] = ⊥
StartsAlnum (c ∷ s) = IsAlnum c

abbrev pub EndsAlnum : Text → Type 0
EndsAlnum [] = ⊥
EndsAlnum (c ∷ []) = IsAlnum c
EndsAlnum (c ∷ d ∷ s) = EndsAlnum (d ∷ s)

-- RFC 1123: 1 to 63 lower-case letters, digits or dashes, with no dash at either end.
pub record IsDnsLabel (s : Text) : Type 0 where
  pub fits : length s ≤ 63
  pub chars : All IsLabelChar s
  pub first : StartsAlnum s
  pub last : EndsAlnum s

clean-IsLabelChar : (c : ℕ) → IsLabelChar (clean c)
unfolding clean
clean-IsLabelChar c = ground arith

map-clean : (s : Text) → All IsLabelChar (map clean s)
map-clean [] = tt
map-clean (c ∷ s) = (clean-IsLabelChar c, map-clean s)

pub collapse_from-chars :
    (prev : Bool) (s : Text) → All IsLabelChar s → All IsLabelChar (collapse_from prev s)
unfolding collapse_from
collapse_from-chars prev [] h = tt
collapse_from-chars prev (c ∷ s) (p, h) = elim (Bool-cases (c == b'-' && prev)) [
  | inl e ↦ rw e (collapse_from-chars (c == b'-') s h)
  | inr e ↦ rw e (p, collapse_from-chars (c == b'-') s h)
]

pub All-trim_end : (s : Text) → All IsLabelChar s → All IsLabelChar (trim_end is_dash s)
All-trim_end [] h = tt
All-trim_end (c ∷ s) (p, h) = elim (Bool-cases (is_empty (trim_end is_dash s) && is_dash c)) [
  | inl e ↦ rw e tt
  | inr e ↦ rw e (p, All-trim_end s h)
]

pub length-trim_end : (s : Text) → length (trim_end is_dash s) ≤ length s
length-trim_end [] = omega arith
length-trim_end (c ∷ s) = ground (arith, length-trim_end s)

not_dash : (c : ℕ) → IsLabelChar c → is_dash c ≡ false → IsAlnum c
not_dash c h e = ground arith

trim_start-StartsAlnum :
    (s : Text)
    → All IsLabelChar s
    → (trim_start is_dash s ≡ []) ⊎ StartsAlnum (trim_start is_dash s)
trim_start-StartsAlnum [] h = inl refl
trim_start-StartsAlnum (c ∷ s) (p, h) = elim (Bool-cases (is_dash c)) [
  | inl e ↦ rw e (trim_start-StartsAlnum s h)
  | inr e ↦ rw e (inr (not_dash c p e))
]

pub trim_end-StartsAlnum : (s : Text) → StartsAlnum s → StartsAlnum (trim_end is_dash s)
trim_end-StartsAlnum [] h = h
trim_end-StartsAlnum (c ∷ s) h =
    let e : (is_empty (trim_end is_dash s) && is_dash c) ≡ false = ground arith in rw e h

-- One round of the trimming loop keeps that the text is empty or ends well.
trim_round :
    (c : ℕ) (t : Text)
    → IsLabelChar c
    → (t ≡ []) ⊎ EndsAlnum t
    → ((if is_empty t && is_dash c then [] else c ∷ t) ≡ [])
      ⊎ EndsAlnum (if is_empty t && is_dash c then [] else c ∷ t)
trim_round c [] p h = elim (Bool-cases (is_dash c)) [
  | inl e ↦ rw e (inl refl)
  | inr e ↦ rw e (inr (not_dash c p e))
]
trim_round c (d ∷ t) p (inl e) = cc
trim_round c (d ∷ t) p (inr h) = inr h

pub trim_end-EndsAlnum :
    (s : Text) → All IsLabelChar s → (trim_end is_dash s ≡ []) ⊎ EndsAlnum (trim_end is_dash s)
trim_end-EndsAlnum [] h = inl refl
trim_end-EndsAlnum (c ∷ s) (p, h) = trim_round c (trim_end is_dash s) p (trim_end-EndsAlnum s h)

pub StartsAlnum-ne-nil : (s : Text) → StartsAlnum s → s ≢ []
StartsAlnum-ne-nil [] h = absurd h
StartsAlnum-ne-nil (c ∷ s) h = ground arith

pub EndsAlnum-append : (s t : Text) → EndsAlnum t → EndsAlnum (s ++ t)
EndsAlnum-append [] t h = h
EndsAlnum-append (c ∷ []) [] h = absurd h
EndsAlnum-append (c ∷ []) (d ∷ t) h = h
EndsAlnum-append (c ∷ d ∷ s) t h = EndsAlnum-append (d ∷ s) t h

pub StartsAlnum-append : (s t : Text) → StartsAlnum s → StartsAlnum (s ++ t)
StartsAlnum-append [] t h = absurd h
StartsAlnum-append (c ∷ s) t h = h

pub StartsAlnum-take : (n : ℕ) (s : Text) → 0 < n → StartsAlnum s → StartsAlnum (take n s)
StartsAlnum-take zero s p h = absurd (omega arith)
StartsAlnum-take (suc n) [] p h = h
StartsAlnum-take (suc n) (c ∷ s) p h = h

-- What `base_label` makes of a text, before its length is looked at.
pub record IsBase (s : Text) : Type 0 where
  pub chars : All IsLabelChar s
  pub first : StartsAlnum s
  pub last : EndsAlnum s

IsBase-pangolin : IsBase (codes "pangolin")
IsBase-pangolin = record { chars = ground arith; first = refl; last = refl }

default-IsBase :
    (t : Text)
    → All IsLabelChar t
    → (t ≡ []) ⊎ StartsAlnum t
    → (t ≡ []) ⊎ EndsAlnum t
    → IsBase (if is_empty t then codes "pangolin" else t)
default-IsBase [] chars _ _ = IsBase-pangolin
default-IsBase (c ∷ t) chars (inr first) (inr last) = record {
  chars = chars;
  first = first;
  last = last;
}
default-IsBase (c ∷ t) chars (inl e) _ = absurd (StartsAlnum-ne-nil (c ∷ t) (cc) e)
default-IsBase (c ∷ t) chars (inr first) (inl e) = absurd (StartsAlnum-ne-nil (c ∷ t) first e)

trimmed-first :
    (s : Text)
    → (s ≡ []) ⊎ StartsAlnum s
    → (trim_end is_dash s ≡ []) ⊎ StartsAlnum (trim_end is_dash s)
trimmed-first s (inl e) = rw e (inl refl)
trimmed-first s (inr h) = inr (trim_end-StartsAlnum s h)

trimmed-IsBase :
    (s : Text)
    → All IsLabelChar s
    → (s ≡ []) ⊎ StartsAlnum s
    → IsBase (if is_empty (trim_end is_dash s) then codes "pangolin" else trim_end is_dash s)
trimmed-IsBase s chars first =
    default-IsBase (trim_end is_dash s) (All-trim_end s chars) (trimmed-first s first)
      (trim_end-EndsAlnum s chars)

pub base_label-IsBase : (input : Text) → IsBase (base_label input)
unfolding base_label
base_label-IsBase input =
    let collapsed = collapse_from false (map clean input) in
    let chars = collapse_from-chars false (map clean input) (map-clean input) in
    trimmed-IsBase (trim_start is_dash collapsed)
      (All-drop_while IsLabelChar is_dash collapsed chars) (trim_start-StartsAlnum collapsed chars)

IsAlnum-digit : (d : ℕ) → d < 16 → IsAlnum (digit d)
IsAlnum-digit d h = ground arith

to_radix-IsAlnum :
    (fuel n : ℕ) (out : Text) → All IsAlnum out → All IsAlnum (to_radix 16 fuel n out)
unfolding to_radix
to_radix-IsAlnum zero n out h = h
to_radix-IsAlnum (suc fuel) n out h =
    let last = IsAlnum-digit (n % 16) (omega arith) in
    elim (Bool-cases (ltb n 16)) [
      | inl e ↦ rw e (last, h)
      | inr e ↦ rw e (to_radix-IsAlnum fuel (n / 16) (digit (n % 16) ∷ out) (last, h))
    ]

length-to_radix :
    (base fuel n : ℕ) (out : Text)
    → (length out ≤ length (to_radix base fuel n out))
      × (length (to_radix base fuel n out) ≤ fuel + length out)
unfolding to_radix
length-to_radix base zero n out = omega arith
length-to_radix base (suc fuel) n out =
    ground (arith, length-to_radix base fuel (n / base) (digit (n % base) ∷ out))

length-to_hex : (n : ℕ) → (0 < length (to_hex n)) × (length (to_hex n) ≤ 8)
unfolding to_hex
length-to_hex n = ground (arith, length-to_radix 16 7 (n / 16) (digit (n % 16) ∷ []))

pub to_hex-IsAlnum : (n : ℕ) → All IsAlnum (to_hex n)
unfolding to_hex
to_hex-IsAlnum n = to_radix-IsAlnum 8 n [] tt

EndsAlnum-of_All : (c : ℕ) (s : Text) → 0 < length s → All IsAlnum s → EndsAlnum (c ∷ s)
EndsAlnum-of_All c [] p h = absurd (omega arith)
EndsAlnum-of_All c (d ∷ []) p h = h.0
EndsAlnum-of_All c (d ∷ e ∷ s) p h = EndsAlnum-of_All d (e ∷ s) (omega arith) h.1

label_of_alnum : (s : Text) → All IsAlnum s → All IsLabelChar s
label_of_alnum [] h = tt
label_of_alnum (c ∷ s) (p, h) = (ground arith, label_of_alnum s h)

-- The suffix that tells truncated names apart.
pub record IsSuffix (s : Text) : Type 0 where
  pub fits : length s ≤ 9
  pub chars : All IsLabelChar s
  pub last : EndsAlnum s

pub hash_suffix-IsSuffix : (hash : Text → ℕ) (input : Text) → IsSuffix (hash_suffix hash input)
unfolding hash_suffix
hash_suffix-IsSuffix hash input =
    let n = hash input % 2 ^ 32 in
    record {
      fits = omega (arith, length-to_hex n);
      chars = (refl, label_of_alnum (to_hex n) (to_hex-IsAlnum n));
      last = EndsAlnum-of_All b'-' (to_hex n) (length-to_hex n).0 (to_hex-IsAlnum n);
    }

pub truncated-IsDnsLabel :
    (base suffix : Text) → IsBase base → IsSuffix suffix → IsDnsLabel (truncated base suffix)
unfolding truncated
truncated-IsDnsLabel base suffix b t =
    let room = max_dns_label - length suffix in
    let head = take room base in
    record {
      fits = omega (
        arith,
        length-append (trim_end is_dash head) suffix,
        length-trim_end head,
        length-take room base,
        t.fits,
      );
      chars =
          All-append IsLabelChar (trim_end is_dash head) suffix
            (All-trim_end head (All-take IsLabelChar room base b.chars)) t.chars;
      first =
          StartsAlnum-append (trim_end is_dash head) suffix (
            trim_end-StartsAlnum head (StartsAlnum-take room base (omega (arith, t.fits)) b.first));
      last = EndsAlnum-append (trim_end is_dash head) suffix t.last;
    }

-- Whatever the input and the hash function, `dns_label` returns a DNS-1123 label: 1 to 63 characters,
-- all of them lower-case letters, digits or dashes, the first and the last not a dash.
pub dns_label-IsDnsLabel : (hash : Text → ℕ) (input : Text) → IsDnsLabel (dns_label hash input)
unfolding dns_label
dns_label-IsDnsLabel hash input =
    let base = base_label input in
    let b = base_label-IsBase input in
    elim (Bool-cases (leb (length base) max_dns_label)) [
      | inl short ↦
          rw short (record { fits = ground arith; chars = b.chars; first = b.first; last = b.last })
      | inr long ↦
          rw long
            (truncated-IsDnsLabel base (hash_suffix hash input) b (hash_suffix-IsSuffix hash input))
    ]
