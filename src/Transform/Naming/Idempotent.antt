-- ===== src/Transform/Naming/Idempotent.antt =====
-- naming.rs: names that `dns_label` leaves alone, and pairs of names that it cannot tell apart.
use pangolin_gateway_api.Prelude.{
  ℕ, zero, suc, ◌-◌, ◌%◌, ◌^◌, ◌≤◌, ◌≡◌, refl, ap, ◌∙◌, Bool, true, false, ◌&&◌, [], ◌∷◌, ◌++◌, map,
  arith, leb, ◌==◌, if◌then◌else◌, Bool-cases, inl, inr, is_empty, length, take, All, All-take,
  Text, codes, to_hex, trim_end, trim_start,
}
use pangolin_gateway_api.Transform.Naming.{
  max_dns_label, clean, collapse_from, is_dash, base_label, hash_suffix, truncated, dns_label,
}
use pangolin_gateway_api.Transform.Naming.Label.{
  IsAlnum, IsLabelChar, StartsAlnum, EndsAlnum, IsDnsLabel, IsBase, IsSuffix, trim_end-StartsAlnum,
  trim_end-EndsAlnum, StartsAlnum-ne-nil, StartsAlnum-take, to_hex-IsAlnum, base_label-IsBase,
  hash_suffix-IsSuffix, dns_label-IsDnsLabel,
}

-- No two dashes side by side; the flag says that a dash stands in front.
abbrev pub HasSingleDashes : Bool → Text → Type 0
HasSingleDashes prev [] = Unit
HasSingleDashes prev (c ∷ s) = ((c == b'-' && prev) ≡ false) × HasSingleDashes (c == b'-') s

clean_of_label : (c : ℕ) → IsLabelChar c → clean c ≡ c
unfolding clean
clean_of_label c h = ground arith

map-clean_of_label : (s : Text) → All IsLabelChar s → map clean s ≡ s
map-clean_of_label [] h = refl
map-clean_of_label (c ∷ s) (p, h) = cc (clean_of_label c p, map-clean_of_label s h)

collapse_from_of_single :
    (prev : Bool) (s : Text) → HasSingleDashes prev s → collapse_from prev s ≡ s
unfolding collapse_from
collapse_from_of_single prev [] h = refl
collapse_from_of_single prev (c ∷ s) (p, h) =
    rw p (ap (◌∷◌ c) (collapse_from_of_single (c == b'-') s h))

trim_start_of_first : (s : Text) → StartsAlnum s → trim_start is_dash s ≡ s
trim_start_of_first [] h = refl
trim_start_of_first (c ∷ s) h = let e : is_dash c ≡ false = ground arith in rw e refl

trim_end_of_last : (s : Text) → EndsAlnum s → trim_end is_dash s ≡ s
trim_end_of_last [] h = refl
trim_end_of_last (c ∷ []) h = let e : is_dash c ≡ false = ground arith in rw e refl
trim_end_of_last (c ∷ d ∷ s) h = rw (trim_end_of_last (d ∷ s) h) refl

trimmed_fixed :
    (s : Text)
    → IsDnsLabel s
    → HasSingleDashes false s
    → trim_end is_dash (trim_start is_dash (collapse_from false (map clean s))) ≡ s
trimmed_fixed s l h =
    ap (λ t. trim_end is_dash (trim_start is_dash (collapse_from false t)))
      (map-clean_of_label s l.chars)
    ∙ ap (λ t. trim_end is_dash (trim_start is_dash t)) (collapse_from_of_single false s h)
    ∙ ap (trim_end is_dash) (trim_start_of_first s l.first)
    ∙ trim_end_of_last s l.last

base_label_fixed : (s : Text) → IsDnsLabel s → HasSingleDashes false s → base_label s ≡ s
unfolding base_label
base_label_fixed [] l h = absurd l.first
base_label_fixed (c ∷ s) l h =
    ap (λ t. if is_empty t then codes "pangolin" else t) (trimmed_fixed (c ∷ s) l h)

-- What `dns_label` returns for a base that fits.
pub dns_label_of_fits :
    (hash : Text → ℕ) (input : Text)
    → length (base_label input) ≤ max_dns_label
    → dns_label hash input ≡ base_label input
unfolding dns_label
dns_label_of_fits hash input h =
    let e : leb (length (base_label input)) max_dns_label ≡ true = ground arith in rw e

-- A DNS label with no two dashes in a row is its own name.
pub dns_label_fixed :
    (hash : Text → ℕ) (s : Text) → IsDnsLabel s → HasSingleDashes false s → dns_label hash s ≡ s
dns_label_fixed hash s l h =
    let e = base_label_fixed s l h in dns_label_of_fits hash s (rw e l.fits) ∙ e

collapse_from-HasSingleDashes :
    (prev : Bool) (s : Text) → HasSingleDashes prev (collapse_from prev s)
unfolding collapse_from
collapse_from-HasSingleDashes prev [] = tt
collapse_from-HasSingleDashes prev (c ∷ s) = elim (Bool-cases (c == b'-' && prev)) [
  | inl e ↦
      let dash : (c == b'-') ≡ true = ground arith in
      let same : prev ≡ true = ground arith in
      rw (e, same, dash) (rw dash at (collapse_from-HasSingleDashes (c == b'-') s))
  | inr e ↦ rw e (e, collapse_from-HasSingleDashes (c == b'-') s)
]

HasSingleDashes-weaken : (prev : Bool) (s : Text) → HasSingleDashes prev s → HasSingleDashes false s
HasSingleDashes-weaken prev [] h = tt
HasSingleDashes-weaken prev (c ∷ s) (p, h) = (ground arith, h)

trim_start-HasSingleDashes :
    (prev : Bool) (s : Text) → HasSingleDashes prev s → HasSingleDashes false (trim_start is_dash s)
trim_start-HasSingleDashes prev [] h = tt
trim_start-HasSingleDashes prev (c ∷ s) (p, h) = elim (Bool-cases (is_dash c)) [
  | inl e ↦ rw e (trim_start-HasSingleDashes (c == b'-') s h)
  | inr e ↦ rw e (ground arith, h)
]

trim_end-HasSingleDashes :
    (prev : Bool) (s : Text) → HasSingleDashes prev s → HasSingleDashes prev (trim_end is_dash s)
trim_end-HasSingleDashes prev [] h = tt
trim_end-HasSingleDashes prev (c ∷ s) (p, h) =
    elim (Bool-cases (is_empty (trim_end is_dash s) && is_dash c)) [
      | inl e ↦ rw e tt
      | inr e ↦ rw e (p, trim_end-HasSingleDashes (c == b'-') s h)
    ]

take-HasSingleDashes :
    (prev : Bool) (n : ℕ) (s : Text) → HasSingleDashes prev s → HasSingleDashes prev (take n s)
take-HasSingleDashes prev zero s h = tt
take-HasSingleDashes prev (suc n) [] h = tt
take-HasSingleDashes prev (suc n) (c ∷ s) (p, h) = (p, take-HasSingleDashes (c == b'-') n s h)

HasSingleDashes-append :
    (prev : Bool) (s t : Text)
    → HasSingleDashes prev s
    → EndsAlnum s
    → HasSingleDashes false t
    → HasSingleDashes prev (s ++ t)
HasSingleDashes-append prev [] t h last k = absurd last
HasSingleDashes-append prev (c ∷ []) t (p, h) last k =
    let e : (c == b'-') ≡ false = ground arith in (p, rw e k)
HasSingleDashes-append prev (c ∷ d ∷ s) t (p, h) last k =
    (p, HasSingleDashes-append (c == b'-') (d ∷ s) t h last k)

HasSingleDashes-of_alnum : (prev : Bool) (s : Text) → All IsAlnum s → HasSingleDashes prev s
HasSingleDashes-of_alnum prev [] h = tt
HasSingleDashes-of_alnum prev (c ∷ s) (p, h) =
    (ground arith, HasSingleDashes-of_alnum (c == b'-') s h)

hash_suffix-HasSingleDashes :
    (hash : Text → ℕ) (input : Text) → HasSingleDashes false (hash_suffix hash input)
unfolding hash_suffix
hash_suffix-HasSingleDashes hash input =
    let n = hash input % 2 ^ 32 in
    (refl, HasSingleDashes-of_alnum true (to_hex n) (to_hex-IsAlnum n))

default-HasSingleDashes :
    (t : Text)
    → HasSingleDashes false t
    → HasSingleDashes false (if is_empty t then codes "pangolin" else t)
default-HasSingleDashes [] h = ground arith
default-HasSingleDashes (c ∷ t) h = h

base_label-HasSingleDashes : (input : Text) → HasSingleDashes false (base_label input)
unfolding base_label
base_label-HasSingleDashes input =
    let collapsed = collapse_from false (map clean input) in
    default-HasSingleDashes (trim_end is_dash (trim_start is_dash collapsed)) (
      trim_end-HasSingleDashes false (trim_start is_dash collapsed) (
        trim_start-HasSingleDashes false collapsed
          (collapse_from-HasSingleDashes false (map clean input))))

truncated-HasSingleDashes :
    (base suffix : Text)
    → IsBase base
    → IsSuffix suffix
    → HasSingleDashes false base
    → HasSingleDashes false suffix
    → HasSingleDashes false (truncated base suffix)
unfolding truncated
truncated-HasSingleDashes base suffix b t h k =
    let room = max_dns_label - length suffix in
    let head = take room base in
    let single = trim_end-HasSingleDashes false head (take-HasSingleDashes false room base h) in
    let first =
      trim_end-StartsAlnum head (StartsAlnum-take room base (omega (arith, t.fits)) b.first) in
    elim (trim_end-EndsAlnum head (All-take IsLabelChar room base b.chars)) [
      | inl e ↦ absurd (StartsAlnum-ne-nil (trim_end is_dash head) first e)
      | inr last ↦ HasSingleDashes-append false (trim_end is_dash head) suffix single last k
    ]

pub dns_label-HasSingleDashes :
    (hash : Text → ℕ) (input : Text) → HasSingleDashes false (dns_label hash input)
unfolding dns_label
dns_label-HasSingleDashes hash input =
    let base = base_label input in
    let h = base_label-HasSingleDashes input in
    elim (Bool-cases (leb (length base) max_dns_label)) [
      | inl short ↦ rw short h
      | inr long ↦ rw long (
          truncated-HasSingleDashes base (hash_suffix hash input) (base_label-IsBase input)
            (hash_suffix-IsSuffix hash input) h (hash_suffix-HasSingleDashes hash input))
    ]

-- Naming a name again changes nothing, whatever the two hash functions are.
pub dns_label_idempotent :
    (hash other : Text → ℕ) (input : Text)
    → dns_label other (dns_label hash input) ≡ dns_label hash input
dns_label_idempotent hash other input =
    dns_label_fixed other (dns_label hash input) (dns_label-IsDnsLabel hash input)
      (dns_label-HasSingleDashes hash input)
