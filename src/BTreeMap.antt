-- ===== src/BTreeMap.antt =====
-- `BTreeMap` and `BTreeSet` of Rust's standard library: association lists that `insert` keeps in the
-- order of their keys, which is the order in which the program iterates over them.
pub mod Laws
use Prim.Native.Nat.{compare, Ordering, lt, eq, gt}
use pangolin_gateway_api.Prelude.{
  ℕ, ◌≡◌, ◌↔◌, Bool, List, [], ◌∷◌, Option, none, some, arith, Text, is_some,
}

-- Keys with a total order (`Ord`), of which the maps need that only equal keys compare as equal.
pub record Ord (K : Type 0) : Type 0 where
  pub cmp : K → K → Ordering
  pub cmp-eq_iff : (a b : K) → (cmp a b ≡ eq) ↔ (a ≡ b)

-- The lexicographic order of texts.
unfoldable pub compare_text : Text → Text → Ordering
compare_text [] [] = eq
compare_text [] (d ∷ t) = lt
compare_text (c ∷ s) [] = gt
compare_text (c ∷ s) (d ∷ t) = elim (compare c d) [
  | Ordering.lt ↦ lt
  | Ordering.gt ↦ gt
  | Ordering.eq ↦ compare_text s t
]

pub compare_text-eq_iff : (s t : Text) → (compare_text s t ≡ eq) ↔ (s ≡ t)
unfolding compare_text
compare_text-eq_iff [] [] = ground arith
compare_text-eq_iff [] (d ∷ t) = ground arith
compare_text-eq_iff (c ∷ s) [] = ground arith
compare_text-eq_iff (c ∷ s) (d ∷ t) = ground (arith, compare_text-eq_iff s t)

pub compare-eq_iff : (a b : ℕ) → (compare a b ≡ eq) ↔ (a ≡ b)
compare-eq_iff a b = ground arith

instance abbrev pub text_ord : Ord Text
text_ord = record { cmp = compare_text; cmp-eq_iff = compare_text-eq_iff }

instance abbrev pub nat_ord : Ord ℕ
nat_ord = record { cmp = compare; cmp-eq_iff = compare-eq_iff }

abbrev pub BTreeMap : Type 0 → Type 0 → Type 0
BTreeMap K V = List (K × V)

abbrev pub BTreeSet : Type 0 → Type 0
BTreeSet K = List (K × Unit {0})

module _ {K V : Type 0} ⦃o : Ord K⦄ where
  -- `get`.
  unfoldable pub get : K → BTreeMap K V → Option V
  get k [] = none
  get k ((j, v) ∷ m) = let rest = get k m in elim (o.cmp k j) [ Ordering.eq ↦ some v | _ ↦ rest ]

  -- `insert`, which replaces the value of a key that is there.
  unfoldable pub insert : K → V → BTreeMap K V → BTreeMap K V
  insert k v [] = (k, v) ∷ []
  insert k v ((j, w) ∷ m) =
      let rest = insert k v m in
      elim (o.cmp k j) [
        | Ordering.lt ↦ (k, v) ∷ (j, w) ∷ m
        | Ordering.eq ↦ (k, v) ∷ m
        | Ordering.gt ↦ (j, w) ∷ rest
      ]

  -- `contains_key`.
  abbrev pub contains_key : K → BTreeMap K V → Bool
  contains_key k m = is_some (get k m)

module _ {K V : Type 0} where
  -- `keys`.
  abbrev pub keys : BTreeMap K V → List K
  keys [] = []
  keys ((k, v) ∷ m) = k ∷ keys m

  -- `values`.
  abbrev pub values : BTreeMap K V → List V
  values [] = []
  values ((k, v) ∷ m) = v ∷ values m
