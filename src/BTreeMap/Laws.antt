-- ===== src/BTreeMap/Laws.antt =====
-- What `get` returns behind an `insert`, and what `insert` does to the keys.
use Prim.Native.Nat.{Ordering, eq}
use pangolin_gateway_api.Prelude.{◌≡◌, ◌≢◌, refl, sym, ◌⊎◌, inl, inr, [], ◌∷◌, some, arith, All}
use pangolin_gateway_api.BTreeMap.{Ord, BTreeMap, get, insert}

Ordering-cases : (c : Ordering) → (c ≡ eq) ⊎ (c ≢ eq)
Ordering-cases Ordering.lt = inr (ground arith)
Ordering-cases Ordering.eq = inl refl
Ordering-cases Ordering.gt = inr (ground arith)

module _ {K V : Type 0} ⦃o : Ord K⦄ where
  pub get-insert_self : (k : K) (v : V) (m : BTreeMap K V) → get k (insert k v m) ≡ some v
  unfolding get insert
  get-insert_self k v [] = ground (arith, o.cmp-eq_iff k k)
  get-insert_self k v ((j, w) ∷ m) =
      ground (arith, o.cmp-eq_iff k k, o.cmp-eq_iff k j, get-insert_self k v m)

  pub get-insert_ne : (k j : K) (v : V) (m : BTreeMap K V) → j ≢ k → get j (insert k v m) ≡ get j m
  unfolding get insert
  get-insert_ne k j v [] h = ground (arith, o.cmp-eq_iff j k)
  get-insert_ne k j v ((i, w) ∷ m) h =
      ground (arith, o.cmp-eq_iff j k, o.cmp-eq_iff k i, o.cmp-eq_iff j i, get-insert_ne k j v m)

  -- Every binding of the new map is the new one or an old one.
  pub All-insert {ℓ} :
      (P : K × V → Type ℓ) (k : K) (v : V) (m : BTreeMap K V)
      → P (k, v)
      → All P m
      → All P (insert k v m)
  unfolding insert
  All-insert P k v [] p h = (p, tt)
  All-insert P k v ((j, w) ∷ m) p (q, h) = go (o.cmp k j) (All-insert P k v m p h)
    where
      placed : Ordering → BTreeMap K V
      placed c =
          let rest = insert k v m in
          elim c [
            | Ordering.lt ↦ (k, v) ∷ (j, w) ∷ m
            | Ordering.eq ↦ (k, v) ∷ m
            | Ordering.gt ↦ (j, w) ∷ rest
          ]

      go : (c : Ordering) → All P (insert k v m) → All P (placed c)
      go Ordering.lt _ = (p, (q, h))
      go Ordering.eq _ = (p, h)
      go Ordering.gt ih = (q, ih)

  -- What `get` finds is a binding of the map.
  pub get-All {ℓ} :
      (P : K × V → Type ℓ) (k : K) (v : V) (m : BTreeMap K V)
      → All P m
      → get k m ≡ some v
      → P (k, v)
  unfolding get
  get-All P k v [] h e = cc
  get-All P k v ((j, w) ∷ m) (p, h) e = elim (Ordering-cases (o.cmp k j)) [
    | inl same ↦
        let e' : w ≡ v = ground arith in
        let k' : j ≡ k = sym ((o.cmp-eq_iff k j).0 same) in rw (← e', ← k') p
    | inr other ↦ get-All P k v m h (ground arith)
  ]
