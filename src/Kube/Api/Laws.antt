-- ===== src/Kube/Api/Laws.antt =====
-- apply.rs and gc.rs: the calls of one apply and of one sweep.
use mathlib.Core.List.{append_assoc, append-nil}
use pangolin_gateway_api.Prelude.{
  ◌≡◌, refl, sym, ap, ◌∙◌, true, false, List, [], ◌∷◌, ◌++◌, Option, none, some, arith, Text, All,
  All-append, Bool-cases, inl, inr,
}
use pangolin_gateway_api.BTreeMap.{BTreeSet, text_ord, contains_key}
use pangolin_gateway_api.Config.{Config, managed_selector}
use pangolin_gateway_api.Kube.Api.{
  Kind, Object, meta, Call, patch, delete, KubeApi, apply_named, ssa_apply, sweep_item, sweep_items,
  sweep,
}

-- What holds of the calls so far still holds behind further calls.
abbrev pub IsKept : (List Call → Type 0) → Type 0
IsKept P = (calls later : List Call) → P calls → P (calls ++ later)

-- The API server accepted the patch of the object.
pub record IsApplied (api : KubeApi) (obj : Object) (calls : List Call) : Type 0 where
  pub before : List Call
  pub after : List Call
  pub sent : calls ≡ (before ++ (patch obj ∷ [])) ++ after
  pub accepted : api.accepts before (patch obj) ≡ true

pub IsApplied-IsKept : (api : KubeApi) (obj : Object) → IsKept (IsApplied api obj)
IsApplied-IsKept api obj calls later h = record {
  before = h.before;
  after = h.after ++ later;
  sent = ap (λ l. l ++ later) h.sent ∙ append_assoc (h.before ++ (patch obj ∷ [])) h.after later;
  accepted = h.accepted;
}

module _ (api : KubeApi) (cfg : Config) where
  pub ssa_apply-All :
      (P : Call → Type 0) (obj : Object) (calls : List Call)
      → P (patch obj)
      → All P calls
      → All P (ssa_apply api cfg obj calls).1
  unfolding ssa_apply
  ssa_apply-All P obj calls p h = go (meta obj).name
    where
      go : (name : Option Text) → All P (apply_named api cfg name obj calls).1
      go none = unfold apply_named in h
      go (some name) =
          unfold apply_named in
          (elim (Bool-cases cfg.read_only) [
            | inl e ↦ rw e h
            | inr e ↦ rw e (All-append P calls (patch obj ∷ []) h (p, tt))
          ])

  pub ssa_apply-IsKept :
      (P : List Call → Type 0) (obj : Object) (calls : List Call)
      → IsKept P
      → P calls
      → P (ssa_apply api cfg obj calls).1
  unfolding ssa_apply
  ssa_apply-IsKept P obj calls kept m = go (meta obj).name
    where
      go : (name : Option Text) → P (apply_named api cfg name obj calls).1
      go none = unfold apply_named in m
      go (some name) =
          unfold apply_named in
          (elim (Bool-cases cfg.read_only) [
            | inl e ↦ rw e m
            | inr e ↦ rw e (kept calls (patch obj ∷ []) m)
          ])

  -- An apply that succeeds has made its call, and the API server accepted it, unless the mode is
  -- read-only.
  pub ssa_apply_made :
      (obj : Object) (calls : List Call)
      → cfg.read_only ≡ false
      → (ssa_apply api cfg obj calls).0 ≡ true
      → IsApplied api obj (ssa_apply api cfg obj calls).1
  unfolding ssa_apply
  ssa_apply_made obj calls w = go (meta obj).name
    where
      go :
          (name : Option Text)
          → (apply_named api cfg name obj calls).0 ≡ true
          → IsApplied api obj (apply_named api cfg name obj calls).1
      go none e = absurd (unfold apply_named in ground arith)
      go (some name) e =
          let accepted : api.accepts calls (patch obj) ≡ true = unfold apply_named in (rw w at e) in
          unfold apply_named in
          rw w
            (record { before = calls; after = []; sent = sym (append-nil _); accepted = accepted })

  pub ssa_apply_read_only :
      (obj : Object) (calls : List Call)
      → cfg.read_only ≡ true
      → (ssa_apply api cfg obj calls).1 ≡ calls
  unfolding ssa_apply
  ssa_apply_read_only obj calls w = go (meta obj).name
    where
      go : (name : Option Text) → (apply_named api cfg name obj calls).1 ≡ calls
      go none = unfold apply_named in refl
      go (some name) = unfold apply_named in rw w refl

  sweep_item-All :
      (P : Call → Type 0) (kind : Kind) (desired_names : BTreeSet Text) (item : Option Text)
      (calls : List Call)
      → ((name : Text) → contains_key name desired_names ≡ false → P (delete kind name))
      → All P calls
      → All P (sweep_item api cfg kind desired_names item calls)
  unfolding sweep_item
  sweep_item-All P kind desired_names none calls p h = h
  sweep_item-All P kind desired_names (some name) calls p h =
      elim (Bool-cases (contains_key name desired_names)) [
        | inl e ↦ rw e h
        | inr e ↦ elim (Bool-cases cfg.read_only) [
          | inl r ↦ rw (e, r) h
          | inr r ↦ rw (e, r) (All-append P calls (delete kind name ∷ []) h (p name e, tt))
        ]
      ]

  sweep_items-All :
      (P : Call → Type 0) (kind : Kind) (desired_names : BTreeSet Text)
      (existing : List (Option Text)) (calls : List Call)
      → ((name : Text) → contains_key name desired_names ≡ false → P (delete kind name))
      → All P calls
      → All P (sweep_items api cfg kind desired_names existing calls)
  unfolding sweep_items
  sweep_items-All P kind desired_names [] calls p h = h
  sweep_items-All P kind desired_names (item ∷ existing) calls p h =
      sweep_items-All P kind desired_names existing
        (sweep_item api cfg kind desired_names item calls) p
        (sweep_item-All P kind desired_names item calls p h)

  pub sweep-All :
      (P : Call → Type 0) (kind : Kind) (desired_names : BTreeSet Text) (calls : List Call)
      → ((name : Text) → contains_key name desired_names ≡ false → P (delete kind name))
      → All P calls
      → All P (sweep api cfg kind desired_names calls)
  unfolding sweep
  sweep-All P kind desired_names calls p h = go (api.items calls kind (managed_selector cfg))
    where
      go :
          (items : Option (List (Option Text)))
          → All P (elim items [
            | none ↦ calls
            | some existing ↦ sweep_items api cfg kind desired_names existing calls
          ])
      go none = h
      go (some existing) = sweep_items-All P kind desired_names existing calls p h

  sweep_items-IsKept :
      (P : List Call → Type 0) (kind : Kind) (desired_names : BTreeSet Text)
      (existing : List (Option Text)) (calls : List Call)
      → IsKept P
      → P calls
      → P (sweep_items api cfg kind desired_names existing calls)
  unfolding sweep_items sweep_item
  sweep_items-IsKept P kind desired_names [] calls kept m = m
  sweep_items-IsKept P kind desired_names (none ∷ existing) calls kept m =
      sweep_items-IsKept P kind desired_names existing calls kept m
  sweep_items-IsKept P kind desired_names (some name ∷ existing) calls kept m =
      sweep_items-IsKept P kind desired_names existing _ kept
        (elim (Bool-cases (contains_key name desired_names)) [
          | inl e ↦ rw e m
          | inr e ↦ elim (Bool-cases cfg.read_only) [
            | inl r ↦ rw (e, r) m
            | inr r ↦ rw (e, r) (kept calls (delete kind name ∷ []) m)
          ]
        ])

  pub sweep-IsKept :
      (P : List Call → Type 0) (kind : Kind) (desired_names : BTreeSet Text) (calls : List Call)
      → IsKept P
      → P calls
      → P (sweep api cfg kind desired_names calls)
  unfolding sweep
  sweep-IsKept P kind desired_names calls kept m = go (api.items calls kind (managed_selector cfg))
    where
      go :
          (items : Option (List (Option Text)))
          → P (elim items [
            | none ↦ calls
            | some existing ↦ sweep_items api cfg kind desired_names existing calls
          ])
      go none = m
      go (some existing) = sweep_items-IsKept P kind desired_names existing calls kept m

  sweep_items_read_only :
      (kind : Kind) (desired_names : BTreeSet Text) (existing : List (Option Text))
      (calls : List Call)
      → cfg.read_only ≡ true
      → sweep_items api cfg kind desired_names existing calls ≡ calls
  unfolding sweep_items sweep_item
  sweep_items_read_only kind desired_names [] calls w = refl
  sweep_items_read_only kind desired_names (none ∷ existing) calls w =
      sweep_items_read_only kind desired_names existing calls w
  sweep_items_read_only kind desired_names (some name ∷ existing) calls w =
      elim (Bool-cases (contains_key name desired_names)) [
        | inl e ↦ rw e (sweep_items_read_only kind desired_names existing calls w)
        | inr e ↦ rw (e, w) (sweep_items_read_only kind desired_names existing calls w)
      ]

  pub sweep_read_only :
      (kind : Kind) (desired_names : BTreeSet Text) (calls : List Call)
      → cfg.read_only ≡ true
      → sweep api cfg kind desired_names calls ≡ calls
  unfolding sweep
  sweep_read_only kind desired_names calls w = go (api.items calls kind (managed_selector cfg))
    where
      go :
          (items : Option (List (Option Text)))
          → elim items [
            | none ↦ calls
            | some existing ↦ sweep_items api cfg kind desired_names existing calls
          ]
            ≡ calls
      go none = refl
      go (some existing) = sweep_items_read_only kind desired_names existing calls w
