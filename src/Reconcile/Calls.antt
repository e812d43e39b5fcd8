-- ===== src/Reconcile/Calls.antt =====
-- reconcile.rs, apply.rs and gc.rs: which calls one reconciliation makes.
use pangolin_gateway_api.Prelude.{
  ◌≡◌, refl, sym, subst, ◌∙◌, Bool, true, false, List, [], ◌∷◌, arith, All, All-map, All-IsIn_self,
  IsIn, Bool-cases, inl, inr,
}
use pangolin_gateway_api.BTreeMap.{text_ord}
use pangolin_gateway_api.Config.{Config}
use pangolin_gateway_api.Kube.Api.{Kind, Object, Call, patch, delete, KubeApi, ssa_apply, sweep}
use pangolin_gateway_api.Kube.Api.Laws.{
  IsKept, IsApplied, IsApplied-IsKept, ssa_apply-All, ssa_apply-IsKept, ssa_apply_made,
  ssa_apply_read_only, sweep-All, sweep-IsKept, sweep_read_only,
}
use pangolin_gateway_api.Transform.Desired.{Desired}
use pangolin_gateway_api.Reconcile.Wanted.{
  IsDesired, has_name, contains_key-names_of, apply_order-IsDesired, IsIn-apply_order,
}
use pangolin_gateway_api.Reconcile.{
  apply_order, names_of, sweep_order, apply_all, sweep_all, reconcile_once,
}

-- A patch of an object that stands in the map of its kind, or the deletion of a name that is no key
-- of the map of the kind.
abbrev pub IsWanted : Desired → Call → Type 0
IsWanted desired (patch obj) = IsDesired desired obj
IsWanted desired (delete kind name) = has_name desired kind name ≡ false

abbrev pub IsPatch : Call → Type 0
IsPatch (patch obj) = Unit {0}
IsPatch (delete kind name) = ⊥

module _ (api : KubeApi) (cfg : Config) where
  apply_all-All :
      (P : Call → Type 0) (objs : List Object) (calls : List Call)
      → All (λ obj. P (patch obj)) objs
      → All P calls
      → All P (apply_all api cfg objs calls).1
  unfolding apply_all
  apply_all-All P [] calls p h = h
  apply_all-All P (obj ∷ objs) calls (q, p) h =
      let done = ssa_apply-All api cfg P obj calls q h in
      elim (Bool-cases (ssa_apply api cfg obj calls).0) [
        | inl e ↦ rw e (apply_all-All P objs (ssa_apply api cfg obj calls).1 p done)
        | inr e ↦ rw e done
      ]

  sweep_all-All :
      (desired : Desired) (kinds : List (Kind × Bool)) (calls : List Call)
      → All (IsWanted desired) calls
      → All (IsWanted desired) (sweep_all api cfg desired kinds calls)
  unfolding sweep_all
  sweep_all-All desired [] calls h = h
  sweep_all-All desired ((kind, true) ∷ kinds) calls h =
      sweep_all-All desired kinds (sweep api cfg kind (names_of kind desired) calls) (
        sweep-All api cfg (IsWanted desired) kind (names_of kind desired) calls
          (λ name e. sym (contains_key-names_of desired kind name) ∙ e) h)
  sweep_all-All desired ((kind, false) ∷ kinds) calls h = sweep_all-All desired kinds calls h

  -- Every call of a reconciliation patches an object that stands in the desired map of its kind, or
  -- deletes a name that is no key of the desired map of its kind.
  pub reconcile_once-IsWanted :
      (desired : Desired) → All (IsWanted desired) (reconcile_once api cfg desired []).1
  unfolding reconcile_once
  reconcile_once-IsWanted desired =
      let applied = apply_all api cfg (apply_order desired) [] in
      let h =
        apply_all-All (IsWanted desired) (apply_order desired) [] (apply_order-IsDesired desired)
          tt in
      elim (Bool-cases applied.0) [
        | inl e ↦ rw e (sweep_all-All desired (sweep_order cfg) applied.1 h)
        | inr e ↦ rw e h
      ]

  -- A reconciliation that fails deletes nothing.
  pub reconcile_once_failed :
      (desired : Desired)
      → (reconcile_once api cfg desired []).0 ≡ false
      → All IsPatch (reconcile_once api cfg desired []).1
  unfolding reconcile_once
  reconcile_once_failed desired failed =
      let applied = apply_all api cfg (apply_order desired) [] in
      elim (Bool-cases applied.0) [
        | inl e ↦ absurd (ground arith)
        | inr e ↦ rw e (
            apply_all-All IsPatch (apply_order desired) []
              (All-map (λ obj i. tt) (apply_order desired) (All-IsIn_self (apply_order desired)))
              tt)
      ]

  apply_all-IsKept :
      (P : List Call → Type 0) (objs : List Object) (calls : List Call)
      → IsKept P
      → P calls
      → P (apply_all api cfg objs calls).1
  unfolding apply_all
  apply_all-IsKept P [] calls k m = m
  apply_all-IsKept P (obj ∷ objs) calls k m =
      let kept = ssa_apply-IsKept api cfg P obj calls k m in
      elim (Bool-cases (ssa_apply api cfg obj calls).0) [
        | inl e ↦ rw e (apply_all-IsKept P objs (ssa_apply api cfg obj calls).1 k kept)
        | inr e ↦ rw e kept
      ]

  sweep_all-IsKept :
      (P : List Call → Type 0) (desired : Desired) (kinds : List (Kind × Bool)) (calls : List Call)
      → IsKept P
      → P calls
      → P (sweep_all api cfg desired kinds calls)
  unfolding sweep_all
  sweep_all-IsKept P desired [] calls k m = m
  sweep_all-IsKept P desired ((kind, true) ∷ kinds) calls k m =
      sweep_all-IsKept P desired kinds _ k
        (sweep-IsKept api cfg P kind (names_of kind desired) calls k m)
  sweep_all-IsKept P desired ((kind, false) ∷ kinds) calls k m =
      sweep_all-IsKept P desired kinds calls k m

  apply_all_made :
      (obj : Object) (objs : List Object) (calls : List Call)
      → cfg.read_only ≡ false
      → (apply_all api cfg objs calls).0 ≡ true
      → IsIn obj objs
      → IsApplied api obj (apply_all api cfg objs calls).1
  unfolding apply_all
  apply_all_made obj [] calls w h m = absurd m
  apply_all_made obj (first ∷ objs) calls w h m =
      let later = (ssa_apply api cfg first calls).1 in
      elim (Bool-cases (ssa_apply api cfg first calls).0) [
        | inl e ↦
            let rest : (apply_all api cfg objs later).0 ≡ true = rw e at h in
            rw e (elim m [
              | inl q ↦ apply_all-IsKept (IsApplied api obj) objs later (IsApplied-IsKept api obj) (
                  subst (λ o. IsApplied api o later) (sym q)
                    (ssa_apply_made api cfg first calls w e))
              | inr q ↦ apply_all_made obj objs later w rest q
            ])
        | inr e ↦ absurd (ground arith)
      ]

  -- Outside the read-only mode, a reconciliation that succeeds has patched every object of the nine
  -- desired maps, and the API server accepted the patch.
  pub reconcile_once_made :
      (desired : Desired) (obj : Object)
      → cfg.read_only ≡ false
      → (reconcile_once api cfg desired []).0 ≡ true
      → IsDesired desired obj
      → IsApplied api obj (reconcile_once api cfg desired []).1
  unfolding reconcile_once
  reconcile_once_made desired obj w h d =
      let applied = apply_all api cfg (apply_order desired) [] in
      elim (Bool-cases applied.0) [
        | inl e ↦ rw e (
            sweep_all-IsKept (IsApplied api obj) desired (sweep_order cfg) applied.1
              (IsApplied-IsKept api obj)
              (apply_all_made obj (apply_order desired) [] w e (IsIn-apply_order desired obj d)))
        | inr e ↦ absurd (ground arith)
      ]

  apply_all_read_only :
      (objs : List Object) (calls : List Call)
      → cfg.read_only ≡ true
      → (apply_all api cfg objs calls).1 ≡ calls
  unfolding apply_all
  apply_all_read_only [] calls w = refl
  apply_all_read_only (obj ∷ objs) calls w =
      let done = ssa_apply_read_only api cfg obj calls w in
      elim (Bool-cases (ssa_apply api cfg obj calls).0) [
        | inl e ↦ rw e (apply_all_read_only objs (ssa_apply api cfg obj calls).1 w ∙ done)
        | inr e ↦ rw e done
      ]

  sweep_all_read_only :
      (desired : Desired) (kinds : List (Kind × Bool)) (calls : List Call)
      → cfg.read_only ≡ true
      → sweep_all api cfg desired kinds calls ≡ calls
  unfolding sweep_all
  sweep_all_read_only desired [] calls w = refl
  sweep_all_read_only desired ((kind, true) ∷ kinds) calls w =
      sweep_all_read_only desired kinds _ w
      ∙ sweep_read_only api cfg kind (names_of kind desired) calls w
  sweep_all_read_only desired ((kind, false) ∷ kinds) calls w =
      sweep_all_read_only desired kinds calls w

  -- In the read-only mode a reconciliation makes no call that changes the cluster.
  pub reconcile_once_read_only :
      (desired : Desired) (calls : List Call)
      → cfg.read_only ≡ true
      → (reconcile_once api cfg desired calls).1 ≡ calls
  unfolding reconcile_once
  reconcile_once_read_only desired calls w =
      let applied = apply_all api cfg (apply_order desired) calls in
      let done = apply_all_read_only (apply_order desired) calls w in
      elim (Bool-cases applied.0) [
        | inl e ↦ rw e (sweep_all_read_only desired (sweep_order cfg) applied.1 w ∙ done)
        | inr e ↦ rw e done
      ]
