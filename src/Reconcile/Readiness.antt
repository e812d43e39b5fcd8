-- ===== src/Reconcile/Readiness.antt =====
-- reconcile.rs and health.rs: when the readiness probe reports success.
use pangolin_gateway_api.Prelude.{
  ◌≡◌, refl, ◌⊎◌, inl, inr, true, false, List, [], ◌∷◌, Option, none, some, arith, Text, codes,
  Bool-cases, ◌≟◌,
}
use pangolin_gateway_api.External.{External}
use pangolin_gateway_api.Config.{Config}
use pangolin_gateway_api.Kube.Api.{Call, KubeApi}
use pangolin_gateway_api.Health.{probe}
use pangolin_gateway_api.Pangolin.Client.{ChangedConfig, FetchOutcome, not_modified, changed}
use pangolin_gateway_api.Transform.Build.{build_desired}
use pangolin_gateway_api.Reconcile.{
  LoopState, initial, Round, one_second, reconcile_once, same_digest, back_off, handle, fetched,
  step, run_loop,
}

module _ (x : External) (api : KubeApi) (cfg : Config) where
  open x use {Value}

  -- A poll cycle that succeeds: nothing has changed, or what has changed was applied.
  abbrev Succeeds : Round Value → Type 0
  Succeeds r =
      ((etag : Option Text) × (r.fetch etag ≡ some not_modified))
      ⊎ ((etag : Option Text) × (c : ChangedConfig Value) × (calls : List Call) × (r.fetch etag
            ≡ some (changed c))
          × ((reconcile_once api cfg (build_desired x cfg c.config) calls).0 ≡ true))

  abbrev pub HasSuccess : List (Round Value) → Type 0
  HasSuccess [] = ⊥
  HasSuccess (r ∷ rounds) = Succeeds r ⊎ HasSuccess rounds

  -- Nothing has succeeded yet.
  record IsFresh (s : LoopState) : Type 0 where
    not_ready : s.ready ≡ false
    no_digest : s.last_digest ≡ none

  back_off-IsFresh :
      (r : Round Value) (s : LoopState) (calls : List Call)
      → IsFresh s
      → IsFresh (back_off x api cfg r s calls).state
  unfolding back_off
  back_off-IsFresh r s calls h = elim (Bool-cases (r.wait_or_shutdown s.backoff)) [
    | inl e ↦ rw e h
    | inr e ↦ rw e (record { not_ready = h.not_ready; no_digest = h.no_digest })
  ]

  handle-IsFresh :
      (r : Round Value) (o : FetchOutcome Value) (etag : Option Text) (s : LoopState)
      (calls : List Call)
      → r.fetch etag ≡ some o
      → IsFresh s
      → IsFresh (handle x api cfg r o s calls).state ⊎ Succeeds r
  unfolding handle
  handle-IsFresh r not_modified etag s calls f h = inr (inl (etag, f))
  handle-IsFresh r (changed c) etag s calls f h =
      let desired = build_desired x cfg c.config in
      let differs : same_digest s.last_digest c.digest ≡ false =
        unfold same_digest in rw h.no_digest refl in
      elim (Bool-cases (reconcile_once api cfg desired calls).0) [
        | inl ok ↦ inr (inr (etag, c, calls, f, ok))
        | inr ok ↦
            rw (differs, ok) (inl (back_off-IsFresh r s (reconcile_once api cfg desired calls).1 h))
      ]

  step-IsFresh :
      (r : Round Value) (s : LoopState) (calls : List Call)
      → IsFresh s
      → IsFresh (step x api cfg r s calls).state ⊎ Succeeds r
  unfolding step
  step-IsFresh r s calls h = elim (Bool-cases r.is_cancelled) [
    | inl e ↦ rw e (inl h)
    | inr e ↦ rw e (go (r.fetch s.last_etag) refl)
  ]
    where
      go :
          (found : Option (FetchOutcome Value))
          → r.fetch s.last_etag ≡ found
          → IsFresh (fetched x api cfg r found s calls).state ⊎ Succeeds r
      go none f = unfold fetched in inl (back_off-IsFresh r s calls h)
      go (some o) f =
          unfold fetched in
          handle-IsFresh r o s.last_etag (record s { backoff = one_second }) calls f
            (record { not_ready = h.not_ready; no_digest = h.no_digest })

  run_loop-IsFresh :
      (rounds : List (Round Value)) (s : LoopState) (calls : List Call)
      → IsFresh s
      → IsFresh (run_loop x api cfg rounds s calls).state ⊎ HasSuccess rounds
  unfolding run_loop
  run_loop-IsFresh [] s calls h = inl h
  run_loop-IsFresh (r ∷ rounds) s calls h =
      let o = step x api cfg r s calls in
      elim (step-IsFresh r s calls h) [
        | inr q ↦ inr (inl q)
        | inl q ↦ elim (run_loop-IsFresh rounds o.state o.calls q) [
          | inr later ↦ inr (inr later)
          | inl later ↦ elim (Bool-cases o.goes_on) [
            | inl e ↦ rw e (inl later)
            | inr e ↦ rw e (inl q)
          ]
        ]
      ]

  -- The readiness probe answers 200 only after a poll cycle that succeeded: pangolin has answered that
  -- nothing has changed, or with a configuration that was applied.
  pub probe-HasSuccess :
      (rounds : List (Round Value))
      → probe (run_loop x api cfg rounds initial []).state.ready (codes "/readyz")
        ≡ some (200, codes "ready")
      → HasSuccess rounds
  unfolding probe ◌≟◌
  probe-HasSuccess rounds h =
      elim (run_loop-IsFresh rounds initial [] (record { not_ready = refl; no_digest = refl })) [
        | inr q ↦ q
        | inl q ↦
            let none_yet : probe false (codes "/readyz") ≡ some (200, codes "ready") =
              rw q.not_ready at h in
            absurd (ground arith)
      ]
