-- ===== src/Reconcile/Loop.antt =====
-- reconcile.rs: the variables of `run_loop` and the readiness flag over time.
use pangolin_gateway_api.Prelude.{
  ◌≤◌, ◌≡◌, refl, sym, ap, subst, ◌∙◌, ◌⊎◌, inl, inr, true, false, List, [], ◌∷◌, Option, none,
  some, arith, Text, Bool-cases, if◌then◌else◌,
}
use pangolin_gateway_api.External.{External}
use pangolin_gateway_api.Config.{Config}
use pangolin_gateway_api.Kube.Api.{Call, KubeApi}
use pangolin_gateway_api.Transform.Build.{build_desired}
use pangolin_gateway_api.Pangolin.Client.{ChangedConfig, FetchOutcome, not_modified, changed}
use pangolin_gateway_api.Reconcile.{
  LoopState, Round, Outcome, one_second, reconcile_once, same_digest, back_off, poll, handle,
  fetched, step, run_loop,
}

module _ (x : External) (api : KubeApi) (cfg : Config) where
  open x use {Value}

  -- The back-off is at most one second or the configured bound.
  abbrev pub IsBounded : LoopState → Type 0
  IsBounded s = (s.backoff ≤ one_second) ⊎ (s.backoff ≤ cfg.max_backoff)

  back_off-IsBounded :
      (r : Round Value) (s : LoopState) (calls : List Call)
      → IsBounded s
      → IsBounded (back_off x api cfg r s calls).state
  unfolding back_off
  back_off-IsBounded r s calls h = elim (Bool-cases (r.wait_or_shutdown s.backoff)) [
    | inl e ↦ rw e h
    | inr e ↦ rw e (inr (omega arith))
  ]

  handle-IsBounded :
      (r : Round Value) (outcome : FetchOutcome Value) (s : LoopState) (calls : List Call)
      → IsBounded s
      → IsBounded (handle x api cfg r outcome s calls).state
  unfolding handle poll
  handle-IsBounded r not_modified s calls h = h
  handle-IsBounded r (changed c) s calls h =
      elim (Bool-cases (same_digest s.last_digest c.digest)) [
        | inl e ↦ rw e h
        | inr e ↦
            elim (Bool-cases (reconcile_once api cfg (build_desired x cfg c.config) calls).0) [
              | inl ok ↦ rw (e, ok) h
              | inr ok ↦
                  rw (e, ok)
                    (back_off-IsBounded r s
                      (reconcile_once api cfg (build_desired x cfg c.config) calls).1 h)
            ]
      ]

  step-IsBounded :
      (r : Round Value) (s : LoopState) (calls : List Call)
      → IsBounded s
      → IsBounded (step x api cfg r s calls).state
  unfolding step
  step-IsBounded r s calls h = elim (Bool-cases r.is_cancelled) [
    | inl e ↦ rw e h
    | inr e ↦ rw e (go (r.fetch s.last_etag))
  ]
    where
      go :
          (found : Option (FetchOutcome Value))
          → IsBounded (fetched x api cfg r found s calls).state
      go none = unfold fetched in back_off-IsBounded r s calls h
      go (some outcome) =
          unfold fetched in
          handle-IsBounded r outcome (record s { backoff = one_second }) calls (inl (omega arith))

  -- Whatever the rounds, the back-off stays at most one second or at most the configured bound.
  pub run_loop-IsBounded :
      (rounds : List (Round Value)) (s : LoopState) (calls : List Call)
      → IsBounded s
      → IsBounded (run_loop x api cfg rounds s calls).state
  unfolding run_loop
  run_loop-IsBounded [] s calls h = h
  run_loop-IsBounded (r ∷ rounds) s calls h =
      let o = step x api cfg r s calls in
      let next = step-IsBounded r s calls h in
      elim (Bool-cases o.goes_on) [
        | inl e ↦ rw e (run_loop-IsBounded rounds o.state o.calls next)
        | inr e ↦ rw e next
      ]

  -- Two rounds with the same answered fetches, which wait alike for one second and for the poll
  -- interval. How they wait for any other time is left open.
  pub record IsAlike (r q : Round Value) : Type 0 where
    pub cancelled : r.is_cancelled ≡ q.is_cancelled
    pub answered : (etag : Option Text) → (o : FetchOutcome Value) × (q.fetch etag ≡ some o)
    pub same_fetch : (etag : Option Text) → r.fetch etag ≡ q.fetch etag
    pub one_second_wait : r.wait_or_shutdown 1000000000 ≡ q.wait_or_shutdown 1000000000
    pub poll_wait : r.wait_or_shutdown cfg.poll_interval ≡ q.wait_or_shutdown cfg.poll_interval

  -- Pairwise, in two runs of one length.
  abbrev pub AreAlike : List (Round Value) → List (Round Value) → Type 0
  AreAlike [] [] = Unit {0}
  AreAlike (r ∷ rounds) (q ∷ others) = IsAlike r q × AreAlike rounds others
  AreAlike _ _ = ⊥

  handle-IsAlike :
      (r q : Round Value) (outcome : FetchOutcome Value) (s : LoopState) (calls : List Call)
      → IsAlike r q
      → s.backoff ≡ one_second
      → handle x api cfg r outcome s calls ≡ handle x api cfg q outcome s calls
  unfolding handle poll back_off
  handle-IsAlike r q not_modified s calls h b = rw h.poll_wait refl
  handle-IsAlike r q (changed c) s calls h b = rw (b, h.poll_wait, h.one_second_wait) refl

  fetched-IsAlike :
      (r q : Round Value) (found : Option (FetchOutcome Value)) (s : LoopState) (calls : List Call)
      → IsAlike r q
      → (o : FetchOutcome Value) × (found ≡ some o)
      → fetched x api cfg r found s calls ≡ fetched x api cfg q found s calls
  unfolding fetched
  fetched-IsAlike r q none s calls h (o, e) = cc
  fetched-IsAlike r q (some outcome) s calls h a =
      handle-IsAlike r q outcome (record s { backoff = one_second }) calls h refl

  step-IsAlike :
      (r q : Round Value) (s : LoopState) (calls : List Call)
      → IsAlike r q
      → step x api cfg r s calls ≡ step x api cfg q s calls
  unfolding step
  step-IsAlike r q s calls h =
      rw (h.cancelled, h.same_fetch s.last_etag)
        (ap
          (λ (o : Outcome).
            if q.is_cancelled then record { goes_on = false; state = s; calls = calls } else o)
          (fetched-IsAlike r q (q.fetch s.last_etag) s calls h (h.answered s.last_etag)))

  -- While every fetch is answered, no wait but those of one second and of the poll interval makes a
  -- difference to the loop, however many reconciliations fail: two runs whose rounds agree on these
  -- two waits, on the fetches and on the shutdown end alike.
  pub run_loop-IsAlike :
      (rounds others : List (Round Value)) (s : LoopState) (calls : List Call)
      → AreAlike rounds others
      → run_loop x api cfg rounds s calls ≡ run_loop x api cfg others s calls
  unfolding run_loop
  run_loop-IsAlike [] [] s calls h = refl
  run_loop-IsAlike [] (q ∷ others) s calls h = absurd h
  run_loop-IsAlike (r ∷ rounds) [] s calls h = absurd h
  run_loop-IsAlike (r ∷ rounds) (q ∷ others) s calls (a, h) =
      let o = step x api cfg q s calls in
      rw (step-IsAlike r q s calls a, run_loop-IsAlike rounds others o.state o.calls h) refl

  -- How a round may change the last digest: a changed configuration with this digest was reconciled
  -- with success.
  pub record IsReconciled (r : Round Value) (s : LoopState) (calls : List Call)
      (digest : Option Text) : Type 0 where
    pub config : ChangedConfig Value
    pub received : r.fetch s.last_etag ≡ some (changed config)
    pub is_digest : digest ≡ some config.digest
    pub succeeded : (reconcile_once api cfg (build_desired x cfg config.config) calls).0 ≡ true

  back_off-last_digest :
      (r : Round Value) (s : LoopState) (calls : List Call)
      → (back_off x api cfg r s calls).state.last_digest ≡ s.last_digest
  unfolding back_off
  back_off-last_digest r s calls = elim (Bool-cases (r.wait_or_shutdown s.backoff)) [
    | inl e ↦ rw e refl
    | inr e ↦ rw e refl
  ]

  handle-last_digest :
      (r : Round Value) (outcome : FetchOutcome Value) (s t : LoopState) (calls : List Call)
      → r.fetch s.last_etag ≡ some outcome
      → t.last_digest ≡ s.last_digest
      → ((handle x api cfg r outcome t calls).state.last_digest ≡ s.last_digest)
        ⊎ IsReconciled r s calls (handle x api cfg r outcome t calls).state.last_digest
  unfolding handle poll
  handle-last_digest r not_modified s t calls f d = inl d
  handle-last_digest r (changed c) s t calls f d =
      let desired = build_desired x cfg c.config in
      elim (Bool-cases (same_digest t.last_digest c.digest)) [
        | inl e ↦ rw e (inl d)
        | inr e ↦ elim (Bool-cases (reconcile_once api cfg desired calls).0) [
          | inl ok ↦
              rw (e, ok)
                (inr (record { config = c; received = f; is_digest = refl; succeeded = ok }))
          | inr ok ↦
              rw (e, ok)
                (inl (back_off-last_digest r t (reconcile_once api cfg desired calls).1 ∙ d))
        ]
      ]

  -- A round keeps the last digest, or replaces it by the digest of a configuration that it received
  -- and reconciled with success.
  pub step-last_digest :
      (r : Round Value) (s : LoopState) (calls : List Call)
      → ((step x api cfg r s calls).state.last_digest ≡ s.last_digest)
        ⊎ IsReconciled r s calls (step x api cfg r s calls).state.last_digest
  unfolding step
  step-last_digest r s calls = elim (Bool-cases r.is_cancelled) [
    | inl e ↦
        subst Changes
          (sym (ap (λ b. if b then idle else fetched x api cfg r (r.fetch s.last_etag) s calls) e))
          (inl refl)
    | inr e ↦
        subst Changes
          (sym (ap (λ b. if b then idle else fetched x api cfg r (r.fetch s.last_etag) s calls) e))
          (go (r.fetch s.last_etag) refl)
  ]
    where
      idle : Outcome
      idle = record { goes_on = false; state = s; calls = calls }

      Changes : Outcome → Type 0
      Changes o = (o.state.last_digest ≡ s.last_digest) ⊎ IsReconciled r s calls o.state.last_digest

      go :
          (found : Option (FetchOutcome Value))
          → r.fetch s.last_etag ≡ found
          → ((fetched x api cfg r found s calls).state.last_digest ≡ s.last_digest)
            ⊎ IsReconciled r s calls (fetched x api cfg r found s calls).state.last_digest
      go none f = unfold fetched in inl (back_off-last_digest r s calls)
      go (some outcome) f =
          unfold fetched in
          handle-last_digest r outcome s (record s { backoff = one_second }) calls f refl
