-- ===== src/Reconcile/Progress.antt =====
-- reconcile.rs: what the loop comes to.
use pangolin_gateway_api.Prelude.{
  ◌≡◌, refl, sym, ap, ◌∙◌, inl, inr, true, false, List, [], ◌∷◌, Option, none, some, arith, All,
  Text, Bool-cases, ≟_refl,
}
use pangolin_gateway_api.External.{External}
use pangolin_gateway_api.Config.{Config}
use pangolin_gateway_api.Kube.Api.{Call, KubeApi}
use pangolin_gateway_api.Pangolin.Client.{ChangedConfig, FetchOutcome, not_modified, changed}
use pangolin_gateway_api.Transform.Build.{build_desired}
use pangolin_gateway_api.Reconcile.{
  LoopState, Round, Outcome, one_second, reconcile_once, same_digest, back_off, poll, handle,
  fetched, step, run_loop,
}

-- What is fetched is no configuration of another digest.
abbrev Keeps : {V : Type 0} → Text → Option (FetchOutcome V) → Type 0
Keeps d none = Unit {0}
Keeps d (some not_modified) = Unit {0}
Keeps d (some (changed c)) = c.digest ≡ d

module _ (x : External) (api : KubeApi) (cfg : Config) where
  open x use {Value}

  -- A round that brings nothing new.
  abbrev pub IsQuiet : Text → Round Value → Type 0
  IsQuiet d r = (etag : Option Text) → Keeps d (r.fetch etag)

  -- The configuration of the digest is applied, the flag is set, and these are the calls.
  pub record IsSettled (d : Text) (calls : List Call) (o : Outcome) : Type 0 where
    pub is_ready : o.state.ready ≡ true
    pub is_digest : o.state.last_digest ≡ some d
    pub same_calls : o.calls ≡ calls

  -- The same for the loop's variables.
  record IsAt (d : Text) (s : LoopState) : Type 0 where
    at_ready : s.ready ≡ true
    at_digest : s.last_digest ≡ some d

  back_off-IsSettled :
      (d : Text) (r : Round Value) (s : LoopState) (calls : List Call)
      → IsAt d s
      → IsSettled d calls (back_off x api cfg r s calls)
  unfolding back_off
  back_off-IsSettled d r s calls h = elim (Bool-cases (r.wait_or_shutdown s.backoff)) [
    | inl e ↦ record { is_ready = rw e h.at_ready; is_digest = rw e h.at_digest; same_calls = refl }
    | inr e ↦ record { is_ready = rw e h.at_ready; is_digest = rw e h.at_digest; same_calls = refl }
  ]

  same_digest_self : (last : Option Text) (d : Text) → last ≡ some d → same_digest last d ≡ true
  unfolding same_digest
  same_digest_self none d e = cc
  same_digest_self (some a) d e = let same : a ≡ d = ground arith in rw same (≟_refl d)

  handle-IsSettled :
      (d : Text) (r : Round Value) (o : FetchOutcome Value) (s : LoopState) (calls : List Call)
      → Keeps d (some o)
      → IsAt d s
      → IsSettled d calls (handle x api cfg r o s calls)
  unfolding handle poll
  handle-IsSettled d r not_modified s calls k h = record {
    is_ready = refl;
    is_digest = h.at_digest;
    same_calls = refl;
  }
  handle-IsSettled d r (changed c) s calls k h =
      let e : same_digest s.last_digest c.digest ≡ true =
        same_digest_self s.last_digest c.digest (h.at_digest ∙ ap some (sym k)) in
      rw e (record { is_ready = refl; is_digest = h.at_digest; same_calls = refl })

  step-IsSettled :
      (d : Text) (r : Round Value) (s : LoopState) (calls : List Call)
      → IsQuiet d r
      → IsAt d s
      → IsSettled d calls (step x api cfg r s calls)
  unfolding step
  step-IsSettled d r s calls q h = elim (Bool-cases r.is_cancelled) [
    | inl e ↦ rw e (record { is_ready = h.at_ready; is_digest = h.at_digest; same_calls = refl })
    | inr e ↦ rw e (go (r.fetch s.last_etag) (q s.last_etag))
  ]
    where
      go :
          (found : Option (FetchOutcome Value))
          → Keeps d found
          → IsSettled d calls (fetched x api cfg r found s calls)
      go none k = unfold fetched in back_off-IsSettled d r s calls h
      go (some o) k =
          unfold fetched in
          handle-IsSettled d r o (record s { backoff = one_second }) calls k
            (record { at_ready = h.at_ready; at_digest = h.at_digest })

  run_loop-IsSettled :
      (d : Text) (rounds : List (Round Value)) (s : LoopState) (calls : List Call)
      → All (IsQuiet d) rounds
      → IsAt d s
      → IsSettled d calls (run_loop x api cfg rounds s calls)
  unfolding run_loop
  run_loop-IsSettled d [] s calls q h = record {
    is_ready = h.at_ready;
    is_digest = h.at_digest;
    same_calls = refl;
  }
  run_loop-IsSettled d (r ∷ rounds) s calls (k, q) h =
      let o = step x api cfg r s calls in
      let now = step-IsSettled d r s calls k h in
      let later =
        run_loop-IsSettled d rounds o.state o.calls q
          (record { at_ready = now.is_ready; at_digest = now.is_digest }) in
      elim (Bool-cases o.goes_on) [
        | inl e ↦ rw e (record {
          is_ready = later.is_ready;
          is_digest = later.is_digest;
          same_calls = later.same_calls ∙ now.same_calls;
        })
        | inr e ↦ rw e now
      ]

  -- A round that brings a configuration of a new digest and applies it.
  fresh_step :
      (r : Round Value) (c : ChangedConfig Value) (s : LoopState) (calls : List Call)
      → r.is_cancelled ≡ false
      → r.fetch s.last_etag ≡ some (changed c)
      → same_digest s.last_digest c.digest ≡ false
      → (reconcile_once api cfg (build_desired x cfg c.config) calls).0 ≡ true
      → IsSettled c.digest
          (reconcile_once api cfg (build_desired x cfg c.config) calls).1
          (step x api cfg r s calls)
  unfolding step fetched handle poll
  fresh_step r c s calls e f g ok =
      rw (e, f, g, ok) (record { is_ready = refl; is_digest = refl; same_calls = refl })

  -- Once a configuration with a new digest has arrived and was applied, the flag is set, its digest is
  -- the last one, and the calls are those of this reconciliation: however many rounds follow, none of
  -- them makes a call as long as no other digest arrives, whether they fail or not.
  pub run_loop_settles :
      (r : Round Value) (rounds : List (Round Value)) (c : ChangedConfig Value) (s : LoopState)
      (calls : List Call)
      → r.is_cancelled ≡ false
      → r.fetch s.last_etag ≡ some (changed c)
      → same_digest s.last_digest c.digest ≡ false
      → (reconcile_once api cfg (build_desired x cfg c.config) calls).0 ≡ true
      → All (IsQuiet c.digest) rounds
      → IsSettled c.digest
          (reconcile_once api cfg (build_desired x cfg c.config) calls).1
          (run_loop x api cfg (r ∷ rounds) s calls)
  unfolding run_loop
  run_loop_settles r rounds c s calls e f g ok quiet =
      let o = step x api cfg r s calls in
      let now = fresh_step r c s calls e f g ok in
      let later =
        run_loop-IsSettled c.digest rounds o.state o.calls quiet
          (record { at_ready = now.is_ready; at_digest = now.is_digest }) in
      elim (Bool-cases o.goes_on) [
        | inl q ↦ rw q (record {
          is_ready = later.is_ready;
          is_digest = later.is_digest;
          same_calls = later.same_calls ∙ now.same_calls;
        })
        | inr q ↦ rw q now
      ]
