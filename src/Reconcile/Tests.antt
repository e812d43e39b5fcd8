-- ===== src/Reconcile/Tests.antt =====
-- reconcile.rs: the theorems at concrete inputs.
use pangolin_gateway_api.Prelude.{
  ◌≡◌, ◌⊎◌, inl, refl, arith, true, false, [], ◌∷◌, none, some, codes, All, ◌==◌,
}
use pangolin_gateway_api.BTreeMap.{text_ord, compare_text}
use pangolin_gateway_api.Config.{Config}
use pangolin_gateway_api.Kube.Api.{security_policy_object, ssa_apply}
use pangolin_gateway_api.Kube.Api.Laws.{IsApplied}
use pangolin_gateway_api.Kube.Objects.{SecurityPolicy}
use pangolin_gateway_api.Sample.{library, settings, server, broken_server, round, dynamic_config}
use pangolin_gateway_api.Transform.Desired.{Desired, nothing_desired}
use pangolin_gateway_api.Pangolin.Client.{FetchOutcome, changed}
use pangolin_gateway_api.Reconcile.{
  apply_order, reconcile_once, Round, initial, step, run_loop, same_digest,
}
use pangolin_gateway_api.Reconcile.Calls.{
  IsWanted, IsPatch, reconcile_once-IsWanted, reconcile_once_failed, reconcile_once_made,
  reconcile_once_read_only,
}
use pangolin_gateway_api.Health.{probe}
use pangolin_gateway_api.Reconcile.Progress.{IsSettled, run_loop_settles}
use pangolin_gateway_api.Reconcile.Readiness.{HasSuccess, probe-HasSuccess}
use pangolin_gateway_api.Transform.Build.{build_desired}
use pangolin_gateway_api.Reconcile.Loop.{
  IsBounded, IsReconciled, IsAlike, run_loop-IsAlike, run_loop-IsBounded, step-last_digest,
}

-- One policy.
abbrev policy : SecurityPolicy
policy = record {
  metadata = record {
    name = some (codes "sp");
    namespace = some (codes "edge");
    labels = some [];
    annotations = some [];
  };
  spec = record { target_refs = []; ext_auth = none };
}

abbrev desired : Desired
desired = record nothing_desired { security_policies = (codes "sp", policy) ∷ [] }

reconcile_once-IsWanted_example :
    All (IsWanted desired) (reconcile_once server settings desired []).1
reconcile_once-IsWanted_example = reconcile_once-IsWanted server settings desired

broken_server_fails : (reconcile_once broken_server settings desired []).0 ≡ false
unfolding reconcile_once apply_order ssa_apply
broken_server_fails = refl

reconcile_once_failed_example : All IsPatch (reconcile_once broken_server settings desired []).1
reconcile_once_failed_example =
    reconcile_once_failed broken_server settings desired broken_server_fails

server_succeeds : (reconcile_once server settings desired []).0 ≡ true
unfolding reconcile_once apply_order ssa_apply
server_succeeds = refl

reconcile_once_made_example :
    IsApplied server (security_policy_object policy) (reconcile_once server settings desired []).1
reconcile_once_made_example =
    reconcile_once_made server settings desired (security_policy_object policy) refl server_succeeds
      (inl refl)

abbrev read_only_settings : Config
read_only_settings = record settings { read_only = true }

reconcile_once_read_only_example : (reconcile_once server read_only_settings desired []).1 ≡ []
reconcile_once_read_only_example =
    reconcile_once_read_only server read_only_settings desired [] refl

run_loop-IsBounded_example :
    IsBounded library server settings
      (run_loop library server settings (round ∷ round ∷ []) initial []).state
run_loop-IsBounded_example =
    run_loop-IsBounded library server settings (round ∷ round ∷ []) initial [] (inl (omega arith))

abbrev outcome : FetchOutcome library.Value
outcome =
    changed (record { config = dynamic_config; etag = none; digest = codes "d"; raw_bytes = 100 })

-- Only the wait of two seconds is cut short.
abbrev impatient : Round library.Value
impatient = record round { wait_or_shutdown = λ t. t == 2000000000 }

impatient-IsAlike : IsAlike library broken_server settings impatient round
impatient-IsAlike = record {
  cancelled = refl;
  answered = λ etag. (outcome, refl);
  same_fetch = λ etag. refl;
  one_second_wait = refl;
  poll_wait = refl;
}

run_loop-IsAlike_example :
    run_loop library broken_server settings (impatient ∷ impatient ∷ []) initial []
    ≡ run_loop library broken_server settings (round ∷ round ∷ []) initial []
run_loop-IsAlike_example =
    run_loop-IsAlike library broken_server settings (impatient ∷ impatient ∷ [])
      (round ∷ round ∷ []) initial [] (impatient-IsAlike, (impatient-IsAlike, tt))

step-last_digest_example :
    ((step library server settings round initial []).state.last_digest ≡ initial.last_digest)
    ⊎ IsReconciled library server settings round initial []
        (step library server settings round initial []).state.last_digest
step-last_digest_example = step-last_digest library server settings round initial []

applies_sample :
    (reconcile_once server settings (build_desired library settings dynamic_config) []).0 ≡ true
unfolding reconcile_once apply_order ssa_apply build_desired compare_text
applies_sample = refl

run_loop_settles_example :
    IsSettled library server settings
      (codes "d")
      (reconcile_once server settings (build_desired library settings dynamic_config) []).1
      (run_loop library server settings (round ∷ round ∷ []) initial [])
unfolding same_digest
run_loop_settles_example =
    run_loop_settles library server settings round (round ∷ [])
      (record { config = dynamic_config; etag = none; digest = codes "d"; raw_bytes = 100 }) initial
      [] refl refl refl applies_sample (λ etag. refl, tt)

ready_at_last :
    probe (run_loop library server settings (round ∷ []) initial []).state.ready (codes "/readyz")
    ≡ some (200, codes "ready")
unfolding probe run_loop compare_text same_digest
ready_at_last = refl

probe-HasSuccess_example : HasSuccess library server settings (round ∷ [])
probe-HasSuccess_example = probe-HasSuccess library server settings (round ∷ []) ready_at_last
