-- ===== src/Shim/Check/Closed.antt =====
-- shim.rs: the check handler fails closed.
use pangolin_gateway_api.Prelude.{
  ◌≤◌, ◌<◌, ◌≡◌, ◌≢◌, refl, ap, true, false, not, [], ◌∷◌, Option, none, some, arith, is_empty,
  or_value, filter_some, Bool-cases, inl, inr, Text, codes,
}
use pangolin_gateway_api.BTreeMap.{text_ord, get}
use pangolin_gateway_api.Shim.{Wire}
use pangolin_gateway_api.Shim.Check.{
  ShimConfig, VerifyBody, VerifyData, ExchangeData, Pangolin, Request, Answer, responds, panics,
  plain, verify_session, exchange_session, host_of, request_ip_of, query_of, verify_body,
  handoff_location, handoff, granted, grant, redirect, redirect_of, redirect_or, handoff_or,
  verified, exchanged, check_token, check,
}

-- Envoy lets a request pass on a status of 2xx alone.
abbrev pub Passes : Answer → Type 0
Passes (responds r) = r.status < 300
Passes panics = ⊥

-- Pangolin holds the session for valid, and asks for nothing more.
pub record IsGranted (found : Option VerifyData) : Type 0 where
  pub answer : VerifyData
  pub received : found ≡ some answer
  pub valid : answer.valid ≡ true
  pub not_redirected : or_value answer.redirect_url [] ≡ []
  pub not_challenged : or_value answer.header_auth_challenged false ≡ false

module _ (w : Wire) (p : Pangolin) (cfg : ShimConfig) where
  no_redirect : (d : VerifyData) → redirect_of w p cfg d ≡ none → or_value d.redirect_url [] ≡ []
  no_redirect d = go d.redirect_url
    where
      go :
          (url : Option Text)
          → filter_some (λ r. not (is_empty r)) url ≡ none
          → or_value url [] ≡ []
      go none q = refl
      go (some []) q = refl
      go (some (c ∷ s)) q = cc

  grant-IsGranted :
      (d : VerifyData)
      → (grant w p cfg d).status < 300
      → (d.valid ≡ true) × (or_value d.header_auth_challenged false ≡ false)
  unfolding grant
  grant-IsGranted d h = elim (Bool-cases (or_value d.header_auth_challenged false)) [
    | inl e ↦ absurd (ground arith)
    | inr e ↦ elim (Bool-cases d.valid) [ inl v ↦ (v, e) | inr v ↦ absurd (ground arith) ]
  ]

  redirect_status : (url : Text) → 300 ≤ (redirect w p cfg url).status
  unfolding redirect
  redirect_status url = ground arith

  redirect_or-IsGranted :
      (url : Option Text) (d : VerifyData)
      → redirect_of w p cfg d ≡ url
      → (redirect_or w p cfg url d).status < 300
      → IsGranted (some d)
  unfolding redirect_or
  redirect_or-IsGranted none d e h =
      let (valid, unchallenged) = grant-IsGranted d h in
      record {
        answer = d;
        received = refl;
        valid = valid;
        not_redirected = no_redirect d e;
        not_challenged = unchallenged;
      }
  redirect_or-IsGranted (some url) d e h = absurd (omega (arith, redirect_status url))

  verified-IsGranted :
      (found : Option VerifyData) → (verified w p cfg found).status < 300 → IsGranted found
  unfolding verified
  verified-IsGranted none h = absurd (omega arith)
  verified-IsGranted (some d) h = redirect_or-IsGranted (redirect_of w p cfg d) d refl h

  handoff_refuses : (location cookie : Text) → Passes (handoff w p cfg location cookie) → ⊥
  unfolding handoff
  handoff_refuses location cookie h = elim (Bool-cases (w.is_header_value cookie)) [
    | inl e ↦ elim (Bool-cases (w.is_header_value location)) [
      | inl q ↦ omega (arith, (rw (e, q) at h))
      | inr q ↦ rw (e, q) at h
    ]
    | inr e ↦ omega (arith, (rw e at h))
  ]

  handoff_or-Passes :
      (location : Text) (cookie : Option Text) (fallback : Answer)
      → Passes (handoff_or w p cfg location cookie fallback)
      → Passes fallback
  unfolding handoff_or
  handoff_or-Passes location none fallback h = h
  handoff_or-Passes location (some cookie) fallback h = absurd (handoff_refuses location cookie h)

  exchanged-Passes :
      (location : Text) (found : Option ExchangeData) (fallback : Answer)
      → Passes (exchanged w p cfg location found fallback)
      → Passes fallback
  unfolding exchanged
  exchanged-Passes location none fallback h = absurd (omega arith)
  exchanged-Passes location (some d) fallback h =
      handoff_or-Passes location (granted w p cfg d) fallback h

  -- The handler lets a request pass only if the request names a host and pangolin, asked with this
  -- request's sessions and metadata, answers that the session is valid, with no address to redirect to
  -- and no challenge.
  pub check-IsGranted :
      (req : Request)
      → Passes (check w p cfg req)
      → (host_of w p cfg req ≢ []) × IsGranted (verify_session w p cfg (verify_body w p cfg req))
  unfolding check
  check-IsGranted req h = elim (Bool-cases (is_empty (host_of w p cfg req))) [
    | inl e ↦ absurd (omega (arith, (rw e at h)))
    | inr e ↦ (
      λ q. cc (e, ap is_empty q),
      go (get cfg.resource_session_request_param (query_of w p cfg req)) (rw e at h),
    )
  ]
    where
      go :
          (token : Option Text)
          → Passes (check_token w p cfg req token)
          → IsGranted (verify_session w p cfg (verify_body w p cfg req))
      go none q =
          verified-IsGranted (verify_session w p cfg (verify_body w p cfg req))
            (unfold check_token in q)
      go (some token) q = verified-IsGranted (verify_session w p cfg (verify_body w p cfg req)) (
          exchanged-Passes (handoff_location w p cfg req)
            (exchange_session w p cfg token (host_of w p cfg req) (request_ip_of w p cfg req)) _
            (unfold check_token in q))

  -- While pangolin does not answer, a request that names a host is answered with 503.
  pub check_unavailable :
      (req : Request)
      → host_of w p cfg req ≢ []
      → ((body : VerifyBody) → verify_session w p cfg body ≡ none)
      → ((token host : Text) (ip : Option Text) → exchange_session w p cfg token host ip ≡ none)
      → check w p cfg req ≡ responds (plain 503 (codes "auth backend unavailable"))
  unfolding check
  check_unavailable req h verify exchange = elim (Bool-cases (is_empty (host_of w p cfg req))) [
    | inl e ↦ absurd (h (empty_is_nil (host_of w p cfg req) e))
    | inr e ↦ rw e (go (get cfg.resource_session_request_param (query_of w p cfg req)))
  ]
    where
      empty_is_nil : (s : Text) → is_empty s ≡ true → s ≡ []
      empty_is_nil [] q = refl
      empty_is_nil (c ∷ s) q = cc

      go :
          (token : Option Text)
          → check_token w p cfg req token ≡ responds (plain 503 (codes "auth backend unavailable"))
      go none = unfold check_token verified in rw (verify (verify_body w p cfg req)) refl
      go (some token) =
          unfold check_token exchanged in
          rw (exchange token (host_of w p cfg req) (request_ip_of w p cfg req)) refl
