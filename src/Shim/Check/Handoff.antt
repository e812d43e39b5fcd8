-- ===== src/Shim/Check/Handoff.antt =====
-- shim.rs: which responses set a cookie.
use pangolin_gateway_api.Prelude.{
  ◌≡◌, ◌≢◌, refl, sym, ap, subst, ◌∙◌, Bool, true, false, not, List, [], ◌∷◌, ◌++◌, Option, none,
  some, All, All-IsIn, IsIn, if◌then◌else◌, is_empty, or_value, filter_some, Bool-cases, inl, inr,
  Text, codes, ◌≟◌, ≟_iff,
}
use pangolin_gateway_api.BTreeMap.{text_ord, get}
use pangolin_gateway_api.Shim.{Wire, parse_query, split_query, strip_query_param}
use pangolin_gateway_api.Shim.Query.{IsWithout, strip_query_param-IsWithout}
use pangolin_gateway_api.Shim.Check.{
  ShimConfig, VerifyData, ExchangeData, UserData, Pangolin, Request, Response, Answer, responds,
  panics, verify_session, exchange_session, host_of, scheme_of, original_path_q, request_ip_of,
  query_of, verify_body, handoff_location, handoff, granted, grant, user_headers, user_fields,
  redirect, redirect_of, redirect_or, handoff_or, verified, exchanged, check_token, check,
}

-- The response sets the cookie.
abbrev pub SetsCookie : Text → Answer → Type 0
SetsCookie cookie (responds r) = IsIn (codes "set-cookie", cookie) r.headers
SetsCookie cookie panics = ⊥

abbrev IsOther : Text × Text → Type 0
IsOther h = (h.0 ≟ codes "set-cookie") ≡ false

-- A header of another name sets no cookie.
other_headers :
    (cookie : Text) (hs : List (Text × Text))
    → All IsOther hs
    → IsIn (codes "set-cookie", cookie) hs
    → ⊥
unfolding ◌≟◌
other_headers cookie hs o m =
    let e : (codes "set-cookie" ≟ codes "set-cookie") ≡ false =
      All-IsIn IsOther (codes "set-cookie", cookie) hs o m in
    cc

module _ (w : Wire) (p : Pangolin) (cfg : ShimConfig) where
  user_headers-IsOther :
      (fields : List (Text × Option Text))
      → All (λ f. (f.0 ≟ codes "set-cookie") ≡ false) fields
      → All IsOther (user_headers w p cfg fields)
  unfolding user_headers
  user_headers-IsOther [] h = tt
  user_headers-IsOther ((name, none) ∷ fields) (q, h) = user_headers-IsOther fields h
  user_headers-IsOther ((name, some v) ∷ fields) (q, h) = elim (Bool-cases (w.is_header_value v)) [
    | inl e ↦ rw e (q, user_headers-IsOther fields h)
    | inr e ↦ rw e (user_headers-IsOther fields h)
  ]

  user_fields-IsOther :
      (user : Option UserData)
      → All (λ f. (f.0 ≟ codes "set-cookie") ≡ false) (user_fields w p cfg user)
  unfolding user_fields ◌≟◌
  user_fields-IsOther none = tt
  user_fields-IsOther (some user) = (refl, (refl, (refl, (refl, (refl, tt)))))

  grant-IsOther : (d : VerifyData) → All IsOther (grant w p cfg d).headers
  unfolding grant ◌≟◌
  grant-IsOther d = elim (Bool-cases (or_value d.header_auth_challenged false)) [
    | inl e ↦ rw e (refl, tt)
    | inr e ↦ elim (Bool-cases d.valid) [
      | inl v ↦
          rw (e, v)
            (user_headers-IsOther (user_fields w p cfg d.user_data)
              (user_fields-IsOther d.user_data))
      | inr v ↦ rw (e, v) tt
    ]
  ]

  redirect_or-IsOther :
      (url : Option Text) (d : VerifyData) → All IsOther (redirect_or w p cfg url d).headers
  unfolding redirect_or redirect ◌≟◌
  redirect_or-IsOther none d = grant-IsOther d
  redirect_or-IsOther (some url) d = elim (Bool-cases (w.is_header_value url)) [
    | inl e ↦ rw e (refl, tt)
    | inr e ↦ rw e tt
  ]

  verified-IsOther : (found : Option VerifyData) → All IsOther (verified w p cfg found).headers
  unfolding verified
  verified-IsOther none = tt
  verified-IsOther (some d) = redirect_or-IsOther (redirect_of w p cfg d) d

  -- The response that hands a cookie over.
  abbrev pub handed_over : Text → Text → Response
  handed_over location cookie = record {
    status = 302;
    headers = (codes "location", location) ∷ (codes "set-cookie", cookie) ∷ [];
    body = [];
  }

  handoff-SetsCookie :
      (location cookie c : Text)
      → SetsCookie c (handoff w p cfg location cookie)
      → (c ≡ cookie) × (handoff w p cfg location cookie ≡ responds (handed_over location cookie))
  unfolding handoff
  handoff-SetsCookie location cookie c h = elim (Bool-cases (w.is_header_value cookie)) [
    | inl e ↦ elim (Bool-cases (w.is_header_value location)) [
      | inl q ↦ rw (e, q) (is_cookie (rw (e, q) at h), refl)
      | inr q ↦ absurd (rw (e, q) at h)
    ]
    | inr e ↦ absurd (rw e at h)
  ]
    where
      is_cookie : IsIn (codes "set-cookie", c) (handed_over location cookie).headers → c ≡ cookie
      is_cookie (inl q) = absurd (name_differs (ap (λ (t : Text × Text). t.0) q))
        where
          name_differs : codes "set-cookie" ≡ codes "location" → ⊥
          name_differs r = cc
      is_cookie (inr (inl q)) = ap (λ (t : Text × Text). t.1) q
      is_cookie (inr (inr q)) = absurd q

  granted_sound :
      (d : ExchangeData) (c : Text)
      → granted w p cfg d ≡ some c
      → (d.valid ≡ true) × (d.cookie ≡ some c) × (c ≢ [])
  granted_sound d c e = go d.valid d.cookie e
    where
      go :
          (valid : Bool) (cookie : Option Text)
          → (if valid then filter_some (λ t. not (is_empty t)) cookie else none) ≡ some c
          → (valid ≡ true) × (cookie ≡ some c) × (c ≢ [])
      go false cookie q = cc
      go true none q = cc
      go true (some []) q = cc
      go true (some (b ∷ s)) q = (refl, q, λ r. cc)

  handoff_or-SetsCookie :
      (location c : Text) (cookie : Option Text) (found : Option VerifyData)
      → SetsCookie c (handoff_or w p cfg location cookie (responds (verified w p cfg found)))
      → (cookie ≡ some c)
        × (handoff_or w p cfg location cookie (responds (verified w p cfg found))
            ≡ responds (handed_over location c))
  unfolding handoff_or
  handoff_or-SetsCookie location c none found h =
      absurd (other_headers c (verified w p cfg found).headers (verified-IsOther found) h)
  handoff_or-SetsCookie location c (some cookie) found h =
      let (same, answer) = handoff-SetsCookie location cookie c h in
      (ap some (sym same), answer ∙ ap (λ t. responds (handed_over location t)) (sym same))

  module _ (blank : w.parse_form [] ≡ [])
      (form : (pairs : List (Text × Text)) → w.parse_form (w.serialize_form pairs) ≡ pairs) where
    -- Where a cookie comes from: pangolin exchanged the token of the query for it. The redirect is to
    -- the path of the request without the token.
    pub record IsExchanged (req : Request) (cookie : Text) : Type 0 where
      pub token : Text
      pub presented : get cfg.resource_session_request_param (query_of w p cfg req) ≡ some token
      pub answer : ExchangeData
      pub received :
          exchange_session w p cfg token (host_of w p cfg req) (request_ip_of w p cfg req)
          ≡ some answer
      pub valid : answer.valid ≡ true
      pub is_cookie : answer.cookie ≡ some cookie
      pub not_empty : cookie ≢ []
      pub path : Text
      pub is_answer :
          check w p cfg req
          ≡ responds (
              handed_over
                (scheme_of w p cfg req ++ (codes "://" ++ (host_of w p cfg req ++ path)))
                cookie)
      pub without :
          IsWithout w blank form cfg.resource_session_request_param
            (original_path_q w p cfg req)
            path
      pub token_gone :
          get cfg.resource_session_request_param (parse_query w (split_query path).1) ≡ none

    -- No value is left for the parameter.
    token_gone_without :
        (param before after : Text)
        → IsWithout w blank form param before after
        → get param (parse_query w (split_query after).1) ≡ none
    token_gone_without param before after h =
        let same : (param ≟ param) ≡ true = (≟_iff param param).1 refl in
        h.values param
        ∙ ap (λ b. if b then none else get param (parse_query w (split_query before).1)) same

    -- On the reply to the exchange.
    exchanged-IsExchanged :
        (req : Request) (cookie token : Text) (found : Option ExchangeData)
        → get cfg.resource_session_request_param (query_of w p cfg req) ≡ some token
        → exchange_session w p cfg token (host_of w p cfg req) (request_ip_of w p cfg req) ≡ found
        → (check w p cfg req
            ≡ exchanged w p cfg
                (handoff_location w p cfg req)
                found
                (responds (verified w p cfg (verify_session w p cfg (verify_body w p cfg req)))))
        → SetsCookie cookie (check w p cfg req)
        → IsExchanged req cookie
    exchanged-IsExchanged req cookie token none f r e h =
        absurd (unfold exchanged in subst (SetsCookie cookie) e h)
    exchanged-IsExchanged req cookie token (some d) f r e h =
        let location = handoff_location w p cfg req in
        let found = verify_session w p cfg (verify_body w p cfg req) in
        let (given, answer) =
          handoff_or-SetsCookie location cookie (granted w p cfg d) found
            (unfold exchanged in subst (SetsCookie cookie) e h) in
        let (valid, is_cookie, not_empty) = granted_sound d cookie given in
        let param = cfg.resource_session_request_param in
        let path = strip_query_param w (original_path_q w p cfg req) param in
        let stripped =
          strip_query_param-IsWithout w blank form (original_path_q w p cfg req) param in
        record {
          token = token;
          presented = f;
          answer = d;
          received = r;
          valid = valid;
          is_cookie = is_cookie;
          not_empty = not_empty;
          path = path;
          is_answer = unfold exchanged handoff_location in e ∙ answer;
          without = stripped;
          token_gone = token_gone_without param (original_path_q w p cfg req) path stripped;
        }

    check_token-IsExchanged :
        (req : Request) (cookie : Text) (token : Option Text)
        → get cfg.resource_session_request_param (query_of w p cfg req) ≡ token
        → check w p cfg req ≡ check_token w p cfg req token
        → SetsCookie cookie (check w p cfg req)
        → IsExchanged req cookie
    unfolding check_token
    check_token-IsExchanged req cookie none f e h =
        let found = verify_session w p cfg (verify_body w p cfg req) in
        absurd (
          other_headers cookie (verified w p cfg found).headers (verified-IsOther found)
            (subst (SetsCookie cookie) e h))
    check_token-IsExchanged req cookie (some token) f e h =
        exchanged-IsExchanged req cookie token _ f refl e h

    -- A response that sets a cookie is a redirect, and the cookie is the one that pangolin exchanged for
    -- the token in the request's query. The redirect is to the scheme, the host and the original path of the
    -- request; its query has no value for the token's parameter, and the first value of every other
    -- key. Crate url reads back the pairs that it writes, and no pair from an empty query.
    pub check-IsExchanged :
        (req : Request) (cookie : Text)
        → SetsCookie cookie (check w p cfg req)
        → IsExchanged req cookie
    check-IsExchanged req cookie h = elim (Bool-cases (is_empty (host_of w p cfg req))) [
      | inl e ↦ absurd (unfold check in (rw e at h))
      | inr e ↦
          check_token-IsExchanged req cookie
            (get cfg.resource_session_request_param (query_of w p cfg req)) refl
            (unfold check in rw e refl) h
    ]
