-- ===== src/Shim/Check/Tests.antt =====
-- shim.rs: the handler's theorems at concrete requests.
use pangolin_gateway_api.Prelude.{
  ◌≡◌, ◌≢◌, refl, List, [], ◌∷◌, ◌++◌, none, some, true, false, arith, codes, Text, inl, inr,
}
use pangolin_gateway_api.BTreeMap.{compare_text}
use pangolin_gateway_api.External.{Url}
use pangolin_gateway_api.Shim.{Wire}
use pangolin_gateway_api.Shim.Sample.{numbered, write_pairs, read-write_pairs}
use pangolin_gateway_api.Shim.Check.{
  ShimConfig, VerifyData, unsent, answered, Pangolin, Request, responds, panics, plain,
  verify_session, exchange_session, host_of, scheme_of, handoff_location, verify_body, check,
}
use pangolin_gateway_api.Shim.Check.Closed.{IsGranted, check-IsGranted, check_unavailable}
use pangolin_gateway_api.Shim.Check.Handoff.{IsExchanged, check-IsExchanged}
use pangolin_gateway_api.Shim.Check.Rooted.{handoff_location-IsRooted}
use pangolin_gateway_api.Shim.Check.Total.{check-ne-panics}

abbrev base : Url
base = record {
  text = codes "http://pangolin/api/v1/";
  scheme = codes "http";
  host_str = some (codes "pangolin");
  port_or_known_default = some 80;
}

abbrev shim : ShimConfig
shim = record {
  listen = codes "0.0.0.0:9090";
  pangolin_api_base_url = base;
  path_prefix = codes "/verify";
  user_session_cookie_name = codes "p_session";
  resource_session_request_param = codes "t";
  timeout = 10;
  ca_file = none;
  tls_skip_verify = false;
}

-- Every query is the parameter `t` with its text.
abbrev one_param : Text → List (Text × Text)
one_param [] = []
one_param (c ∷ s) = (codes "t", c ∷ s) ∷ []

abbrev wire : Wire
wire = record { parse_form = one_param; serialize_form = λ pairs. []; is_header_value = λ t. true }

abbrev session : VerifyData
session = record {
  valid = true;
  redirect_url = none;
  header_auth_challenged = none;
  user_data = some (record {
    user_id = none;
    username = some (codes "ann");
    email = none;
    name = none;
    role = none;
  });
}

abbrev up : Pangolin
up = record {
  parse_url = λ t. some base;
  verify = λ url body. answered true (some session);
  exchange =
      λ url body. answered true (some (record { valid = true; cookie = some (codes "s=1") }));
}

abbrev down : Pangolin
down = record {
  parse_url = λ t. some base;
  verify = λ url body. unsent;
  exchange = λ url body. unsent;
}

abbrev request : Request
request = record {
  path_and_query = some (codes "/verify/app");
  headers = (codes "host", some (codes "a.de")) ∷ [];
  method = codes "GET";
}

abbrev with_token : Request
with_token = record request { path_and_query = some (codes "/verify/app?abc") }

passes :
    check wire up shim request
    ≡ responds
        (record { status = 200; headers = (codes "remote-user", codes "ann") ∷ []; body = [] })
unfolding check
passes = refl

check-IsGranted_example :
    (host_of wire up shim request ≢ [])
    × IsGranted (verify_session wire up shim (verify_body wire up shim request))
unfolding check
check-IsGranted_example = check-IsGranted wire up shim request (ground arith)

check_unavailable_example :
    check wire down shim with_token ≡ responds (plain 503 (codes "auth backend unavailable"))
unfolding host_of verify_session exchange_session
check_unavailable_example =
    check_unavailable wire down shim with_token (λ e. cc) (λ body. refl) (λ token host ip. refl)

-- A request with a token and a further parameter.
abbrev with_page : Request
with_page = record request {
  path_and_query = some (
      codes "/verify/app"
      ++ (b'?' ∷ write_pairs ((codes "t", codes "abc") ∷ (codes "page", codes "2") ∷ [])));
}

check-IsExchanged_example :
    IsExchanged numbered up shim refl read-write_pairs with_page (codes "s=1")
unfolding check compare_text
check-IsExchanged_example =
    check-IsExchanged numbered up shim refl read-write_pairs with_page (codes "s=1")
      (inr (inl refl))

check-ne-panics_example : check wire up shim with_token ≢ panics
check-ne-panics_example =
    check-ne-panics wire up shim (λ t h. refl) (λ pairs. tt) with_token
      (record { path = ground arith; headers = (ground arith, tt) })

handoff_location-IsRooted_example :
    (path : Text) × (handoff_location wire up shim with_token
      ≡ scheme_of wire up shim with_token
        ++ (codes "://" ++ (host_of wire up shim with_token ++ (b'/' ∷ path))))
handoff_location-IsRooted_example =
    handoff_location-IsRooted wire up shim with_token (codes "verify/app?abc", refl)
