-- ===== src/Shim/Tests.antt =====
-- shim.rs: the theorems at concrete inputs, and unit tests of the source.
use pangolin_gateway_api.Prelude.{◌≡◌, refl, [], ◌∷◌, ◌++◌, none, some, arith, codes, Text}
use pangolin_gateway_api.BTreeMap.{text_ord}
use pangolin_gateway_api.BTreeMap.{compare_text}
use pangolin_gateway_api.Shim.{
  strip_path_prefix, collect_sessions, canonical_header, strip_query_param,
}
use pangolin_gateway_api.Shim.Sample.{numbered, write_pairs, read-write_pairs}
use pangolin_gateway_api.Shim.Query.{IsWithout, strip_query_param-IsWithout}
use pangolin_gateway_api.Shim.Paths.{IsConfigured, IsStripped, strip_path_prefix-IsStripped}

rejects_partial_segment : strip_path_prefix (codes "/verify") (codes "/verifyx") ≡ none
unfolding strip_path_prefix
rejects_partial_segment = refl

roots_query : strip_path_prefix (codes "/verify") (codes "/verify?a=1") ≡ some (codes "/?a=1")
unfolding strip_path_prefix
roots_query = refl

verify-IsConfigured : IsConfigured (codes "/verify/")
verify-IsConfigured = (ground arith, ground arith)

strips_query : strip_path_prefix (codes "/verify/") (codes "/verify?a=1") ≡ some (codes "/?a=1")
unfolding strip_path_prefix
strips_query = refl

strip_path_prefix-IsStripped_example :
    IsStripped (codes "/verify/") (codes "/verify?a=1") (codes "/?a=1")
strip_path_prefix-IsStripped_example =
    strip_path_prefix-IsStripped (codes "/verify/") (codes "/verify?a=1") (codes "/?a=1")
      verify-IsConfigured strips_query

takes_sessions_alone :
    collect_sessions (codes "p_session=abc; other=zzz") (codes "p_session")
    ≡ (codes "p_session", codes "abc") ∷ []
unfolding collect_sessions compare_text
takes_sessions_alone = refl

forwarded_name : canonical_header (codes "x-forwarded-proto") ≡ codes "X-Forwarded-Proto"
unfolding canonical_header
forwarded_name = refl

abbrev with_token : Text
with_token =
    codes "/app" ++ (b'?' ∷ write_pairs ((codes "t", codes "abc") ∷ (codes "page", codes "2") ∷ []))

strip_query_param-IsWithout_example :
    IsWithout numbered refl read-write_pairs
      (codes "t")
      with_token
      (strip_query_param numbered with_token (codes "t"))
strip_query_param-IsWithout_example =
    strip_query_param-IsWithout numbered refl read-write_pairs with_token (codes "t")

without_token :
    strip_query_param numbered with_token (codes "t")
    ≡ codes "/app" ++ (b'?' ∷ write_pairs ((codes "page", codes "2") ∷ []))
unfolding strip_query_param
without_token = refl
