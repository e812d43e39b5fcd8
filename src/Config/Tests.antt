-- ===== src/Config/Tests.antt =====
-- config.rs: the theorems at concrete environments, and unit tests of the source.
use pangolin_gateway_api.Prelude.{
  ◌≡◌, refl, List, [], ◌∷◌, none, arith, All, Text, codes, join, map, is_whitespace,
}
use pangolin_gateway_api.BTreeMap.{BTreeMap, text_ord, get}
use pangolin_gateway_api.Config.Env.{not_set, insecure_http_refused, ok, err, parse_kv}
use pangolin_gateway_api.Config.Env.Pairs.{IsPlainPair, show_pair, last_value, parse_kv-show_pair}
use pangolin_gateway_api.Config.Sample.{
  env_of, parsers, required, insecure, defaults, reads_defaults,
}
use pangolin_gateway_api.Config.FromEnv.{from_env}
use pangolin_gateway_api.Config.FromEnv.Guards.{IsPermitted, from_env-IsPermitted}

refuses_plain_http : from_env parsers (env_of required) ≡ err insecure_http_refused
unfolding from_env
refuses_plain_http = refl

-- The fields are read in their order: the gateway is missing before the boolean is wrong.
reports_first_error :
    from_env parsers (
      env_of (
        (codes "CONFIG_READ_ONLY", codes "maybe")
        ∷ (codes "CONFIG_ALLOW_INSECURE_HTTP", codes "1")
        ∷ (codes "CONFIG_ENDPOINT", codes "http://pangolin")
        ∷ []))
    ≡ err (not_set (codes "CONFIG_PARENT_GATEWAY"))
unfolding from_env
reports_first_error = refl

from_env-IsPermitted_example : IsPermitted parsers insecure defaults
from_env-IsPermitted_example = from_env-IsPermitted parsers insecure defaults reads_defaults

abbrev annotations : List (Text × Text)
annotations =
    (codes "a.io/x", codes "1") ∷ (codes "b.io/y", codes "u=v") ∷ (codes "a.io/x", codes "2") ∷ []

annotations-IsPlainPair : All IsPlainPair annotations
unfolding is_whitespace
annotations-IsPlainPair = (
  record {
    key_there = λ e. cc;
    key_blank = (refl, (refl, (refl, (refl, (refl, (refl, tt))))));
    key_comma = ground arith;
    key_equals = ground arith;
    value_blank = (refl, tt);
    value_comma = ground arith;
  },
  (
    record {
      key_there = λ e. cc;
      key_blank = (refl, (refl, (refl, (refl, (refl, (refl, tt))))));
      key_comma = ground arith;
      key_equals = ground arith;
      value_blank = (refl, (refl, (refl, tt)));
      value_comma = ground arith;
    },
    (
      record {
        key_there = λ e. cc;
        key_blank = (refl, (refl, (refl, (refl, (refl, (refl, tt))))));
        key_comma = ground arith;
        key_equals = ground arith;
        value_blank = (refl, tt);
        value_comma = ground arith;
      },
      tt,
    ),
  ),
)

parse_kv-show_pair_example :
    (m : BTreeMap Text Text) × (parse_kv (codes "K") (join b',' (map show_pair annotations)) ≡ ok m)
    × ((k : Text) → get k m ≡ last_value k annotations none)
parse_kv-show_pair_example = parse_kv-show_pair (codes "K") annotations annotations-IsPlainPair
