-- ===== src/Transform/Rule/Witnesses.antt =====
-- rule.rs: the theorems at concrete inputs.
use pangolin_gateway_api.Prelude.{
  ◌≡◌, ◌&&◌, suc, refl, arith, false, [], ◌∷◌, List, none, codes, Text, All, any, starts_with, ◌==◌,
  length,
}
use pangolin_gateway_api.Transform.Rule.{
  parse, is_usable, prefix, PathMatch, default_rule, scan_operators, read_args,
}
use pangolin_gateway_api.Transform.Rule.RoundTrip.{
  IsQuotable, IsShowable, show_rule, last_path, parse-show_rule,
}
use pangolin_gateway_api.Transform.Rule.Usable.{unquoted, has_double, parse_flags}
use pangolin_gateway_api.Transform.Rule.Conjunction.{
  Conjunct, IsConjunct, show_conjunction, all_supported, names_host, is_usable_conjunction,
}
use pangolin_gateway_api.Transform.Rule.Fuel.{Ends, ArgsEnd, parse-Ends}

abbrev rule : Text
rule = codes "Host(`a.com`) && PathPrefix(`/p`)"

abbrev hosts : List Text
hosts = codes "a.com" ∷ codes "b.com" ∷ []

abbrev paths : List PathMatch
paths =
    record { kind = prefix; value = codes "/p" } ∷ record { kind = prefix; value = codes "/q" } ∷ []

hosts-IsQuotable : All IsQuotable hosts
hosts-IsQuotable = ground arith

paths-IsShowable : All IsShowable paths
unfolding starts_with
paths-IsShowable = ground arith

parse-show_rule_example :
    parse (show_rule hosts paths)
    ≡ record default_rule { hosts = hosts; path = last_path none paths }
parse-show_rule_example = parse-show_rule hosts paths hosts-IsQuotable paths-IsShowable

-- Host(`a.com`) && Method(`GET`)
abbrev conjuncts : List Conjunct
conjuncts =
    record { initial = b'H'; tail = codes "ost"; args = codes "a.com" ∷ [] }
    ∷ record { initial = b'M'; tail = codes "ethod"; args = codes "GET" ∷ [] }
    ∷ []

conjuncts-IsConjunct : All IsConjunct conjuncts
conjuncts-IsConjunct = (
  record { letter = refl; rest = ground arith; quotable = ground arith },
  (record { letter = refl; rest = ground arith; quotable = ground arith }, tt),
)

is_usable_conjunction_example :
    is_usable (parse (show_conjunction conjuncts))
    ≡ (all_supported conjuncts && any names_host conjuncts)
is_usable_conjunction_example = is_usable_conjunction conjuncts conjuncts-IsConjunct

parse_flags_example :
    ((parse rule).has_negation ≡ any (λ c. c == b'!') (unquoted false rule))
    × ((parse rule).has_disjunction ≡ has_double b'|' (unquoted false rule))
parse_flags_example = parse_flags rule

parse-Ends_example :
    Ends (length rule) rule (scan_operators false rule default_rule) (parse rule)
    × ((s : Text) → ArgsEnd s (read_args (suc (length s)) s).0 (read_args (suc (length s)) s).1)
parse-Ends_example = parse-Ends rule
