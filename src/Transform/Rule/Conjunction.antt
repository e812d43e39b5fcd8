-- ===== src/Transform/Rule/Conjunction.antt =====
-- rule.rs: which conjunctions of predicates the controller translates.
use pangolin_gateway_api.Prelude.{
  ℕ, zero, suc, ◌≤◌, ◌<◌, ◌≡◌, refl, ap, ◌∙◌, Bool, true, false, not, ◌&&◌, ◌||◌, List, [], ◌∷◌,
  ◌++◌, arith, ◌==◌, length, length-append, All, any, take_while, drop_while, is_alphabetic,
  is_whitespace, is_empty, Text, codes, ◌≟◌,
}
use pangolin_gateway_api.Transform.Rule.{
  ParsedRule, continue, default_rule, scan_operators, is_connector, is_ident, handle_predicate,
  predicate, walk, parse, is_usable,
}
use pangolin_gateway_api.Transform.Rule.RoundTrip.{
  IsQuotable, quoted_list, scan_list, predicate_arguments_quoted, resume, length-quoted_list_rest,
}
use pangolin_gateway_api.Transform.Rule.Supported.{
  has_supported, has_hosts, handle_predicate-Handles,
}

-- A predicate with arguments between backticks.
pub record Conjunct : Type 0 where
  pub initial : ℕ
  pub tail : Text
  pub args : List Text

abbrev pub ident : Conjunct → Text
ident p = p.initial ∷ p.tail

-- A name of ASCII letters, digits and underscores that starts with a letter, and arguments without
-- backticks.
pub record IsConjunct (p : Conjunct) : Type 0 where
  pub letter : is_alphabetic p.initial ≡ true
  pub rest : All (λ c. is_ident c ≡ true) p.tail
  pub quotable : All IsQuotable p.args

-- Name(`a`, `b`), in front of `rest`.
abbrev pub show_conjunct : Conjunct → Text → Text
show_conjunct p rest = ident p ++ (b'(' ∷ quoted_list p.args (b')' ∷ rest))

abbrev pub show_more : List Conjunct → Text
show_more [] = []
show_more (p ∷ ps) = codes " && " ++ show_conjunct p (show_more ps)

-- The conjuncts with `&&` between them.
abbrev pub show_conjunction : List Conjunct → Text
show_conjunction [] = []
show_conjunction (p ∷ ps) = show_conjunct p (show_more ps)

-- The predicates that Gateway API can express.
abbrev pub is_supported : Conjunct → Bool
is_supported p =
    (ident p ≟ codes "Host")
    || (ident p ≟ codes "PathPrefix")
    || (ident p ≟ codes "Path")
    || (ident p ≟ codes "PathRegexp")

abbrev pub names_host : Conjunct → Bool
names_host p = (ident p ≟ codes "Host") && not (is_empty p.args)

abbrev pub all_supported : List Conjunct → Bool
all_supported [] = true
all_supported (p ∷ ps) = is_supported p && all_supported ps

scan_ident :
    (t rest : Text) (out : ParsedRule)
    → All (λ c. is_ident c ≡ true) t
    → scan_operators false (t ++ rest) out ≡ scan_operators false rest out
unfolding scan_operators
scan_ident [] rest out h = refl
scan_ident (c ∷ t) rest out (p, h) =
    let tick : (c == b'`') ≡ false = ground arith in
    let bar : (c == b'|') ≡ false = ground arith in
    let mark : (c == b'!') ≡ false = ground arith in ground (arith, scan_ident t rest out h)

scan_conjunct :
    (p : Conjunct) (rest : Text) (out : ParsedRule)
    → IsConjunct p
    → scan_operators false (show_conjunct p rest) out ≡ scan_operators false rest out
unfolding scan_operators
scan_conjunct p rest out h =
    scan_ident (ident p) (b'(' ∷ quoted_list p.args (b')' ∷ rest)) out (ground arith, h.rest)
    ∙ scan_list p.args (b')' ∷ rest) out h.quotable

scan_more_conjuncts :
    (ps : List Conjunct) (out : ParsedRule)
    → All IsConjunct ps
    → scan_operators false (show_more ps) out ≡ out
unfolding scan_operators
scan_more_conjuncts [] out h = refl
scan_more_conjuncts (p ∷ ps) out (q, h) =
    scan_conjunct p (show_more ps) out q ∙ scan_more_conjuncts ps out h

take_ident :
    (t rest : Text) → All (λ c. is_ident c ≡ true) t → take_while is_ident (t ++ (b'(' ∷ rest)) ≡ t
take_ident [] rest h = refl
take_ident (c ∷ t) rest (p, h) = rw p (ap (◌∷◌ c) (take_ident t rest h))

drop_ident :
    (t rest : Text)
    → All (λ c. is_ident c ≡ true) t
    → drop_while is_ident (t ++ (b'(' ∷ rest)) ≡ b'(' ∷ rest
drop_ident [] rest h = refl
drop_ident (c ∷ t) rest (p, h) = rw p (drop_ident t rest h)

predicate_conjunct :
    (total : ℕ) (p : Conjunct) (rest : Text) (out : ParsedRule)
    → IsConjunct p
    → predicate total (drop_while is_connector (show_conjunct p rest)) out
      ≡ continue rest (handle_predicate out (ident p) p.args)
unfolding predicate is_whitespace
predicate_conjunct total p rest out h =
    let behind = b'(' ∷ quoted_list p.args (b')' ∷ rest) in
    let no_connector : is_connector p.initial ≡ false = unfold is_whitespace in ground arith in
    let letter = h.letter in
    rw
      (
        no_connector,
        letter,
        take_ident p.tail (quoted_list p.args (b')' ∷ rest)) h.rest,
        drop_ident p.tail (quoted_list p.args (b')' ∷ rest)) h.rest,
      )
      (predicate_arguments_quoted (ident p) p.args rest out h.quotable)

walk_conjunct :
    (fuel total : ℕ) (p : Conjunct) (rest : Text) (out : ParsedRule)
    → IsConjunct p
    → walk (suc fuel) total (show_conjunct p rest) out
      ≡ walk fuel total rest (handle_predicate out (ident p) p.args)
unfolding walk
walk_conjunct fuel total p rest out h =
    ap (resume fuel total) (predicate_conjunct total p rest out h)

-- What `parse` has collected behind the conjuncts.
abbrev handled : ParsedRule → List Conjunct → ParsedRule
handled out [] = out
handled out (p ∷ ps) = handled (handle_predicate out (ident p) p.args) ps

skip_and :
    (fuel total : ℕ) (s : Text) (out : ParsedRule)
    → walk (suc fuel) total (codes " && " ++ s) out ≡ walk (suc fuel) total s out
unfolding walk is_whitespace
skip_and fuel total s out = refl

walk_more :
    (fuel total : ℕ) (ps : List Conjunct) (out : ParsedRule)
    → length ps < fuel
    → All IsConjunct ps
    → walk fuel total (show_more ps) out ≡ handled out ps
walk_more zero total ps out f h = absurd (omega arith)
walk_more (suc fuel) total [] out f h = unfold walk in refl
walk_more (suc fuel) total (p ∷ ps) out f (q, h) =
    skip_and fuel total (show_conjunct p (show_more ps)) out
    ∙ walk_conjunct fuel total p (show_more ps) out q
    ∙ walk_more fuel total ps (handle_predicate out (ident p) p.args) (omega arith) h

length-show_conjunct :
    (p : Conjunct) (rest : Text) → suc (length rest) ≤ length (show_conjunct p rest)
length-show_conjunct p rest = omega (
  arith,
  length-append p.tail (b'(' ∷ quoted_list p.args (b')' ∷ rest)),
  length-quoted_list_rest p.args (b')' ∷ rest),
)

length-show_more : (ps : List Conjunct) → length ps ≤ length (show_more ps)
length-show_more [] = omega arith
length-show_more (p ∷ ps) =
    omega (arith, length-show_conjunct p (show_more ps), length-show_more ps)

parse-handled :
    (ps : List Conjunct) → All IsConjunct ps → parse (show_conjunction ps) ≡ handled default_rule ps
unfolding parse
parse-handled [] h = unfold walk scan_operators in refl
parse-handled (p ∷ ps) (q, h) =
    let rule = show_conjunct p (show_more ps) in
    let scanned : scan_operators false rule default_rule ≡ default_rule =
      scan_conjunct p (show_more ps) default_rule q ∙ scan_more_conjuncts ps default_rule h in
    ap (walk (suc (length rule)) (length rule) rule) scanned
    ∙ walk_conjunct (length rule) (length rule) p (show_more ps) default_rule q
    ∙ walk_more (length rule) (length rule) ps (handle_predicate default_rule (ident p) p.args)
        (omega (arith, length-show_conjunct p (show_more ps), length-show_more ps)) h

is_usable-handled :
    (ps : List Conjunct) (out : ParsedRule)
    → out.has_negation ≡ false
    → out.has_disjunction ≡ false
    → is_usable (handled out ps)
      ≡ ((has_supported out && all_supported ps) && (has_hosts out || any names_host ps))
unfolding is_usable
is_usable-handled [] out n d = ground arith
is_usable-handled (p ∷ ps) out n d =
    let h = handle_predicate-Handles (ident p) p.args out in
    is_usable-handled ps (handle_predicate out (ident p) p.args) (h.same_negation ∙ n)
      (h.same_disjunction ∙ d)
    ∙ rw (h.supported, h.hosts)
        (regroup (has_supported out) (is_supported p) (all_supported ps) (has_hosts out)
          (names_host p) (any names_host ps))
  where
    regroup :
        (a b c x y z : Bool)
        → (((a && b) && c) && ((x || y) || z)) ≡ ((a && (b && c)) && (x || (y || z)))
    regroup a b c x y z = ground arith

-- A conjunction of predicates with arguments between backticks is translated exactly when every
-- predicate is `Host`, `PathPrefix`, `Path` or `PathRegexp`, and one of them is a `Host` with an
-- argument. The names are ASCII letters, digits and underscores and start with a letter; the
-- arguments hold no backtick.
pub is_usable_conjunction :
    (ps : List Conjunct)
    → All IsConjunct ps
    → is_usable (parse (show_conjunction ps)) ≡ (all_supported ps && any names_host ps)
is_usable_conjunction ps h =
    ap is_usable (parse-handled ps h) ∙ is_usable-handled ps default_rule refl refl
