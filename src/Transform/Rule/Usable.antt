-- ===== src/Transform/Rule/Usable.antt =====
-- rule.rs: which operators the parser reports.
use pangolin_gateway_api.Prelude.{
  ℕ, zero, suc, ◌≡◌, refl, ◌∙◌, Bool, false, not, ◌||◌, ◌&&◌, [], ◌∷◌, arith, Bool-cases, inl, inr,
  if◌then◌else◌, ◌==◌, any, length, drop_while, take_while, is_alphabetic, is_whitespace, Text,
  List,
}
use pangolin_gateway_api.Transform.Rule.{
  ParsedRule, default_rule, scan_operators, next_is, read_args, handle_predicate, Round, stop,
  continue, is_connector, is_ident, predicate_arguments, predicate, walk, parse, with_first,
  set_path, scan_char, PathMatchKind,
}

-- The rule without what stands between backticks. The backticks stay.
abbrev pub unquoted : Bool → Text → Text
unquoted inside [] = []
unquoted inside (c ∷ s) =
    let rest = unquoted (if c == b'`' then not inside else inside) s in
    if c == b'`' then c ∷ rest else if inside then rest else c ∷ rest

-- The character `d` twice in a row.
abbrev pub has_double : ℕ → Text → Bool
has_double d [] = false
has_double d (c ∷ s) = (c == d && next_is d s) || has_double d s

next_is-unquoted : (s : Text) → next_is b'|' (unquoted false s) ≡ next_is b'|' s
next_is-unquoted [] = refl
next_is-unquoted (c ∷ s) = ground arith

scan-has_negation :
    (inside : Bool) (s : Text) (out : ParsedRule)
    → (scan_operators inside s out).has_negation
      ≡ (out.has_negation || any (λ c. c == b'!') (unquoted inside s))
unfolding scan_operators
scan-has_negation inside [] out = ground arith
scan-has_negation inside (c ∷ s) out = ground (
  arith,
  scan-has_negation (if c == b'`' then not inside else inside) s (scan_char inside c s out),
)

scan-has_disjunction :
    (inside : Bool) (s : Text) (out : ParsedRule)
    → (scan_operators inside s out).has_disjunction
      ≡ (out.has_disjunction || has_double b'|' (unquoted inside s))
unfolding scan_operators
scan-has_disjunction inside [] out = ground arith
scan-has_disjunction inside (c ∷ s) out = ground (
  arith,
  next_is-unquoted s,
  scan-has_disjunction (if c == b'`' then not inside else inside) s (scan_char inside c s out),
)

-- The second loop leaves the two flags alone.
abbrev SameFlags : ParsedRule → ParsedRule → Type 0
SameFlags a b = (a.has_negation ≡ b.has_negation) × (a.has_disjunction ≡ b.has_disjunction)

with_first-SameFlags :
    (args : List Text) (kind : PathMatchKind) (f : Text → Text) (out : ParsedRule)
    → SameFlags (with_first args (λ first. set_path kind (f first)) out) out
with_first-SameFlags [] kind f out = (refl, refl)
with_first-SameFlags (a ∷ args) kind f out = (refl, refl)

handle_predicate-SameFlags :
    (out : ParsedRule) (ident : Text) (args : List Text)
    → SameFlags (handle_predicate out ident args) out
unfolding handle_predicate
handle_predicate-SameFlags out ident [] = ground arith
handle_predicate-SameFlags out ident (a ∷ args) = ground arith

-- What a round hands on has the flags of `out`.
abbrev KeepsFlags : ParsedRule → Round → Type 0
KeepsFlags out (stop r) = SameFlags r out
KeepsFlags out (continue rest r) = SameFlags r out

predicate_arguments-KeepsFlags :
    (ident s : Text) (out : ParsedRule) → KeepsFlags out (predicate_arguments ident s out)
predicate_arguments-KeepsFlags ident [] out = unfold predicate_arguments in (refl, refl)
predicate_arguments-KeepsFlags ident (c ∷ s) out = elim (Bool-cases (c == b'(')) [
  | inl e ↦
      unfold predicate_arguments in
      rw e (handle_predicate-SameFlags out ident (read_args (suc (length s)) s).0)
  | inr e ↦ unfold predicate_arguments in rw e (refl, refl)
]

predicate-KeepsFlags :
    (total : ℕ) (s : Text) (out : ParsedRule) → KeepsFlags out (predicate total s out)
predicate-KeepsFlags total [] out = unfold predicate in (refl, refl)
predicate-KeepsFlags total (c ∷ s) out = elim (Bool-cases (is_alphabetic c)) [
  | inl e ↦
      unfold predicate in
      rw e (
        predicate_arguments-KeepsFlags (c ∷ take_while is_ident s)
          (drop_while is_whitespace (drop_while is_ident s)) out)
  | inr e ↦ unfold predicate in rw e (refl, refl)
]

walk-SameFlags :
    (fuel total : ℕ) (s : Text) (out : ParsedRule) → SameFlags (walk fuel total s out) out
unfolding walk
walk-SameFlags zero total s out = (refl, refl)
walk-SameFlags (suc fuel) total s out =
    go (predicate total (drop_while is_connector s) out)
      (predicate-KeepsFlags total (drop_while is_connector s) out) (walk-SameFlags fuel total)
  where
    go :
        (r : Round)
        → KeepsFlags out r
        → ((t : Text) (o : ParsedRule) → SameFlags (walk fuel total t o) o)
        → SameFlags (elim r [ stop o ↦ o | continue rest o ↦ walk fuel total rest o ]) out
    go (stop o) h ih = h
    go (continue rest o) h ih = ((ih rest o).0 ∙ h.0, (ih rest o).1 ∙ h.1)

-- The parser reports a negation exactly when an exclamation mark stands outside backticks, and a
-- disjunction exactly when two bars stand side by side outside backticks.
pub parse_flags :
    (rule : Text)
    → ((parse rule).has_negation ≡ any (λ c. c == b'!') (unquoted false rule))
      × ((parse rule).has_disjunction ≡ has_double b'|' (unquoted false rule))
unfolding parse
parse_flags rule =
    let scanned = scan_operators false rule default_rule in
    let kept = walk-SameFlags (suc (length rule)) (length rule) rule scanned in
    (
      kept.0 ∙ scan-has_negation false rule default_rule,
      kept.1 ∙ scan-has_disjunction false rule default_rule,
    )
