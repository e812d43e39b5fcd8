-- ===== src/Transform/Rule/Fuel.antt =====
-- rule.rs: the two loops of the parser end.
use pangolin_gateway_api.Prelude.{
  ℕ, zero, suc, ◌≤◌, ◌<◌, ◌≡◌, refl, subst, Bool, false, List, [], ◌∷◌, arith, Bool-cases, inl, inr,
  length, drop_while, length-drop_while, take_while, is_alphabetic, is_whitespace, Text, ◌==◌,
}
use pangolin_gateway_api.Transform.Rule.{
  ParsedRule, ArgStep, end, arg, next_arg, is_separator, is_connector, is_bare, is_ident,
  not_backtick, skip, add_arg, read_args, Round, stop, continue, predicate_arguments, predicate,
  walk, scan_operators, default_rule, parse,
}

-- The first element, if there is one, fails the test.
abbrev HeadFails : (ℕ → Bool) → Text → Type 0
HeadFails p [] = Unit {0}
HeadFails p (c ∷ s) = p c ≡ false

drop_while-HeadFails : (p : ℕ → Bool) (s : Text) → HeadFails p (drop_while p s)
drop_while-HeadFails p [] = tt
drop_while-HeadFails p (c ∷ s) = elim (Bool-cases (p c)) [
  | inl e ↦ rw e (drop_while-HeadFails p s)
  | inr e ↦ rw e e
]

length-skip : (d : ℕ) (s : Text) → length (skip d s) ≤ length s
length-skip d [] = omega arith
length-skip d (c ∷ s) = ground arith

-- An argument is never empty of progress.
abbrev Shrinks : ℕ → ArgStep → Type 0
Shrinks n (end rest) = length rest ≤ n
Shrinks n (arg a rest) = length rest < n

next_arg-Shrinks : (s : Text) → HeadFails is_separator s → Shrinks (length s) (next_arg s)
next_arg-Shrinks [] h = unfold next_arg in omega arith
next_arg-Shrinks (c ∷ s) h = elim (Bool-cases (c == b')')) [
  | inl e ↦ unfold next_arg in rw e (omega arith)
  | inr e ↦ elim (Bool-cases (c == b'`')) [
    | inl q ↦
        unfold next_arg in
        rw (e, q)
          (omega
            (arith, length-skip b'`' (drop_while not_backtick s), length-drop_while not_backtick s))
    | inr q ↦
        let comma : (c == b',') ≡ false = ground arith in
        unfold next_arg in rw (e, q, comma) (omega (arith, length-drop_while is_bare s))
  ]
]

-- A run of the loop of `read_args` to its end: every round yields an argument, and the last one stops
-- at the text that is left.
pub data ArgsEnd : Text → List Text → Text → Type 0 where
  last : {s rest : Text} → next_arg (drop_while is_separator s) ≡ end rest → ArgsEnd s [] rest
  more :
      {s later rest a : Text} {args : List Text}
      → next_arg (drop_while is_separator s) ≡ arg a later
      → ArgsEnd later args rest
      → ArgsEnd s (a ∷ args) rest

round-Shrinks :
    (s : Text) (r : ArgStep)
    → next_arg (drop_while is_separator s) ≡ r
    → Shrinks (length (drop_while is_separator s)) r
round-Shrinks s r e =
    subst (Shrinks (length (drop_while is_separator s))) e
      (next_arg-Shrinks (drop_while is_separator s) (drop_while-HeadFails is_separator s))

-- With more fuel than characters, `read_args` runs to its end.
read_args-ArgsEnd :
    (f : ℕ) (s : Text) → length s < f → ArgsEnd s (read_args f s).0 (read_args f s).1
unfolding read_args
read_args-ArgsEnd zero s h = absurd (omega arith)
read_args-ArgsEnd (suc f) s h = go (next_arg (drop_while is_separator s)) refl (read_args-ArgsEnd f)
  where
    resume : ArgStep → List Text × Text
    resume (end rest) = ([], rest)
    resume (arg a rest) = add_arg a (read_args f rest)

    go :
        (r : ArgStep)
        → next_arg (drop_while is_separator s) ≡ r
        → ((t : Text) → length t < f → ArgsEnd t (read_args f t).0 (read_args f t).1)
        → ArgsEnd s (resume r).0 (resume r).1
    go (end rest) e ih = last e
    go (arg a rest) e ih =
        let less : length rest < length (drop_while is_separator s) = round-Shrinks s _ e in
        more e (ih rest (omega (arith, length-drop_while is_separator s)))

-- What is left is no longer than the text.
length-ArgsEnd :
    (s : Text) (args : List Text) (rest : Text) → ArgsEnd s args rest → length rest ≤ length s
length-ArgsEnd s args rest (last e) =
    let less : length rest ≤ length (drop_while is_separator s) = round-Shrinks s _ e in
    omega (arith, length-drop_while is_separator s)
length-ArgsEnd s (a ∷ args) rest (more {later = t} e h) =
    let less : length t < length (drop_while is_separator s) = round-Shrinks s _ e in
    omega (arith, length-drop_while is_separator s, length-ArgsEnd t args rest h)

-- A round that goes on has read something.
abbrev Advances : ℕ → Round → Type 0
Advances n (stop r) = Unit {0}
Advances n (continue rest r) = length rest < n

predicate_arguments-Advances :
    (ident s : Text) (out : ParsedRule) → Advances (length s) (predicate_arguments ident s out)
predicate_arguments-Advances ident [] out = unfold predicate_arguments in tt
predicate_arguments-Advances ident (c ∷ s) out = elim (Bool-cases (c == b'(')) [
  | inl e ↦
      unfold predicate_arguments in
      rw e (
        omega (
          arith,
          length-skip b')' (read_args (suc (length s)) s).1,
          length-ArgsEnd s _ _ (read_args-ArgsEnd (suc (length s)) s (omega arith)),
        ))
  | inr e ↦ unfold predicate_arguments in rw e tt
]

Advances-mono : (m n : ℕ) (r : Round) → m ≤ n → Advances m r → Advances n r
Advances-mono m n (stop r) h a = tt
Advances-mono m n (continue rest r) h a = omega arith

predicate-Advances :
    (total : ℕ) (s : Text) (out : ParsedRule) → Advances (length s) (predicate total s out)
predicate-Advances total [] out = unfold predicate in tt
predicate-Advances total (c ∷ s) out = elim (Bool-cases (is_alphabetic c)) [
  | inl e ↦
      unfold predicate in
      rw e (
        Advances-mono (length behind) (suc (length s)) _ shorter
          (predicate_arguments-Advances (c ∷ take_while is_ident s) behind out))
  | inr e ↦ unfold predicate in rw e tt
]
  where
    behind : Text
    behind = drop_while is_whitespace (drop_while is_ident s)

    shorter : length behind ≤ suc (length s)
    shorter = omega (
      arith,
      length-drop_while is_whitespace (drop_while is_ident s),
      length-drop_while is_ident s,
    )

-- A run of the second loop of the parser to its end, on a rule of `total` characters: the last round
-- stops with the result.
pub data Ends (total : ℕ) : Text → ParsedRule → ParsedRule → Type 0 where
  stops :
      {s : Text} {out r : ParsedRule}
      → predicate total (drop_while is_connector s) out ≡ stop r
      → Ends total s out r
  goes_on :
      {s rest : Text} {out next r : ParsedRule}
      → predicate total (drop_while is_connector s) out ≡ continue rest next
      → Ends total rest next r
      → Ends total s out r

walk-Ends :
    (f total : ℕ) (s : Text) (out : ParsedRule)
    → length s < f
    → Ends total s out (walk f total s out)
unfolding walk
walk-Ends zero total s out h = absurd (omega arith)
walk-Ends (suc f) total s out h =
    go (predicate total next out) refl (predicate-Advances total next out) (walk-Ends f total)
  where
    next : Text
    next = drop_while is_connector s

    go :
        (r : Round)
        → predicate total next out ≡ r
        → Advances (length next) r
        → ((t : Text) (o : ParsedRule) → length t < f → Ends total t o (walk f total t o))
        → Ends total s out (elim r [ stop o ↦ o | continue rest o ↦ walk f total rest o ])
    go (stop o) e less ih = stops e
    go (continue rest o) e less ih =
        goes_on e (ih rest o (omega (arith, length-drop_while is_connector s)))

-- Both loops of the parser end by themselves, on every rule: `parse` is the result of a finite run of
-- the second loop, whose last round stops, and on every text `read_args` returns the arguments of a
-- finite run of its loop and the text where it stops.
pub parse-Ends :
    (rule : Text)
    → Ends (length rule) rule (scan_operators false rule default_rule) (parse rule)
      × ((s : Text) → ArgsEnd s (read_args (suc (length s)) s).0 (read_args (suc (length s)) s).1)
unfolding parse
parse-Ends rule = (
  walk-Ends (suc (length rule)) (length rule) rule (scan_operators false rule default_rule)
      (omega arith),
  λ s. read_args-ArgsEnd (suc (length s)) s (omega arith),
)
