-- ===== src/Transform/Rule.antt =====
-- src/transform/rule.rs: the parser of Traefik router rules. The index `idx` into the characters is
-- the text behind it, and an offset is the whole length less the length of that text.
pub mod Fuel
pub mod RoundTrip
pub mod Usable
pub mod Supported
pub mod Conjunction
mod Tests
mod Witnesses
use pangolin_gateway_api.Prelude.{
  ℕ, zero, suc, ◌-◌, Bool, true, false, not, ◌&&◌, ◌||◌, List, [], ◌∷◌, ◌++◌, Option, none, some,
  ◌==◌, if◌then◌else◌, is_empty, is_none, length, take_while, drop_while, Text, codes, ◌≟◌,
  is_digit, is_alphabetic, is_whitespace, starts_with, trim,
}

pub data PathMatchKind : Type 0 where
  exact prefix regex : PathMatchKind

pub record PathMatch : Type 0 where
  pub kind : PathMatchKind
  pub value : Text

-- The strings pushed to `unsupported_predicates`, by their parts: the offset and the character of an
-- unparseable token, the name that lacks arguments, the name of an unknown predicate.
pub data Unsupported : Type 0 where
  unparseable_token : ℕ → ℕ → Unsupported
  missing_arguments : Text → Unsupported
  other : Text → Unsupported

pub record ParsedRule : Type 0 where
  pub hosts : List Text
  pub path : Option PathMatch
  pub host_regexp : Bool
  pub unsupported_predicates : List Unsupported
  pub has_disjunction : Bool
  pub has_negation : Bool

-- `ParsedRule::default`.
abbrev pub default_rule : ParsedRule
default_rule = record {
  hosts = [];
  path = none;
  host_regexp = false;
  unsupported_predicates = [];
  has_disjunction = false;
  has_negation = false;
}

unfoldable pub is_usable : ParsedRule → Bool
is_usable r =
    not r.has_disjunction
    && not r.has_negation
    && not r.host_regexp
    && is_empty r.unsupported_predicates
    && not (is_empty r.hosts)

abbrev next_is : ℕ → Text → Bool
next_is d [] = false
next_is d (c ∷ s) = c == d

-- One round of the first loop of `parse`; `rest` is what follows `c`.
scan_char : Bool → ℕ → Text → ParsedRule → ParsedRule
scan_char in_backtick c rest out =
    if c == b'`' || in_backtick
    then out
    else if c == b'|' && next_is b'|' rest
    then record out { has_disjunction = true }
    else if c == b'!'
    then record out { has_negation = true }
    else out

-- The first loop of `parse`.
pub scan_operators : Bool → Text → ParsedRule → ParsedRule
unfolding scan_char
scan_operators in_backtick [] out = out
scan_operators in_backtick (c ∷ rest) out =
    scan_operators (if c == b'`' then not in_backtick else in_backtick) rest
      (scan_char in_backtick c rest out)

abbrev pub is_connector : ℕ → Bool
is_connector c = is_whitespace c || c == b'&' || c == b'|'

abbrev pub is_ident : ℕ → Bool
is_ident c = is_alphabetic c || is_digit c || c == b'_'

abbrev pub is_separator : ℕ → Bool
is_separator c = is_whitespace c || c == b','

abbrev is_bare : ℕ → Bool
is_bare c = not (c == b',') && not (c == b')')

abbrev pub not_backtick : ℕ → Bool
not_backtick c = not (c == b'`')

-- Skips the character `d`, if it comes next.
abbrev skip : ℕ → Text → Text
skip d [] = []
skip d (c ∷ s) = if c == d then s else c ∷ s

-- A round of the loop of `read_args`: its end, or an argument and the text behind it.
pub data ArgStep : Type 0 where
  end : Text → ArgStep
  arg : Text → Text → ArgStep

pub next_arg : Text → ArgStep
unfolding trim
next_arg [] = end []
next_arg (c ∷ s) =
    if c == b')'
    then end (c ∷ s)
    else if c == b'`'
    then arg (take_while not_backtick s) (skip b'`' (drop_while not_backtick s))
    else arg (trim (take_while is_bare (c ∷ s))) (drop_while is_bare (c ∷ s))

abbrev add_arg : Text → List Text × Text → List Text × Text
add_arg a (args, rest) = (a ∷ args, rest)

-- The loop of `read_args`, with the text that it leaves.
pub read_args : ℕ → Text → List Text × Text
unfolding next_arg is_whitespace
read_args zero s = ([], s)
read_args (suc fuel) s = elim (next_arg (drop_while is_separator s)) [
  | end rest ↦ ([], rest)
  | arg a rest ↦ add_arg a (read_args fuel rest)
]

normalize_path : Text → Text
unfolding starts_with
normalize_path p = if starts_with (codes "/") p then p else b'/' ∷ p

abbrev set_path : PathMatchKind → Text → ParsedRule → ParsedRule
set_path kind value out = record out { path = some (record { kind = kind; value = value }) }

-- `if let Some(first) = args.first()`.
abbrev with_first : List Text → (Text → ParsedRule → ParsedRule) → ParsedRule → ParsedRule
with_first [] f out = out
with_first (first ∷ _) f out = f first out

pub handle_predicate : ParsedRule → Text → List Text → ParsedRule
unfolding normalize_path ◌≟◌
handle_predicate out ident args =
    if ident ≟ codes "Host"
    then record out { hosts = out.hosts ++ args }
    else if ident ≟ codes "HostRegexp"
    then record out { host_regexp = true }
    else if ident ≟ codes "PathPrefix"
    then with_first args (λ first. set_path prefix (normalize_path first)) out
    else if ident ≟ codes "Path"
    then with_first args (λ first. set_path exact (normalize_path first)) out
    else if ident ≟ codes "PathRegexp"
    then with_first args (λ first. set_path regex first) out
    else record out { unsupported_predicates = out.unsupported_predicates ++ (other ident ∷ []) }

abbrev push_unsupported : Unsupported → ParsedRule → ParsedRule
push_unsupported u out = record out {
  unsupported_predicates = out.unsupported_predicates ++ (u ∷ []);
}

-- A round of the second loop of `parse`: `break`, or the text to go on with.
pub data Round : Type 0 where
  stop : ParsedRule → Round
  continue : Text → ParsedRule → Round

-- Behind the predicate's name.
pub predicate_arguments : Text → Text → ParsedRule → Round
unfolding read_args handle_predicate
predicate_arguments ident [] out = stop (push_unsupported (missing_arguments ident) out)
predicate_arguments ident (c ∷ s) out =
    if c == b'('
    then (let (args, rest) = read_args (suc (length s)) s in
        continue (skip b')' rest) (handle_predicate out ident args))
    else stop (push_unsupported (missing_arguments ident) out)

-- At the first character that is no connector; `total` is the length of the whole rule.
pub predicate : ℕ → Text → ParsedRule → Round
unfolding predicate_arguments is_whitespace
predicate total [] out = stop out
predicate total (c ∷ s) out =
    let rest = drop_while is_ident (c ∷ s) in
    if is_alphabetic c
    then predicate_arguments (take_while is_ident (c ∷ s)) (drop_while is_whitespace rest) out
    else stop (push_unsupported (unparseable_token (total - length (c ∷ s)) c) out)

-- The second loop of `parse`.
pub walk : ℕ → ℕ → Text → ParsedRule → ParsedRule
unfolding predicate
walk zero total s out = out
walk (suc fuel) total s out = elim (predicate total (drop_while is_connector s) out) [
  | stop r ↦ r
  | continue rest r ↦ walk fuel total rest r
]

unfoldable pub parse : Text → ParsedRule
unfolding scan_operators walk
parse rule = walk (suc (length rule)) (length rule) rule (scan_operators false rule default_rule)
