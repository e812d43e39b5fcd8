-- ===== src/Transform/Rule/RoundTrip.antt =====
-- rule.rs: reading back the rules that pangolin writes.
use pangolin_gateway_api.Prelude.{
  ℕ, zero, suc, ◌≤◌, ◌<◌, ◌≡◌, refl, ap, ◌∙◌, true, false, List, [], ◌∷◌, ◌++◌, Option, none, some,
  arith, ◌==◌, if◌then◌else◌, length, All, length-append, take_while, drop_while, Text, codes,
  starts_with,
}
use pangolin_gateway_api.Transform.Rule.{
  PathMatchKind, exact, prefix, regex, PathMatch, Round, stop, continue, skip, ParsedRule,
  default_rule, scan_operators, not_backtick, read_args, handle_predicate, predicate_arguments,
  walk, parse,
}

-- No backtick in the text.
abbrev pub IsQuotable : Text → Type 0
IsQuotable = All (λ c. not_backtick c ≡ true)

-- A value between backticks, in front of `rest`.
abbrev pub quoted : Text → Text → Text
quoted value rest = b'`' ∷ (value ++ b'`' ∷ rest)

abbrev pub quoted_more : List Text → Text → Text
quoted_more [] rest = rest
quoted_more (v ∷ vs) rest = b',' ∷ b' ' ∷ quoted v (quoted_more vs rest)

-- Values between backticks, with commas.
abbrev pub quoted_list : List Text → Text → Text
quoted_list [] rest = rest
quoted_list (v ∷ vs) rest = quoted v (quoted_more vs rest)

abbrev pub path_name : PathMatchKind → Text
path_name prefix = codes "PathPrefix"
path_name exact = codes "Path"
path_name regex = codes "PathRegexp"

-- ` && PathPrefix(` and its two siblings.
abbrev pub path_predicate : PathMatchKind → Text
path_predicate kind = codes " && " ++ path_name kind ++ codes "("

abbrev pub show_paths : List PathMatch → Text
show_paths [] = []
show_paths (p ∷ ps) = path_predicate p.kind ++ quoted p.value (b')' ∷ show_paths ps)

-- Host(`a`, `b`) && PathPrefix(`/p`): the rules that pangolin writes have at most one path.
abbrev pub show_rule : List Text → List PathMatch → Text
show_rule hosts paths = codes "Host(" ++ quoted_list hosts (b')' ∷ show_paths paths)

-- A path that the parser keeps as it is written.
abbrev pub IsRooted : PathMatchKind → Text → Type 0
IsRooted regex value = Unit {0}
IsRooted _ value = starts_with (codes "/") value ≡ true

abbrev pub IsShowable : PathMatch → Type 0
IsShowable p = IsQuotable p.value × IsRooted p.kind p.value

-- The last path, or the given one where there is none.
abbrev pub last_path : Option PathMatch → List PathMatch → Option PathMatch
last_path found [] = found
last_path found (p ∷ ps) = last_path (some p) ps

-- `scan_operators` sees nothing of a quoted value.
scan_quoted :
    (v rest : Text) (out : ParsedRule)
    → IsQuotable v
    → scan_operators true (v ++ b'`' ∷ rest) out ≡ scan_operators false rest out
unfolding scan_operators
scan_quoted [] rest out h = refl
scan_quoted (c ∷ v) rest out (p, h) =
    let e : (c == b'`') ≡ false = ground arith in ground (arith, scan_quoted v rest out h)

scan_more :
    (vs : List Text) (rest : Text) (out : ParsedRule)
    → All IsQuotable vs
    → scan_operators false (quoted_more vs rest) out ≡ scan_operators false rest out
unfolding scan_operators
scan_more [] rest out h = refl
scan_more (v ∷ vs) rest out (p, h) =
    scan_quoted v (quoted_more vs rest) out p ∙ scan_more vs rest out h

pub scan_list :
    (vs : List Text) (rest : Text) (out : ParsedRule)
    → All IsQuotable vs
    → scan_operators false (quoted_list vs rest) out ≡ scan_operators false rest out
unfolding scan_operators
scan_list [] rest out h = refl
scan_list (v ∷ vs) rest out (p, h) =
    scan_quoted v (quoted_more vs rest) out p ∙ scan_more vs rest out h

scan_path :
    (kind : PathMatchKind) (value rest : Text) (out : ParsedRule)
    → IsQuotable value
    → scan_operators false (path_predicate kind ++ quoted value (b')' ∷ rest)) out
      ≡ scan_operators false rest out
unfolding scan_operators
scan_path exact value rest out h = scan_quoted value (b')' ∷ rest) out h
scan_path prefix value rest out h = scan_quoted value (b')' ∷ rest) out h
scan_path regex value rest out h = scan_quoted value (b')' ∷ rest) out h

scan_paths :
    (ps : List PathMatch) (out : ParsedRule)
    → All IsShowable ps
    → scan_operators false (show_paths ps) out ≡ out
unfolding scan_operators
scan_paths [] out h = refl
scan_paths (p ∷ ps) out ((q, _), h) =
    scan_path p.kind p.value (show_paths ps) out q ∙ scan_paths ps out h

take_quoted : (v rest : Text) → IsQuotable v → take_while not_backtick (v ++ b'`' ∷ rest) ≡ v
take_quoted [] rest h = refl
take_quoted (c ∷ v) rest (p, h) = rw p (ap (◌∷◌ c) (take_quoted v rest h))

drop_quoted :
    (v rest : Text) → IsQuotable v → drop_while not_backtick (v ++ b'`' ∷ rest) ≡ b'`' ∷ rest
drop_quoted [] rest h = refl
drop_quoted (c ∷ v) rest (p, h) = rw p (drop_quoted v rest h)

read_quoted :
    (fuel : ℕ) (v rest : Text)
    → IsQuotable v
    → read_args (suc fuel) (quoted v rest) ≡ (v ∷ (read_args fuel rest).0, (read_args fuel rest).1)
unfolding read_args
read_quoted fuel v rest h = rw (take_quoted v rest h, drop_quoted v rest h)

read_more :
    (fuel : ℕ) (vs : List Text) (rest : Text)
    → length vs < fuel
    → All IsQuotable vs
    → read_args fuel (quoted_more vs (b')' ∷ rest)) ≡ (vs, b')' ∷ rest)
read_more zero vs rest f h = absurd (omega arith)
read_more (suc fuel) [] rest f h = unfold read_args in refl
read_more (suc fuel) (v ∷ vs) rest f (p, h) =
    skip_separator v (quoted_more vs (b')' ∷ rest))
    ∙ read_quoted fuel v (quoted_more vs (b')' ∷ rest)) p
    ∙ ap (λ r. (v ∷ r.0, r.1)) (read_more fuel vs rest (omega arith) h)
  where
    skip_separator :
        (w t : Text)
        → read_args (suc fuel) (b',' ∷ b' ' ∷ quoted w t) ≡ read_args (suc fuel) (quoted w t)
    skip_separator w t = unfold read_args in refl

read_list :
    (fuel : ℕ) (vs : List Text) (rest : Text)
    → length vs < fuel
    → All IsQuotable vs
    → read_args fuel (quoted_list vs (b')' ∷ rest)) ≡ (vs, b')' ∷ rest)
read_list zero vs rest f h = absurd (omega arith)
read_list (suc fuel) [] rest f h = unfold read_args in refl
read_list (suc fuel) (v ∷ vs) rest f (p, h) =
    read_quoted fuel v (quoted_more vs (b')' ∷ rest)) p
    ∙ ap (λ r. (v ∷ r.0, r.1)) (read_more fuel vs rest (omega arith) h)

length-quoted_more : (vs : List Text) (rest : Text) → length vs ≤ length (quoted_more vs rest)
length-quoted_more [] rest = omega arith
length-quoted_more (v ∷ vs) rest =
    omega (arith, length-append v (b'`' ∷ quoted_more vs rest), length-quoted_more vs rest)

length-quoted_more_rest :
    (vs : List Text) (rest : Text) → length rest ≤ length (quoted_more vs rest)
length-quoted_more_rest [] rest = omega arith
length-quoted_more_rest (v ∷ vs) rest =
    omega (arith, length-append v (b'`' ∷ quoted_more vs rest), length-quoted_more_rest vs rest)

length-quoted_list : (vs : List Text) (rest : Text) → length vs ≤ length (quoted_list vs rest)
length-quoted_list [] rest = omega arith
length-quoted_list (v ∷ vs) rest =
    omega (arith, length-append v (b'`' ∷ quoted_more vs rest), length-quoted_more vs rest)

-- The arguments of a predicate are read back, whatever follows them.
pub predicate_arguments_quoted :
    (ident : Text) (vs : List Text) (rest : Text) (out : ParsedRule)
    → All IsQuotable vs
    → predicate_arguments ident (b'(' ∷ quoted_list vs (b')' ∷ rest)) out
      ≡ continue rest (handle_predicate out ident vs)
unfolding predicate_arguments
predicate_arguments_quoted ident vs rest out h =
    ap (λ (r : List Text × Text). continue (skip b')' r.1) (handle_predicate out ident r.0))
      (read_list (suc (length (quoted_list vs (b')' ∷ rest)))) vs rest
        (omega (arith, length-quoted_list vs (b')' ∷ rest))) h)

-- What `walk` does with the outcome of a round.
abbrev pub resume : ℕ → ℕ → Round → ParsedRule
resume fuel total r = elim r [ stop out ↦ out | continue rest out ↦ walk fuel total rest out ]

walk_host :
    (fuel total : ℕ) (hosts : List Text) (rest : Text) (out : ParsedRule)
    → All IsQuotable hosts
    → walk (suc fuel) total (codes "Host(" ++ quoted_list hosts (b')' ∷ rest)) out
      ≡ walk fuel total rest (record out { hosts = out.hosts ++ hosts })
unfolding walk
walk_host fuel total hosts rest out h =
    ap (resume fuel total) (predicate_arguments_quoted (codes "Host") hosts rest out h)

handle_path :
    (kind : PathMatchKind) (value : Text) (out : ParsedRule)
    → IsRooted kind value
    → handle_predicate out (path_name kind) (value ∷ [])
      ≡ record out { path = some (record { kind = kind; value = value }) }
unfolding handle_predicate
handle_path exact value out h =
    ap
      (λ b. record out {
        path = some (record { kind = exact; value = if b then value else b'/' ∷ value });
      })
      h
handle_path prefix value out h =
    ap
      (λ b. record out {
        path = some (record { kind = prefix; value = if b then value else b'/' ∷ value });
      })
      h
handle_path regex value out h = refl

walk_path :
    (fuel total : ℕ) (kind : PathMatchKind) (value rest : Text) (out : ParsedRule)
    → IsQuotable value
    → walk (suc fuel) total (path_predicate kind ++ quoted value (b')' ∷ rest)) out
      ≡ walk fuel total rest (handle_predicate out (path_name kind) (value ∷ []))
unfolding walk
walk_path fuel total exact value rest out h =
    ap (resume fuel total)
      (predicate_arguments_quoted (path_name exact) (value ∷ []) rest out (h, tt))
walk_path fuel total prefix value rest out h =
    ap (resume fuel total)
      (predicate_arguments_quoted (path_name prefix) (value ∷ []) rest out (h, tt))
walk_path fuel total regex value rest out h =
    ap (resume fuel total)
      (predicate_arguments_quoted (path_name regex) (value ∷ []) rest out (h, tt))

walk_paths :
    (fuel total : ℕ) (ps : List PathMatch) (out : ParsedRule)
    → length ps < fuel
    → All IsShowable ps
    → walk fuel total (show_paths ps) out ≡ record out { path = last_path out.path ps }
walk_paths zero total ps out f h = absurd (omega arith)
walk_paths (suc fuel) total [] out f h = unfold walk in refl
walk_paths (suc fuel) total (p ∷ ps) out f ((q, r), h) =
    walk_path fuel total p.kind p.value (show_paths ps) out q
    ∙ ap (walk fuel total (show_paths ps)) (handle_path p.kind p.value out r)
    ∙ walk_paths fuel total ps (record out { path = some p }) (omega arith) h

length-show_paths : (ps : List PathMatch) → length ps ≤ length (show_paths ps)
length-show_paths [] = omega arith
length-show_paths (p ∷ ps) = omega (
  arith,
  length-append (path_predicate p.kind) (quoted p.value (b')' ∷ show_paths ps)),
  length-append p.value (b'`' ∷ b')' ∷ show_paths ps),
  length-show_paths ps,
)

pub length-quoted_list_rest :
    (vs : List Text) (rest : Text) → length rest ≤ length (quoted_list vs rest)
length-quoted_list_rest [] rest = omega arith
length-quoted_list_rest (v ∷ vs) rest =
    omega (arith, length-append v (b'`' ∷ quoted_more vs rest), length-quoted_more_rest vs rest)

-- Parsing the text of a rule with any hosts and any paths gives the hosts, in order, and the LAST of
-- the paths, and sets no flag. The hosts and the paths hold no backtick, and a `Path` or
-- `PathPrefix` value starts with a slash.
pub parse-show_rule :
    (hosts : List Text) (paths : List PathMatch)
    → All IsQuotable hosts
    → All IsShowable paths
    → parse (show_rule hosts paths)
      ≡ record default_rule { hosts = hosts; path = last_path none paths }
parse-show_rule hosts paths h k =
    unfold parse in
    ap (walk (suc total) total (show_rule hosts paths)) scanned
    ∙ walk_host total total hosts (show_paths paths) default_rule h
    ∙ walk_paths total total paths (record default_rule { hosts = hosts }) enough k
  where
    total : ℕ
    total = length (show_rule hosts paths)

    scanned : scan_operators false (show_rule hosts paths) default_rule ≡ default_rule
    scanned =
        unfold scan_operators in
        scan_list hosts (b')' ∷ show_paths paths) default_rule h ∙ scan_paths paths default_rule k

    enough : length paths < total
    enough =
        omega
          (arith, length-show_paths paths, length-quoted_list_rest hosts (b')' ∷ show_paths paths))
