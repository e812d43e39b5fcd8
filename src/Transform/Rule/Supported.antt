-- ===== src/Transform/Rule/Supported.antt =====
-- rule.rs: what one predicate changes about the tests of `is_usable`.
use pangolin_gateway_api.Prelude.{
  ◌≡◌, refl, Bool, true, false, not, ◌&&◌, ◌||◌, List, [], ◌∷◌, ◌++◌, arith, is_empty, Text, codes,
  ◌≟◌, ≟_iff, Bool-cases, inl, inr,
}
use pangolin_gateway_api.Transform.Rule.{
  ParsedRule, PathMatchKind, with_first, set_path, other, handle_predicate,
}

is_empty-push {ℓ} : {A : Type ℓ} (xs : List A) (a : A) → is_empty (xs ++ (a ∷ [])) ≡ false
is_empty-push [] a = refl
is_empty-push (x ∷ xs) a = refl

is_empty-append {ℓ} :
    {A : Type ℓ} (xs ys : List A)
    → not (is_empty (xs ++ ys)) ≡ (not (is_empty xs) || not (is_empty ys))
is_empty-append [] ys = refl
is_empty-append (x ∷ xs) ys = refl

-- No host regular expression, and no unknown predicate.
abbrev pub has_supported : ParsedRule → Bool
has_supported r = not r.host_regexp && is_empty r.unsupported_predicates

abbrev pub has_hosts : ParsedRule → Bool
has_hosts r = not (is_empty r.hosts)

-- What the predicate `name` changes about the tests of `is_usable`.
pub record Handles (name : Text) (args : List Text) (before after : ParsedRule) : Type 0 where
  pub same_negation : after.has_negation ≡ before.has_negation
  pub same_disjunction : after.has_disjunction ≡ before.has_disjunction
  pub supported : has_supported after ≡ (
      has_supported before
      && (name ≟ codes "Host"
          || name ≟ codes "PathPrefix"
          || name ≟ codes "Path"
          || name ≟ codes "PathRegexp"))
  pub hosts : has_hosts after ≡ (has_hosts before || (name ≟ codes "Host" && not (is_empty args)))

set_path-Handles :
    (name : Text) (args : List Text) (kind : PathMatchKind) (f : Text → Text) (out : ParsedRule)
    → (name ≟ codes "Host") ≡ false
    → (name ≟ codes "PathPrefix" || name ≟ codes "Path" || name ≟ codes "PathRegexp") ≡ true
    → Handles name args out (with_first args (λ first. set_path kind (f first)) out)
set_path-Handles name [] kind f out e h = record {
  same_negation = refl;
  same_disjunction = refl;
  supported = ground arith;
  hosts = ground arith;
}
set_path-Handles name (a ∷ args) kind f out e h = record {
  same_negation = refl;
  same_disjunction = refl;
  supported = ground arith;
  hosts = ground arith;
}

is_not :
    (name word third : Text)
    → (name ≟ word) ≡ true
    → (word ≟ third) ≡ false
    → (name ≟ third) ≡ false
is_not name word third e d = rw ((≟_iff name word).0 e) d

pub handle_predicate-Handles :
    (name : Text) (args : List Text) (out : ParsedRule)
    → Handles name args out (handle_predicate out name args)
unfolding handle_predicate
handle_predicate-Handles name args out = elim (Bool-cases (name ≟ codes "Host")) [
  | inl e ↦ rw e (record {
    same_negation = refl;
    same_disjunction = refl;
    supported = ground arith;
    hosts = rw (e, is_empty-append out.hosts args) refl;
  })
  | inr e ↦ elim (Bool-cases (name ≟ codes "HostRegexp")) [
    | inl r ↦
        let p = is_not name (codes "HostRegexp") (codes "PathPrefix") r (unfold ◌≟◌ in refl) in
        let q = is_not name (codes "HostRegexp") (codes "Path") r (unfold ◌≟◌ in refl) in
        let t = is_not name (codes "HostRegexp") (codes "PathRegexp") r (unfold ◌≟◌ in refl) in
        rw (e, r)
          (record {
            same_negation = refl;
            same_disjunction = refl;
            supported = ground arith;
            hosts = ground arith;
          })
    | inr r ↦ elim (Bool-cases (name ≟ codes "PathPrefix")) [
      | inl p ↦ rw (e, r, p) (set_path-Handles name args _ _ out e (ground arith))
      | inr p ↦ elim (Bool-cases (name ≟ codes "Path")) [
        | inl q ↦ rw (e, r, p, q) (set_path-Handles name args _ _ out e (ground arith))
        | inr q ↦ elim (Bool-cases (name ≟ codes "PathRegexp")) [
          | inl t ↦ rw (e, r, p, q, t) (set_path-Handles name args _ (λ a. a) out e (ground arith))
          | inr t ↦
              rw (e, r, p, q, t)
                (record {
                  same_negation = refl;
                  same_disjunction = refl;
                  supported =
                      rw (is_empty-push out.unsupported_predicates (other name)) (ground arith);
                  hosts = ground arith;
                })
        ]
      ]
    ]
  ]
]
