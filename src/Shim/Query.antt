-- ===== src/Shim/Query.antt =====
-- shim.rs: the first values of a query, and `strip_query_param`.
use mathlib.Core.List.{append-nil}
use pangolin_gateway_api.Prelude.Split.{split_once-none, split_once-append, split_once-front}
use pangolin_gateway_api.Prelude.{
  ◌≡◌, refl, sym, ap, ◌∙◌, Bool, true, false, List, [], ◌∷◌, ◌++◌, Option, none, some, arith, ◌==◌,
  All, if◌then◌else◌, Bool-cases, Option-cases, inl, inr, Text, ◌≟◌, ≟_iff, split_once,
}
use pangolin_gateway_api.BTreeMap.{BTreeMap, text_ord, get}
use pangolin_gateway_api.BTreeMap.Laws.{get-insert_self, get-insert_ne}
use pangolin_gateway_api.Shim.{
  insert_first, Wire, insert_pairs, without_param, parse_query, query_suffix, strip_from,
  strip_query_param, split_query,
}

abbrev pub or_first : Option Text → Option Text → Option Text
or_first none b = b
or_first (some a) b = some a

-- The first value of a key.
abbrev pub first_value : Text → List (Text × Text) → Option Text
first_value key [] = none
first_value key ((k, v) ∷ pairs) =
    let rest = first_value key pairs in if k ≟ key then some v else rest

pub get-insert_first :
    (key k v : Text) (m : BTreeMap Text Text)
    → get key (insert_first k v m) ≡ or_first (get key m) (if k ≟ key then some v else none)
unfolding insert_first
get-insert_first key k v m = elim (Option-cases (get k m)) [
  | inl absent ↦ elim (Bool-cases (k ≟ key)) [
    | inl e ↦
        let same : k ≡ key = (≟_iff k key).0 e in
        rw (absent, e) (rw (← same) (get-insert_self k v m ∙ rw absent refl))
    | inr e ↦
        rw (absent, e)
          (get-insert_ne k key v m (λ q. cc (e, (≟_iff k key).1 (sym q))) ∙ blank (get key m))
  ]
  | inr (old, present) ↦ elim (Bool-cases (k ≟ key)) [
    | inl e ↦ let same : k ≡ key = (≟_iff k key).0 e in rw (present, e) (rw (← same, present) refl)
    | inr e ↦ rw (present, e) (blank (get key m))
  ]
]
  where
    blank : (o : Option Text) → o ≡ or_first o none
    blank none = refl
    blank (some a) = refl

get-insert_pairs :
    (key : Text) (pairs : List (Text × Text)) (m : BTreeMap Text Text)
    → get key (insert_pairs pairs m) ≡ or_first (get key m) (first_value key pairs)
unfolding insert_pairs
get-insert_pairs key [] m = ground arith
get-insert_pairs key ((k, v) ∷ pairs) m =
    get-insert_pairs key pairs (insert_first k v m)
    ∙ ap (λ o. or_first o (first_value key pairs)) (get-insert_first key k v m)
    ∙ assoc (get key m) (k ≟ key) (first_value key pairs)
  where
    assoc :
        (o : Option Text) (here : Bool) (rest : Option Text)
        → or_first (or_first o (if here then some v else none)) rest
          ≡ or_first o (if here then some v else rest)
    assoc none true rest = refl
    assoc none false rest = refl
    assoc (some a) here rest = refl

first_value-without_param :
    (key param : Text) (pairs : List (Text × Text))
    → first_value key (without_param param pairs)
      ≡ (if key ≟ param then none else first_value key pairs)
unfolding without_param
first_value-without_param key param [] = ground arith
first_value-without_param key param ((k, v) ∷ pairs) =
    ground (
      arith,
      ≟_iff k param,
      ≟_iff k key,
      ≟_iff key param,
      first_value-without_param key param pairs,
    )

get-insert_pairs_empty :
    (key : Text) (pairs : List (Text × Text))
    → get key (insert_pairs pairs []) ≡ first_value key pairs
get-insert_pairs_empty key pairs = get-insert_pairs key pairs [] ∙ (unfold get in refl)

-- The path of a kept query.
abbrev IsPath : Text → Type 0
IsPath = All (λ c. (c == b'?') ≡ false)

module _ (w : Wire) (blank : w.parse_form [] ≡ [])
    (form : (pairs : List (Text × Text)) → w.parse_form (w.serialize_form pairs) ≡ pairs) where
  -- The path and the pairs of the query survive the printing.
  kept_query :
      (path : Text) (pairs : List (Text × Text))
      → IsPath path
      → ((split_query (path ++ query_suffix w pairs)).0 ≡ path)
        × (w.parse_form (split_query (path ++ query_suffix w pairs)).1 ≡ pairs)
  unfolding query_suffix split_query
  kept_query path [] h = rw (append-nil path) (rw (split_once-none b'?' path h) (refl, blank))
  kept_query path (pair ∷ pairs) h =
      rw (split_once-append b'?' path (w.serialize_form (pair ∷ pairs)) h)
        (refl, form (pair ∷ pairs))

  -- How a path with a query relates to the one without the parameter.
  pub record IsWithout (param before after : Text) : Type 0 where
    pub same_path : (split_query after).0 ≡ (split_query before).0
    pub values :
        (key : Text)
        → get key (parse_query w (split_query after).1)
          ≡ (if key ≟ param then none else get key (parse_query w (split_query before).1))

  get-parse_query :
      (key query : Text) → get key (parse_query w query) ≡ first_value key (w.parse_form query)
  unfolding parse_query
  get-parse_query key query = get-insert_pairs_empty key (w.parse_form query)

  strip_from-IsWithout :
      (before param : Text) (found : Option (Text × Text))
      → split_once b'?' before ≡ found
      → IsWithout param before (strip_from w before param found)
  strip_from-IsWithout before param none e = record {
    same_path = unfold strip_from in refl;
    values = λ key.
        unfold strip_from in
        (get-parse_query key (split_query before).1
          ∙ (no_pairs key
              ∙ ap (λ o. if key ≟ param then none else o)
                  (sym (get-parse_query key (split_query before).1))));
  }
    where
      no_query : w.parse_form (split_query before).1 ≡ []
      no_query = unfold split_query in rw e blank

      no_pairs :
          (key : Text)
          → first_value key (w.parse_form (split_query before).1)
            ≡ (if key ≟ param then none else first_value key (w.parse_form (split_query before).1))
      no_pairs key = rw no_query (ground arith)
  strip_from-IsWithout before param (some (path, query)) e = record {
    same_path = unfold strip_from in kept.0 ∙ (unfold split_query in rw e refl);
    values = λ key.
        unfold strip_from in
        (get-parse_query key (split_query (path ++ query_suffix w pairs)).1
          ∙ ap (first_value key) kept.1
          ∙ first_value-without_param key param (w.parse_form query)
          ∙ ap (λ o. if key ≟ param then none else o) (sym (before_value key)));
  }
    where
      pairs : List (Text × Text)
      pairs = without_param param (w.parse_form query)

      kept :
          ((split_query (path ++ query_suffix w pairs)).0 ≡ path)
          × (w.parse_form (split_query (path ++ query_suffix w pairs)).1 ≡ pairs)
      kept = kept_query path pairs (split_once-front b'?' before path query e)

      before_value :
          (key : Text)
          → get key (parse_query w (split_query before).1) ≡ first_value key (w.parse_form query)
      before_value key =
          let same : split_query before ≡ (path, query) = unfold split_query in rw e refl in
          get-parse_query key (split_query before).1
          ∙ ap (λ (q : Text × Text). first_value key (w.parse_form q.1)) same

  -- Without the parameter, the path is the same, the query has no value for the parameter, and every
  -- other key has the first value that it had, given that crate url reads back the pairs that it
  -- writes.
  pub strip_query_param-IsWithout :
      (path_and_query param : Text)
      → IsWithout param path_and_query (strip_query_param w path_and_query param)
  unfolding strip_query_param
  strip_query_param-IsWithout path_and_query param =
      strip_from-IsWithout path_and_query param (split_once b'?' path_and_query) refl
