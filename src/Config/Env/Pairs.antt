-- ===== src/Config/Env/Pairs.antt =====
-- src/config.rs: `parse_kv_env`, on the text of the variable.
use pangolin_gateway_api.Prelude.{
  ◌≡◌, ◌≢◌, refl, sym, ap, ◌∙◌, false, List, [], ◌∷◌, ◌++◌, Option, none, some, ◌==◌, All,
  All-append, if◌then◌else◌, is_empty, Bool-cases, inl, inr, map, Text, ◌≟◌, ≟_iff, split, join,
  trim, is_whitespace,
}
use pangolin_gateway_api.Prelude.Split.{AreApart, split-join, split_once-append, trim-none}
use pangolin_gateway_api.BTreeMap.{BTreeMap, text_ord, get, insert}
use pangolin_gateway_api.BTreeMap.Laws.{get-insert_self, get-insert_ne}
use pangolin_gateway_api.Config.Env.{ok, kv_pair, kv_entry, kv_entries, parse_kv}

-- `key=value`.
abbrev pub show_pair : Text × Text → Text
show_pair (k, v) = k ++ (b'=' ∷ v)

-- No whitespace and no separator; the key is there, without an equals sign.
pub record IsPlainPair (p : Text × Text) : Type 0 where
  pub key_there : p.0 ≢ []
  pub key_blank : All (λ c. is_whitespace c ≡ false) p.0
  pub key_comma : All (λ c. (c == b',') ≡ false) p.0
  pub key_equals : All (λ c. (c == b'=') ≡ false) p.0
  pub value_blank : All (λ c. is_whitespace c ≡ false) p.1
  pub value_comma : All (λ c. (c == b',') ≡ false) p.1

insert_all : List (Text × Text) → BTreeMap Text Text → BTreeMap Text Text
unfolding insert
insert_all [] out = out
insert_all ((k, v) ∷ ps) out = insert_all ps (insert k v out)

blank_pair : (p : Text × Text) → IsPlainPair p → All (λ c. is_whitespace c ≡ false) (show_pair p)
unfolding is_whitespace
blank_pair (k, v) h =
    All-append (λ c. is_whitespace c ≡ false) k (b'=' ∷ v) h.key_blank (refl, h.value_blank)

not_empty : (k t : Text) → k ≢ [] → is_empty (k ++ t) ≡ false
not_empty [] t h = absurd (h refl)
not_empty (c ∷ k) t h = refl

is_empty-false : (k : Text) → k ≢ [] → is_empty k ≡ false
is_empty-false [] h = absurd (h refl)
is_empty-false (c ∷ k) h = refl

kv_entry-show_pair :
    (key : Text) (p : Text × Text) (out : BTreeMap Text Text)
    → IsPlainPair p
    → kv_entry key (trim (show_pair p)) out ≡ ok (insert p.0 p.1 out)
unfolding kv_entry kv_pair
kv_entry-show_pair key (k, v) out h =
    rw (trim-none (show_pair (k, v)) (blank_pair (k, v) h), not_empty k (b'=' ∷ v) h.key_there)
      (rw (split_once-append b'=' k v h.key_equals) (
        rw (trim-none k h.key_blank, trim-none v h.value_blank, is_empty-false k h.key_there) refl))

kv_entries-show_pair :
    (key : Text) (ps : List (Text × Text)) (out : BTreeMap Text Text)
    → All IsPlainPair ps
    → kv_entries key (map show_pair ps) out ≡ ok (insert_all ps out)
unfolding kv_entries insert_all
kv_entries-show_pair key [] out h = refl
kv_entries-show_pair key (p ∷ ps) out (q, h) =
    rw (kv_entry-show_pair key p out q) (kv_entries-show_pair key ps (insert p.0 p.1 out) h)

shown-AreApart : (ps : List (Text × Text)) → All IsPlainPair ps → AreApart b',' (map show_pair ps)
shown-AreApart [] h = tt
shown-AreApart ((k, v) ∷ ps) (q, h) = (
  All-append (λ c. (c == b',') ≡ false) k (b'=' ∷ v) q.key_comma (refl, q.value_comma),
  shown-AreApart ps h,
)

parse_kv-show :
    (key : Text) (ps : List (Text × Text))
    → All IsPlainPair ps
    → parse_kv key (join b',' (map show_pair ps)) ≡ ok (insert_all ps [])
parse_kv-show key [] h = unfold parse_kv kv_entries kv_entry split trim insert_all in refl
parse_kv-show key (p ∷ ps) h =
    let parts : split b',' (join b',' (map show_pair (p ∷ ps))) ≡ map show_pair (p ∷ ps) =
      split-join b',' (map show_pair (p ∷ ps)) (λ e. cc) (shown-AreApart (p ∷ ps) h) in
    unfold parse_kv in rw parts (kv_entries-show_pair key (p ∷ ps) [] h)

-- The value of the last pair with the key, else the value of before.
abbrev pub last_value : Text → List (Text × Text) → Option Text → Option Text
last_value k [] before = before
last_value k ((j, v) ∷ ps) before = last_value k ps (if j ≟ k then some v else before)

get-insert_all :
    (k : Text) (ps : List (Text × Text)) (out : BTreeMap Text Text)
    → get k (insert_all ps out) ≡ last_value k ps (get k out)
unfolding insert_all
get-insert_all k [] out = refl
get-insert_all k ((j, v) ∷ ps) out =
    get-insert_all k ps (insert j v out)
    ∙ ap (last_value k ps) (elim (Bool-cases (j ≟ k)) [
      | inl e ↦ let same : j ≡ k = (≟_iff j k).0 e in rw e (rw (← same) (get-insert_self j v out))
      | inr e ↦ rw e (get-insert_ne j k v out (λ q. cc (e, (≟_iff j k).1 (sym q))))
    ])

-- A list of pairs, written as `key=value` with commas, is read as the map that has the last value of
-- each key: pairs without whitespace and commas, whose keys are there and hold no equals sign.
pub parse_kv-show_pair :
    (key : Text) (ps : List (Text × Text))
    → All IsPlainPair ps
    → (m : BTreeMap Text Text) × (parse_kv key (join b',' (map show_pair ps)) ≡ ok m)
      × ((k : Text) → get k m ≡ last_value k ps none)
parse_kv-show_pair key ps h =
    (insert_all ps [], parse_kv-show key ps h, λ k. get-insert_all k ps [] ∙ (unfold get in refl))
