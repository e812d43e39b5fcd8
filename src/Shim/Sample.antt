-- ===== src/Shim/Sample.antt =====
-- crate url as the examples of shim.rs use it: a query format that is read back as it is written.
use pangolin_gateway_api.Prelude.{ℕ, zero, suc, ◌≡◌, refl, true, List, [], ◌∷◌, Text}
use pangolin_gateway_api.Shim.{Wire}

-- A query format: every text is followed by zero, and its characters are one larger.
abbrev write_text : Text → Text → Text
write_text [] rest = 0 ∷ rest
write_text (c ∷ t) rest = suc c ∷ write_text t rest

abbrev pub write_pairs : List (Text × Text) → Text
write_pairs [] = []
write_pairs ((k, v) ∷ pairs) = write_text k (write_text v (write_pairs pairs))

abbrev on_first : ℕ → List Text → List Text
on_first c [] = []
on_first c (t ∷ ts) = (c ∷ t) ∷ ts

abbrev read_texts : Text → List Text
read_texts [] = []
read_texts (zero ∷ s) = [] ∷ read_texts s
read_texts (suc c ∷ s) = on_first c (read_texts s)

abbrev in_pairs : List Text → List (Text × Text)
in_pairs [] = []
in_pairs (k ∷ []) = []
in_pairs (k ∷ (v ∷ ts)) = (k, v) ∷ in_pairs ts

read-write_text : (t rest : Text) → read_texts (write_text t rest) ≡ t ∷ read_texts rest
read-write_text [] rest = refl
read-write_text (c ∷ t) rest = rw (read-write_text t rest) refl

pub read-write_pairs :
    (pairs : List (Text × Text)) → in_pairs (read_texts (write_pairs pairs)) ≡ pairs
read-write_pairs [] = refl
read-write_pairs ((k, v) ∷ pairs) =
    rw
      (
        read-write_text k (write_text v (write_pairs pairs)),
        read-write_text v (write_pairs pairs),
        read-write_pairs pairs,
      )
      refl

abbrev pub numbered : Wire
numbered = record {
  parse_form = λ s. in_pairs (read_texts s);
  serialize_form = write_pairs;
  is_header_value = λ t. true;
}
