-- ===== src/Config/Env.antt =====
-- src/config.rs: how a setting is read from the environment. The environment is `std::env::var` with
-- `.ok()`; `Url::parse` and `humantime::parse_duration` are parameters.
pub mod Pairs
use pangolin_gateway_api.Prelude.{
  ◌≡◌, refl, ℕ, ◌*◌, Bool, true, false, not, ◌&&◌, List, [], ◌∷◌, Option, none, some, if◌then◌else◌,
  is_empty, filter_some, any, map, Text, codes, ◌≟◌, to_lowercase, trim, split, split_once, ℤ,
  parse_i32, parse_unsigned,
}
use pangolin_gateway_api.BTreeMap.{BTreeMap, text_ord, insert}
use pangolin_gateway_api.External.{Url}
use pangolin_gateway_api.Config.{BackendKind}

abbrev pub Env : Type 0
Env = Text → Option Text

-- The parsers of crates url and humantime; a duration is a number of nanoseconds.
pub record Parsers : Type 0 where
  pub parse_url : Text → Option Url
  pub parse_duration : Text → Option ℕ

-- Why the settings are refused, with what the message names.
pub data EnvError : Type 0 where
  not_set : Text → EnvError
  invalid_url : Text → EnvError
  invalid_boolean : Text → Text → EnvError
  invalid_duration : Text → Text → EnvError
  invalid_u64 : Text → Text → EnvError
  invalid_i32 : Text → Text → EnvError
  invalid_backend_kind : Text → EnvError
  not_a_pair : Text → Text → EnvError
  empty_key : Text → Text → EnvError
  no_leading_slash : Text → EnvError
  skip_verify_refused : EnvError
  insecure_http_refused : EnvError

-- anyhow's `Result`, with the reason as data.
pub data Result (A : Type 0) : Type 0 where
  err : EnvError → Result A
  ok : A → Result A

-- What holds of a result that is there.
abbrev pub Ensures : {A : Type 0} → (A → Type 0) → Result A → Type 0
Ensures P (err why) = Unit
Ensures P (ok found) = P found

-- `?`, which `do` blocks stand for.
abbrev pub question_mark : {A B : Type 0} → (A → Result B) → Result A → Result B
question_mark next (err why) = err why
question_mark next (ok found) = next found

infixl 5 ◌>>=◌
abbrev pub ◌>>=◌ : {A B : Type 0} → Result A → (A → Result B) → Result B
r >>= next = question_mark next r

infixl 5 ◌>>◌
abbrev pub ◌>>◌ : {B : Type 0} → Result (Unit {0}) → Result B → Result B
r >> next = question_mark (λ done. next) r

pub Ensures-bind :
    {A B : Type 0} (P : B → Type 0) (r : Result A) (next : A → Result B)
    → ((found : A) → r ≡ ok found → Ensures P (next found))
    → Ensures P (r >>= next)
Ensures-bind P (err why) next h = tt
Ensures-bind P (ok found) next h = h found refl

pub Ensures-weaken :
    {A : Type 0} (P Q : A → Type 0) (r : Result A)
    → ((found : A) → P found → Q found)
    → Ensures P r
    → Ensures Q r
Ensures-weaken P Q (err why) weaker h = tt
Ensures-weaken P Q (ok found) weaker h = weaker found h

-- `with_context` on an `Option` or on a parser's result.
abbrev pub or_error : {A : Type 0} → Option A → EnvError → Result A
or_error none e = err e
or_error (some a) e = ok a

-- `if refused { bail!(e) }`.
abbrev pub refuse_if : Bool → EnvError → Result (Unit {0})
refuse_if true e = err e
refuse_if false e = ok tt

-- A `match` of a text against several literals.
unfoldable pub is_one_of : List Text → Text → Bool
unfolding ◌≟◌
is_one_of words s = any (λ w. s ≟ w) words

abbrev pub truthy : List Text
truthy = codes "1" ∷ codes "true" ∷ codes "yes" ∷ codes "on" ∷ []

abbrev pub falsy : List Text
falsy = codes "0" ∷ codes "false" ∷ codes "no" ∷ codes "off" ∷ []

-- `BackendKind::parse`.
abbrev pub parse_backend_kind : Text → Result BackendKind
parse_backend_kind s =
    let t = to_lowercase (trim s) in
    if is_one_of (codes "service" ∷ codes "service-endpointslice" ∷ [] ∷ []) t
    then ok BackendKind.service
    else if is_one_of (codes "envoy-backend" ∷ codes "envoybackend" ∷ codes "backend" ∷ []) t
    then ok BackendKind.envoy_backend
    else err (invalid_backend_kind t)

-- A `match` arm `None` with a default, and the parser of the arm `Some`.
abbrev pub or_default : {A : Type 0} → Option Text → A → (Text → Result A) → Result A
or_default none default f = ok default
or_default (some v) default f = f v

-- The text of a boolean.
unfoldable pub parse_bool : Text → Text → Result Bool
unfolding is_one_of
parse_bool key v =
    if is_one_of truthy (to_lowercase v)
    then ok true
    else if is_one_of falsy (to_lowercase v)
    then ok false
    else err (invalid_boolean key (to_lowercase v))

-- One round of the loop of `parse_kv_env`, on what `split_once` returns.
kv_pair : Text → Text → Option (Text × Text) → BTreeMap Text Text → Result (BTreeMap Text Text)
unfolding trim insert
kv_pair key entry none out = err (not_a_pair key entry)
kv_pair key entry (some (k, v)) out =
    if is_empty (trim k) then err (empty_key key entry) else ok (insert (trim k) (trim v) out)

kv_entry : Text → Text → BTreeMap Text Text → Result (BTreeMap Text Text)
unfolding kv_pair split_once
kv_entry key entry out =
    if is_empty entry then ok out else kv_pair key entry (split_once b'=' entry) out

kv_entries : Text → List Text → BTreeMap Text Text → Result (BTreeMap Text Text)
unfolding kv_entry trim
kv_entries key [] out = ok out
kv_entries key (entry ∷ entries) out = do
  next ← kv_entry key (trim entry) out
  kv_entries key entries next

-- `parse_kv_env`, on the text of the variable.
unfoldable pub parse_kv : Text → Text → Result (BTreeMap Text Text)
unfolding kv_entries split
parse_kv key raw = kv_entries key (split b',' raw) []

-- The loop of `csv_env`.
trimmed_parts : List Text → List Text
unfolding trim
trimmed_parts [] = []
trimmed_parts (part ∷ parts) =
    let rest = trimmed_parts parts in if is_empty (trim part) then rest else trim part ∷ rest

module _ (env : Env) where
  unfoldable pub required_env : Text → Result Text
  required_env key = or_error (env key) (not_set key)

  abbrev pub optional_env : Text → Option Text
  optional_env key = filter_some (λ v. not (is_empty v)) (env key)

  unfoldable pub bool_env : Text → Bool → Result Bool
  unfolding parse_bool
  bool_env key default = or_default (optional_env key) default (parse_bool key)

  unfoldable pub u64_env : Text → ℕ → Result ℕ
  unfolding parse_unsigned
  u64_env key default =
      or_default (optional_env key) default
        (λ v. or_error (parse_unsigned 18446744073709551615 v) (invalid_u64 key v))

  unfoldable pub i32_env : Text → ℤ → Result ℤ
  unfolding parse_i32
  i32_env key default =
      or_default (optional_env key) default (λ v. or_error (parse_i32 v) (invalid_i32 key v))

  unfoldable pub csv_env : Text → List Text → List Text
  unfolding trimmed_parts split
  csv_env key default = elim (optional_env key) [
    | none ↦ default
    | some raw ↦ trimmed_parts (split b',' raw)
  ]

  unfoldable pub parse_kv_env : Text → Result (BTreeMap Text Text)
  unfolding parse_kv
  parse_kv_env key = or_default (optional_env key) [] (parse_kv key)

  unfoldable pub duration_env : Parsers → Text → ℕ → Result ℕ
  duration_env x key default =
      or_default (optional_env key) default
        (λ v. or_error (x.parse_duration v) (invalid_duration key v))
