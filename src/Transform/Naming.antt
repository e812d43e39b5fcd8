-- ===== src/Transform/Naming.antt =====
-- src/transform/naming.rs: names of Kubernetes objects. The hash of Rust's `DefaultHasher`, whose
-- algorithm is not specified, is the parameter `hash`.
pub mod Label
pub mod Idempotent
mod Tests
use pangolin_gateway_api.Prelude.{
  ℕ, ◌+◌, ◌-◌, ◌%◌, ◌^◌, Bool, true, false, ◌&&◌, ◌||◌, [], ◌∷◌, ◌++◌, map, leb, ◌==◌,
  if◌then◌else◌, is_empty, length, take, Text, codes, is_upper, is_lower, is_digit, to_lower,
  trim_start, trim_end, to_hex,
}

abbrev pub max_dns_label : ℕ
max_dns_label = 63

-- The character map of `dns_label`.
clean : ℕ → ℕ
clean c =
    if is_upper c then to_lower c else if is_lower c || is_digit c || c == b'-' then c else b'-'

-- The loop of `collapse_dashes`; the flag is `prev_dash`.
pub collapse_from : Bool → Text → Text
collapse_from prev_dash [] = []
collapse_from prev_dash (c ∷ s) =
    let rest = collapse_from (c == b'-') s in if c == b'-' && prev_dash then rest else c ∷ rest

unfoldable pub collapse_dashes : Text → Text
unfolding collapse_from
collapse_dashes s = collapse_from false s

abbrev pub is_dash : ℕ → Bool
is_dash c = c == b'-'

-- `base` of `dns_label`: cleaned, collapsed, trimmed, with the name for an empty rest.
unfoldable pub base_label : Text → Text
unfolding collapse_dashes clean
base_label input =
    let trimmed = trim_end is_dash (trim_start is_dash (collapse_dashes (map clean input))) in
    if is_empty trimmed then codes "pangolin" else trimmed

-- The hash suffix; `% 2 ^ 32` is `& 0xffff_ffff`.
unfoldable pub hash_suffix : (Text → ℕ) → Text → Text
unfolding to_hex
hash_suffix hash input = b'-' ∷ to_hex (hash input % 2 ^ 32)

-- The tail of `dns_label` for an overlong base.
unfoldable pub truncated : Text → Text → Text
truncated base suffix = trim_end is_dash (take (max_dns_label - length suffix) base) ++ suffix

unfoldable pub dns_label : (Text → ℕ) → Text → Text
unfolding base_label hash_suffix truncated
dns_label hash input =
    let base = base_label input in
    let cut = truncated base (hash_suffix hash input) in
    if leb (length base) max_dns_label then base else cut

unfoldable pub prefixed_label : (Text → ℕ) → Text → Text → Text
unfolding dns_label
prefixed_label hash prefix name = dns_label hash (prefix ++ b'-' ∷ name)
