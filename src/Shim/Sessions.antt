-- ===== src/Shim/Sessions.antt =====
-- shim.rs: which cookies `collect_sessions` takes for sessions.
use pangolin_gateway_api.Prelude.{
  ◌≡◌, true, false, not, ◌&&◌, List, [], ◌∷◌, Option, none, some, arith, All, Bool-cases, inl, inr,
  is_empty, Text, trim, starts_with, split, split_once,
}
use pangolin_gateway_api.BTreeMap.{BTreeMap, text_ord}
use pangolin_gateway_api.BTreeMap.Laws.{All-insert}
use pangolin_gateway_api.Shim.{collect_pair, collect_pairs, collect_sessions}

-- The cookie's name is not empty and starts with the prefix.
abbrev pub IsSession : Text → Text × Text → Type 0
IsSession name_prefix cookie =
    (is_empty cookie.0 ≡ false) × (starts_with name_prefix cookie.0 ≡ true)

collect_pair-IsSession :
    (name_prefix : Text) (pair : Option (Text × Text)) (sessions : BTreeMap Text Text)
    → All (IsSession name_prefix) sessions
    → All (IsSession name_prefix) (collect_pair name_prefix pair sessions)
unfolding collect_pair
collect_pair-IsSession name_prefix none sessions h = h
collect_pair-IsSession name_prefix (some (name, value)) sessions h =
    elim (Bool-cases (not (is_empty (trim name)) && starts_with name_prefix (trim name))) [
      | inl e ↦ rw e (
          All-insert (IsSession name_prefix) (trim name) (trim value) sessions
            (ground arith, ground arith) h)
      | inr e ↦ rw e h
    ]

collect_pairs-IsSession :
    (name_prefix : Text) (pairs : List Text) (sessions : BTreeMap Text Text)
    → All (IsSession name_prefix) sessions
    → All (IsSession name_prefix) (collect_pairs name_prefix pairs sessions)
unfolding collect_pairs
collect_pairs-IsSession name_prefix [] sessions h = h
collect_pairs-IsSession name_prefix (pair ∷ pairs) sessions h =
    collect_pairs-IsSession name_prefix pairs
      (collect_pair name_prefix (split_once b'=' pair) sessions)
      (collect_pair-IsSession name_prefix (split_once b'=' pair) sessions h)

-- Every cookie that is sent for verification has a name that is not empty and starts with the prefix.
collect_sessions-IsSession :
    (cookie_header name_prefix : Text)
    → All (IsSession name_prefix) (collect_sessions cookie_header name_prefix)
unfolding collect_sessions
collect_sessions-IsSession cookie_header name_prefix =
    collect_pairs-IsSession name_prefix (split b';' cookie_header) [] tt
