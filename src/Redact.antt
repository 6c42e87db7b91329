-- ===== src/Redact.antt =====
-- redact/redact.go: what is masked before it is written to the spool.
pub mod Laws
pub mod Credentials
mod Tests
use go_collector.Base.{
  ℕ, zero, suc, ◌-◌, Bool, true, false, not, ◌&&◌, ◌||◌, List, [], ◌∷◌, ◌++◌, Option, none, some,
  length, drop, ltb, ◌==◌, within, if◌then◌else◌,
}
use go_collector.Base.Bytes.{Bytes, codes, is_empty, has_prefix}
use go_collector.Text.Lower.{to_lower, contains}

abbrev pub mask_prefix : Bytes
mask_prefix = codes "*********"

abbrev pub mask_value : Bytes → Bytes
mask_value v = if ltb (length v) 10 then mask_prefix else mask_prefix ++ drop (length v - 4) v

-- A range over the patterns, for a key in lowercase.
abbrev pub any_pattern : Bytes → List Bytes → Bool
any_pattern lower [] = false
any_pattern lower (p ∷ ps) =
    (not (is_empty p) && contains lower (to_lower p)) || any_pattern lower ps

unfoldable pub is_sensitive : Bytes → List Bytes → Bool
is_sensitive key patterns = any_pattern (to_lower key) patterns

abbrev pub redacted : Bytes → Bytes → List Bytes → Bytes
redacted k v patterns = if is_sensitive k patterns then mask_value v else v

-- redact.Map, entry by entry.
unfoldable pub redact_map : List (Bytes × Bytes) → List Bytes → List (Bytes × Bytes)
redact_map [] patterns = []
redact_map ((k, v) ∷ m) patterns = (k, redacted k v patterns) ∷ redact_map m patterns

-- [A-Za-z0-9_-]
abbrev pub credential_byte : ℕ → Bool
credential_byte c =
    within b'A' b'Z' c || within b'a' b'z' c || within b'0' b'9' c || c == b'_' || c == b'-'

-- The longest run of such bytes in front, and what stands behind it.
abbrev pub run_of : Bytes → Bytes × Bytes
run_of [] = ([], [])
run_of (c ∷ s) =
    let (run, rest) = run_of s in if credential_byte c then (c ∷ run, rest) else ([], c ∷ s)

abbrev pub secret_behind : Bytes → Bytes → Option (Bytes × Bytes)
secret_behind id [] = none
secret_behind id (c ∷ s) =
    let (secret, rest) = run_of s in
    if not (c == b'.') || ltb (length secret) 16 then none else some (codes "token_" ++ id, rest)

-- credentialShape matched at the front: the group `$1`, and what stands behind the match. Its runs
-- are the longest possible, since a `.` is no byte of theirs.
unfoldable pub match_credential : Bytes → Option (Bytes × Bytes)
match_credential s =
    let (id, rest) = run_of (drop 6 s) in
    if not (has_prefix s (codes "token_")) || ltb (length id) 6 then none else secret_behind id rest

-- ReplaceAllString; a match takes bytes, so a round for each byte is enough.
unfoldable pub replace_credentials : ℕ → Bytes → Bytes
replace_credentials zero s = s
replace_credentials (suc n) [] = []
replace_credentials (suc n) (c ∷ s) = elim (match_credential (c ∷ s)) [
  | none ↦ c ∷ replace_credentials n s
  | some (kept, rest) ↦ kept ++ (codes "." ++ (mask_prefix ++ replace_credentials n rest))
]

unfoldable pub credentials : Bytes → Bytes
credentials text =
    if not (contains text (codes "token_")) then text else replace_credentials (length text) text
