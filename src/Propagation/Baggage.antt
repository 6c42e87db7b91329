-- ===== src/Propagation/Baggage.antt =====
-- NormalizeBaggage.
pub mod Safe
pub mod Member
pub mod Stable
use go_collector.Base.{
  ℕ, ◌+◌, Bool, true, false, not, ◌&&◌, ◌||◌, List, [], ◌∷◌, ◌++◌, Option, none, some, length, ltb,
  ◌==◌, within, if◌then◌else◌,
}
use go_collector.Base.Bytes.{Bytes, codes, is_empty}
use go_collector.Propagation.Members.{Pair, collect}
use go_collector.Propagation.Percent.{percent_decode, percent_encode, contains_byte}
use go_collector.Text.Split.{cut, split, join}
use go_collector.Text.Trim.{trim_space}

abbrev pub max_baggage_entries : ℕ
max_baggage_entries = 64

abbrev pub max_baggage_header_bytes : ℕ
max_baggage_header_bytes = 8192

abbrev pub max_baggage_value_bytes : ℕ
max_baggage_value_bytes = 4096

abbrev pub max_baggage_key_bytes : ℕ
max_baggage_key_bytes = 256

abbrev pub token_byte : ℕ → Bool
token_byte c =
    within b'a' b'z' c
    || within b'A' b'Z' c
    || within b'0' b'9' c
    || contains_byte c (codes "!#$%&'*+-.^_`|~")

abbrev pub token_bytes : Bytes → Bool
token_bytes [] = true
token_bytes (c ∷ s) = token_byte c && token_bytes s

abbrev pub valid_baggage_key : Bytes → Bool
valid_baggage_key key = token_bytes key && not (is_empty key)

-- The member without its properties.
abbrev pub before_properties : Bytes → Bytes
before_properties member = elim (cut b';' member) [
  | none ↦ member
  | some (before, after) ↦ trim_space before
]

-- The key and the decoded value, when their checks allow the member.
unfoldable pub decoded_pair : Bytes → Bytes → Option Pair
decoded_pair key encoded =
    let value = percent_decode encoded in
    if is_empty key
      || is_empty encoded
      || ltb max_baggage_key_bytes (length key)
      || not (valid_baggage_key key)
    then none
    else if ltb max_baggage_value_bytes (length value)
    then none
    else some (key, value)

unfoldable pub baggage_member : Bytes → Option Pair
baggage_member raw =
    let member = trim_space raw in
    if is_empty member then none else elim (cut b'=' (before_properties member)) [
      | none ↦ none
      | some (key, encoded) ↦
          if is_empty key then none else decoded_pair (trim_space key) (trim_space encoded)
    ]

abbrev pub baggage_render : Pair → Bytes
baggage_render p = p.0 ++ (b'=' ∷ percent_encode p.1)

unfoldable pub normalize_baggage : Bytes → Bytes
normalize_baggage header =
    let trimmed = trim_space header in
    if is_empty trimmed || ltb max_baggage_header_bytes (length trimmed)
    then []
    else join b','
        (collect baggage_member baggage_render max_baggage_entries (split b',' trimmed) [] [])
