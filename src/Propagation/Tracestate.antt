-- ===== src/Propagation/Tracestate.antt =====
-- NormalizeTracestate and the ABNF of its members.
pub mod Stable
pub mod Safe
use mathlib.Core.Path.{subst}
use go_collector.Base.{
  ℕ, zero, suc, ◌+◌, ◌≤◌, Bool, true, false, not, ◌&&◌, ◌||◌, List, [], ◌∷◌, ◌++◌, map, ◌≡◌, refl,
  sym, ap, ◌∙◌, Option, none, some, arith, length, leb, ltb, ◌==◌, within, if◌then◌else◌,
  append_assoc, Bool-cases, Option-cases, inl, inr,
}
use go_collector.Base.Bytes.{Bytes, is_empty}
use go_collector.Propagation.Members.{
  Pair, collect, Fresh, AllGood, Kept, collect-Kept, collect-again,
}
use go_collector.Text.Edged.{Edged, AllEdged, Edged-join, trim_space-Edged, cut-eq}
use go_collector.Text.Split.{cut, split, join, Free, AllFree, cut-append, split-join}
use go_collector.Text.Trim.{trim_space, graphic}

abbrev pub max_tracestate_entries : ℕ
max_tracestate_entries = 32

abbrev pub tracestate_key_start : ℕ → Bool → Bool
tracestate_key_start c digits_allowed = within b'a' b'z' c || (digits_allowed && within b'0' b'9' c)

abbrev pub tracestate_key_byte : ℕ → Bool
tracestate_key_byte c =
    within b'a' b'z' c || within b'0' b'9' c || c == b'_' || c == b'-' || c == b'*' || c == b'/'

abbrev pub tracestate_key_tail : Bytes → Bool
tracestate_key_tail [] = true
tracestate_key_tail (c ∷ tail) = tracestate_key_byte c && tracestate_key_tail tail

-- A key, or one side of a key with an `@`: from one byte to `most`.
abbrev pub key_part : ℕ → Bool → Bytes → Bool
key_part most digits_allowed [] = false
key_part most digits_allowed (c ∷ tail) =
    leb (length (c ∷ tail)) most
    && (tracestate_key_start c digits_allowed && tracestate_key_tail tail)

unfoldable pub valid_tracestate_key : Bytes → Bool
valid_tracestate_key key = elim (cut b'@' key) [
  | some (tenant, system) ↦ key_part 241 true tenant && key_part 14 false system
  | none ↦ key_part 256 false key
]

abbrev pub tracestate_value_byte : ℕ → Bool
tracestate_value_byte c = not (ltb c 0x20 || ltb 0x7e c || c == b',' || c == b'=')

abbrev pub tracestate_value_bytes : Bytes → Bool
tracestate_value_bytes [] = true
tracestate_value_bytes (c ∷ s) = tracestate_value_byte c && tracestate_value_bytes s

-- The last byte of `c ∷ s`.
abbrev pub last_byte : ℕ → Bytes → ℕ
last_byte c [] = c
last_byte c (d ∷ s) = last_byte d s

unfoldable pub valid_tracestate_value : Bytes → Bool
valid_tracestate_value [] = false
valid_tracestate_value (c ∷ s) =
    leb (length (c ∷ s)) 256
    && (tracestate_value_bytes (c ∷ s)
        && (not (last_byte c s == b' ') && not (last_byte c s == b'\t')))

-- One piece of the header: its key and value, or `none` where the loop continues with the next.
unfoldable pub tracestate_member : Bytes → Option Pair
tracestate_member raw =
    let member = trim_space raw in
    if is_empty member then none else elim (cut b'=' member) [
      | none ↦ none
      | some (key, value) ↦
          if is_empty key || (not (valid_tracestate_key key) || not (valid_tracestate_value value))
          then none
          else some (key, value)
    ]

abbrev pub tracestate_render : Pair → Bytes
tracestate_render p = p.0 ++ (b'=' ∷ p.1)

unfoldable pub normalize_tracestate : Bytes → Bytes
normalize_tracestate header =
    let trimmed = trim_space header in
    if is_empty trimmed
    then []
    else join b',' (
        collect tracestate_member tracestate_render max_tracestate_entries (split b',' trimmed) []
          [])
