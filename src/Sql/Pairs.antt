-- ===== src/Sql/Pairs.antt =====
-- sql_dsn.go: the key=value pairs of a keyword DSN, split where no quote is open.
use go_collector.Base.{
  ℕ, Bool, not, ◌&&◌, ◌||◌, List, [], ◌∷◌, ◌++◌, none, some, ◌==◌, if◌then◌else◌,
}
use go_collector.Base.Assoc.{lookup, put}
use go_collector.Base.Bytes.{Bytes, is_empty}
use go_collector.Text.Lower.{to_lower}
use go_collector.Text.Split.{cut}
use go_collector.Text.Trim.{trim_space}

abbrev pub quote_mark : ℕ → Bool
quote_mark c = c == b'\'' || c == b'"'

-- splitUnquoted; `quote` is 0 outside of quotes, and `current` the field so far.
abbrev pub split_unquoted_from : ℕ → ℕ → Bytes → Bytes → List Bytes
split_unquoted_from sep quote current [] = current ∷ []
split_unquoted_from sep quote current (c ∷ s) =
    if not (quote == 0)
    then split_unquoted_from sep (if c == quote then 0 else quote) (current ++ c ∷ []) s
    else if quote_mark c
    then split_unquoted_from sep c (current ++ c ∷ []) s
    else if c == sep
    then current ∷ split_unquoted_from sep 0 [] s
    else split_unquoted_from sep 0 (current ++ c ∷ []) s

abbrev pub split_unquoted : Bytes → ℕ → List Bytes
split_unquoted s sep = split_unquoted_from sep 0 [] s

-- strings.Trim of quotes.
abbrev pub trim_quotes_left : Bytes → Bytes
trim_quotes_left [] = []
trim_quotes_left (c ∷ s) = let rest = trim_quotes_left s in if quote_mark c then rest else c ∷ s

abbrev pub trim_quotes_right : Bytes → Bytes
trim_quotes_right [] = []
trim_quotes_right (c ∷ s) =
    let rest = trim_quotes_right s in if is_empty rest && quote_mark c then [] else c ∷ rest

abbrev pub Pairs : Type 0
Pairs = List (Bytes × Bytes)

-- A pair is kept unless a part of it is empty, or its key is there already.
abbrev pub add_pair : Bytes → Bytes → Pairs → Pairs
add_pair key value pairs =
    if is_empty key || is_empty value
    then pairs
    else elim (lookup key pairs) [ some old ↦ pairs | none ↦ put key value pairs ]

abbrev pub add_field : Bytes → Pairs → Pairs
add_field field pairs = elim (cut b'=' field) [
  | none ↦ pairs
  | some (k, v) ↦
      if is_empty k
      then pairs
      else add_pair (to_lower (trim_space k)) (trim_quotes_right (trim_quotes_left (trim_space v)))
          pairs
]

abbrev pub pairs_from : List Bytes → Pairs → Pairs
pairs_from [] pairs = pairs
pairs_from (f ∷ fs) pairs = pairs_from fs (add_field f pairs)

abbrev pub keyword_pairs : Bytes → ℕ → Pairs
keyword_pairs dsn sep = pairs_from (split_unquoted dsn sep) []
