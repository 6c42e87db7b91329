-- ===== src/Config/Env.antt =====
-- The env* helpers of config.go, over an environment that gives each variable its text, empty where
-- it is not set.
use go_collector.Base.{
  ℕ, zero, suc, ◌^◌, Bool, true, false, not, ◌||◌, List, [], ◌∷◌, Option, none, some, ltb, ◌==◌,
  if◌then◌else◌,
}
use go_collector.Base.Bytes.{Bytes, codes, is_empty, bytes_eq}
use go_collector.Base.Decimal.{parse_digits}
use go_collector.Base.Int.{ℤ, pos, negsuc}
use go_collector.Text.Lower.{to_lower}
use go_collector.Text.Split.{split}
use go_collector.Text.Trim.{trim_space}

abbrev pub Environment : Type 0
Environment = Bytes → Bytes

-- strconv.Atoi on 64 bits: a sign, digits, and the range of int64.
abbrev pub negated : ℕ → ℤ
negated zero = pos 0
negated (suc n) = negsuc n

abbrev pub signed : Bool → Option ℕ → Option ℤ
signed negative none = none
signed true (some n) = if ltb (2 ^ 63) n then none else some (negated n)
signed false (some n) = if ltb n (2 ^ 63) then some (pos n) else none

abbrev pub digits_of : Bytes → Option ℕ
digits_of [] = none
digits_of (c ∷ s) = parse_digits 0 (c ∷ s)

abbrev pub atoi : Bytes → Option ℤ
atoi [] = none
atoi (c ∷ s) =
    if c == b'-'
    then signed true (digits_of s)
    else if c == b'+'
    then signed false (digits_of s)
    else signed false (digits_of (c ∷ s))

abbrev pub one_of : Bytes → List Bytes → Bool
one_of raw [] = false
one_of raw (w ∷ ws) = bytes_eq raw w || one_of raw ws

-- firstNonEmpty
abbrev pub first_non_empty : List Bytes → Bytes
first_non_empty [] = []
first_non_empty (v ∷ vs) =
    if not (is_empty (trim_space v)) then trim_space v else first_non_empty vs

abbrev pub parsed_bool : Bytes → Bool → Bool
parsed_bool word fallback =
    if one_of word (codes "1" ∷ codes "true" ∷ codes "yes" ∷ codes "on" ∷ [])
    then true
    else if one_of word (codes "0" ∷ codes "false" ∷ codes "no" ∷ codes "off" ∷ [])
    then false
    else fallback

abbrev pub non_empty_parts : List Bytes → List Bytes
non_empty_parts [] = []
non_empty_parts (p ∷ ps) =
    let rest = non_empty_parts ps in
    if not (is_empty (trim_space p)) then trim_space p ∷ rest else rest

abbrev pub or_fallback : List Bytes → List Bytes → List Bytes
or_fallback [] fallback = fallback
or_fallback (p ∷ ps) fallback = p ∷ ps

module _ (env : Environment) where
  unfoldable pub env_bool : Bytes → Bool → Bool
  env_bool key fallback =
      let raw = trim_space (env key) in
      if is_empty raw then fallback else parsed_bool (to_lower raw) fallback

  unfoldable pub env_int : Bytes → ℤ → ℤ
  env_int key fallback =
      let raw = trim_space (env key) in
      if is_empty raw then fallback else elim (atoi raw) [ none ↦ fallback | some n ↦ n ]

  unfoldable pub env_csv : Bytes → List Bytes → List Bytes
  env_csv key fallback =
      let raw = trim_space (env key) in
      if is_empty raw then fallback else or_fallback (non_empty_parts (split b',' raw)) fallback

  -- time.ParseDuration is a parameter.
  unfoldable pub env_duration : (Bytes → Option ℤ) → Bytes → ℤ → ℤ
  env_duration parse_duration key fallback =
      let raw = trim_space (env key) in
      if is_empty raw then fallback else elim (parse_duration raw) [ none ↦ fallback | some d ↦ d ]

  unfoldable pub env_bool_compat : Bytes → Bytes → Bool → Bool
  unfolding env_bool
  env_bool_compat key deprecated fallback =
      if not (is_empty (trim_space (env key)))
      then env_bool key fallback
      else env_bool deprecated fallback

  unfoldable pub env_int_compat : Bytes → Bytes → ℤ → ℤ
  unfolding env_int
  env_int_compat key deprecated fallback =
      if not (is_empty (trim_space (env key)))
      then env_int key fallback
      else env_int deprecated fallback

  unfoldable pub env_csv_compat : Bytes → Bytes → List Bytes → List Bytes
  unfolding env_csv
  env_csv_compat key deprecated fallback =
      if not (is_empty (trim_space (env key)))
      then env_csv key fallback
      else env_csv deprecated fallback
