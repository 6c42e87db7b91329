-- ===== src/Redact/Laws.antt =====
-- What redaction lets through.
use go_collector.Base.{
  ◌-◌, ◌≤◌, Bool, not, true, ◌||◌, ◌&&◌, all, leb, drop, if◌then◌else◌, false, List, [], ◌∷◌, ◌++◌,
  ◌≡◌, refl, ap, Option, none, some, arith, length, length-append, drop-append_of_eq, ltb, le→ltb,
  Bool-cases, inl, inr,
}
use go_collector.Base.Assoc.{lookup}
use go_collector.Base.Bytes.{Bytes, codes, is_empty, bytes_eq, bytes_eq_iff}
use go_collector.Redact.{mask_prefix, mask_value, any_pattern, is_sensitive, redacted, redact_map}
use go_collector.Text.Lower.{to_lower, contains}

-- Whether one of the patterns that are not empty stands in the key, letters of either case alike.
abbrev pub matches : Bytes → List Bytes → Bool
matches k patterns =
    not (all (λ p. is_empty p || not (contains (to_lower k) (to_lower p))) patterns)

-- Nine stars, and behind them the last four bytes of a text of ten bytes or more.
abbrev pub hidden : Bytes → Bytes
hidden v =
    if leb 10 (length v) then codes "*********" ++ drop (length v - 4) v else codes "*********"

abbrev pub redacted_under : Bytes → List Bytes → Option Bytes → Option Bytes
redacted_under k patterns none = none
redacted_under k patterns (some v) = some (if matches k patterns then hidden v else v)

or_matches : (e c rest : Bool) → ((not e && c) || not rest) ≡ not ((e || not c) && rest)
or_matches true c rest = refl
or_matches false true rest = refl
or_matches false false rest = refl

any_pattern-matches :
    (k : Bytes) (patterns : List Bytes) → any_pattern (to_lower k) patterns ≡ matches k patterns
any_pattern-matches k [] = refl
any_pattern-matches k (p ∷ ps) = rw (any_pattern-matches k ps) (
    or_matches (is_empty p) (contains (to_lower k) (to_lower p))
      (all (λ q. is_empty q || not (contains (to_lower k) (to_lower q))) ps))

mask_value-hidden : (v : Bytes) → mask_value v ≡ hidden v
mask_value-hidden v = elim (Bool-cases (ltb (length v) 10)) [
  | inl short ↦ ground arith
  | inr long ↦ ground arith
]

redacted-under :
    (k v : Bytes) (patterns : List Bytes)
    → redacted k v patterns ≡ (if matches k patterns then hidden v else v)
unfolding is_sensitive
redacted-under k v patterns = rw (any_pattern-matches k patterns, mask_value-hidden v) refl

-- Under every key of a redacted map stands the value that was there, masked exactly when the key
-- matches a pattern, and no key comes or goes.
pub lookup-redact_map :
    (k : Bytes) (m : List (Bytes × Bytes)) (patterns : List Bytes)
    → lookup k (redact_map m patterns) ≡ redacted_under k patterns (lookup k m)
unfolding lookup redact_map
lookup-redact_map k [] patterns = refl
lookup-redact_map k ((j, v) ∷ m) patterns = elim (Bool-cases (bytes_eq j k)) [
  | inl same ↦ rw (same, (bytes_eq_iff j k).0 same, redacted-under k v patterns) refl
  | inr other ↦ rw other (lookup-redact_map k m patterns)
]

-- A value of ten bytes or more is masked to the mask and its last four bytes, whatever the others
-- are and however many: nothing else of the secret reaches the spool.
pub mask_value-append :
    (secret shown : Bytes)
    → 6 ≤ length secret
    → length shown ≡ 4
    → mask_value (secret ++ shown) ≡ mask_prefix ++ shown
mask_value-append secret shown h e =
    let sum = length-append {0} secret shown in
    let long : ltb (length (secret ++ shown)) 10 ≡ false =
      le→ltb (length (secret ++ shown)) 10 (omega arith) in
    rw long (
      ap (λ t. mask_prefix ++ t)
        (drop-append_of_eq (length (secret ++ shown) - 4) secret shown (omega arith)))
