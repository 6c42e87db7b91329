-- ===== src/Propagation/Percent.antt =====
-- percentDecode, percentEncode and hexNibble.
use go_collector.Base.{
  ℕ, ◌+◌, ◌-◌, ◌*◌, ◌/◌, ◌%◌, ◌<◌, Bool, false, ◌||◌, [], ◌∷◌, ◌++◌, ◌≡◌, refl, ap, ◌∙◌, Option,
  none, some, arith, ltb, ◌==◌, within, if◌then◌else◌, All, Bool-cases, Option-cases, inl, inr,
}
use go_collector.Base.Bytes.{Bytes, is_empty}

abbrev pub hex_nibble : ℕ → Option ℕ
hex_nibble c =
    if within b'0' b'9' c
    then some (c - b'0')
    else if within b'a' b'f' c
    then some (c - b'a' + 10)
    else if within b'A' b'F' c
    then some (c - b'A' + 10)
    else none

-- hi<<4|lo of two nibbles
abbrev pub nibbles : Option ℕ → Option ℕ → Option ℕ
nibbles (some hi) (some lo) = some (hi * 16 + lo)
nibbles _ _ = none

-- The byte that `c`, `h` and `l` escape.
abbrev pub escaped : ℕ → ℕ → ℕ → Option ℕ
escaped c h l = if c == b'%' then nibbles (hex_nibble h) (hex_nibble l) else none

unfoldable pub percent_decode_from : Bytes → Bytes
percent_decode_from (c ∷ h ∷ l ∷ rest) = elim (escaped c h l) [
  | some b ↦ b ∷ percent_decode_from rest
  | none ↦ c ∷ percent_decode_from (h ∷ l ∷ rest)
]
percent_decode_from s = s

abbrev pub contains_byte : ℕ → Bytes → Bool
contains_byte b [] = false
contains_byte b (c ∷ s) = c == b || contains_byte b s

unfoldable pub percent_decode : Bytes → Bytes
unfolding percent_decode_from
percent_decode value = if contains_byte b'%' value then percent_decode_from value else value

abbrev pub unreserved : ℕ → Bool
unreserved c =
    within b'a' b'z' c
    || within b'A' b'Z' c
    || within b'0' b'9' c
    || c == b'-'
    || c == b'_'
    || c == b'.'
    || c == b'~'

-- hex[n] of "0123456789ABCDEF"
abbrev pub upper_hex : ℕ → ℕ
upper_hex n = if ltb n 10 then b'0' + n else b'A' + (n - 10)

abbrev pub encoded_byte : ℕ → Bytes
encoded_byte c =
    if unreserved c then c ∷ [] else b'%' ∷ upper_hex (c / 16) ∷ upper_hex (c % 16) ∷ []

unfoldable pub percent_encode : Bytes → Bytes
percent_encode [] = []
percent_encode (c ∷ s) = encoded_byte c ++ percent_encode s

hex_nibble-upper_hex : (n : ℕ) → n < 16 → hex_nibble (upper_hex n) ≡ some n
hex_nibble-upper_hex n h = ground arith

escaped-byte : (c : ℕ) → c < 256 → escaped b'%' (upper_hex (c / 16)) (upper_hex (c % 16)) ≡ some c
escaped-byte c h =
    rw (hex_nibble-upper_hex (c / 16) (omega arith), hex_nibble-upper_hex (c % 16) (omega arith))
      (ap some (omega arith))

-- A byte that is no `%` stays in front of what is decoded behind it.
decode_from_plain :
    (c : ℕ) (s : Bytes)
    → (c == b'%') ≡ false
    → percent_decode_from (c ∷ s) ≡ c ∷ percent_decode_from s
unfolding percent_decode_from
decode_from_plain c [] h = refl
decode_from_plain c (d ∷ []) h = refl
decode_from_plain c (d ∷ e ∷ s) h = rw (percent_decode_from, h) refl

decode_from-encode : (s : Bytes) → All (λ c. c < 256) s → percent_decode_from (percent_encode s) ≡ s
unfolding percent_encode percent_decode_from
decode_from-encode [] h = refl
decode_from-encode (c ∷ s) h = elim (Bool-cases (unreserved c)) [
  | inl plain ↦ rw plain (
      decode_from_plain c (percent_encode s) (ground arith) ∙ ap (◌∷◌ c) (decode_from-encode s h.1))
  | inr escape ↦
      rw (escape, percent_decode_from, escaped-byte c h.0) (ap (◌∷◌ c) (decode_from-encode s h.1))
]

decode_from_free : (s : Bytes) → contains_byte b'%' s ≡ false → percent_decode_from s ≡ s
unfolding percent_decode_from
decode_from_free [] h = refl
decode_from_free (c ∷ s) h =
    decode_from_plain c s (ground arith) ∙ ap (◌∷◌ c) (decode_from_free s (ground arith))

percent_decode-from : (s : Bytes) → percent_decode s ≡ percent_decode_from s
unfolding percent_decode
percent_decode-from s = elim (Bool-cases (contains_byte b'%' s)) [
  | inl some_escape ↦ rw some_escape refl
  | inr free ↦ rw (free, decode_from_free s free) refl
]

-- Decoding what percentEncode wrote gives back every text, whatever its bytes.
pub percent_decode-percent_encode :
    (s : Bytes) → All (λ c. c < 256) s → percent_decode (percent_encode s) ≡ s
percent_decode-percent_encode s h = percent_decode-from (percent_encode s) ∙ decode_from-encode s h

escaped-lt : (c h l b : ℕ) → escaped c h l ≡ some b → b < 256
escaped-lt c h l b e = ground arith

-- What is decoded of bytes is bytes.
All-decode_from : (s : Bytes) → All (λ c. c < 256) s → All (λ c. c < 256) (percent_decode_from s)
unfolding percent_decode_from
All-decode_from [] h = tt
All-decode_from (c ∷ []) h = h
All-decode_from (c ∷ d ∷ []) h = h
All-decode_from (c ∷ d ∷ l ∷ s) h = elim (Option-cases (escaped c d l)) [
  | inl plain ↦ rw (percent_decode_from, plain) (h.0, All-decode_from (d ∷ l ∷ s) h.1)
  | inr (b, e) ↦ rw (percent_decode_from, e) (escaped-lt c d l b e, All-decode_from s h.1.1.1)
]

pub All-percent_decode : (s : Bytes) → All (λ c. c < 256) s → All (λ c. c < 256) (percent_decode s)
All-percent_decode s h = rw (percent_decode-from s) (All-decode_from s h)

decode_from-is_empty : (s : Bytes) → is_empty (percent_decode_from s) ≡ is_empty s
unfolding percent_decode_from
decode_from-is_empty [] = refl
decode_from-is_empty (c ∷ []) = refl
decode_from-is_empty (c ∷ d ∷ []) = refl
decode_from-is_empty (c ∷ d ∷ l ∷ s) = elim (Option-cases (escaped c d l)) [
  | inl plain ↦ rw (percent_decode_from, plain) refl
  | inr (b, e) ↦ rw (percent_decode_from, e) refl
]

pub percent_decode-is_empty : (s : Bytes) → is_empty (percent_decode s) ≡ is_empty s
percent_decode-is_empty s = rw (percent_decode-from s) (decode_from-is_empty s)
