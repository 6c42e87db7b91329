-- ===== src/Propagation/Baggage/Safe.antt =====
-- The bytes of the baggage that is forwarded: none of them separates members, or is a space.
use go_collector.Base.{
  ℕ, ◌/◌, ◌%◌, ◌<◌, Bool, true, false, not, ◌&&◌, ◌||◌, [], ◌∷◌, ◌++◌, ◌≡◌, refl, sym, arith, ◌==◌,
  within, All, Bool-cases, and_true, ==_iff, inl, inr,
}
use go_collector.Base.Bytes.{Bytes, codes}
use go_collector.Propagation.Baggage.{token_byte, token_bytes}
use go_collector.Propagation.Percent.{
  percent_encode, encoded_byte, unreserved, upper_hex, contains_byte,
}
use go_collector.Text.Edged.{graphics}
use go_collector.Text.Split.{Free}
use go_collector.Text.Trim.{graphic}

-- Graphic, and no separator.
abbrev pub safe : ℕ → Bool
safe c = graphic c && (not (c == b',') && (not (c == b';') && not (c == b'=')))

abbrev pub safes : Bytes → Bool
safes [] = true
safes (c ∷ s) = safe c && safes s

safe-contains : (c : ℕ) (s : Bytes) → safes s ≡ true → contains_byte c s ≡ true → safe c ≡ true
safe-contains c [] h k = absurd (ground arith)
safe-contains c (d ∷ s) h k =
    let (here, there) = and_true (safe d) (safes s) h in
    elim (Bool-cases (d == c)) [
      | inl same ↦ rw (sym ((==_iff d c).0 same)) here
      | inr other ↦ safe-contains c s there (rw other at k)
    ]

safe-letters :
    (c : ℕ) → within b'a' b'z' c || within b'A' b'Z' c || within b'0' b'9' c ≡ true → safe c ≡ true
safe-letters c h = ground arith

only_marks : (a b c d : Bool) → a || b || c ≡ false → a || b || c || d ≡ true → d ≡ true
only_marks a b c d h k = ground arith

safe-token_byte : (c : ℕ) → token_byte c ≡ true → safe c ≡ true
safe-token_byte c h =
    elim (Bool-cases (within b'a' b'z' c || within b'A' b'Z' c || within b'0' b'9' c)) [
      | inl letter ↦ safe-letters c letter
      | inr mark ↦
          safe-contains c (codes "!#$%&'*+-.^_`|~") refl
            (only_marks (within b'a' b'z' c) (within b'A' b'Z' c) (within b'0' b'9' c) _ mark h)
    ]

pub safes-token_bytes : (s : Bytes) → token_bytes s ≡ true → safes s ≡ true
safes-token_bytes [] h = refl
safes-token_bytes (c ∷ s) h =
    let (here, there) = and_true (token_byte c) (token_bytes s) h in
    rw (safe-token_byte c here, safes-token_bytes s there) refl

pub safes-append : (s t : Bytes) → safes s ≡ true → safes t ≡ true → safes (s ++ t) ≡ true
safes-append [] t hs ht = ht
safes-append (c ∷ s) t hs ht =
    let (here, there) = and_true (safe c) (safes s) hs in rw (here, safes-append s t there ht) refl

safe-upper_hex : (n : ℕ) → n < 16 → safe (upper_hex n) ≡ true
safe-upper_hex n h = ground arith

safe-unreserved : (c : ℕ) → unreserved c ≡ true → safe c ≡ true
safe-unreserved c h = ground arith

safes-encoded_byte : (c : ℕ) → c < 256 → safes (encoded_byte c) ≡ true
safes-encoded_byte c h = elim (Bool-cases (unreserved c)) [
  | inl plain ↦ rw (plain, safe-unreserved c plain) refl
  | inr escape ↦
      rw (escape, safe-upper_hex (c / 16) (omega arith), safe-upper_hex (c % 16) (omega arith)) refl
]

pub safes-encode : (s : Bytes) → All (λ c. c < 256) s → safes (percent_encode s) ≡ true
unfolding percent_encode
safes-encode [] h = refl
safes-encode (c ∷ s) h =
    safes-append (encoded_byte c) (percent_encode s) (safes-encoded_byte c h.0) (safes-encode s h.1)

pub graphics-safes : (s : Bytes) → safes s ≡ true → graphics s ≡ true
graphics-safes [] h = refl
graphics-safes (c ∷ s) h =
    let (here, there) = and_true (safe c) (safes s) h in
    let g : graphic c ≡ true = ground arith in rw (g, graphics-safes s there) refl

pub Free-safes :
    (sep : ℕ)
    → ((c : ℕ) → safe c ≡ true → (c == sep) ≡ false)
    → (s : Bytes) → safes s ≡ true
    → Free sep s
Free-safes sep k [] h = tt
Free-safes sep k (c ∷ s) h =
    let (here, there) = and_true (safe c) (safes s) h in (k c here, Free-safes sep k s there)

pub not_comma : (c : ℕ) → safe c ≡ true → (c == b',') ≡ false
not_comma c h = ground arith

pub not_semicolon : (c : ℕ) → safe c ≡ true → (c == b';') ≡ false
not_semicolon c h = ground arith

pub not_equals : (c : ℕ) → safe c ≡ true → (c == b'=') ≡ false
not_equals c h = ground arith
