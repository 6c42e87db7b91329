-- ===== src/Text/Base64.antt =====
-- encoding/base64's StdEncoding.
use go_collector.Base.{
  ℕ, [], ◌∷◌, ltb, within, if◌then◌else◌, ◌+◌, ◌-◌, ◌*◌, ◌/◌, ◌%◌, ◌==◌, ◌<◌, ◌≡◌, refl, ap, arith,
  false,
}
use go_collector.Base.Bytes.{Bytes}

abbrev pub sextet : ℕ → ℕ
sextet n =
    if ltb n 26
    then b'A' + n
    else if ltb n 52
    then b'a' + (n - 26)
    else if ltb n 62
    then b'0' + (n - 52)
    else if ltb n 63
    then b'+'
    else b'/'

-- EncodeToString: three bytes to four characters, with `=` for what is missing at the end.
unfoldable pub base64_encode : Bytes → Bytes
base64_encode [] = []
base64_encode (a ∷ []) = sextet (a / 4) ∷ sextet (a % 4 * 16) ∷ b'=' ∷ b'=' ∷ []
base64_encode (a ∷ b ∷ []) =
    sextet (a / 4) ∷ sextet (a % 4 * 16 + b / 16) ∷ sextet (b % 16 * 4) ∷ b'=' ∷ []
base64_encode (a ∷ b ∷ c ∷ s) =
    sextet (a / 4)
    ∷ sextet (a % 4 * 16 + b / 16)
    ∷ sextet (b % 16 * 4 + c / 64)
    ∷ sextet (c % 64)
    ∷ base64_encode s

-- What a reader makes of a character, and of an encoded text.
unsextet : ℕ → ℕ
unsextet c =
    if within b'A' b'Z' c
    then c - b'A'
    else if within b'a' b'z' c
    then (c - b'a') + 26
    else if within b'0' b'9' c
    then (c - b'0') + 52
    else if c == b'+'
    then 62
    else 63

unfoldable pub base64_decode : Bytes → Bytes
unfolding unsextet
base64_decode (p ∷ q ∷ r ∷ t ∷ s) =
    let rest = base64_decode s in
    let a = unsextet p * 4 + unsextet q / 16 in
    let b = unsextet q % 16 * 16 + unsextet r / 4 in
    let c = unsextet r % 4 * 64 + unsextet t in
    if r == b'=' then a ∷ [] else if t == b'=' then a ∷ b ∷ [] else a ∷ b ∷ c ∷ rest
base64_decode _ = []

abbrev pub AreBytes : Bytes → Type 0
AreBytes [] = Unit
AreBytes (b ∷ s) = (b < 256) × AreBytes s

unsextet-sextet : (n : ℕ) → n < 64 → unsextet (sextet n) ≡ n
unfolding unsextet
unsextet-sextet n h = ground arith

not_padding : (n : ℕ) → n < 64 → (sextet n == b'=') ≡ false
not_padding n h = ground arith

two_equal : {a b x y : ℕ} → x ≡ a → y ≡ b → x ∷ y ∷ [] ≡ a ∷ b ∷ []
two_equal e f = rw (e, f) refl

three_equal : {a b c x y z : ℕ} {s : Bytes} → x ≡ a → y ≡ b → z ≡ c → x ∷ y ∷ z ∷ s ≡ a ∷ b ∷ c ∷ s
three_equal e f g = rw (e, f, g) refl

pub base64_decode-base64_encode : (s : Bytes) → AreBytes s → base64_decode (base64_encode s) ≡ s
unfolding base64_encode base64_decode
base64_decode-base64_encode [] h = refl
base64_decode-base64_encode (a ∷ []) h =
    rw
      (
        base64_decode,
        unsextet-sextet (a / 4) (omega (arith, h.0)),
        unsextet-sextet (a % 4 * 16) (omega (arith, h.0)),
      )
      (ap (λ x. x ∷ []) (omega (arith, h.0)))
base64_decode-base64_encode (a ∷ b ∷ []) h =
    let q = a % 4 * 16 + b / 16 in
    rw
      (
        base64_decode,
        not_padding (b % 16 * 4) (omega arith),
        unsextet-sextet (a / 4) (omega (arith, h.0)),
        unsextet-sextet q (omega (arith, h.1.0)),
        unsextet-sextet (b % 16 * 4) (omega arith),
      )
      (two_equal (omega (arith, h.0, h.1.0)) (omega (arith, h.1.0)))
base64_decode-base64_encode (a ∷ b ∷ c ∷ s) h =
    let q = a % 4 * 16 + b / 16 in
    let r = b % 16 * 4 + c / 64 in
    let r_small : r < 64 = omega (arith, h.1.1.0) in
    rw
      (
        base64_decode,
        not_padding r r_small,
        not_padding (c % 64) (omega arith),
        unsextet-sextet (a / 4) (omega (arith, h.0)),
        unsextet-sextet q (omega (arith, h.1.0)),
        unsextet-sextet r r_small,
        unsextet-sextet (c % 64) (omega arith),
        base64_decode-base64_encode s h.1.1.1,
      )
      (three_equal (omega (arith, h.0, h.1.0)) (omega (arith, h.1.0, h.1.1.0))
        (omega (arith, h.1.1.0)))
