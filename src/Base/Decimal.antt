-- ===== src/Base/Decimal.antt =====
-- strconv.Itoa and FormatUint in base 10, and ParseUint(_, 10, 64): the digits of a number.
use Prim.Native.Nat.{ℕ, zero, suc, ◌+◌, ◌-◌, ◌*◌, ◌/◌, ◌%◌, ◌^◌, ◌<◌}
use mathlib.Core.Path.{◌≡◌, refl, ap, ◌∙◌}
use mathlib.Core.Bool.{true}
use mathlib.Core.Logic.{inl, inr}
use mathlib.Core.List.{List, [], ◌∷◌, ◌++◌}
use mathlib.Core.Option.{Option, none, some}
use native.Mathlib.Omega.{arith}
use go_collector.Base.Tests.{ltb, if◌then◌else◌, within, Bool-cases, ltb→lt, lt→ltb}
use go_collector.Base.Lists.{length, length-append}

abbrev pub u64_mod : ℕ
u64_mod = 2 ^ 64

-- The digits of `n`, most significant first, in front of `acc`; a quotient by ten at each round.
unfoldable pub digits_onto : ℕ → ℕ → List ℕ → List ℕ
digits_onto zero n acc = acc
digits_onto (suc fuel) n acc =
    let more = digits_onto fuel (n / 10) ((b'0' + n % 10) ∷ acc) in
    if ltb n 10 then (b'0' + n) ∷ acc else more

-- One round for each unit of `n` is more than the digits need.
unfoldable pub itoa : ℕ → List ℕ
unfolding digits_onto
itoa n = digits_onto (suc n) n []

unfoldable pub parse_digits : ℕ → List ℕ → Option ℕ
parse_digits n [] = some n
parse_digits n (c ∷ cs) =
    let more = parse_digits (n * 10 + (c - b'0')) cs in if within b'0' b'9' c then more else none

-- The empty text, a byte that is no digit, and a value past 2^64 - 1 are errors.
unfoldable pub parse_uint : List ℕ → Option ℕ
unfolding parse_digits
parse_uint [] = none
parse_uint (c ∷ cs) = elim (parse_digits 0 (c ∷ cs)) [
  | none ↦ none
  | some n ↦ if ltb n u64_mod then some n else none
]

-- fmt's `%06d` of a number that is not negative: zeros in front up to six digits.
abbrev pub zeros : ℕ → List ℕ
zeros zero = []
zeros (suc n) = b'0' ∷ zeros n

unfoldable pub pad_six : ℕ → List ℕ
unfolding itoa
pad_six n = zeros (6 - length (itoa n)) ++ itoa n

parse_digits-cons :
    (m c : ℕ) (acc : List ℕ)
    → within b'0' b'9' c ≡ true
    → parse_digits m (c ∷ acc) ≡ parse_digits (m * 10 + (c - b'0')) acc
unfolding parse_digits
parse_digits-cons m c acc h = rw h

digit_within : (n : ℕ) → n < 10 → within b'0' b'9' (b'0' + n) ≡ true
digit_within n h = ground arith

-- Reading back what `digits_onto` wrote is reading on from `n`.
parse_digits-digits_onto :
    (fuel n : ℕ) (acc : List ℕ)
    → n < fuel
    → parse_digits 0 (digits_onto fuel n acc) ≡ parse_digits n acc
unfolding digits_onto
parse_digits-digits_onto zero n acc h = absurd (omega arith)
parse_digits-digits_onto (suc fuel) n acc h = elim (Bool-cases (ltb n 10)) [
  | inl small ↦ rw small (
      parse_digits-cons 0 (b'0' + n) acc (digit_within n (ltb→lt n 10 small))
      ∙ ap (λ k. parse_digits k acc) (omega arith))
  | inr big ↦
      let round : n / 10 < fuel = ground arith in
      rw big (
        parse_digits-digits_onto fuel (n / 10) ((b'0' + n % 10) ∷ acc) round
        ∙ parse_digits-cons (n / 10) (b'0' + n % 10) acc (digit_within (n % 10) (omega arith))
        ∙ ap (λ k. parse_digits k acc) (omega arith))
]

parse_digits-zeros : (k : ℕ) (s : List ℕ) → parse_digits 0 (zeros k ++ s) ≡ parse_digits 0 s
parse_digits-zeros zero s = refl
parse_digits-zeros (suc k) s = parse_digits-cons 0 b'0' (zeros k ++ s) refl ∙ parse_digits-zeros k s

parse_digits-itoa : (n : ℕ) → parse_digits 0 (itoa n) ≡ some n
unfolding itoa
parse_digits-itoa n =
    parse_digits-digits_onto (suc n) n [] (omega arith) ∙ unfold parse_digits in refl

parse_uint-of_digits :
    (s : List ℕ) (n : ℕ)
    → 0 < length s
    → parse_digits 0 s ≡ some n
    → n < u64_mod
    → parse_uint s ≡ some n
unfolding parse_uint
parse_uint-of_digits [] n len h small = absurd (omega arith)
parse_uint-of_digits (c ∷ cs) n len h small = rw (h, parse_uint) (rw (lt→ltb n u64_mod small))

digits_onto_pos :
    (fuel n : ℕ) (acc : List ℕ) → 0 < fuel → length acc < length (digits_onto fuel n acc)
unfolding digits_onto
digits_onto_pos zero n acc h = absurd (omega arith)
digits_onto_pos (suc zero) n acc h = ground arith
digits_onto_pos (suc (suc fuel)) n acc h =
    ground (arith, digits_onto_pos (suc fuel) (n / 10) ((b'0' + n % 10) ∷ acc) (omega arith))

length-itoa_pos : (n : ℕ) → 0 < length (itoa n)
unfolding itoa
length-itoa_pos n = digits_onto_pos (suc n) n [] (omega arith)

pub parse_uint-itoa : (n : ℕ) → n < u64_mod → parse_uint (itoa n) ≡ some n
parse_uint-itoa n h = parse_uint-of_digits (itoa n) n (length-itoa_pos n) (parse_digits-itoa n) h

pub parse_uint-pad_six : (n : ℕ) → n < u64_mod → parse_uint (pad_six n) ≡ some n
unfolding pad_six
parse_uint-pad_six n h =
    let k = 6 - length (itoa n) in
    parse_uint-of_digits (zeros k ++ itoa n) n
      (omega (arith, length-append {0} (zeros k) (itoa n), length-itoa_pos n))
      (parse_digits-zeros k (itoa n) ∙ parse_digits-itoa n) h
