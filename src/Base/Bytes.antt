-- ===== src/Base/Bytes.antt =====
-- Go strings as their bytes, and the functions of `strings` and `bytes` that the program calls.
use Prim.Native.Nat.{ℕ, ◌-◌}
use Prim.Native.Char.{code}
use Prim.Native.String.{String}
use mathlib.Core.Path.{◌≡◌, refl}
use mathlib.Core.Logic.{◌↔◌}
use mathlib.Core.Bool.{Bool, true, false, ◌&&◌}
use mathlib.Core.List.{List, [], ◌∷◌, ◌++◌}
use native.Mathlib.Omega.{arith}
use go_collector.Base.Tests.{◌==◌, leb, le→leb, if◌then◌else◌}
use go_collector.Base.Lists.{
  length, take, drop, length-append, drop-append_of_eq, take-append_of_eq,
}

abbrev pub Bytes : Type 0
Bytes = List ℕ

-- The bytes of an ASCII literal.
abbrev pub codes : String → Bytes
codes String.[] = []
codes (String.◌∷◌ c s) = code c ∷ codes s

abbrev pub bytes_eq : Bytes → Bytes → Bool
bytes_eq [] [] = true
bytes_eq (x ∷ xs) (y ∷ ys) = x == y && bytes_eq xs ys
bytes_eq _ _ = false

abbrev pub is_empty : Bytes → Bool
is_empty [] = true
is_empty (x ∷ xs) = false

abbrev pub has_prefix : Bytes → Bytes → Bool
has_prefix s [] = true
has_prefix [] (p ∷ ps) = false
has_prefix (c ∷ s) (p ∷ ps) = c == p && has_prefix s ps

pub bytes_eq_iff : (a b : Bytes) → (bytes_eq a b ≡ true) ↔ (a ≡ b)
bytes_eq_iff (x ∷ a) (y ∷ b) = ground (arith, bytes_eq_iff a b)
bytes_eq_iff _ _ = ground arith

pub bytes_eq_refl : (a : Bytes) → bytes_eq a a ≡ true
bytes_eq_refl a = (bytes_eq_iff a a).1 refl

abbrev pub has_suffix : Bytes → Bytes → Bool
has_suffix s p = leb (length p) (length s) && bytes_eq (drop (length s - length p) s) p

abbrev pub trim_prefix : Bytes → Bytes → Bytes
trim_prefix s p = if has_prefix s p then drop (length p) s else s

abbrev pub trim_suffix : Bytes → Bytes → Bytes
trim_suffix s p = if has_suffix s p then take (length s - length p) s else s

pub has_suffix-append : (s p : Bytes) → has_suffix (s ++ p) p ≡ true
has_suffix-append s p =
    let e : length (s ++ p) - length p ≡ length s = omega (arith, length-append {0} s p) in
    rw (
      le→leb (length p) (length (s ++ p)) (omega (arith, length-append {0} s p)),
      e,
      drop-append_of_eq (length s) s p refl,
      bytes_eq_refl p,
    )

pub trim_suffix-append : (s p : Bytes) → trim_suffix (s ++ p) p ≡ s
trim_suffix-append s p =
    rw (has_suffix-append s p)
      (take-append_of_eq (length (s ++ p) - length p) s p (omega (arith, length-append {0} s p)))
