-- ===== src/Text/Trim.antt =====
-- strings.TrimSpace: white space of ASCII, and of Unicode where a byte is not ASCII.
use mathlib.Core.List.{reverse, reverse-append, reverse-reverse}
use go_collector.Base.{
  ℕ, zero, suc, Bool, true, ◌||◌, List, [], ◌∷◌, ◌++◌, ◌≡◌, refl, sym, ap, ◌∙◌, Option, none, some,
  map, arith, length, drop, ltb, ◌==◌, if◌then◌else◌, within,
}
use go_collector.Base.Bytes.{Bytes, has_prefix}

-- The UTF-8 of the spaces beyond ASCII that unicode.IsSpace knows.
abbrev pub wide_spaces : List Bytes
wide_spaces =
    (0xC2 ∷ 0x85 ∷ [])
    ∷ (0xC2 ∷ 0xA0 ∷ [])
    ∷ (0xE1 ∷ 0x9A ∷ 0x80 ∷ [])
    ∷ (0xE2 ∷ 0x80 ∷ 0x80 ∷ [])
    ∷ (0xE2 ∷ 0x80 ∷ 0x81 ∷ [])
    ∷ (0xE2 ∷ 0x80 ∷ 0x82 ∷ [])
    ∷ (0xE2 ∷ 0x80 ∷ 0x83 ∷ [])
    ∷ (0xE2 ∷ 0x80 ∷ 0x84 ∷ [])
    ∷ (0xE2 ∷ 0x80 ∷ 0x85 ∷ [])
    ∷ (0xE2 ∷ 0x80 ∷ 0x86 ∷ [])
    ∷ (0xE2 ∷ 0x80 ∷ 0x87 ∷ [])
    ∷ (0xE2 ∷ 0x80 ∷ 0x88 ∷ [])
    ∷ (0xE2 ∷ 0x80 ∷ 0x89 ∷ [])
    ∷ (0xE2 ∷ 0x80 ∷ 0x8A ∷ [])
    ∷ (0xE2 ∷ 0x80 ∷ 0xA8 ∷ [])
    ∷ (0xE2 ∷ 0x80 ∷ 0xA9 ∷ [])
    ∷ (0xE2 ∷ 0x80 ∷ 0xAF ∷ [])
    ∷ (0xE2 ∷ 0x81 ∷ 0x9F ∷ [])
    ∷ (0xE3 ∷ 0x80 ∷ 0x80 ∷ [])
    ∷ []

abbrev pub ascii_space : ℕ → Bool
ascii_space c = c == 32 || within 9 13 c

-- Behind the first of the texts that the bytes begin with.
unfoldable pub first_match : List Bytes → Bytes → Option Bytes
first_match [] s = none
first_match (w ∷ ws) s = if has_prefix s w then some (drop (length w) s) else first_match ws s

-- Behind one space, when the bytes begin with one; `wide` are the spaces beyond ASCII.
unfoldable pub space_rest : List Bytes → Bytes → Option Bytes
unfolding first_match
space_rest wide [] = none
space_rest wide (c ∷ rest) =
    if ltb c 0x80 then if ascii_space c then some rest else none else first_match wide (c ∷ rest)

-- A space takes a byte or more, so a round for each byte is enough.
unfoldable pub trim_from : ℕ → List Bytes → Bytes → Bytes
unfolding space_rest
trim_from zero wide s = s
trim_from (suc n) wide s = elim (space_rest wide s) [ none ↦ s | some rest ↦ trim_from n wide rest ]

abbrev pub trim_left : List Bytes → Bytes → Bytes
trim_left wide s = trim_from (length s) wide s

unfoldable pub trim_space : Bytes → Bytes
unfolding trim_from
trim_space s = reverse (trim_left (map reverse wide_spaces) (reverse (trim_left wide_spaces s)))

-- A byte that is printable ASCII and no space.
abbrev pub graphic : ℕ → Bool
graphic c = within 33 126 c

trim_from-graphic :
    (n : ℕ) (wide : List Bytes) (c : ℕ) (s : Bytes)
    → graphic c ≡ true
    → trim_from n wide (c ∷ s) ≡ c ∷ s
unfolding trim_from
trim_from-graphic zero wide c s g = refl
trim_from-graphic (suc n) wide c s g =
    let none_here : space_rest wide (c ∷ s) ≡ none = unfold space_rest in ground arith in
    rw (trim_from, none_here) refl

trim_space-ends :
    (c : ℕ) (s : Bytes) (d : ℕ) (t : Bytes)
    → graphic c ≡ true
    → graphic d ≡ true
    → reverse (c ∷ s) ≡ d ∷ t
    → trim_space (c ∷ s) ≡ c ∷ s
unfolding trim_space
trim_space-ends c s d t gc gd e =
    ap (λ x. reverse (trim_left (map reverse wide_spaces) (reverse x)))
      (trim_from-graphic (length (c ∷ s)) wide_spaces c s gc)
    ∙ ap (λ x. reverse (trim_left (map reverse wide_spaces) x)) e
    ∙ ap reverse (trim_from-graphic (length (d ∷ t)) (map reverse wide_spaces) d t gd ∙ sym e)
    ∙ reverse-reverse (c ∷ s)

-- Between two graphic bytes nothing is trimmed.
pub trim_space-between :
    (c d : ℕ) (s : Bytes)
    → graphic c ≡ true
    → graphic d ≡ true
    → trim_space (c ∷ (s ++ d ∷ [])) ≡ c ∷ (s ++ d ∷ [])
trim_space-between c d s gc gd =
    trim_space-ends c (s ++ d ∷ []) d (reverse (c ∷ s)) gc gd (reverse-append (c ∷ s) (d ∷ []))

pub trim_space-one : (c : ℕ) → graphic c ≡ true → trim_space (c ∷ []) ≡ c ∷ []
trim_space-one c g = trim_space-ends c [] c [] g g refl

-- A Japanese space, a tab and a Latin no-break space go; the inner space stays.
trim_space_check :
    trim_space (0xE3 ∷ 0x80 ∷ 0x80 ∷ 9 ∷ 97 ∷ 32 ∷ 98 ∷ 0xC2 ∷ 0xA0 ∷ 10 ∷ []) ≡ 97 ∷ 32 ∷ 98 ∷ []
unfolding trim_space
trim_space_check = refl

pub trim_space-nil : trim_space [] ≡ []
unfolding trim_space
trim_space-nil = refl
