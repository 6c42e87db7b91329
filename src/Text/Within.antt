-- ===== src/Text/Within.antt =====
-- Pieces of a text hold only bytes of the text.
use mathlib.Core.List.{reverse, reverse_aux}
use go_collector.Base.{
  ℕ, zero, suc, List, [], ◌∷◌, map, ◌≡◌, Option, none, some, length, drop, All, ltb, ◌==◌,
  Bool-cases, Option-cases, inl, inr,
}
use go_collector.Base.Bytes.{Bytes, has_prefix}
use go_collector.Text.Split.{cut, split, onto_first}
use go_collector.Text.Trim.{
  ascii_space, wide_spaces, first_match, space_rest, trim_from, trim_left, trim_space,
}

module _ (P : ℕ → Type 0) where
  All-drop : (n : ℕ) (s : Bytes) → All P s → All P (drop n s)
  All-drop zero s h = h
  All-drop (suc n) [] h = tt
  All-drop (suc n) (c ∷ s) h = All-drop n s h.1

  All-reverse_aux : (s t : Bytes) → All P s → All P t → All P (reverse_aux s t)
  All-reverse_aux [] t h k = k
  All-reverse_aux (c ∷ s) t h k = All-reverse_aux s (c ∷ t) h.1 (h.0, k)

  abbrev IfAll : Option Bytes → Type 0
  IfAll none = Unit
  IfAll (some s) = All P s

  first_match-IfAll : (ws : List Bytes) (s : Bytes) → All P s → IfAll (first_match ws s)
  unfolding first_match
  first_match-IfAll [] s h = tt
  first_match-IfAll (w ∷ ws) s h = elim (Bool-cases (has_prefix s w)) [
    | inl here ↦ rw here (All-drop (length w) s h)
    | inr later ↦ rw later (first_match-IfAll ws s h)
  ]

  space_rest-IfAll : (wide : List Bytes) (s : Bytes) → All P s → IfAll (space_rest wide s)
  unfolding space_rest
  space_rest-IfAll wide [] h = tt
  space_rest-IfAll wide (c ∷ s) h = elim (Bool-cases (ltb c 0x80)) [
    | inl ascii ↦ elim (Bool-cases (ascii_space c)) [
      | inl space ↦ rw (ascii, space) h.1
      | inr ink ↦ rw (ascii, ink) tt
    ]
    | inr beyond ↦ rw beyond (first_match-IfAll wide (c ∷ s) h)
  ]

  All-trim_from : (n : ℕ) (wide : List Bytes) (s : Bytes) → All P s → All P (trim_from n wide s)
  unfolding trim_from
  All-trim_from zero wide s h = h
  All-trim_from (suc n) wide s h = elim (Option-cases (space_rest wide s)) [
    | inl done ↦ rw (trim_from, done) h
    | inr (rest, more) ↦
        let inside : All P rest = rw more at (space_rest-IfAll wide s h) in
        rw (trim_from, more) (All-trim_from n wide rest inside)
  ]

  pub All-trim_space : (s : Bytes) → All P s → All P (trim_space s)
  unfolding trim_space
  All-trim_space s h =
      let left = All-trim_from (length s) wide_spaces s h in
      let back = All-reverse_aux (trim_left wide_spaces s) [] left tt in
      All-reverse_aux (trim_left (map reverse wide_spaces) (reverse (trim_left wide_spaces s))) []
        (All-trim_from _ (map reverse wide_spaces) (reverse (trim_left wide_spaces s)) back) tt

  -- Every piece.
  abbrev pub Each : List Bytes → Type 0
  Each ss = All (λ s. All P s) ss

  Each-onto_first : (c : ℕ) (ss : List Bytes) → P c → Each ss → Each (onto_first c ss)
  Each-onto_first c [] h k = ((h, tt), tt)
  Each-onto_first c (s ∷ ss) h k = ((h, k.0), k.1)

  pub Each-split : (sep : ℕ) (s : Bytes) → All P s → Each (split sep s)
  unfolding split
  Each-split sep [] h = (tt, tt)
  Each-split sep (c ∷ s) h = elim (Bool-cases (c == sep)) [
    | inl here ↦ rw here (tt, Each-split sep s h.1)
    | inr later ↦ rw later (Each-onto_first c (split sep s) h.0 (Each-split sep s h.1))
  ]

  abbrev IfBoth : Option (Bytes × Bytes) → Type 0
  IfBoth none = Unit
  IfBoth (some (a, b)) = All P a × All P b

  cut-IfBoth : (sep : ℕ) (s : Bytes) → All P s → IfBoth (cut sep s)
  unfolding cut
  cut-IfBoth sep [] h = tt
  cut-IfBoth sep (c ∷ s) h = elim (Bool-cases (c == sep)) [
    | inl here ↦ rw here (tt, h.1)
    | inr later ↦ elim (Option-cases (cut sep s)) [
      | inl none_there ↦ rw (later, none_there) tt
      | inr ((a, b), found) ↦
          let both : All P a × All P b = rw found at (cut-IfBoth sep s h.1) in
          rw (later, found) ((h.0, both.0), both.1)
    ]
  ]

  pub All-cut : (sep : ℕ) (s a b : Bytes) → cut sep s ≡ some (a, b) → All P s → All P a × All P b
  All-cut sep s a b e h = rw e at (cut-IfBoth sep s h)
