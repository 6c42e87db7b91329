-- ===== src/Text/Split.antt =====
-- strings.Split, Join and Cut on one byte.
use go_collector.Base.{
  ℕ, false, List, [], ◌∷◌, ◌++◌, ◌≡◌, refl, ap, ◌∙◌, Option, none, some, arith, ◌==◌, if◌then◌else◌,
}
use go_collector.Base.Bytes.{Bytes}

-- In front of and behind the first `sep`.
unfoldable pub cut : ℕ → Bytes → Option (Bytes × Bytes)
cut sep [] = none
cut sep (c ∷ s) =
    let rest = cut sep s in
    if c == sep
    then some ([], s)
    else elim rest [ none ↦ none | some (before, after) ↦ some (c ∷ before, after) ]

abbrev pub onto_first : ℕ → List Bytes → List Bytes
onto_first c [] = (c ∷ []) ∷ []
onto_first c (f ∷ fs) = (c ∷ f) ∷ fs

unfoldable pub split : ℕ → Bytes → List Bytes
split sep [] = [] ∷ []
split sep (c ∷ s) = let rest = split sep s in if c == sep then [] ∷ rest else onto_first c rest

unfoldable pub join : ℕ → List Bytes → Bytes
join sep [] = []
join sep (s ∷ []) = s
join sep (s ∷ t ∷ ts) = s ++ (sep ∷ join sep (t ∷ ts))

-- `sep` is not among the bytes.
abbrev pub Free : ℕ → Bytes → Type 0
Free sep [] = Unit
Free sep (c ∷ s) = ((c == sep) ≡ false) × Free sep s

pub cut-append : (sep : ℕ) (s t : Bytes) → Free sep s → cut sep (s ++ (sep ∷ t)) ≡ some (s, t)
unfolding cut
cut-append sep [] t h = ground arith
cut-append sep (c ∷ s) t h = rw (h.0, cut-append sep s t h.1) refl

pub split-Free : (sep : ℕ) (s : Bytes) → Free sep s → split sep s ≡ s ∷ []
unfolding split
split-Free sep [] h = refl
split-Free sep (c ∷ s) h = rw (h.0, split-Free sep s h.1) refl

pub split-append :
    (sep : ℕ) (s t : Bytes) → Free sep s → split sep (s ++ (sep ∷ t)) ≡ s ∷ split sep t
unfolding split
split-append sep [] t h = ground arith
split-append sep (c ∷ s) t h = rw (h.0, split-append sep s t h.1) refl

-- Every text is free of `sep`.
abbrev pub AllFree : ℕ → List Bytes → Type 0
AllFree sep [] = Unit
AllFree sep (s ∷ ss) = Free sep s × AllFree sep ss

pub split-join :
    (sep : ℕ) (s : Bytes) (ss : List Bytes)
    → AllFree sep (s ∷ ss)
    → split sep (join sep (s ∷ ss)) ≡ s ∷ ss
unfolding join
split-join sep s [] h = split-Free sep s h.0
split-join sep s (t ∷ ts) h =
    split-append sep s (join sep (t ∷ ts)) h.0 ∙ ap (◌∷◌ s) (split-join sep t ts h.1)

pub cut-Free : (sep : ℕ) (s : Bytes) → Free sep s → cut sep s ≡ none
unfolding cut
cut-Free sep [] h = refl
cut-Free sep (c ∷ s) h = rw (h.0, cut-Free sep s h.1) refl

pub Free-append : (sep : ℕ) (s t : Bytes) → Free sep s → Free sep t → Free sep (s ++ t)
Free-append sep [] t h k = k
Free-append sep (c ∷ s) t h k = (h.0, Free-append sep s t h.1 k)
