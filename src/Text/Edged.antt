-- ===== src/Text/Edged.antt =====
-- Texts that begin and end with a graphic byte: strings.TrimSpace leaves them and their joins alone.
use go_collector.Base.{
  ℕ, ◌&&◌, Bool, true, false, List, [], ◌∷◌, ◌++◌, ◌≡◌, refl, ap, Option, none, some, arith, ◌==◌,
  ==_iff, append_assoc, Bool-cases, Option-cases, inl, inr,
}
use go_collector.Base.Bytes.{Bytes, is_empty}
use go_collector.Text.Split.{cut, split, join, AllFree, split-join}
use go_collector.Text.Trim.{trim_space, graphic, trim_space-between, trim_space-nil, trim_space-one}

pub record Edged (s : Bytes) : Type 0 where
  pub first : ℕ
  pub middle : Bytes
  pub final : ℕ
  pub is_text : s ≡ first ∷ (middle ++ final ∷ [])
  pub first_graphic : graphic first ≡ true
  pub final_graphic : graphic final ≡ true

pub trim_space-Edged : (s : Bytes) → Edged s → trim_space s ≡ s
trim_space-Edged s e =
    rw e.is_text (trim_space-between e.first e.final e.middle e.first_graphic e.final_graphic)

pub Edged-append : (s : Bytes) (sep : ℕ) (t : Bytes) → Edged s → Edged t → Edged (s ++ (sep ∷ t))
Edged-append s sep t e f = record {
  first = e.first;
  middle = (e.middle ++ e.final ∷ []) ++ (sep ∷ f.first ∷ f.middle);
  final = f.final;
  is_text = rw (e.is_text, f.is_text) (simp append_assoc);
  first_graphic = e.first_graphic;
  final_graphic = f.final_graphic;
}

abbrev pub AllEdged : List Bytes → Type 0
AllEdged [] = Unit
AllEdged (s ∷ ss) = Edged s × AllEdged ss

pub Edged-join :
    (sep : ℕ) (s : Bytes) (ss : List Bytes) → AllEdged (s ∷ ss) → Edged (join sep (s ∷ ss))
unfolding join
Edged-join sep s [] h = h.0
Edged-join sep s (t ∷ ts) h = Edged-append s sep (join sep (t ∷ ts)) h.0 (Edged-join sep t ts h.1)

-- A text is what stood in front of its first separator, the separator, and what stood behind.
abbrev CutOf : ℕ → Bytes → Option (Bytes × Bytes) → Type 0
CutOf sep s none = Unit
CutOf sep s (some (a, b)) = s ≡ a ++ (sep ∷ b)

cut-CutOf : (sep : ℕ) (s : Bytes) → CutOf sep s (cut sep s)
unfolding cut
cut-CutOf sep [] = tt
cut-CutOf sep (c ∷ s) = elim (Bool-cases (c == sep)) [
  | inl here ↦ rw here (ap (λ x. x ∷ s) ((==_iff c sep).0 here))
  | inr later ↦ elim (Option-cases (cut sep s)) [
    | inl none_there ↦ rw (later, none_there) tt
    | inr ((a, b), found) ↦
        let e : s ≡ a ++ (sep ∷ b) = rw found at (cut-CutOf sep s) in
        rw (later, found) (ap (◌∷◌ c) e)
  ]
]

pub cut-eq : (sep : ℕ) (s a b : Bytes) → cut sep s ≡ some (a, b) → s ≡ a ++ (sep ∷ b)
cut-eq sep s a b e = rw e at (cut-CutOf sep s)

-- A header of edged pieces without a comma comes apart into them, and is not empty.
pub split-trim_space-join :
    (sep : ℕ) (s : Bytes) (ss : List Bytes)
    → AllEdged (s ∷ ss)
    → AllFree sep (s ∷ ss)
    → (is_empty (trim_space (join sep (s ∷ ss))) ≡ false)
      × (split sep (trim_space (join sep (s ∷ ss))) ≡ s ∷ ss)
split-trim_space-join sep s ss e f =
    let whole = Edged-join sep s ss e in
    rw (trim_space-Edged (join sep (s ∷ ss)) whole)
      (ap is_empty whole.is_text, split-join sep s ss f)

abbrev pub graphics : Bytes → Bool
graphics [] = true
graphics (c ∷ s) = graphic c && graphics s

pub graphics-append :
    (s t : Bytes) → graphics s ≡ true → graphics t ≡ true → graphics (s ++ t) ≡ true
graphics-append [] t hs ht = ht
graphics-append (c ∷ s) t hs ht = ground (arith, graphics-append s t)

abbrev Snoc : Bytes → Type 0
Snoc s = (before : Bytes) × (final : ℕ) × (s ≡ before ++ final ∷ []) × (graphic final ≡ true)

graphics-Snoc : (c : ℕ) (s : Bytes) → graphics (c ∷ s) ≡ true → Snoc (c ∷ s)
graphics-Snoc c [] h = ([], c, refl, ground arith)
graphics-Snoc c (d ∷ s) h =
    let (before, final, e, g) = graphics-Snoc d s (ground arith) in
    (c ∷ before, final, ap (◌∷◌ c) e, g)

-- Two or more graphic bytes.
pub graphics-Edged : (c d : ℕ) (s : Bytes) → graphics (c ∷ d ∷ s) ≡ true → Edged (c ∷ d ∷ s)
graphics-Edged c d s h =
    let (before, final, e, g) = graphics-Snoc d s (ground arith) in
    record {
      first = c;
      middle = before;
      final = final;
      is_text = ap (◌∷◌ c) e;
      first_graphic = ground arith;
      final_graphic = g;
    }

pub trim_space-graphics : (s : Bytes) → graphics s ≡ true → trim_space s ≡ s
trim_space-graphics [] h = trim_space-nil
trim_space-graphics (c ∷ []) h = trim_space-one c (ground arith)
trim_space-graphics (c ∷ d ∷ s) h = trim_space-Edged (c ∷ d ∷ s) (graphics-Edged c d s h)
