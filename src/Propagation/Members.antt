-- ===== src/Propagation/Members.antt =====
-- The loop that NormalizeTracestate and NormalizeBaggage share, over the pieces of a header: `parse`
-- is what the loop makes of a piece, `none` where it continues with the next, `render` what it
-- appends for a key and a value, and `cap` the bound on the members.
use go_collector.Base.{
  ℕ, ◌+◌, ◌≤◌, Bool, true, false, ◌||◌, List, [], ◌∷◌, ◌++◌, map, ◌≡◌, sym, ◌∙◌, Option, none, some,
  arith, length, leb, lt→leb, append-nil, append_assoc, All, length-append, Bool-cases,
  Option-cases, inl, inr,
}
use go_collector.Base.Bytes.{Bytes, bytes_eq, is_empty}
use go_collector.Text.Edged.{Edged, AllEdged, Edged-join, split-trim_space-join}
use go_collector.Text.Split.{split, join, Free, AllFree}
use go_collector.Text.Trim.{trim_space}

abbrev pub elem : Bytes → List Bytes → Bool
elem k [] = false
elem k (s ∷ ss) = bytes_eq s k || elem k ss

abbrev pub Pair : Type 0
Pair = Bytes × Bytes

unfoldable pub collect :
    (Bytes → Option Pair) → (Pair → Bytes) → ℕ → List Bytes → List Bytes → List Bytes → List Bytes
collect parse render cap [] seen members = members
collect parse render cap (raw ∷ raws) seen members = elim (leb cap (length members)) [
  | true ↦ members
  | false ↦ elim (parse raw) [
    | none ↦ collect parse render cap raws seen members
    | some pair ↦ elim (elem pair.0 seen) [
      | true ↦ collect parse render cap raws seen members
      | false ↦ collect parse render cap raws (pair.0 ∷ seen) (members ++ render pair ∷ [])
    ]
  ]
]

-- No key of the pairs is among those seen, or among those in front of it.
abbrev pub Fresh : List Bytes → List Pair → Type 0
Fresh seen [] = Unit
Fresh seen (p ∷ ps) = (elem p.0 seen ≡ false) × Fresh (p.0 ∷ seen) ps

module _ (Good : Pair → Type 0) where
  abbrev pub AllGood : List Pair → Type 0
  AllGood [] = Unit
  AllGood (p ∷ ps) = Good p × AllGood ps

module _ (parse : Bytes → Option Pair) (render : Pair → Bytes) (cap : ℕ) (Good : Pair → Type 0)
    (Piece : Bytes → Type 0)
    (sound : (raw : Bytes) (p : Pair) → Piece raw → parse raw ≡ some p → Good p) where
  -- What the loop has added behind `members`.
  pub record Kept (seen members result : List Bytes) : Type 0 where
    pub pairs : List Pair
    pub is_result : result ≡ members ++ map render pairs
    pub good : AllGood Good pairs
    pub fresh : Fresh seen pairs
    pub within_cap : length members + length pairs ≤ cap

  Kept-none : (seen members : List Bytes) → length members ≤ cap → Kept seen members members
  Kept-none seen members h = record {
    pairs = [];
    is_result = sym (append-nil members);
    good = tt;
    fresh = tt;
    within_cap = omega arith;
  }

  Kept-more :
      (p : Pair) (seen members result : List Bytes)
      → Good p
      → elem p.0 seen ≡ false
      → Kept (p.0 ∷ seen) (members ++ render p ∷ []) result
      → Kept seen members result
  Kept-more p seen members result g new k = record {
    pairs = p ∷ k.pairs;
    is_result = k.is_result ∙ append_assoc members (render p ∷ []) (map render k.pairs);
    good = (g, k.good);
    fresh = (new, k.fresh);
    within_cap = omega (arith, k.within_cap, length-append {0} members (render p ∷ []));
  }

  pub collect-Kept :
      (raws seen members : List Bytes)
      → All Piece raws
      → length members ≤ cap
      → Kept seen members (collect parse render cap raws seen members)
  unfolding collect
  collect-Kept [] seen members pieces h = Kept-none seen members h
  collect-Kept (raw ∷ raws) seen members pieces h = elim (Bool-cases (leb cap (length members))) [
    | inl full ↦ rw (collect, full) (Kept-none seen members h)
    | inr room ↦ elim (Option-cases (parse raw)) [
      | inl skipped ↦ rw (collect, room, skipped) (collect-Kept raws seen members pieces.1 h)
      | inr (p, parsed) ↦ elim (Bool-cases (elem p.0 seen)) [
        | inl old ↦ rw (collect, room, parsed, old) (collect-Kept raws seen members pieces.1 h)
        | inr new ↦
            rw (collect, room, parsed, new)
              (Kept-more p seen members _ (sound raw p pieces.0 parsed) new (
                collect-Kept raws (p.0 ∷ seen) (members ++ render p ∷ []) pieces.1
                  (ground (arith, length-append {0} members (render p ∷ [])))))
      ]
    ]
  ]

  pub collect-again :
      (again : (p : Pair) → Good p → parse (render p) ≡ some p) (pairs : List Pair)
      (seen members : List Bytes)
      → AllGood Good pairs
      → Fresh seen pairs
      → length members + length pairs ≤ cap
      → collect parse render cap (map render pairs) seen members ≡ members ++ map render pairs
  unfolding collect
  collect-again again [] seen members g f h = sym (append-nil members)
  collect-again again (p ∷ ps) seen members g f h =
      rw (collect, lt→leb cap (length members) (omega arith), again p g.0, f.0)
        (collect-again again ps (p.0 ∷ seen) (members ++ render p ∷ []) g.1 f.1
            (omega (arith, length-append {0} members (render p ∷ [])))
          ∙ append_assoc members (render p ∷ []) (map render ps))

module _ (render : Pair → Bytes) (sep : ℕ) (Good : Pair → Type 0)
    (edged : (p : Pair) → Good p → Edged (render p))
    (free : (p : Pair) → Good p → Free sep (render p)) where
  AllEdged-render : (ps : List Pair) → AllGood Good ps → AllEdged (map render ps)
  AllEdged-render [] g = tt
  AllEdged-render (p ∷ ps) g = (edged p g.0, AllEdged-render ps g.1)

  AllFree-render : (ps : List Pair) → AllGood Good ps → AllFree sep (map render ps)
  AllFree-render [] g = tt
  AllFree-render (p ∷ ps) g = (free p g.0, AllFree-render ps g.1)

  -- A header joined from good members comes apart into them.
  pub split-rendered :
      (p : Pair) (ps : List Pair)
      → AllGood Good (p ∷ ps)
      → (is_empty (trim_space (join sep (map render (p ∷ ps)))) ≡ false)
        × (split sep (trim_space (join sep (map render (p ∷ ps)))) ≡ map render (p ∷ ps))
  split-rendered p ps g =
      split-trim_space-join sep (render p) (map render ps) (AllEdged-render (p ∷ ps) g)
        (AllFree-render (p ∷ ps) g)

  pub Edged-rendered :
      (p : Pair) (ps : List Pair) → AllGood Good (p ∷ ps) → Edged (join sep (map render (p ∷ ps)))
  Edged-rendered p ps g = Edged-join sep (render p) (map render ps) (AllEdged-render (p ∷ ps) g)
