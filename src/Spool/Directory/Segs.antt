-- ===== src/Spool/Directory/Segs.antt =====
-- The abstract view of a directory: its segments, oldest first, each a generation and its bytes.
use go_collector.Base.{
  ℕ, ◌+◌, ◌≤◌, ◌<◌, true, false, List, [], ◌∷◌, ◌++◌, ◌≡◌, refl, sym, ap, ◌∙◌, Option, none, some,
  arith, All, ◌==◌, if◌then◌else◌, Bool-cases, inl, inr, ==_refl,
}
use go_collector.Base.Assoc.{lookup}
use go_collector.Base.Bytes.{Bytes, bytes_eq, bytes_eq_iff, bytes_eq_refl}
use go_collector.Base.Decimal.{u64_mod}
use go_collector.Spool.Names.{segment_name, generation_of, generation_of-segment_name}
use go_collector.Spool.Directory.{Files, parsed, sort}

abbrev pub Segs : Type 0
Segs = List (ℕ × Bytes)

abbrev pub gens : Segs → List ℕ
gens [] = []
gens ((g, c) ∷ ss) = g ∷ gens ss

abbrev pub find : ℕ → Segs → Option Bytes
find j [] = none
find j ((g, c) ∷ ss) = if g == j then some c else find j ss

-- Strictly ascending from `lo`.
abbrev pub Strict : ℕ → Segs → Type 0
Strict lo [] = Unit
Strict lo ((g, c) ∷ ss) = (lo ≤ g) × Strict (g + 1) ss

abbrev pub Below : ℕ → Segs → Type 0
Below n [] = Unit
Below n ((g, c) ∷ ss) = (g < n) × Below n ss

-- No file has a name that reads as a generation and is spelled otherwise than segmentName does.
abbrev pub IsCanonical : Files → Type 0
IsCanonical [] = Unit
IsCanonical ((name, content) ∷ rest) =
    ((g : ℕ) → generation_of name ≡ some g → name ≡ segment_name g) × IsCanonical rest

pub record Represents (files : Files) (segs : Segs) : Type 0 where
  pub canonical : IsCanonical files
  pub scanned : sort (parsed files) ≡ gens segs
  pub contents : (g : ℕ) → g < u64_mod → lookup (segment_name g) files ≡ find g segs
  pub strict : Strict 0 segs
  pub in_range : Below u64_mod segs

some_eq : (a b : ℕ) → ◌≡◌ {A = Option ℕ} (some a) (some b) → a ≡ b
some_eq a b h = cc

segment_name_injective :
    (g j : ℕ) → g < u64_mod → j < u64_mod → segment_name g ≡ segment_name j → g ≡ j
segment_name_injective g j hg hj e =
    some_eq g j
      (sym (generation_of-segment_name g hg) ∙ ap generation_of e ∙ generation_of-segment_name j hj)

pub bytes_eq-segment_name :
    (g j : ℕ) → g < u64_mod → j < u64_mod → bytes_eq (segment_name g) (segment_name j) ≡ (g == j)
bytes_eq-segment_name g j hg hj = elim (Bool-cases (bytes_eq (segment_name g) (segment_name j))) [
  | inl same ↦
      let e =
        segment_name_injective g j hg hj
          ((bytes_eq_iff (segment_name g) (segment_name j)).0 same) in
      let now : (g == j) ≡ true = rw e (==_refl j) in same ∙ sym now
  | inr other ↦ elim (Bool-cases (g == j)) [
    | inl eq ↦
        let e : g ≡ j = ground arith in
        let same : bytes_eq (segment_name g) (segment_name j) ≡ true =
          rw e (bytes_eq_refl (segment_name j)) in
        absurd (cc (other, same))
    | inr ne ↦ other ∙ sym ne
  ]
]

pub Below-weaken : (lo : ℕ) (j : ℕ) (ss : Segs) → Strict lo ss → j < lo → find j ss ≡ none
Below-weaken lo j [] h l = refl
Below-weaken lo j ((g, c) ∷ ss) h l =
    let ne : (g == j) ≡ false = ground arith in rw ne (Below-weaken (g + 1) j ss h.1 (omega arith))

pub Below-find : (n : ℕ) (ss : Segs) → Below n ss → find n ss ≡ none
Below-find n [] h = refl
Below-find n ((g, c) ∷ ss) h =
    let ne : (g == n) ≡ false = ground arith in rw ne (Below-find n ss h.1)

abbrev pub or_last : Option Bytes → Option Bytes → Option Bytes
or_last (some c) o = some c
or_last none o = o

pub find-append :
    (j g : ℕ) (c : Bytes) (ss : Segs)
    → find j (ss ++ (g, c) ∷ []) ≡ or_last (find j ss) (if g == j then some c else none)
find-append j g c [] = refl
find-append j g c ((k, d) ∷ ss) = ground (arith, find-append j g c ss)

pub gens-append : (ss : Segs) (g : ℕ) (c : Bytes) → gens (ss ++ (g, c) ∷ []) ≡ gens ss ++ g ∷ []
gens-append [] g c = refl
gens-append ((k, d) ∷ ss) g c = ap (◌∷◌ k) (gens-append ss g c)

pub All-gens : (n : ℕ) (ss : Segs) → Below n ss → All (λ y. y < n) (gens ss)
All-gens n [] h = tt
All-gens n ((g, c) ∷ ss) h = (h.0, All-gens n ss h.1)

pub Strict-append :
    (lo n : ℕ) (c : Bytes) (ss : Segs)
    → Strict lo ss
    → Below n ss
    → lo ≤ n
    → Strict lo (ss ++ (n, c) ∷ [])
Strict-append lo n c [] s b h = (h, tt)
Strict-append lo n c ((g, d) ∷ ss) s b h =
    (s.0, Strict-append (g + 1) n c ss s.1 b.1 (omega (arith, b.0)))

pub Below-append :
    (m n : ℕ) (c : Bytes) (ss : Segs) → Below m ss → n < m → Below m (ss ++ (n, c) ∷ [])
Below-append m n c [] b h = (h, tt)
Below-append m n c ((g, d) ∷ ss) b h = (b.0, Below-append m n c ss b.1 h)

-- A strictly ascending list that ends with `g` has all the others below `g`.
pub Strict-Below :
    (lo g : ℕ) (c : Bytes) (ss : Segs) → Strict lo (ss ++ (g, c) ∷ []) → (lo ≤ g) × Below g ss
Strict-Below lo g c [] s = (s.0, tt)
Strict-Below lo g c ((k, d) ∷ ss) s =
    let (le, below) = Strict-Below (k + 1) g c ss s.1 in (omega (arith, s.0), (omega arith, below))

pub Below-init :
    (m g : ℕ) (c : Bytes) (ss : Segs) → Below m (ss ++ (g, c) ∷ []) → (g < m) × Below m ss
Below-init m g c [] b = (b.0, tt)
Below-init m g c ((k, d) ∷ ss) b =
    let (less, below) = Below-init m g c ss b.1 in (less, (b.0, below))

pub Strict-init : (lo g : ℕ) (c : Bytes) (ss : Segs) → Strict lo (ss ++ (g, c) ∷ []) → Strict lo ss
Strict-init lo g c [] s = tt
Strict-init lo g c ((k, d) ∷ ss) s = (s.0, Strict-init (k + 1) g c ss s.1)
