-- ===== src/Spool/Directory/Steps.antt =====
-- What writing, creating and removing a file do to the abstract view.
use go_collector.Base.{
  ℕ, ◌+◌, ◌≤◌, ◌<◌, [], ◌∷◌, ◌++◌, ◌≡◌, refl, sym, ap, ◌∙◌, Option, none, some, arith, ◌==◌,
  if◌then◌else◌, Bool-cases, Option-cases, inl, inr, ==_refl, All,
}
use go_collector.Base.Assoc.{lookup, put, remove, lookup-put, lookup-remove}
use go_collector.Base.Bytes.{Bytes, bytes_eq, bytes_eq_iff}
use go_collector.Base.Decimal.{u64_mod}
use go_collector.Spool.Names.{segment_name, generation_of, generation_of-segment_name}
use go_collector.Spool.Directory.{Files, parsed, insert_sorted, sort}
use go_collector.Spool.Directory.Sorted.{insert_sorted-last, without, sort-without, without-All}
use go_collector.Spool.Directory.Segs.{
  Segs, gens, find, Strict, Below, IsCanonical, Represents, bytes_eq-segment_name, Below-weaken,
  Below-find, find-append, gens-append, All-gens, Strict-append, Below-append, Strict-Below,
  Strict-init, Below-init, or_last,
}

canonical_name :
    (g : ℕ)
    → g < u64_mod
    → (j : ℕ) → generation_of (segment_name g) ≡ some j
    → segment_name g ≡ segment_name j
canonical_name g h j e = ap segment_name (some_eq (sym (generation_of-segment_name g h) ∙ e))
  where
    some_eq : ◌≡◌ {A = Option ℕ} (some g) (some j) → g ≡ j
    some_eq p = cc

parsed-put :
    (k v c : Bytes) (files : Files)
    → lookup k files ≡ some c
    → parsed (put k v files) ≡ parsed files
unfolding lookup put
parsed-put k v c [] e = absurd (cc)
parsed-put k v c ((n, d) ∷ fs) e = elim (Bool-cases (bytes_eq n k)) [
  | inl same ↦ rw same
  | inr other ↦ elim (Option-cases (generation_of n)) [
    | inl no_segment ↦ ground (arith, parsed-put k v c fs)
    | inr (g, segment) ↦ ground (arith, parsed-put k v c fs)
  ]
]

IsCanonical-put :
    (k v c : Bytes) (files : Files)
    → lookup k files ≡ some c
    → IsCanonical files
    → IsCanonical (put k v files)
unfolding lookup put
IsCanonical-put k v c [] e h = absurd (cc)
IsCanonical-put k v c ((n, d) ∷ fs) e h = elim (Bool-cases (bytes_eq n k)) [
  | inl same ↦ rw same (h.0, h.1)
  | inr other ↦ rw other (h.0, IsCanonical-put k v c fs (rw other at e) h.1)
]

find_last :
    (g j : ℕ) (c c' : Bytes) (ss : Segs)
    → find g ss ≡ none
    → (if g == j then some c' else or_last (find j ss) (if g == j then some c else none))
      ≡ or_last (find j ss) (if g == j then some c' else none)
find_last g j c c' ss absent = elim (Bool-cases (g == j)) [
  | inl same ↦
      let e : g ≡ j = ground arith in
      let absent' : find j ss ≡ none = rw e at absent in rw (same, absent')
  | inr other ↦ rw other
]

-- Writing to the newest segment changes its bytes and nothing else.
pub Represents-put :
    (files : Files) (ss : Segs) (g : ℕ) (c c' : Bytes)
    → Represents files (ss ++ (g, c) ∷ [])
    → Represents (put (segment_name g) c' files) (ss ++ (g, c') ∷ [])
Represents-put files ss g c c' r =
    let (in_range, others) = Below-init u64_mod g c ss r.in_range in
    let (above, below) = Strict-Below 0 g c ss r.strict in
    let absent = Below-find g ss below in
    let there : lookup (segment_name g) files ≡ some c =
      r.contents g in_range ∙ find-append g g c ss ∙ rw (absent, ==_refl g) in
    record {
      canonical = IsCanonical-put (segment_name g) c' c files there r.canonical;
      scanned =
          ap sort (parsed-put (segment_name g) c' c files there)
          ∙ r.scanned
          ∙ gens-append ss g c
          ∙ sym (gens-append ss g c');
      contents = λ j h.
          lookup-put (segment_name g) (segment_name j) c' files
          ∙ rw
              (
                bytes_eq-segment_name g j in_range h,
                r.contents j h,
                find-append j g c ss,
                find-append j g c' ss,
              )
              (find_last g j c c' ss absent);
      strict = Strict-append 0 g c' ss (Strict-init 0 g c ss r.strict) below above;
      in_range = Below-append u64_mod g c' ss others in_range;
    }

find_new :
    (g j : ℕ) (c : Bytes) (ss : Segs)
    → find g ss ≡ none
    → (if g == j then some c else find j ss) ≡ or_last (find j ss) (if g == j then some c else none)
find_new g j c ss absent = elim (Bool-cases (g == j)) [
  | inl same ↦
      let e : g ≡ j = ground arith in
      let absent' : find j ss ≡ none = rw e at absent in rw (same, absent')
  | inr other ↦ rw other (or_none (find j ss))
]
  where
    or_none : (o : Option Bytes) → o ≡ or_last o none
    or_none none = refl
    or_none (some d) = refl

parsed-cons :
    (name content : Bytes) (g : ℕ) (files : Files)
    → generation_of name ≡ some g
    → parsed ((name, content) ∷ files) ≡ g ∷ parsed files
parsed-cons name content g files e = ground arith

-- A new segment behind all others, empty.
pub Represents-create :
    (files : Files) (ss : Segs) (n : ℕ)
    → Represents files ss
    → Below n ss
    → n < u64_mod
    → Represents ((segment_name n, []) ∷ files) (ss ++ (n, []) ∷ [])
unfolding lookup
Represents-create files ss n r below h = record {
  canonical = (canonical_name n h, r.canonical);
  scanned =
      ap sort (parsed-cons (segment_name n) [] n files (generation_of-segment_name n h))
      ∙ ap (insert_sorted n) r.scanned
      ∙ insert_sorted-last n (gens ss) (All-gens n ss below)
      ∙ sym (gens-append ss n []);
  contents = λ j hj.
      rw (bytes_eq-segment_name n j h hj, r.contents j hj, find-append j n [] ss)
        (find_new n j [] ss (Below-find n ss below));
  strict = Strict-append 0 n [] ss r.strict below (omega arith);
  in_range = Below-append u64_mod n [] ss r.in_range h;
}

parsed-remove :
    (g : ℕ) (files : Files)
    → g < u64_mod
    → IsCanonical files
    → parsed (remove (segment_name g) files) ≡ without g (parsed files)
unfolding remove
parsed-remove g [] h can = refl
parsed-remove g ((n, d) ∷ fs) h can = elim (Bool-cases (bytes_eq n (segment_name g))) [
  | inl same ↦
      let e : n ≡ segment_name g = (bytes_eq_iff n (segment_name g)).0 same in
      let gen : generation_of n ≡ some g = rw e (generation_of-segment_name g h) in
      ground (arith, parsed-remove g fs h can.1)
  | inr other ↦ elim (Option-cases (generation_of n)) [
    | inl no_segment ↦ ground (arith, parsed-remove g fs h can.1)
    | inr (j, segment) ↦ elim (Bool-cases (j == g)) [
      | inl eq ↦
          let e : j ≡ g = ground arith in
          let named : n ≡ segment_name g = can.0 j segment ∙ ap segment_name e in
          absurd (cc (other, (bytes_eq_iff n (segment_name g)).1 named))
      | inr ne ↦ ground (arith, parsed-remove g fs h can.1)
    ]
  ]
]

IsCanonical-remove : (k : Bytes) (files : Files) → IsCanonical files → IsCanonical (remove k files)
unfolding remove
IsCanonical-remove k [] h = tt
IsCanonical-remove k ((n, d) ∷ fs) h = elim (Bool-cases (bytes_eq n k)) [
  | inl same ↦ rw same (IsCanonical-remove k fs h.1)
  | inr other ↦ rw other (h.0, IsCanonical-remove k fs h.1)
]

Above-All : (lo g : ℕ) (ss : Segs) → Strict lo ss → g < lo → All (λ x. g < x) (gens ss)
Above-All lo g [] s h = tt
Above-All lo g ((k, c) ∷ ss) s h =
    (omega (arith, s.0), Above-All (k + 1) g ss s.1 (omega (arith, s.0)))

Strict-weaken : (lo hi : ℕ) (ss : Segs) → lo ≤ hi → Strict hi ss → Strict lo ss
Strict-weaken lo hi [] h s = tt
Strict-weaken lo hi ((k, c) ∷ ss) h s = (omega (arith, s.0), s.1)

find_rest :
    (g j : ℕ) (c : Bytes) (ss : Segs)
    → find g ss ≡ none
    → (if g == j then none else (if g == j then some c else find j ss)) ≡ find j ss
find_rest g j c ss absent = elim (Bool-cases (g == j)) [
  | inl same ↦
      let e : g ≡ j = ground arith in
      let absent' : find j ss ≡ none = rw e at absent in rw (same, absent')
  | inr other ↦ rw other
]

-- Removing the oldest segment takes it off the front.
pub Represents-remove :
    (files : Files) (ss : Segs) (g : ℕ) (c : Bytes)
    → Represents files ((g, c) ∷ ss)
    → Represents (remove (segment_name g) files) ss
Represents-remove files ss g c r =
    let h : g < u64_mod = r.in_range.0 in
    let later = Above-All (g + 1) g ss r.strict.1 (omega arith) in
    record {
      canonical = IsCanonical-remove (segment_name g) files r.canonical;
      scanned =
          ap sort (parsed-remove g files h r.canonical)
          ∙ sort-without g (parsed files)
          ∙ ap (without g) r.scanned
          ∙ rw (==_refl g) (without-All g (gens ss) later);
      contents = λ j hj.
          lookup-remove (segment_name g) (segment_name j) files
          ∙ rw (bytes_eq-segment_name g j h hj, r.contents j hj)
              (find_rest g j c ss (Below-weaken (g + 1) g ss r.strict.1 (omega arith)));
      strict = Strict-weaken 0 (g + 1) ss (omega arith) r.strict.1;
      in_range = r.in_range.1;
    }
