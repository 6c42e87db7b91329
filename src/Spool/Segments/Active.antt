-- ===== src/Spool/Segments/Active.antt =====
-- openActive and rotate on a directory that nobody else touches meanwhile.
use go_collector.Base.{
  ℕ, zero, suc, ◌+◌, ◌-◌, ◌%◌, ◌≤◌, ◌<◌, List, [], ◌∷◌, ◌++◌, ◌≡◌, refl, ap, ◌∙◌, none, some, arith,
  length, take, drop, leb, leb→le, ==_refl, if◌then◌else◌, Bool-cases, inl, inr,
}
use go_collector.Base.Assoc.{lookup, remove}
use go_collector.Base.Bytes.{Bytes}
use go_collector.Base.Decimal.{u64_mod}
use go_collector.Spool.Directory.{
  Files, host_fine, Spool, Gap, opened, rotated, generations, last, create_segment, open_newest,
  open_active, drop_segment, drop_segments, enforce_segment_budget, rotate, count_dropped,
}
use go_collector.Spool.Directory.Segs.{
  Segs, gens, Below, Represents, Below-find, find-append, gens-append, Strict-Below, Below-init,
}
use go_collector.Spool.Directory.Sorted.{last-append}
use go_collector.Spool.Directory.Steps.{Represents-remove}
use go_collector.Spool.Names.{segment_name}

abbrev pub quiet : Gap
quiet files = files

pub generations-Represents :
    (files : Files) (segs : Segs) → Represents files segs → generations host_fine files ≡ gens segs
unfolding generations
generations-Represents files segs r = r.scanned

pub lookup_newest :
    (files : Files) (ss : Segs) (g : ℕ) (c : Bytes)
    → Represents files (ss ++ (g, c) ∷ [])
    → lookup (segment_name g) files ≡ some c
lookup_newest files ss g c r =
    let (in_range, others) = Below-init u64_mod g c ss r.in_range in
    let (above, below) = Strict-Below 0 g c ss r.strict in
    r.contents g in_range ∙ find-append g g c ss ∙ rw (Below-find g ss below, ==_refl g)

pub open_active_newest :
    (gaps : List Gap) (files : Files) (ss : Segs) (g : ℕ) (c : Bytes)
    → Represents files (ss ++ (g, c) ∷ [])
    → open_active host_fine (quiet ∷ gaps) files ≡ some (opened g files)
unfolding open_active
open_active_newest gaps files ss g c r =
    let newest : last (generations host_fine files) ≡ some g =
      ap last (generations-Represents files (ss ++ (g, c) ∷ []) r ∙ gens-append ss g c)
      ∙ last-append (gens ss) g in
    let there = lookup_newest files ss g c r in rw (newest, open_active) (rw (there, open_newest))

pub open_active_empty :
    (gaps : List Gap) (files : Files)
    → Represents files []
    → open_active host_fine (quiet ∷ gaps) files ≡ some (opened 1 ((segment_name 1, []) ∷ files))
unfolding open_active create_segment
open_active_empty gaps files r =
    let newest : last (generations host_fine files) ≡ none =
      ap last (generations-Represents files [] r) in
    let absent : lookup (segment_name 1) files ≡ none = r.contents 1 (omega arith) in
    rw (newest, open_active) (rw (absent, create_segment))

pub drop-append_le {ℓ} :
    {A : Type ℓ} (k : ℕ) (xs ys : List A) → k ≤ length xs → drop k (xs ++ ys) ≡ drop k xs ++ ys
drop-append_le zero xs ys h = refl
drop-append_le (suc k) [] ys h = absurd (omega arith)
drop-append_le (suc k) (x ∷ xs) ys h = drop-append_le k xs ys (omega arith)

pub take-append_le {ℓ} :
    {A : Type ℓ} (k : ℕ) (xs ys : List A) → k ≤ length xs → take k (xs ++ ys) ≡ take k xs
take-append_le zero xs ys h = refl
take-append_le (suc k) [] ys h = absurd (omega arith)
take-append_le (suc k) (x ∷ xs) ys h = ap (◌∷◌ x) (take-append_le k xs ys (omega arith))

length-gens : (segs : Segs) → length (gens segs) ≡ length segs
length-gens [] = refl
length-gens ((g, c) ∷ ss) = ap suc (length-gens ss)

abbrev pub bytes_in : Segs → ℕ
bytes_in [] = 0
bytes_in ((g, c) ∷ ss) = length c + bytes_in ss

pub Below-next : (g : ℕ) (c : Bytes) (ss : Segs) → Below g ss → Below (g + 1) (ss ++ (g, c) ∷ [])
Below-next g c [] b = (omega arith, tt)
Below-next g c ((k, d) ∷ ss) b = (omega (arith, b.0), Below-next g c ss b.1)

-- What a budget that keeps the newest segments has counted as dropped, modulo 2^64.
pub record Counted (s t : Spool) (segs : Segs) : Type 0 where
  pub frames : t.dropped_frames % u64_mod ≡ (s.dropped_frames + length segs) % u64_mod
  pub bytes : t.dropped_bytes % u64_mod ≡ (s.dropped_bytes + bytes_in segs) % u64_mod

Counted-none : (s : Spool) → Counted s s []
Counted-none s = record { frames = omega arith; bytes = omega arith }

drop_segment-oldest :
    (s : Spool) (ss : Segs) (g : ℕ) (c : Bytes)
    → Represents s.files ((g, c) ∷ ss)
    → drop_segment host_fine g s
      ≡ count_dropped 1 (length c) (record s { files = remove (segment_name g) s.files })
unfolding drop_segment
drop_segment-oldest s ss g c r =
    let there : lookup (segment_name g) s.files ≡ some c =
      r.contents g r.in_range.0 ∙ rw (==_refl g) in
    rw (there, drop_segment)

drop_segments-Represents :
    (k : ℕ) (segs : Segs) (s : Spool)
    → Represents s.files segs
    → Represents (drop_segments host_fine (take k (gens segs)) s).files (drop k segs)
      × Counted s (drop_segments host_fine (take k (gens segs)) s) (take k segs)
drop_segments-Represents zero segs s r = (r, Counted-none s)
drop_segments-Represents (suc k) [] s r = (r, Counted-none s)
drop_segments-Represents (suc k) ((g, c) ∷ ss) s r =
    let s1 = count_dropped 1 (length c) (record s { files = remove (segment_name g) s.files }) in
    let (rest, counted) = drop_segments-Represents k ss s1 (Represents-remove s.files ss g c r) in
    rw (drop_segment-oldest s ss g c r) (
      rest,
      record { frames = omega (arith, counted.frames); bytes = omega (arith, counted.bytes) },
    )

enforce_segment_budget-eq :
    (s : Spool) (segs : Segs)
    → Represents s.files segs
    → enforce_segment_budget host_fine s ≡ (
        if leb (length segs) 4
        then s
        else drop_segments host_fine (take (length segs - 4) (gens segs)) s)
unfolding enforce_segment_budget
enforce_segment_budget-eq s segs r = rw (generations-Represents s.files segs r, length-gens segs)

-- The budget leaves the newest four segments, untouched, and counts one dropped frame for each
-- segment that goes, and its bytes.
pub enforce_segment_budget-Represents :
    (s : Spool) (segs : Segs)
    → Represents s.files segs
    → Represents (enforce_segment_budget host_fine s).files (drop (length segs - 4) segs)
      × Counted s (enforce_segment_budget host_fine s) (take (length segs - 4) segs)
enforce_segment_budget-Represents s segs r = elim (Bool-cases (leb (length segs) 4)) [
  | inl fits ↦
      let none_over : length segs - 4 ≡ 0 = omega (arith, leb→le (length segs) 4 fits) in
      rw (enforce_segment_budget-eq s segs r, fits, none_over) (r, Counted-none s)
  | inr over ↦
      rw (enforce_segment_budget-eq s segs r, over)
        (drop_segments-Represents (length segs - 4) segs s r)
]

pub rotate_newest :
    (gaps : List Gap) (s : Spool) (ss : Segs) (g : ℕ) (c : Bytes)
    → Represents s.files (ss ++ (g, c) ∷ [])
    → g + 1 < u64_mod
    → rotate host_fine gaps g s
      ≡ some (
          rotated (g + 1) (
            enforce_segment_budget host_fine
              (record s { files = (segment_name (g + 1), []) ∷ s.files })))
unfolding rotate
rotate_newest gaps s ss g c r h =
    let (above, below) = Strict-Below 0 g c ss r.strict in
    let absent : lookup (segment_name (g + 1)) s.files ≡ none =
      r.contents (g + 1) h ∙ Below-find (g + 1) (ss ++ (g, c) ∷ []) (Below-next g c ss below) in
    let next : (g + 1) % u64_mod ≡ g + 1 = omega arith in
    rw (next, rotate) (rw (absent, create_segment) (rw next))
