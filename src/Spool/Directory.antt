-- ===== src/Spool/Directory.antt =====
-- Generations, createSegment, openActive, rotate and enforceSegmentBudget of spool/segment.go, over
-- the files of one directory. A file handle is the name that was opened.
pub mod Sorted
pub mod Segs
pub mod Steps
use go_collector.Base.{
  ℕ, suc, ◌+◌, ◌-◌, ◌*◌, ◌%◌, Bool, true, false, List, [], ◌∷◌, Option, none, some, length, take,
  leb, ltb, if◌then◌else◌,
}
use go_collector.Base.Assoc.{lookup, remove}
use go_collector.Base.Bytes.{Bytes}
use go_collector.Base.Decimal.{u64_mod}
use go_collector.Spool.Names.{segment_name, generation_of}

abbrev pub segment_max_bytes : ℕ
segment_max_bytes = 64 * 1024 * 1024

abbrev pub max_segments : ℕ
max_segments = 4

-- Files by name, in the order in which os.ReadDir returns them.
abbrev pub Files : Type 0
Files = List (Bytes × Bytes)

-- Which system calls the host lets succeed, where the files alone do not decide. os.File.Write
-- returns the bytes that it wrote of so many, and whether it reports an error.
pub record Host : Type 0 where
  pub mkdir_ok : Bool
  pub scan_ok : Bool
  pub create_ok : Bool
  pub open_ok : Bool
  pub remove_ok : Bool
  pub write : ℕ → ℕ × Bool

abbrev pub host_fine : Host
host_fine = record {
  mkdir_ok = true;
  scan_ok = true;
  create_ok = true;
  open_ok = true;
  remove_ok = true;
  write = λ n. (n, false);
}

-- The files, and the two counters of what this process has discarded (uint64).
pub record Spool : Type 0 where
  pub files : Files
  pub dropped_frames : ℕ
  pub dropped_bytes : ℕ

abbrev pub count_dropped : ℕ → ℕ → Spool → Spool
count_dropped frames bytes s = record s {
  dropped_frames = (s.dropped_frames + frames) % u64_mod;
  dropped_bytes = (s.dropped_bytes + bytes) % u64_mod;
}

abbrev pub parsed : Files → List ℕ
parsed [] = []
parsed ((name, content) ∷ rest) = elim (generation_of name) [
  | none ↦ parsed rest
  | some g ↦ g ∷ parsed rest
]

abbrev pub insert_sorted : ℕ → List ℕ → List ℕ
insert_sorted x [] = x ∷ []
insert_sorted x (y ∷ ys) = if leb x y then x ∷ y ∷ ys else y ∷ insert_sorted x ys

-- sort.Slice on numbers by `<`: there is one ascending list of them.
abbrev pub sort : List ℕ → List ℕ
sort [] = []
sort (x ∷ xs) = insert_sorted x (sort xs)

unfoldable pub generations : Host → Files → List ℕ
generations host files = if host.scan_ok then sort (parsed files) else []

abbrev pub last : List ℕ → Option ℕ
last [] = none
last (x ∷ []) = some x
last (x ∷ y ∷ ys) = last (y ∷ ys)

pub data Created : Type 0 where
  created : Files → Created
  exists refused : Created

-- O_CREATE|O_EXCL
unfoldable pub create_segment : Host → Files → ℕ → Created
create_segment host files generation = elim (lookup (segment_name generation) files) [
  | some content ↦ exists
  | none ↦ if host.create_ok then created ((segment_name generation, []) ∷ files) else refused
]

pub data Opened : Type 0 where
  opened : ℕ → Files → Opened
  open_failed : Files → Opened

-- What other processes do to the directory between the scan of a round and its open.
abbrev pub Gap : Type 0
Gap = Files → Files

abbrev pub open_first : Created → Files → Option Opened → Option Opened
open_first (created files) old again = some (opened 1 files)
open_first exists old again = again
open_first refused old again = some (open_failed old)

unfoldable pub open_newest : Host → ℕ → Files → Option Opened → Option Opened
open_newest host generation files again = elim (lookup (segment_name generation) files) [
  | none ↦ again
  | some content ↦ some (if host.open_ok then opened generation files else open_failed files)
]

-- One round of the loop for each gap; `none` means that the gaps ran out and it still loops.
unfoldable pub open_active : Host → List Gap → Files → Option Opened
unfolding open_newest
open_active host [] files = none
open_active host (gap ∷ gaps) files =
    let again = open_active host gaps (gap files) in
    elim (last (generations host files)) [
      | none ↦ open_first (create_segment host (gap files) 1) (gap files) again
      | some generation ↦ open_newest host generation (gap files) again
    ]

-- Stat fails, and so does Remove, where the file is gone.
unfoldable pub drop_segment : Host → ℕ → Spool → Spool
drop_segment host generation s = elim (lookup (segment_name generation) s.files) [
  | none ↦ s
  | some content ↦
      if host.remove_ok
      then count_dropped 1 (length content)
          (record s { files = remove (segment_name generation) s.files })
      else s
]

abbrev pub drop_segments : Host → List ℕ → Spool → Spool
drop_segments host [] s = s
drop_segments host (g ∷ gs) s = drop_segments host gs (drop_segment host g s)

unfoldable pub enforce_segment_budget : Host → Spool → Spool
unfolding drop_segment generations
enforce_segment_budget host s =
    let gens = generations host s.files in
    if leb (length gens) max_segments
    then s
    else drop_segments host (take (length gens - max_segments) gens) s

pub data Rotated : Type 0 where
  rotated : ℕ → Spool → Rotated
  rotate_failed : Spool → Rotated

abbrev pub reopened : Option Opened → Spool → Option Rotated
reopened none s = none
reopened (some (opened g files)) s = some (rotated g (record s { files = files }))
reopened (some (open_failed files)) s = some (rotate_failed (record s { files = files }))

unfoldable pub rotate : Host → List Gap → ℕ → Spool → Option Rotated
unfolding open_active create_segment enforce_segment_budget
rotate host gaps active s =
    let next = (active + 1) % u64_mod in
    let again = reopened (open_active host gaps s.files) s in
    elim (create_segment host s.files next) [
      | exists ↦ again
      | refused ↦ some (rotate_failed s)
      | created files ↦
          some (rotated next (enforce_segment_budget host (record s { files = files })))
    ]
