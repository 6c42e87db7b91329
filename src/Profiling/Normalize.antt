-- ===== src/Profiling/Normalize.antt =====
-- profiling.go: pprof's profiles, as profile samples. A profile is what github.com/google/pprof parses;
-- the order in which Go ranges over the labels of a sample does not matter, since their keys are
-- distinct.
use go_collector.Base.{
  ℕ, suc, ◌*◌, ◌^◌, Bool, true, not, ◌&&◌, ◌||◌, List, [], ◌∷◌, ◌++◌, Option, none, some,
  if◌then◌else◌,
}
use go_collector.Base.Assoc.{lookup, put, remove}
use go_collector.Base.Bytes.{Bytes, codes, is_empty}
use go_collector.Base.Decimal.{itoa}
use go_collector.Base.Int.{ℤ, pos, pos_part, leb_ℤ}
use go_collector.Config.{Config, zero_config}
use go_collector.Identity.{organisation_ref, application_ref}
use go_collector.Profiling.Symbols.{
  ProfileFrame, frame_module, base_name, has_userland_frame, is_self_profiling_stack,
}
use go_collector.Profiling.Wait.{idle, classify_wait}
use go_collector.Profiling.Wall.{ProfileSample, ProfileCorrelation, Binary}
use go_collector.Resource.{Attributes}
use go_collector.Sql.Params.{format_int}

pub record PprofFunction : Type 0 where
  pub name : Bytes
  pub filename : Bytes

pub record PprofLine : Type 0 where
  pub function : Option PprofFunction
  pub line : ℤ

-- `mapping` is the file of the mapping, and `address` its text as `0x%x`.
pub record Location : Type 0 where
  pub mapping : Option Bytes
  pub address : Bytes
  pub lines : List PprofLine

pub record PprofSample : Type 0 where
  pub location : List (Option Location)
  pub value : List ℤ
  pub label : List (Bytes × List Bytes)

pub record PprofProfile : Type 0 where
  pub period : ℤ
  pub sample : List (Option PprofSample)

pub record NormalizeOptions : Type 0 where
  pub organisation : Bytes
  pub project : Bytes
  pub application : Bytes
  pub series_id : Bytes
  pub sample_type : Bytes
  pub unit : Bytes
  pub labels : Attributes
  pub drop_non_userland : Bool
  pub drop_idle_waits : Bool

abbrev pub options_config : NormalizeOptions → Config
options_config opt = record zero_config {
  organisation = opt.organisation;
  project = opt.project;
  application = opt.application;
}

-- Nanoseconds.
abbrev pub period_of : PprofProfile → ℤ
period_of prof = if leb_ℤ prof.period (pos 0) then pos (10 * (1000 * 1000)) else prof.period

abbrev pub is_zero : ℤ → Bool
is_zero n = leb_ℤ n (pos 0) && leb_ℤ (pos 0) n

abbrev pub last_value : ℤ → List ℤ → ℤ
last_value v [] = v
last_value v (w ∷ vs) = last_value w vs

abbrev pub value_of : List ℤ → ℤ
value_of [] = pos 0
value_of (v ∷ vs) = if is_zero (last_value v vs) then v else last_value v vs

unfoldable pub merge_pprof_sample_labels : List (Bytes × List Bytes) → Attributes → Attributes
merge_pprof_sample_labels [] dst = dst
merge_pprof_sample_labels ((key, []) ∷ ls) dst = merge_pprof_sample_labels ls dst
merge_pprof_sample_labels ((key, v ∷ _) ∷ ls) dst =
    merge_pprof_sample_labels ls (if is_empty v then dst else put key v dst)

abbrev pub or_empty : Option Bytes → Bytes
or_empty none = []
or_empty (some v) = v

-- The correlation, and the labels without its ids.
unfoldable pub take_correlation : Attributes → Option ProfileCorrelation × Attributes
take_correlation labels =
    let trace_id = or_empty (lookup (codes "trace_id") labels) in
    let span_id = or_empty (lookup (codes "span_id") labels) in
    if is_empty trace_id && is_empty span_id then (none, labels) else (
      some (record { trace_id = trace_id; span_id = span_id }),
      remove (codes "span_id") (remove (codes "trace_id") labels),
    )

abbrev pub function_name : Option PprofFunction → Bytes
function_name none = []
function_name (some f) = f.name

abbrev pub function_file : Option PprofFunction → Bytes
function_file none = []
function_file (some f) = f.filename

abbrev pub mapping_module : Option Bytes → Bytes
mapping_module none = []
mapping_module (some file) = base_name file

abbrev pub wide_line : ℤ → ℕ
wide_line line = if leb_ℤ line (pos 0) || leb_ℤ (pos (2 ^ 32)) line then 0 else pos_part line

module _ (bin : Binary) where
  abbrev pub line_frame : Bytes → PprofLine → ProfileFrame
  line_frame mapping l = record {
    module_name =
        frame_module bin.main_module bin.go_root (function_name l.function)
          (function_file l.function) mapping;
    function = function_name l.function;
    file = function_file l.function;
    line = wide_line l.line;
  }

  abbrev pub line_frames : Bytes → List PprofLine → List ProfileFrame
  line_frames mapping [] = []
  line_frames mapping (l ∷ ls) = line_frame mapping l ∷ line_frames mapping ls

  unfoldable pub location_frames : Option Location → List ProfileFrame
  location_frames none = []
  location_frames (some loc) = elim loc.lines [
    | [] ↦
        record {
          module_name = frame_module bin.main_module bin.go_root [] [] (mapping_module loc.mapping);
          function = loc.address;
          file = [];
          line = 0;
        }
        ∷ []
    | l ∷ ls ↦ line_frames (mapping_module loc.mapping) (l ∷ ls)
  ]

  -- The locations are leaf-first; the lines of one keep their order.
  unfoldable pub frames_root_first : List (Option Location) → List ProfileFrame
  frames_root_first [] = []
  frames_root_first (loc ∷ locs) = frames_root_first locs ++ location_frames loc

  abbrev pub dropped_stack : NormalizeOptions → List ProfileFrame → Bool
  dropped_stack opt stack =
      (opt.drop_non_userland && not (has_userland_frame stack))
      || ((opt.drop_idle_waits && idle (classify_wait stack)) || is_self_profiling_stack stack)

  abbrev pub normalized : NormalizeOptions → ℤ → Bytes → ℕ → PprofSample → ProfileSample
  normalized opt period now i s =
      let (correlation, labels) = take_correlation (merge_pprof_sample_labels s.label opt.labels) in
      record {
        organisation = organisation_ref (options_config opt);
        application = application_ref (options_config opt);
        profile_series_id = opt.series_id;
        sequence = itoa (suc i);
        sampled_at = now;
        sample_type = opt.sample_type;
        period_nanoseconds = format_int period;
        value = format_int (value_of s.value);
        unit = opt.unit;
        stack = frames_root_first s.location;
        correlation = correlation;
        labels = labels;
      }

  abbrev pub skipped : NormalizeOptions → PprofSample → Bool
  skipped opt s = elim s.location [
    | [] ↦ true
    | _ ∷ _ ↦ is_zero (value_of s.value) || dropped_stack opt (frames_root_first s.location)
  ]

  unfoldable pub normalize_from :
      NormalizeOptions → ℤ → Bytes → ℕ → List (Option PprofSample) → List ProfileSample
  normalize_from opt period now i [] = []
  normalize_from opt period now i (none ∷ ss) = normalize_from opt period now (suc i) ss
  normalize_from opt period now i (some s ∷ ss) =
      let rest = normalize_from opt period now (suc i) ss in
      if skipped opt s then rest else normalized opt period now i s ∷ rest

  -- A nil profile has no samples.
  unfoldable pub normalize_pprof :
      Option PprofProfile → NormalizeOptions → Bytes → List ProfileSample
  normalize_pprof none opt now = []
  normalize_pprof (some prof) opt now = normalize_from opt (period_of prof) now 0 prof.sample
