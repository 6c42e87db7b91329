-- ===== src/Profiling/Wall.antt =====
-- profile_wall.go and profile_io.go: the samples that the sampler and the recorder become.
-- runtime.CallersFrames, which resolves a program counter to its frames, leaf-first, is a parameter.
pub mod Charged
use go_collector.Base.{
  ℕ, zero, suc, ◌+◌, ◌*◌, ◌^◌, Bool, true, false, not, ◌&&◌, ◌||◌, List, [], ◌∷◌, ◌++◌, map, Option,
  none, some, leb, ltb, if◌then◌else◌,
}
use mathlib.Core.List.{reverse}
use go_collector.Base.Assoc.{put}
use go_collector.Base.Bytes.{Bytes, codes, is_empty}
use go_collector.Base.Decimal.{itoa}
use go_collector.Base.Int.{ℤ, pos, pos_part, ltb_ℤ, leb_ℤ}
use go_collector.Config.{Config}
use go_collector.Identity.{OrganisationRef, ApplicationRef, organisation_ref, application_ref}
use go_collector.Profiling.Sampler.{Bucket, WallSampler, drain_wall}
use go_collector.Profiling.Symbols.{
  ProfileFrame, frame_module, has_userland_frame, is_self_profiling_stack,
}
use go_collector.Profiling.Wait.{WaitKind, gc, label, blocked, idle, classify_wait}
use go_collector.Resource.{Attributes}
use go_collector.Sql.Params.{format_int}

pub record ProfileCorrelation : Type 0 where
  pub trace_id : Bytes
  pub span_id : Bytes

pub record ProfileSample : Type 0 where
  pub organisation : OrganisationRef
  pub application : ApplicationRef
  pub profile_series_id : Bytes
  pub sequence : Bytes
  pub sampled_at : Bytes
  pub sample_type : Bytes
  pub period_nanoseconds : Bytes
  pub value : Bytes
  pub unit : Bytes
  pub stack : List ProfileFrame
  pub correlation : Option ProfileCorrelation
  pub labels : Attributes

abbrev pub wall_series_id : Bytes
wall_series_id = codes "go-wall"

abbrev pub off_cpu_series_id : Bytes
off_cpu_series_id = codes "go-offcpu"

abbrev pub io_series_id : Bytes
io_series_id = codes "go-io"

-- A label is put unless its key or its value is empty.
unfoldable pub put_labels : Attributes → Attributes → Attributes
put_labels [] labels = labels
put_labels ((k, v) ∷ extra) labels =
    put_labels extra (if not (is_empty k) && not (is_empty v) then put k v labels else labels)

abbrev pub base_profile_labels : Config → Bytes → Attributes → Attributes
base_profile_labels cfg go_version extra =
    put_labels extra ((codes "service", cfg.service_name) ∷ (codes "go.version", go_version) ∷ [])

abbrev pub profile_sample :
    Config
    → Bytes
    → Bytes
    → ℕ
    → Bytes
    → ℤ
    → ℤ
    → List ProfileFrame
    → Attributes
    → Option ProfileCorrelation
    → ProfileSample
profile_sample cfg series sample_type sequence at period value frames labels correlation = record {
  organisation = organisation_ref cfg;
  application = application_ref cfg;
  profile_series_id = series;
  sequence = itoa sequence;
  sampled_at = at;
  sample_type = sample_type;
  period_nanoseconds = format_int period;
  value = format_int value;
  unit = codes "nanoseconds";
  stack = frames;
  correlation = correlation;
  labels = labels;
}

abbrev pub is_gc : WaitKind → Bool
is_gc gc = true
is_gc _ = false

-- A frame as the runtime resolves it.
pub record RawFrame : Type 0 where
  pub pc : ℕ
  pub function : Bytes
  pub file : Bytes
  pub line : ℤ

abbrev pub line_number : ℤ → ℕ
line_number line = if leb_ℤ line (pos 0) || leb_ℤ (pos (2 ^ 31)) line then 0 else pos_part line

-- The frames' texts are about this binary.
pub record Binary : Type 0 where
  pub main_module : Bytes
  pub go_root : Bytes
  pub go_version : Bytes
  pub callers_frames : List ℕ → List RawFrame

module _ (bin : Binary) where
  abbrev pub frame_of : RawFrame → ProfileFrame
  frame_of f = record {
    module_name = frame_module bin.main_module bin.go_root f.function f.file [];
    function = f.function;
    file = f.file;
    line = line_number f.line;
  }

  abbrev pub leaf_first : List RawFrame → List ProfileFrame
  leaf_first [] = []
  leaf_first (f ∷ fs) =
      let rest = leaf_first fs in
      if not (is_empty f.function) || ltb 0 f.pc then frame_of f ∷ rest else rest

  unfoldable pub symbolize_root_first : List ℕ → List ProfileFrame
  symbolize_root_first [] = []
  symbolize_root_first (pc ∷ pcs) = reverse (leaf_first (bin.callers_frames (pc ∷ pcs)))

  module _ (cfg : Config) (now : Bytes) where
    abbrev pub wall_sample : Bytes → Bytes → WaitKind → ℕ → ℕ → List ProfileFrame → ProfileSample
    wall_sample series sample_type kind ticks period frames =
        profile_sample cfg series sample_type 1 now (pos period) (pos (ticks * period)) frames
          (base_profile_labels cfg bin.go_version ((codes "wait", label kind) ∷ [])) none

    -- What a stack is not sampled for.
    abbrev pub left_out : WaitKind → List ProfileFrame → Bool
    left_out kind frames =
        (not (has_userland_frame frames) || is_self_profiling_stack frames)
        || (is_gc kind || (idle kind && cfg.wall_exclude_idle))

    unfoldable pub samples_for_frames :
        List ProfileFrame → ℕ → ℤ → List ProfileSample × List ProfileSample
    samples_for_frames frames ticks interval =
        let kind = classify_wait frames in
        let period = pos_part interval in
        if (leb_ℤ interval (pos 0) || leb ticks 0) || left_out kind frames then ([], []) else (
          wall_sample wall_series_id (codes "PROFILE_SAMPLE_TYPE_WALL") kind ticks period frames
              ∷ [],
          if blocked kind
              then wall_sample off_cpu_series_id (codes "PROFILE_SAMPLE_TYPE_OFF_CPU") kind ticks
                  period frames
                ∷ []
              else [],
        )

    unfoldable pub samples_of_buckets : List Bucket → ℤ → List ProfileSample × List ProfileSample
    samples_of_buckets [] interval = ([], [])
    samples_of_buckets (b ∷ bs) interval =
        let (w, o) = samples_for_frames (symbolize_root_first b.pcs) b.ticks interval in
        let (wall, off_cpu) = samples_of_buckets bs interval in (w ++ wall, o ++ off_cpu)

    -- Sequence is one more than the index.
    abbrev pub numbered : ℕ → List ProfileSample → List ProfileSample
    numbered n [] = []
    numbered n (s ∷ ss) = record s { sequence = itoa (suc n) } ∷ numbered (suc n) ss

    unfoldable pub wall_samples_from : List Bucket → ℤ → List ProfileSample × List ProfileSample
    wall_samples_from buckets interval =
        if leb_ℤ interval (pos 0)
        then ([], [])
        else let (wall, off_cpu) = samples_of_buckets buckets interval in
          (numbered 0 wall, numbered 0 off_cpu)
