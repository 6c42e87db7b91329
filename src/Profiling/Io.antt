-- ===== src/Profiling/Io.antt =====
-- profile_io.go: the measured waits of the instrumented clients, from the call to the samples.
use go_collector.Base.{
  ℕ, suc, not, ◌&&◌, ◌||◌, List, [], ◌∷◌, ◌++◌, Option, none, some, if◌then◌else◌, take,
}
use go_collector.Base.Bytes.{Bytes, codes, is_empty}
use go_collector.Base.Int.{ℤ, pos, pos_part, ltb_ℤ}
use go_collector.Config.{Config}
use go_collector.Profiling.Recorder.{IoRecorder, add}
use go_collector.Profiling.Symbols.{ProfileFrame}
use go_collector.Profiling.Wall.{
  ProfileSample, ProfileCorrelation, Binary, symbolize_root_first, profile_sample,
  base_profile_labels, io_series_id,
}
use go_collector.Tracing.{Context}

pub record IoWait : Type 0 where
  pub pcs : List ℕ
  pub op : Bytes
  pub system : Bytes
  pub nanos : ℤ
  pub at : Bytes
  pub trace_id : Bytes
  pub span_id : Bytes

abbrev pub wait_ids : Context → Bytes × Bytes
wait_ids none = ([], [])
wait_ids (some s) = (s.trace_id, s.span_id)

-- recordIOWait: `callers` is the stack that runtime.Callers gives, of at most as many counters as the
-- configured depth. A client without a recorder has `none`.
unfoldable pub record_io_wait :
    Config
    → Context
    → Bytes
    → Bytes
    → ℤ
    → List ℕ
    → Bytes
    → Option (IoRecorder IoWait)
    → Option (IoRecorder IoWait)
record_io_wait cfg ctx op system d callers now none = none
record_io_wait cfg ctx op system d callers now (some r) =
    let pcs = take (pos_part cfg.profile_max_stack_depth) callers in
    let (trace_id, span_id) = wait_ids ctx in
    if not cfg.enabled
      || (not cfg.profiler_enabled || (not cfg.io_profile_enabled || ltb_ℤ d cfg.io_min_wait))
    then some r
    else elim pcs [
      | [] ↦ some r
      | pc ∷ more ↦ some (
          add r (record {
            pcs = pc ∷ more;
            op = op;
            system = system;
            nanos = d;
            at = now;
            trace_id = trace_id;
            span_id = span_id;
          }))
    ]

abbrev pub io_frame : Bytes → ProfileFrame
io_frame op = record { module_name = codes "io"; function = op; file = []; line = 0 }

abbrev pub io_labels : Bytes → List (Bytes × Bytes)
io_labels system =
    if is_empty system
    then (codes "wait", codes "io") ∷ []
    else (codes "wait", codes "io") ∷ (codes "db.system", system) ∷ []

abbrev pub io_correlation : IoWait → Option ProfileCorrelation
io_correlation w =
    if is_empty w.trace_id && is_empty w.span_id
    then none
    else some (record { trace_id = w.trace_id; span_id = w.span_id })

module _ (bin : Binary) (cfg : Config) where
  abbrev pub io_sample : ℕ → IoWait → ProfileSample
  io_sample i w =
      profile_sample cfg io_series_id (codes "PROFILE_SAMPLE_TYPE_IO") (suc i) w.at (pos 0) w.nanos
        (symbolize_root_first bin w.pcs ++ (io_frame w.op ∷ []))
        (base_profile_labels cfg bin.go_version (io_labels w.system)) (io_correlation w)

  unfoldable pub io_samples_from : ℕ → List IoWait → List ProfileSample
  io_samples_from i [] = []
  io_samples_from i (w ∷ ws) = io_sample i w ∷ io_samples_from (suc i) ws
