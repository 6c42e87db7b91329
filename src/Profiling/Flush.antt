-- ===== src/Profiling/Flush.antt =====
-- profile_wall.go and profile_io.go: a flush of the profiles, from the sampler and the recorder to the
-- batches. The outcome of each WriteJSON is given by the series and the offset of its batch.
use go_collector.Base.{
  ℕ, Bool, true, false, ◌||◌, List, [], ◌∷◌, ◌++◌, Option, none, some, leb, if◌then◌else◌,
}
use go_collector.Base.Bytes.{Bytes}
use go_collector.Config.{Config}
use go_collector.Profiling.Chunks.{ProfileBatch, write_profile_samples}
use go_collector.Profiling.Io.{IoWait, io_samples_from}
use go_collector.Profiling.Recorder.{IoRecorder, drain}
use go_collector.Profiling.Sampler.{WallSampler, drain_wall}
use go_collector.Profiling.Wall.{
  ProfileSample, Binary, wall_samples_from, wall_series_id, off_cpu_series_id, io_series_id,
}

-- Whether no error is returned, and the batches written; `none` would be a loop out of fuel.
abbrev pub Wrote : Type 0
Wrote = Option (Bool × List (ProfileBatch ProfileSample))

abbrev pub nothing_due : Wrote
nothing_due = some (true, [])

-- The second write, unless the first returned an error.
abbrev pub then_write : Wrote → Wrote → Wrote
then_write none second = none
then_write (some (false, bs)) second = some (false, bs)
then_write (some (true, bs)) none = none
then_write (some (true, bs)) (some (ok, cs)) = some (ok, bs ++ cs)

module _ (bin : Binary) (sha256 : Bytes → Bytes) (cfg : Config) (now : Bytes) (seeds : ℕ → Bytes)
    (write_ok : Bytes → ℕ → Bool) where
  abbrev pub write_series : Bytes → List ProfileSample → Wrote
  write_series series samples =
      write_profile_samples sha256 cfg series seeds (write_ok series) samples

  abbrev pub is_nil {ℓ} : {A : Type ℓ} → List A → Bool
  is_nil [] = true
  is_nil (x ∷ xs) = false

  -- A client without a sampler has `none`.
  unfoldable pub flush_wall_profiles : Option WallSampler → Wrote × Option WallSampler
  flush_wall_profiles none = (nothing_due, none)
  flush_wall_profiles (some w) =
      let ((buckets, ticks, _), w') = drain_wall w in
      let (wall, off_cpu) = wall_samples_from bin cfg now buckets cfg.wall_sample_interval in
      if leb ticks 0 || is_nil buckets then (nothing_due, some w') else (
        then_write (write_series wall_series_id wall) (write_series off_cpu_series_id off_cpu),
        some w',
      )

  unfoldable pub flush_io_profiles : Option (IoRecorder IoWait) → Wrote × Option (IoRecorder IoWait)
  flush_io_profiles none = (nothing_due, none)
  flush_io_profiles (some r) =
      let (waits, r') = drain r in
      if is_nil waits
      then (nothing_due, some r)
      else (write_series io_series_id (io_samples_from bin cfg 0 waits), some r')

  abbrev pub stopped : Wrote → Bool
  stopped (some (false, _)) = true
  stopped _ = false

  -- FlushProfiles: an error of the first flush leaves the second one undone.
  unfoldable pub flush_profiles :
      Option WallSampler
      → Option (IoRecorder IoWait)
      → Wrote × (Option WallSampler × Option (IoRecorder IoWait))
  flush_profiles w r =
      let (wrote, w') = flush_wall_profiles w in
      let (wrote_io, r') = flush_io_profiles r in
      if stopped wrote then (wrote, (w', r)) else (then_write wrote wrote_io, (w', r'))
