-- ===== src/Profiling/Tests.antt =====
-- The theorems of the profile samples at concrete inputs.
use go_collector.Base.{ℕ, ◌+◌, ◌≤◌, ◌≡◌, Bool, List, [], ◌∷◌, Option, none, some, leb, length}
use go_collector.Base.Bytes.{Bytes, codes}
use go_collector.Base.Int.{pos}
use go_collector.Config.{Config, zero_config}
use go_collector.Profiling.Chunks.{Written, write_profile_samples, write_profile_samples-Written}
use go_collector.Profiling.Recorder.{
  Call, measured, drained, Accounts, calls, fresh, or_size, new_io_recorder-Accounts,
}
use go_collector.Profiling.Sampler.{new_wall_sampler, drain_wall}
use go_collector.Profiling.Sampler.Banked.{
  held, shown, taken, samples, IsDescending, drain_wall-banked,
}

abbrev two_each : Config
two_each = record zero_config { profile_batch_size = pos 2 }

abbrev sha256 : Bytes → Bytes
sha256 bytes = bytes

-- The write of the second batch fails.
abbrev first_only : ℕ → Bool
first_only start = leb start 0

abbrev clock : ℕ → Bytes
clock start = codes "0"

write_profile_samples-Written_example :
    Written sha256 two_each
      (codes "io")
      clock
      first_only
      0
      (codes "abcde")
      (write_profile_samples sha256 two_each (codes "io") clock first_only (codes "abcde"))
write_profile_samples-Written_example =
    write_profile_samples-Written sha256 two_each (codes "io") clock first_only (codes "abcde")

abbrev some_calls : List (Call ℕ)
some_calls = measured 1 ∷ measured 2 ∷ drained ∷ measured 3 ∷ []

new_io_recorder-Accounts_example : Accounts (calls some_calls (fresh (pos 1) (pos 0)))
new_io_recorder-Accounts_example = new_io_recorder-Accounts (pos 1) (pos 0) some_calls

-- Two stacks are kept; a third one is dropped, and a snapshot fails.
abbrev snapshots : List (Option (List (List ℕ)))
snapshots = some ((1 ∷ []) ∷ (2 ∷ []) ∷ []) ∷ none ∷ some ((2 ∷ []) ∷ [] ∷ (3 ∷ []) ∷ []) ∷ []

drain_wall-banked_example :
    let ((buckets, ticks, dropped), _) =
      drain_wall (samples length snapshots (new_wall_sampler (pos 2))) in
    (held buckets + dropped ≡ shown snapshots)
    × (length buckets ≤ or_size (pos 2) 4096)
    × IsDescending buckets
    × (ticks ≡ taken snapshots)
drain_wall-banked_example = drain_wall-banked length (pos 2) snapshots
