-- ===== src/Profiling/Wall/Charged.antt =====
-- What the wall profile charges to whom.
use go_collector.Base.{
  ℕ, suc, Bool, true, false, not, ◌&&◌, ◌||◌, List, [], ◌∷◌, ◌++◌, map, ◌≡◌, refl, ap, All,
  All-append, Bool-cases, inl, inr, arith, leb, or_false,
}
use go_collector.Base.Bytes.{Bytes}
use go_collector.Base.Int.{ℤ, pos, leb_ℤ}
use go_collector.Base.Subseq.{Subseq, nil, keep, skip, Subseq-append}
use go_collector.Config.{Config}
use go_collector.Profiling.Sampler.{Bucket}
use go_collector.Profiling.Symbols.{ProfileFrame, has_userland_frame, is_self_profiling_stack}
use go_collector.Profiling.Wait.{idle, blocked, classify_wait}
use go_collector.Profiling.Wall.{
  ProfileSample, Binary, symbolize_root_first, samples_for_frames, samples_of_buckets,
  wall_samples_from, numbered, left_out, is_gc,
}

-- The stack that a sample charges, and the time.
abbrev pub charge : ProfileSample → List ProfileFrame × Bytes
charge s = (s.stack, s.value)

abbrev pub charges : List ProfileSample → List (List ProfileFrame × Bytes)
charges ss = map charge ss

charges-numbered :
    (bin : Binary) (cfg : Config) (now : Bytes) (n : ℕ) (ss : List ProfileSample)
    → charges (numbered bin cfg now n ss) ≡ charges ss
charges-numbered bin cfg now n [] = refl
charges-numbered bin cfg now n (s ∷ ss) = ap (charge s ∷◌) (charges-numbered bin cfg now (suc n) ss)

charges-append : (ss ts : List ProfileSample) → charges (ss ++ ts) ≡ charges ss ++ charges ts
charges-append [] ts = refl
charges-append (s ∷ ss) ts = ap (charge s ∷◌) (charges-append ss ts)

-- A stack that may be charged: one of the application's, that does not wait for work where such waits
-- are left out.
abbrev pub IsCharged : Config → List ProfileFrame × Bytes → Type 0
IsCharged cfg c =
    let stack = c.0 in
    (has_userland_frame stack ≡ true)
    × (is_self_profiling_stack stack ≡ false)
    × (idle (classify_wait stack) && cfg.wall_exclude_idle ≡ false)

abbrev Profiled : Config → List ProfileSample × List ProfileSample → Type 0
Profiled cfg (wall, off_cpu) =
    Subseq (charges off_cpu) (charges wall) × All (IsCharged cfg) (charges wall)

kept_in :
    (cfg : Config) (a b g i : Bool)
    → ((not a || b) || (g || i)) ≡ false
    → (a ≡ true) × (b ≡ false) × (i ≡ false)
kept_in cfg a b g i h = (ground arith, ground arith, ground arith)

module _ (bin : Binary) (cfg : Config) (now : Bytes) where
  left_out-IsCharged :
      (stack : List ProfileFrame) (value : Bytes)
      → left_out bin cfg now (classify_wait stack) stack ≡ false
      → IsCharged cfg (stack, value)
  left_out-IsCharged stack value h =
      kept_in cfg (has_userland_frame stack) (is_self_profiling_stack stack)
        (is_gc (classify_wait stack)) (idle (classify_wait stack) && cfg.wall_exclude_idle) h

  samples_for_frames-Profiled :
      (frames : List ProfileFrame) (ticks : ℕ) (interval : ℤ)
      → Profiled cfg (samples_for_frames bin cfg now frames ticks interval)
  unfolding samples_for_frames
  samples_for_frames-Profiled frames ticks interval =
      elim (Bool-cases (
        (leb_ℤ interval (pos 0) || leb ticks 0)
        || left_out bin cfg now (classify_wait frames) frames)) [
          | inl out ↦ rw (samples_for_frames, out) (nil, tt)
          | inr charged ↦
              let c = left_out-IsCharged frames [] (or_false _ _ charged).1 in
              elim (Bool-cases (blocked (classify_wait frames))) [
                | inl waits ↦ rw (samples_for_frames, charged, waits) (keep nil, (c, tt))
                | inr runs ↦ rw (samples_for_frames, charged, runs) (skip nil, (c, tt))
              ]
        ]

  samples_of_buckets-Profiled :
      (bs : List Bucket) (interval : ℤ) → Profiled cfg (samples_of_buckets bin cfg now bs interval)
  unfolding samples_of_buckets
  samples_of_buckets-Profiled [] interval = (nil, tt)
  samples_of_buckets-Profiled (b ∷ bs) interval =
      let (sub, fine) =
        samples_for_frames-Profiled (symbolize_root_first bin b.pcs) b.ticks interval in
      let (subs, fines) = samples_of_buckets-Profiled bs interval in
      let (w, o) =
        samples_for_frames bin cfg now (symbolize_root_first bin b.pcs) b.ticks interval in
      rw (charges-append w, charges-append o)
        (Subseq-append sub subs, All-append (IsCharged cfg) _ _ fine fines)

  numbered-Profiled :
      (w o : List ProfileSample)
      → Profiled cfg (w, o)
      → Profiled cfg (numbered bin cfg now 0 w, numbered bin cfg now 0 o)
  numbered-Profiled w o h =
      rw (charges-numbered bin cfg now 0 w, charges-numbered bin cfg now 0 o) h

  -- Whatever the buckets of a drain hold, every wall sample charges a stack with a frame of the
  -- application, that is not the profiler's own work, and that does not wait for work where such waits
  -- are excluded; and the off-CPU samples charge a part of the same stacks and times, in the same order.
  pub wall_samples_from-IsCharged :
      (bs : List Bucket) (interval : ℤ)
      → let (wall, off_cpu) = wall_samples_from bin cfg now bs interval in
        Subseq (charges off_cpu) (charges wall) × All (IsCharged cfg) (charges wall)
  unfolding wall_samples_from
  wall_samples_from-IsCharged bs interval = elim (Bool-cases (leb_ℤ interval (pos 0))) [
    | inl none_due ↦ rw (wall_samples_from, none_due) (nil, tt)
    | inr due ↦
        rw (wall_samples_from, due)
          (numbered-Profiled _ _ (samples_of_buckets-Profiled bs interval))
  ]
