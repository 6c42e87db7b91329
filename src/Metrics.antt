-- ===== src/Metrics.antt =====
-- metrics.go, and the request counters of client.go. The counters are 64 bits wide; a swap of one is a
-- step of its own, and the three of a point are taken together here. A quantity that a point carries as
-- a float64 in milliseconds stands for its nanoseconds.
pub mod Deltas
mod Tests
use go_collector.Base.{
  ℕ, ◌+◌, ◌-◌, ◌%◌, ◌^◌, Bool, true, false, not, ◌&&◌, ◌||◌, List, [], ◌∷◌, Option, none, some, leb,
  ◌==◌, if◌then◌else◌,
}
use go_collector.Base.Decimal.{u64_mod}
use go_collector.Base.Int.{ℤ, pos, pos_part, ltb_ℤ, leb_ℤ}
use go_collector.Config.{Config}

pub record Counters : Type 0 where
  pub requests : ℕ
  pub errors : ℕ
  pub duration : ℕ
  pub gc_num : ℕ
  pub gc_pause : ℕ

abbrev pub no_counters : Counters
no_counters = record { requests = 0; errors = 0; duration = 0; gc_num = 0; gc_pause = 0 }

-- A nil client is not modelled: it counts nothing.
unfoldable pub record_http : ℤ → ℤ → Counters → Counters
record_http status duration c = record c {
  requests = (c.requests + 1) % u64_mod;
  errors = if leb_ℤ (pos 500) status then (c.errors + 1) % u64_mod else c.errors;
  duration =
      if ltb_ℤ (pos 0) duration then (c.duration + pos_part duration) % u64_mod else c.duration;
}

-- What a point reads of runtime.MemStats.
pub record MemStats : Type 0 where
  pub num_gc : ℕ
  pub pause_total : ℕ

abbrev pub delta : ℕ → ℕ → ℕ
delta now before = if leb before now then now - before else 0

-- The collections and the pause since the last point, and the counters behind it.
unfoldable pub gc_delta : MemStats → Counters → (ℕ × ℕ) × Counters
gc_delta ms c = (
  (delta ms.num_gc c.gc_num, delta ms.pause_total c.gc_pause),
  record c { gc_num = ms.num_gc; gc_pause = ms.pause_total },
)

pub record Point : Type 0 where
  pub request_count : ℕ
  pub request_errors : ℕ
  pub request_duration : ℕ
  pub collections : ℕ
  pub pause : ℕ

-- EmitRuntimeMetrics up to the write of the point; a quiet window counts as one request.
unfoldable pub emit_runtime_metrics : Config → MemStats → Counters → Option Point × Counters
emit_runtime_metrics cfg ms c =
    let ((collections, pause), c') = gc_delta ms c in
    if not cfg.enabled || not cfg.metrics_enabled then (none, c) else (
      some (record {
        request_count = if c.requests == 0 then 1 else c.requests;
        request_errors = c.errors;
        request_duration = c.duration;
        collections = collections;
        pause = pause;
      }),
      record c' { requests = 0; errors = 0; duration = 0 },
    )
