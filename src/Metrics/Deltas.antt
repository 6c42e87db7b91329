-- ===== src/Metrics/Deltas.antt =====
-- The points of a process add up to what its runtime counted.
use go_collector.Base.{
  ℕ, ◌+◌, ◌≤◌, true, List, [], ◌∷◌, ◌≡◌, refl, Option, none, some, arith, ◌==◌, le→leb,
  if◌then◌else◌,
}
use go_collector.Base.Int.{ℤ}
use go_collector.Config.{Config}
use go_collector.Metrics.{
  Counters, no_counters, record_http, MemStats, Point, delta, gc_delta, emit_runtime_metrics,
}

-- What happens in a process: a request is counted, with its status and its duration, or a point is
-- emitted over a reading of the runtime.
pub data Happening : Type 0 where
  request : ℤ → ℤ → Happening
  reading : MemStats → Happening

-- The points that are emitted.
abbrev onto_points : Option Point → List Point → List Point
onto_points none ps = ps
onto_points (some p) ps = p ∷ ps

unfoldable pub points : Config → List Happening → Counters → List Point × Counters
points cfg [] c = ([], c)
points cfg (request status duration ∷ hs) c = points cfg hs (record_http status duration c)
points cfg (reading ms ∷ hs) c =
    let (p, c') = emit_runtime_metrics cfg ms c in
    let (ps, c'') = points cfg hs c' in (onto_points p ps, c'')

abbrev pub collected : List Point → ℕ × ℕ
collected [] = (0, 0)
collected (p ∷ ps) = let (n, t) = collected ps in (p.collections + n, p.pause + t)

-- Readings that do not go back, from `num` and `pause` on.
abbrev pub Rising : ℕ → ℕ → List Happening → Type 0
Rising num pause [] = Unit
Rising num pause (request _ _ ∷ hs) = Rising num pause hs
Rising num pause (reading ms ∷ hs) =
    (num ≤ ms.num_gc) × (pause ≤ ms.pause_total) × Rising ms.num_gc ms.pause_total hs

-- The counters of the last reading, or of before.
abbrev pub latest : ℕ × ℕ → List Happening → ℕ × ℕ
latest before [] = before
latest before (request _ _ ∷ hs) = latest before hs
latest before (reading ms ∷ hs) = latest (ms.num_gc, ms.pause_total) hs

delta_rising : (now before : ℕ) → before ≤ now → before + delta now before ≡ now
delta_rising now before h = rw (le→leb before now h) (omega arith)

both : {a b c d : ℕ} → a ≡ c → b ≡ d → ◌≡◌ {A = ℕ × ℕ} (a, b) (c, d)
both e f = rw (e, f) refl

module _ (cfg : Config) (e : cfg.enabled ≡ true) (m : cfg.metrics_enabled ≡ true) where
  abbrev point_of : MemStats → Counters → Point
  point_of ms c = record {
    request_count = if c.requests == 0 then 1 else c.requests;
    request_errors = c.errors;
    request_duration = c.duration;
    collections = delta ms.num_gc c.gc_num;
    pause = delta ms.pause_total c.gc_pause;
  }

  abbrev behind : MemStats → Counters
  behind ms = record {
    requests = 0;
    errors = 0;
    duration = 0;
    gc_num = ms.num_gc;
    gc_pause = ms.pause_total;
  }

  emit_runtime_metrics-on :
      (ms : MemStats) (c : Counters)
      → emit_runtime_metrics cfg ms c ≡ (some (point_of ms c), behind ms)
  unfolding emit_runtime_metrics gc_delta
  emit_runtime_metrics-on ms c = rw (emit_runtime_metrics, e, m) refl

  points-collected :
      (hs : List Happening) (c : Counters)
      → Rising c.gc_num c.gc_pause hs
      → let (n, t) = collected (points cfg hs c).0 in
        let (num, pause) = latest (c.gc_num, c.gc_pause) hs in
        (c.gc_num + n ≡ num) × (c.gc_pause + t ≡ pause)
  unfolding points record_http
  points-collected [] c h = (omega arith, omega arith)
  points-collected (request status duration ∷ hs) c h =
      points-collected hs (record_http status duration c) h
  points-collected (reading ms ∷ hs) c (h, k, rest) =
      let (n, t) = points-collected hs (behind ms) rest in
      rw (points, emit_runtime_metrics-on ms c)
        (
          omega (arith, n, delta_rising ms.num_gc c.gc_num h),
          omega (arith, t, delta_rising ms.pause_total c.gc_pause k),
        )

-- With metrics on, over readings of the runtime's counters that never go back, the collections of the
-- points of a new client add up to the last reading's, and so do their pauses, however many requests
-- of any status and duration are counted before, between and behind the readings.
pub points_add_up :
    (cfg : Config) (hs : List Happening)
    → cfg.enabled ≡ true
    → cfg.metrics_enabled ≡ true
    → Rising 0 0 hs
    → collected (points cfg hs no_counters).0 ≡ latest (0, 0) hs
points_add_up cfg hs e m h =
    let (n, t) = points-collected cfg e m hs no_counters h in
    both (omega (arith, n)) (omega (arith, t))
