-- ===== src/Metrics/Tests.antt =====
-- The theorem of the runtime metrics at concrete inputs.
use go_collector.Base.{List, [], ◌∷◌, ◌≡◌, true, refl, arith}
use go_collector.Base.Int.{pos}
use go_collector.Config.{Config, zero_config}
use go_collector.Metrics.{no_counters}
use go_collector.Metrics.Deltas.{
  Happening, request, reading, points, collected, latest, points_add_up,
}

abbrev metered : Config
metered = record zero_config { enabled = true; metrics_enabled = true }

abbrev some_happenings : List Happening
some_happenings =
    request (pos 200) (pos 9)
    ∷ reading (record { num_gc = 2; pause_total = 500 })
    ∷ request (pos 503) (pos 4)
    ∷ reading (record { num_gc = 7; pause_total = 1900 })
    ∷ []

points_add_up_example :
    collected (points metered some_happenings no_counters).0 ≡ latest (0, 0) some_happenings
points_add_up_example =
    points_add_up metered some_happenings refl refl
      (omega arith, omega arith, (omega arith, omega arith, tt))
