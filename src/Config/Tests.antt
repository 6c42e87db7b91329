-- ===== src/Config/Tests.antt =====
-- The theorems of the configuration at concrete environments.
use go_collector.Base.{true, ◌≡◌, refl, Option, none}
use go_collector.Base.Bytes.{Bytes, codes}
use go_collector.Base.Int.{ℤ}
use go_collector.Config.Env.{Environment, env_bool}
use go_collector.Config.Load.{
  read_config, disabled_unless_complete, with_service_name, load_config, IsComplete,
  load_config-IsComplete,
}
use go_collector.Text.Trim.{trim_space}

-- Every variable is set to `on`.
abbrev full : Environment
full = λ key. codes "on"

abbrev no_durations : Bytes → Option ℤ
no_durations text = none

full_enabled : (load_config full no_durations).enabled ≡ true
unfolding load_config with_service_name disabled_unless_complete read_config env_bool trim_space
full_enabled = refl

load_config-IsComplete_example : IsComplete (load_config full no_durations)
load_config-IsComplete_example = load_config-IsComplete full no_durations full_enabled
