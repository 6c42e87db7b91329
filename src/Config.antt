-- ===== src/Config.antt =====
-- config.go: the settings, and how LoadConfig reads them from the environment. Go's `int` and
-- `time.Duration` (in nanoseconds) are integers of `Base.Int`.
pub mod Env
pub mod Load
mod Tests
use go_collector.Base.{Bool, false, List, [], ℕ, ◌*◌}
use go_collector.Base.Bytes.{Bytes}
use go_collector.Base.Int.{ℤ, pos}

pub record Config : Type 0 where
  pub enabled : Bool
  pub organisation : Bytes
  pub project : Bytes
  pub application : Bytes
  pub spool_dir : Bytes
  pub service_name : Bytes
  pub service_version : Bytes
  pub apm_enabled : Bool
  pub logs_enabled : Bool
  pub profiler_enabled : Bool
  pub metrics_enabled : Bool
  pub dst_enabled : Bool
  pub profile_interval : ℤ
  pub profile_duration : ℤ
  pub metrics_interval : ℤ
  pub profile_max_stack_depth : ℤ
  pub profile_batch_size : ℤ
  pub wall_profile_enabled : Bool
  pub wall_sample_interval : ℤ
  pub wall_exclude_idle : Bool
  pub wall_max_stacks : ℤ
  pub io_profile_enabled : Bool
  pub io_min_wait : ℤ
  pub io_max_samples : ℤ
  pub span_batch_size : ℤ
  pub span_flush_interval : ℤ
  pub span_max_buffered : ℤ
  pub http_capture : Bool
  pub http_capture_bodies : Bool
  pub http_max_body : ℤ
  pub http_redact : Bool
  pub redact_patterns : List Bytes
  pub http_skip_paths : List Bytes
  pub messaging_capture_bodies : Bool
  pub messaging_max_body : ℤ
  pub background : Bool

-- Go's zero value.
abbrev pub zero_config : Config
zero_config = record {
  enabled = false;
  organisation = [];
  project = [];
  application = [];
  spool_dir = [];
  service_name = [];
  service_version = [];
  apm_enabled = false;
  logs_enabled = false;
  profiler_enabled = false;
  metrics_enabled = false;
  dst_enabled = false;
  profile_interval = pos 0;
  profile_duration = pos 0;
  metrics_interval = pos 0;
  profile_max_stack_depth = pos 0;
  profile_batch_size = pos 0;
  wall_profile_enabled = false;
  wall_sample_interval = pos 0;
  wall_exclude_idle = false;
  wall_max_stacks = pos 0;
  io_profile_enabled = false;
  io_min_wait = pos 0;
  io_max_samples = pos 0;
  span_batch_size = pos 0;
  span_flush_interval = pos 0;
  span_max_buffered = pos 0;
  http_capture = false;
  http_capture_bodies = false;
  http_max_body = pos 0;
  http_redact = false;
  redact_patterns = [];
  http_skip_paths = [];
  messaging_capture_bodies = false;
  messaging_max_body = pos 0;
  background = false;
}

abbrev pub millisecond : ℕ
millisecond = 1000 * 1000

abbrev pub second : ℕ
second = 1000 * millisecond

abbrev pub default_span_batch_size : ℕ
default_span_batch_size = 200

abbrev pub default_span_flush_interval : ℕ
default_span_flush_interval = 5 * second
