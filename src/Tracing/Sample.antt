-- ===== src/Tracing/Sample.antt =====
-- A client, the draws of a start and a build, on which the theorems are tried.
use go_collector.Base.{true, [], ◌∷◌, none}
use go_collector.Base.Bytes.{codes}
use go_collector.Config.{Config, zero_config}
use go_collector.Resource.{Build}
use go_collector.Tracing.{Client, Drawn}

abbrev pub cfg : Config
cfg = record zero_config {
  enabled = true;
  apm_enabled = true;
  http_redact = true;
  redact_patterns = codes "token" ∷ [];
}

abbrev pub client : Client
client = record { cfg = cfg; dir = codes "/spool" }

abbrev pub drawn : Drawn
drawn = record {
  trace_id = codes "4bf92f3577b34da6a3ce929d0e0e4736";
  span_id = codes "00f067aa0ba902b7";
  now = codes "2026-01-01T00:00:00Z";
}

abbrev pub build : Build
build = record { version = codes "go1.24.1"; settings = none }
