-- ===== src/Config/Load.antt =====
-- LoadConfig and applyProfileDefaults of config.go.
use go_collector.Base.{
  ℕ, ◌*◌, Bool, true, false, not, ◌||◌, List, [], ◌∷◌, ◌≡◌, refl, sym, ◌∙◌, Option, if◌then◌else◌,
  Bool-cases, or_false, inl, inr,
}
use go_collector.Base.Bytes.{Bytes, codes, is_empty}
use go_collector.Base.Int.{ℤ, pos, ltb_ℤ}
use go_collector.Config.Env.{
  Environment, first_non_empty, env_bool, env_int, env_duration, env_bool_compat, env_int_compat,
  env_csv_compat,
}
use go_collector.Config.{
  Config, millisecond, second, default_span_batch_size, default_span_flush_interval,
}

abbrev pub default_profile_batch_size : ℕ
default_profile_batch_size = 500

abbrev pub default_redact_patterns : List Bytes
default_redact_patterns =
    codes "password"
    ∷ codes "passwd"
    ∷ codes "secret"
    ∷ codes "token"
    ∷ codes "authorization"
    ∷ codes "api_key"
    ∷ codes "apikey"
    ∷ codes "access_key"
    ∷ codes "private_key"
    ∷ codes "cookie"
    ∷ codes "set-cookie"
    ∷ codes "session"
    ∷ codes "credit"
    ∷ codes "card"
    ∷ codes "ssn"
    ∷ codes "cvv"
    ∷ codes "bearer"
    ∷ []

abbrev pub default_http_skip_paths : List Bytes
default_http_skip_paths =
    codes "/status"
    ∷ codes "/health"
    ∷ codes "/healthz"
    ∷ codes "/ready"
    ∷ codes "/readyz"
    ∷ codes "/livez"
    ∷ codes "/ws"
    ∷ codes "/job/status"
    ∷ codes "/api/stats"
    ∷ codes "/api/running-jobs"
    ∷ codes "/api/failed-jobs-paginated"
    ∷ []

module _ (env : Environment) (parse_duration : Bytes → Option ℤ) where
  -- The literal of LoadConfig.
  unfoldable pub read_config : Config
  read_config = record {
    enabled = env_bool env (codes "CHRONOS_ENABLED") true;
    organisation =
        first_non_empty
          (env (codes "CHRONOS_ORGANISATION_ID") ∷ env (codes "CHRONOS_ORGANISATION") ∷ []);
    project =
        first_non_empty (env (codes "CHRONOS_PROJECT_ID") ∷ env (codes "CHRONOS_PROJECT") ∷ []);
    application =
        first_non_empty
          (env (codes "CHRONOS_APPLICATION_ID") ∷ env (codes "CHRONOS_APPLICATION") ∷ []);
    spool_dir = env (codes "CHRONOS_SPOOL_DIRECTORY");
    service_name = first_non_empty (
        env (codes "CHRONOS_SERVICE_NAME")
        ∷ env (codes "CHRONOS_APPLICATION")
        ∷ env (codes "CHRONOS_APPLICATION_ID")
        ∷ []);
    service_version = env (codes "CHRONOS_SERVICE_VERSION");
    apm_enabled = env_bool env (codes "CHRONOS_APM_ENABLED") true;
    logs_enabled = env_bool env (codes "CHRONOS_LOGS_ENABLED") true;
    profiler_enabled = env_bool env (codes "CHRONOS_PROFILER_ENABLED") false;
    metrics_enabled = env_bool env (codes "CHRONOS_METRICS_ENABLED") true;
    dst_enabled = env_bool env (codes "CHRONOS_DST_ENABLED") false;
    profile_interval =
        env_duration env parse_duration (codes "CHRONOS_GO_PROFILE_INTERVAL") (pos (90 * second));
    profile_duration =
        env_duration env parse_duration (codes "CHRONOS_GO_PROFILE_DURATION") (pos (60 * second));
    metrics_interval =
        env_duration env parse_duration (codes "CHRONOS_GO_METRICS_INTERVAL") (pos (15 * second));
    profile_max_stack_depth = env_int env (codes "CHRONOS_GO_PROFILE_MAX_STACK_DEPTH") (pos 64);
    profile_batch_size =
        env_int env (codes "CHRONOS_GO_PROFILE_BATCH_SIZE") (pos default_profile_batch_size);
    wall_profile_enabled = env_bool env (codes "CHRONOS_GO_WALL_ENABLED") true;
    wall_sample_interval =
        env_duration env parse_duration (codes "CHRONOS_GO_WALL_INTERVAL")
          (pos (100 * millisecond));
    wall_exclude_idle = env_bool env (codes "CHRONOS_GO_WALL_EXCLUDE_IDLE") true;
    wall_max_stacks = env_int env (codes "CHRONOS_GO_WALL_MAX_STACKS") (pos 4096);
    io_profile_enabled = env_bool env (codes "CHRONOS_GO_IO_ENABLED") true;
    io_min_wait =
        env_duration env parse_duration (codes "CHRONOS_GO_IO_MIN_WAIT") (pos millisecond);
    io_max_samples = env_int env (codes "CHRONOS_GO_IO_MAX_SAMPLES") (pos 4096);
    span_batch_size =
        env_int env (codes "CHRONOS_GO_SPAN_BATCH_SIZE") (pos default_span_batch_size);
    span_flush_interval =
        env_duration env parse_duration (codes "CHRONOS_GO_SPAN_FLUSH_INTERVAL")
          (pos default_span_flush_interval);
    span_max_buffered = env_int env (codes "CHRONOS_GO_SPAN_MAX_BUFFERED") (pos 10000);
    http_capture =
        env_bool_compat env (codes "CHRONOS_HTTP_CAPTURE") (codes "CHRONOS_GO_HTTP_CAPTURE") true;
    http_capture_bodies =
        env_bool_compat env (codes "CHRONOS_HTTP_CAPTURE_BODIES")
          (codes "CHRONOS_GO_HTTP_CAPTURE_BODIES") true;
    http_max_body =
        env_int_compat env (codes "CHRONOS_HTTP_CAPTURE_MAX_BODY")
          (codes "CHRONOS_GO_HTTP_CAPTURE_MAX_BODY") (pos 65536);
    http_redact =
        env_bool_compat env (codes "CHRONOS_HTTP_CAPTURE_REDACT")
          (codes "CHRONOS_GO_HTTP_CAPTURE_REDACT") true;
    redact_patterns =
        env_csv_compat env (codes "CHRONOS_REDACT_PATTERNS") (codes "CHRONOS_GO_REDACT_PATTERNS")
          default_redact_patterns;
    http_skip_paths =
        env_csv_compat env (codes "CHRONOS_HTTP_SKIP_PATHS") (codes "CHRONOS_GO_HTTP_SKIP_PATHS")
          default_http_skip_paths;
    messaging_capture_bodies =
        env_bool_compat env (codes "CHRONOS_MESSAGING_CAPTURE_BODIES")
          (codes "CHRONOS_GO_MESSAGING_CAPTURE_BODIES") true;
    messaging_max_body =
        env_int_compat env (codes "CHRONOS_MESSAGING_CAPTURE_MAX_BODY")
          (codes "CHRONOS_GO_MESSAGING_CAPTURE_MAX_BODY") (pos 0);
    background = false;
  }

abbrev pub incomplete : Config → Bool
incomplete c =
    not c.enabled
    || is_empty c.organisation
    || is_empty c.project
    || is_empty c.application
    || is_empty c.spool_dir

-- The two checks behind the literal.
unfoldable pub disabled_unless_complete : Config → Config
disabled_unless_complete c = if incomplete c then record c { enabled = false } else c

unfoldable pub with_service_name : Config → Config
with_service_name c =
    if is_empty c.service_name then record c { service_name = c.application } else c

unfoldable pub load_config : Environment → (Bytes → Option ℤ) → Config
load_config env parse_duration =
    with_service_name (disabled_unless_complete (read_config env parse_duration))

abbrev pub or_default : ℤ → ℤ → ℤ
or_default n d = if ltb_ℤ (pos 0) n then n else d

unfoldable pub apply_profile_defaults : Config → Config
apply_profile_defaults c = record c {
  profile_max_stack_depth = or_default c.profile_max_stack_depth (pos 64);
  profile_batch_size = or_default c.profile_batch_size (pos default_profile_batch_size);
  wall_sample_interval = or_default c.wall_sample_interval (pos (100 * millisecond));
  wall_max_stacks = or_default c.wall_max_stacks (pos 4096);
  io_max_samples = or_default c.io_max_samples (pos 4096);
}

-- An identity that is complete: every part, and a name for the service.
pub record IsComplete (c : Config) : Type 0 where
  pub organisation : is_empty c.organisation ≡ false
  pub project : is_empty c.project ≡ false
  pub application : is_empty c.application ≡ false
  pub spool_dir : is_empty c.spool_dir ≡ false
  pub service_name : is_empty c.service_name ≡ false

with_service_name-enabled : (c : Config) → (with_service_name c).enabled ≡ c.enabled
unfolding with_service_name
with_service_name-enabled c = elim (Bool-cases (is_empty c.service_name)) [
  | inl nameless ↦ rw nameless refl
  | inr has_name ↦ rw has_name refl
]

with_service_name-IsComplete :
    (c : Config) → incomplete c ≡ false → IsComplete (with_service_name c)
unfolding with_service_name
with_service_name-IsComplete c h =
    let (h4, dir) =
      or_false
        (not c.enabled || is_empty c.organisation || is_empty c.project || is_empty c.application)
        (is_empty c.spool_dir) h in
    let (h3, app) =
      or_false (not c.enabled || is_empty c.organisation || is_empty c.project)
        (is_empty c.application) h4 in
    let (h2, project) =
      or_false (not c.enabled || is_empty c.organisation) (is_empty c.project) h3 in
    let organisation = (or_false (not c.enabled) (is_empty c.organisation) h2).1 in
    elim (Bool-cases (is_empty c.service_name)) [
      | inl nameless ↦ rw nameless (record {
        organisation = organisation;
        project = project;
        application = app;
        spool_dir = dir;
        service_name = app;
      })
      | inr has_name ↦ rw has_name (record {
        organisation = organisation;
        project = project;
        application = app;
        spool_dir = dir;
        service_name = has_name;
      })
    ]

disabled-eq :
    (c : Config)
    → (disabled_unless_complete c).enabled ≡ true
    → (incomplete c ≡ false) × (disabled_unless_complete c ≡ c)
unfolding disabled_unless_complete
disabled-eq c e = elim (Bool-cases (incomplete c)) [
  | inl lacking ↦
      let off : (disabled_unless_complete c).enabled ≡ false = rw lacking refl in
      absurd (cc (off, e))
  | inr whole ↦ (whole, rw whole refl)
]

-- Whatever the environment holds, an SDK that LoadConfig enables has an organisation, a project, an
-- application, a spool directory and a service name, none of them empty.
pub load_config-IsComplete :
    (env : Environment) (parse_duration : Bytes → Option ℤ)
    → (load_config env parse_duration).enabled ≡ true
    → IsComplete (load_config env parse_duration)
unfolding load_config
load_config-IsComplete env parse_duration e =
    let c = read_config env parse_duration in
    let (whole, same) =
      disabled-eq c (sym (with_service_name-enabled (disabled_unless_complete c)) ∙ e) in
    rw same (with_service_name-IsComplete c whole)
