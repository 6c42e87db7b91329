-- ===== src/Http/Server.antt =====
-- Client.Handler of http.go. What the application does with a request is a parameter: what it writes,
-- and whether it panics. json.Marshal of a map of texts is a parameter too.
pub mod Passes
use go_collector.Base.{
  ℕ, ◌+◌, ◌^◌, ◌%◌, Bool, true, false, not, ◌&&◌, ◌||◌, List, [], ◌∷◌, ◌++◌, Option, none, some,
  length, leb, if◌then◌else◌,
}
use go_collector.Base.Assoc.{put}
use go_collector.Base.Bytes.{Bytes, codes, is_empty}
use go_collector.Base.Int.{ℤ, pos, negsuc, pos_part, ltb_ℤ, leb_ℤ}
use go_collector.Config.{Config}
use go_collector.Http.Recorder.{Act, ResponseRecorder, new_recorder, serve}
use go_collector.Http.{
  Headers, Body, Request, get_header, http_route, should_skip_http_path, request_scheme,
  request_host, body_text, read_body_cap, header_map,
}
use go_collector.Messaging.{attr_int}
use go_collector.Metrics.{Counters, record_http}
use go_collector.Propagation.Baggage.{normalize_baggage}
use go_collector.Propagation.Traceparent.{parse_traceparent_context}
use go_collector.Propagation.Tracestate.{normalize_tracestate}
use go_collector.Redact.{redact_map}
use go_collector.Resource.{Build, Attributes}
use go_collector.Sarama.Headers.{traceparent_header}
use go_collector.Tracing.{
  Client, Context, Drawn, Span, Effect, start_span, set_attribute, set_status, adopt, traceparent,
  end,
}

abbrev pub status_from_code : ℤ → Bytes
status_from_code code = if leb_ℤ (pos 500) code then codes "error" else codes "ok"

-- The conversion to uint32 keeps the lowest 32 bits.
abbrev pub uint32_status : ℤ → ℕ
uint32_status code = pos_part code % 2 ^ 32

-- The inbound context, where there is one to believe.
unfoldable pub adopt_inbound : Headers → Span → Span
adopt_inbound hs s = elim (parse_traceparent_context (get_header (codes "Traceparent") hs)) [
  | none ↦ s
  | some remote ↦
      adopt
        (record remote {
          tracestate = normalize_tracestate (get_header (codes "Tracestate") hs);
          baggage = normalize_baggage (get_header (codes "Baggage") hs);
        })
        s
]

abbrev pub set_present : Bytes → Bytes → Span → Span
set_present key value s = if not (is_empty value) then set_attribute key value s else s

abbrev pub describe_request : Request → Bytes → Span → Span
describe_request r route s =
    set_attribute (codes "url.full")
      (request_scheme r ++ (codes "://" ++ (request_host r ++ r.url.request_uri)))
      (set_attribute (codes "url.scheme") (request_scheme r) (
        set_present (codes "url.query") r.url.raw_query (
          set_attribute (codes "url.path") r.url.path (
            set_attribute (codes "http.method") r.verb
              (record s { http_method = r.verb; http_route = route })))))

abbrev pub set_truncated : Bytes → Bool → Span → Span
set_truncated key truncated s = if truncated then set_attribute key (codes "true") s else s

abbrev pub describe_body : Config → Headers → Bytes → Bool → Span → Span
describe_body cfg hs body truncated s =
    set_present (codes "http.request.body.content_type") (get_header (codes "Content-Type") hs) (
      set_truncated (codes "http.request.body.truncated") truncated (
        set_attribute (codes "http.request.body.size") (attr_int (pos (length body)))
          (set_attribute (codes "http.request.body") (body_text cfg body) s)))

abbrev pub describe_response_body : Config → ResponseRecorder → Span → Span
describe_response_body cfg rw s =
    set_present (codes "http.response.body.content_type")
      (get_header (codes "Content-Type") rw.headers)
      (set_truncated (codes "http.response.body.truncated") rw.body_truncated (
        set_attribute (codes "http.response.body.size") (attr_int (pos (length rw.body)))
          (set_attribute (codes "http.response.body") (body_text cfg rw.body) s)))

unfoldable pub cookie_map : List (Option (Bytes × Bytes)) → Attributes
cookie_map [] = []
cookie_map (none ∷ cs) = cookie_map cs
cookie_map (some (name, value) ∷ cs) =
    if is_empty name then cookie_map cs else (name, value) ∷ cookie_map cs

module _ (marshal : Attributes → Option Bytes) where
  abbrev pub set_json_object_attr : Bytes → Attributes → Span → Span
  set_json_object_attr key [] s = s
  set_json_object_attr key (v ∷ vs) s = elim (marshal (v ∷ vs)) [
    | none ↦ s
    | some raw ↦ set_attribute key raw s
  ]

  abbrev pub masked : Config → Attributes → Attributes
  masked cfg values = if cfg.http_redact then redact_map values cfg.redact_patterns else values

  unfoldable pub capture_request_exchange : Config → Request → Span → Span
  capture_request_exchange cfg r s =
      set_json_object_attr (codes "http.request.query") (header_map r.query) (
        set_json_object_attr (codes "http.request.cookies") (masked cfg (cookie_map r.cookies)) (
          set_json_object_attr (codes "http.request.headers") (masked cfg (header_map r.headers))
            s))

  unfoldable pub capture_response_exchange : Config → Headers → Span → Span
  capture_response_exchange cfg hs s =
      set_json_object_attr (codes "http.response.headers") (masked cfg (header_map hs)) s

  -- The body that the application is left with, and the span. A captured body is read up to the cap,
  -- and what was read stands in its place.
  unfoldable pub capture_request : Config → Request → Span → Option Body × Span
  capture_request cfg r s =
      if not cfg.http_capture
      then (r.body, s)
      else let s' = capture_request_exchange cfg r s in
        elim r.body [
          | none ↦ (none, s')
          | some body ↦
              let (text, truncated) = read_body_cap body cfg.http_max_body in
              if not cfg.http_capture_bodies then (some body, s') else (
                some (record { content = text; fails = false }),
                describe_body cfg r.headers text truncated s',
              )
        ]

  unfoldable pub capture_response : Config → ResponseRecorder → Span → Span
  capture_response cfg rw s =
      if not cfg.http_capture
      then s
      else let s' = capture_response_exchange cfg rw.headers s in
        if cfg.http_capture_bodies && leb 1 (length rw.body)
        then describe_response_body cfg rw s'
        else s'

  abbrev pub respond : Config → ResponseRecorder → Span → Span
  respond cfg rw s = capture_response cfg rw (
      set_status (status_from_code rw.status) (
        set_attribute (codes "http.status_code") (attr_int rw.status)
          (record s { http_status = uint32_status rw.status })))

  -- What an application does: its writes, and whether it panics behind them.
  pub record Response : Type 0 where
    pub acts : List Act
    pub panics : Bool

  -- What came of a request: what the application was given and did, the recorder behind it, and the
  -- effect of the end of the span; `none` without a span.
  pub record Served : Type 0 where
    pub given : Option Body
    pub ctx : Context
    pub recorder : ResponseRecorder
    pub panicked : Bool
    pub effect : Option Effect
    pub counters : Counters

  module _ (sha256 : Bytes → Bytes) (build : Build) (now seed : Bytes) (duration : ℤ) where
    -- The application alone. Its ResponseWriter is the one that net/http gave, for which a recorder that
    -- captures nothing stands here: it passes on the same bytes.
    abbrev pub unwrapped :
        (Context → Option Body → Response) → Context → Request → Headers → Counters → Served
    unwrapped app ctx r out counters =
        let response = app ctx r.body in
        record {
          given = r.body;
          ctx = ctx;
          recorder = serve response.acts (new_recorder out false (pos 0));
          panicked = response.panics;
          effect = none;
          counters = counters;
        }

    -- The traceparent of the span is set on the response before the application runs; a span without
    -- ids has an empty one.
    abbrev pub with_traceparent : Span → Headers → Headers
    with_traceparent s out = put (codes "Traceparent") (traceparent (some s) ∷ []) out

    abbrev pub serve_traced :
        Config
        → (Context → Option Body → Response)
        → Span
        → Request
        → Bytes
        → Headers
        → Counters
        → Served
    serve_traced cfg app span r route out counters =
        let described = describe_request r route (adopt_inbound r.headers span) in
        let (body, captured) = capture_request cfg r described in
        let ctx = some captured in
        let response = app ctx body in
        let rw = serve response.acts (
          new_recorder (with_traceparent captured out) cfg.http_capture_bodies cfg.http_max_body) in
        record {
          given = body;
          ctx = ctx;
          recorder = rw;
          panicked = response.panics;
          effect = some (end sha256 build now seed (respond cfg rw captured)).0;
          counters = record_http rw.status duration counters;
        }

    -- The context carries the span, which has the inbound ids by then. A nil client, or one with
    -- tracing off, leaves the application as it is.
    unfoldable pub handler :
        Option Client
        → (Context → Option Body → Response)
        → Context
        → Request
        → Drawn
        → Headers
        → Counters
        → Served
    handler none app ctx r drawn out counters = unwrapped app ctx r out counters
    handler (some c) app ctx r drawn out counters =
        let route = http_route r in
        let (_, span) = start_span (some c) ctx (r.verb ++ (b' ' ∷ route)) drawn in
        if not c.cfg.enabled || not c.cfg.apm_enabled
        then unwrapped app ctx r out counters
        else if should_skip_http_path c.cfg.http_skip_paths route
        then unwrapped app ctx r out counters
        else serve_traced c.cfg app span r route out counters
