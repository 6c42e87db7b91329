-- ===== src/Http/Hop.antt =====
-- http.go: a call from one process to another, from the transport to the handler.
use go_collector.Base.{
  Bool, true, false, not, ◌||◌, List, [], ◌∷◌, ◌++◌, ◌≡◌, refl, sym, ap, ◌∙◌, Option, some,
  if◌then◌else◌, Bool-cases, Option-cases, inl, inr, ℕ,
}
use mathlib.Core.Option.{map}
use mathlib.Core.Path.{subst}
use go_collector.Base.Assoc.{put, lookup-put}
use go_collector.Base.Bytes.{Bytes, codes, is_empty, bytes_eq}
use go_collector.Base.Int.{ℤ}
use go_collector.Config.{Config}
use go_collector.Http.Outbound.{Answer, forward, outbound_headers, describe_call, round_trip}
use go_collector.Http.Server.Passes.{run}
use go_collector.Http.Server.{
  Response, adopt_inbound, describe_request, set_present, set_truncated, describe_body,
  set_json_object_attr, capture_request_exchange, capture_request, serve_traced, handler, masked,
  cookie_map,
}
use go_collector.Http.{
  Headers, Body, Request, get_header, http_route, should_skip_http_path, header_map, read_body_cap,
}
use go_collector.Metrics.{Counters}
use go_collector.Profiling.Io.{IoWait}
use go_collector.Profiling.Recorder.{IoRecorder}
use go_collector.Propagation.Baggage.{normalize_baggage}
use go_collector.Propagation.Traceparent.{
  IsIds, format_traceparent, lower_hex-is_empty, parse_traceparent_context-format_traceparent,
}
use go_collector.Propagation.Tracestate.{normalize_tracestate}
use go_collector.Resource.{Build, Attributes}
use go_collector.Tracing.Place.{Place, place, HasIds, set_attribute-place, start_span-carried}
use go_collector.Tracing.{Client, Context, Drawn, Span, adopt, start_span, traceparent}

-- The value of a span, or what the caller set where that is empty.
abbrev pub or_own : Bytes → Bytes → Bytes
or_own value own = if is_empty value then own else value

get_header-put :
    (key j value : Bytes) (hs : Headers)
    → get_header j (put key (value ∷ []) hs) ≡ (if bytes_eq key j then value else get_header j hs)
get_header-put key j value hs = elim (Bool-cases (bytes_eq key j)) [
  | inl same ↦ rw (get_header, lookup-put key j (value ∷ []) hs, same) refl
  | inr other ↦ rw (get_header, lookup-put key j (value ∷ []) hs, other) refl
]

get_header-forward :
    (key j value : Bytes) (hs : Headers)
    → get_header j (forward key value hs)
      ≡ (if bytes_eq key j then or_own value (get_header j hs) else get_header j hs)
get_header-forward key j value hs = elim (Bool-cases (is_empty value)) [
  | inl absent ↦ elim (Bool-cases (bytes_eq key j)) [
    | inl same ↦ rw (absent, same) refl
    | inr other ↦ rw (absent, other) refl
  ]
  | inr present ↦ rw present (get_header-put key j value hs)
]

traceparent-is_empty :
    (s : Span) → IsIds s.trace_id s.span_id → is_empty (traceparent (some s)) ≡ false
unfolding format_traceparent
traceparent-is_empty s ids =
    rw
      (lower_hex-is_empty 31 s.trace_id ids.trace_hex, lower_hex-is_empty 15 s.span_id ids.span_hex)
      refl

-- What the server reads of the headers that were sent.
outbound_headers-read :
    (s : Span) (hs : Headers)
    → IsIds s.trace_id s.span_id
    → let out = outbound_headers s hs in
      (get_header (codes "Traceparent") out ≡ traceparent (some s))
      × (get_header (codes "Tracestate") out
          ≡ or_own s.tracestate (get_header (codes "Tracestate") hs))
      × (get_header (codes "Baggage") out ≡ or_own s.baggage (get_header (codes "Baggage") hs))
unfolding outbound_headers
outbound_headers-read s hs ids =
    let first = put (codes "Traceparent") (traceparent (some s) ∷ []) hs in
    let second = forward (codes "Tracestate") s.tracestate first in
    rw (traceparent-is_empty s ids) (
      get_header-forward (codes "Baggage") (codes "Traceparent") s.baggage second
          ∙ get_header-forward (codes "Tracestate") (codes "Traceparent") s.tracestate first
          ∙ get_header-put (codes "Traceparent") (codes "Traceparent") (traceparent (some s)) hs,
      get_header-forward (codes "Baggage") (codes "Tracestate") s.baggage second
          ∙ get_header-forward (codes "Tracestate") (codes "Tracestate") s.tracestate first
          ∙ ap (or_own s.tracestate)
              (get_header-put (codes "Traceparent") (codes "Tracestate") (traceparent (some s)) hs),
      get_header-forward (codes "Baggage") (codes "Baggage") s.baggage second
          ∙ ap (or_own s.baggage) (
              get_header-forward (codes "Tracestate") (codes "Baggage") s.tracestate first
              ∙ get_header-put (codes "Traceparent") (codes "Baggage") (traceparent (some s)) hs),
    )

adopt_inbound-place :
    (remote s : Span) (hs : Headers)
    → IsIds remote.trace_id remote.span_id
    → get_header (codes "Traceparent") hs ≡ traceparent (some remote)
    → place (adopt_inbound hs s) ≡ (
      remote.trace_id,
      s.span_id,
      remote.span_id,
      remote.sampled,
      normalize_tracestate (get_header (codes "Tracestate") hs),
      normalize_baggage (get_header (codes "Baggage") hs),
    )
unfolding adopt_inbound adopt
adopt_inbound-place remote s hs ids e =
    rw
      (
        adopt_inbound,
        e,
        parse_traceparent_context-format_traceparent remote.trace_id remote.span_id remote.sampled
            ids,
        lower_hex-is_empty 31 remote.trace_id ids.trace_hex,
        lower_hex-is_empty 15 remote.span_id ids.span_hex,
      )
      refl

set_present-place : (key value : Bytes) (s : Span) → place (set_present key value s) ≡ place s
set_present-place key value s = elim (Bool-cases (is_empty value)) [
  | inl absent ↦ rw absent refl
  | inr present ↦ rw present (set_attribute-place key value s)
]

set_truncated-place :
    (key : Bytes) (over : Bool) (s : Span) → place (set_truncated key over s) ≡ place s
set_truncated-place key true s = set_attribute-place _ _ s
set_truncated-place key false s = refl

describe_request-place :
    (r : Request) (route : Bytes) (s : Span) → place (describe_request r route s) ≡ place s
describe_request-place r route s =
    set_attribute-place _ _ _
    ∙ set_attribute-place _ _ _
    ∙ set_present-place _ _ _
    ∙ set_attribute-place _ _ _
    ∙ set_attribute-place _ _ _

describe_body-place :
    (cfg : Config) (hs : Headers) (body : Bytes) (over : Bool) (s : Span)
    → place (describe_body cfg hs body over s) ≡ place s
describe_body-place cfg hs body over s =
    set_present-place _ _ _
    ∙ set_truncated-place _ over _
    ∙ set_attribute-place _ _ _
    ∙ set_attribute-place _ _ s

describe_call-place : (r : Request) (s : Span) → place (describe_call r s) ≡ place s
describe_call-place r s =
    set_attribute-place _ _ _
    ∙ set_attribute-place _ _ _
    ∙ set_attribute-place _ _ _
    ∙ set_attribute-place _ _ s

either-place :
    (b : Bool) (x y : Option Body × Span) (p : Place)
    → place x.1 ≡ p
    → place y.1 ≡ p
    → place (if b then x else y).1 ≡ p
either-place true x y p h k = h
either-place false x y p h k = k

module _ (marshal : Attributes → Option Bytes) where
  set_json_object_attr-place :
      (key : Bytes) (values : Attributes) (s : Span)
      → place (set_json_object_attr marshal key values s) ≡ place s
  set_json_object_attr-place key [] s = refl
  set_json_object_attr-place key (v ∷ vs) s = elim (Option-cases (marshal (v ∷ vs))) [
    | inl none_out ↦ rw (set_json_object_attr, none_out) refl
    | inr (raw, rendered) ↦ rw (set_json_object_attr, rendered) (set_attribute-place key raw s)
  ]

  capture_request_exchange-place :
      (cfg : Config) (r : Request) (s : Span)
      → place (capture_request_exchange marshal cfg r s) ≡ place s
  unfolding capture_request_exchange
  capture_request_exchange-place cfg r s =
      set_json_object_attr-place _ (header_map r.query) _
      ∙ set_json_object_attr-place _ (masked marshal cfg (cookie_map r.cookies)) _
      ∙ set_json_object_attr-place _ (masked marshal cfg (header_map r.headers)) s

  capture_request-place :
      (cfg : Config) (r : Request) (s : Span) → place (capture_request marshal cfg r s).1 ≡ place s
  unfolding capture_request
  capture_request-place cfg r s = elim (Bool-cases cfg.http_capture) [
    | inr off ↦ rw (capture_request, off) refl
    | inl on ↦ elim (Option-cases r.body) [
      | inl absent ↦ rw (capture_request, on, absent) (capture_request_exchange-place cfg r s)
      | inr (body, there) ↦
          let (text, cut) = read_body_cap body cfg.http_max_body in
          let left = capture_request_exchange-place cfg r s in
          rw (capture_request, on, there)
            (either-place (not cfg.http_capture_bodies) _ _ _ left
              (describe_body-place cfg r.headers text cut _ ∙ left))
    ]
  ]

  serve_traced-place :
      (sha256 : Bytes → Bytes) (build : Build) (now seed : Bytes) (duration : ℤ) (cfg : Config)
      (app : Context → Option Body → Response marshal) (s : Span) (r : Request) (route : Bytes)
      (out : Headers) (counters : Counters)
      → map place
          (serve_traced marshal sha256 build now seed duration cfg app s r route out counters).ctx
        ≡ some (place (adopt_inbound r.headers s))
  serve_traced-place sha256 build now seed duration cfg app s r route out counters =
      ap (λ x. some x)
        (capture_request-place cfg r _ ∙ describe_request-place r route (adopt_inbound r.headers s))

  handler-place :
      (sha256 : Bytes → Bytes) (build : Build) (now seed : Bytes) (duration : ℤ) (d : Client)
      (app : Context → Option Body → Response marshal) (ctx : Context) (r : Request) (drawn : Drawn)
      (out : Headers) (counters : Counters)
      → not d.cfg.enabled || not d.cfg.apm_enabled ≡ false
      → should_skip_http_path d.cfg.http_skip_paths (http_route r) ≡ false
      → map place
          (run marshal sha256 build now seed duration (some d) app ctx r drawn out counters).ctx
        ≡ some (
            place (
              adopt_inbound r.headers
                (start_span (some d) ctx (r.verb ++ (b' ' ∷ http_route r)) drawn).1))
  unfolding handler
  handler-place sha256 build now seed duration d app ctx r drawn out counters on traced =
      rw (handler, on, traced)
        (serve_traced-place sha256 build now seed duration d.cfg app _ r (http_route r) out
          counters)

-- Where the span of a request stands that comes from a span, with the headers of its caller.
abbrev called : Bytes → Headers → Place → Place
called id hs (trace_id, span_id, _, sampled, tracestate, baggage) = (
  trace_id,
  id,
  span_id,
  sampled,
  normalize_tracestate (or_own tracestate (get_header (codes "Tracestate") hs)),
  normalize_baggage (or_own baggage (get_header (codes "Baggage") hs)),
)

-- The span of a call that a client with tracing on makes under a span.
abbrev pub calling : Client → Span → Request → Drawn → Span
calling c parent r drawn = (start_span (some c) (some parent) (codes "HTTP " ++ r.verb) drawn).1

module _ (sha256 : Bytes → Bytes) (build : Build) (now seed : Bytes) where
  round_trip-sent :
      (next : Headers → Answer) (c : Client) (parent : Span) (r : Request) (drawn : Drawn)
      (spent : ℤ) (callers : List ℕ) (io : Option (IoRecorder IoWait))
      → c.cfg.apm_enabled ≡ true
      → (round_trip sha256 build now seed next c (some parent) r drawn spent callers io).sent
        ≡ outbound_headers (describe_call r (calling c parent r drawn)) r.headers
  unfolding round_trip
  round_trip-sent next c parent r drawn spent callers io apm = rw (round_trip, apm) refl

  -- Under a span, a call of a client with tracing on reaches a server with tracing on, on a path that
  -- is not skipped, as a request whose span is the child of the call's span, if W3C allows its ids: in
  -- its trace, under its id, with its sampling decision, and with its tracestate and baggage
  -- normalised, or the ones that the caller set where the span has none.
  pub handler-round_trip :
      (marshal : Attributes → Option Bytes) (next : Headers → Answer) (c d : Client) (parent : Span)
      (r served : Request) (drawn again : Drawn) (spent duration : ℤ) (callers : List ℕ)
      (io : Option (IoRecorder IoWait)) (app : Context → Option Body → Response marshal)
      (ctx : Context) (out : Headers) (counters : Counters)
      → c.cfg.apm_enabled ≡ true
      → d.cfg.enabled ≡ true
      → d.cfg.apm_enabled ≡ true
      → should_skip_http_path d.cfg.http_skip_paths (http_route served) ≡ false
      → let call = calling c parent r drawn in
        IsIds call.trace_id call.span_id
        → served.headers
          ≡ (round_trip sha256 build now seed next c (some parent) r drawn spent callers io).sent
        → map place
            (run marshal sha256 build now seed duration
              (some d)
              app
              ctx
              served
              again
              out
              counters).ctx
          ≡ some (
            call.trace_id,
            again.span_id,
            call.span_id,
            call.sampled,
            normalize_tracestate
                (or_own call.tracestate (get_header (codes "Tracestate") r.headers)),
            normalize_baggage (or_own call.baggage (get_header (codes "Baggage") r.headers)),
          )
  handler-round_trip marshal next c d parent r served drawn again spent duration callers io app ctx
        out counters apm don dapm traced ids h =
      let call = calling c parent r drawn in
      let sending = describe_call r call in
      let same = describe_call-place r call in
      let ids' = subst HasIds (sym same) ids in
      let (tp, state, bag) = outbound_headers-read sending r.headers ids' in
      let e = h ∙ round_trip-sent next c parent r drawn spent callers io apm in
      let got : (key : Bytes)
          → get_header key served.headers ≡ get_header key (outbound_headers sending r.headers) =
        λ key. ap (get_header key) e in
      let name = served.verb ++ (b' ' ∷ http_route served) in
      let fresh : (start_span (some d) ctx name again).1.span_id ≡ again.span_id =
        ap (λ x. x.1.span_id) (start_span-carried d ctx name again don dapm) in
      handler-place marshal sha256 build now seed duration d app ctx served again out counters
        (rw (don, dapm) refl) traced
      ∙ ap (λ x. some x)
          (adopt_inbound-place sending (start_span (some d) ctx name again).1 served.headers ids'
              (got _ ∙ tp)
            ∙ rw (fresh, got (codes "Tracestate") ∙ state, got (codes "Baggage") ∙ bag)
                (ap (called again.span_id r.headers) same))
