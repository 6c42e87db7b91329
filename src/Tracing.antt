-- ===== src/Tracing.antt =====
-- tracing.go and the context functions of propagation.go: the life of a span. A context is the span
-- that it carries, and a time is its RFC 3339 text. The mutex of a span makes each method one step.
pub mod Wire
pub mod Sample
pub mod Place
pub mod Hop
pub mod Finish
mod Tests
use go_collector.Base.{
  ℕ, Bool, true, false, not, ◌&&◌, ◌||◌, List, [], ◌∷◌, ◌++◌, Option, none, some, length, leb,
  if◌then◌else◌,
}
use go_collector.Base.Assoc.{put}
use go_collector.Base.Bytes.{Bytes, codes, is_empty}
use go_collector.Config.{Config, zero_config}
use go_collector.Identity as Identity
use go_collector.Identity.{organisation_ref, application_ref}
use go_collector.Propagation.Traceparent.{parse_traceparent_context, format_traceparent}
use go_collector.Propagation.{RemoteContext, valid}
use go_collector.Redact.{redact_map}
use go_collector.Resource.{Attributes, Build, with_resource_attributes}
use go_collector.Tracing.Wire.{SpanRecord, SpanBatch}

-- `dir` is the directory of the span's writer, and `buffered` whether a client with a buffer made it.
pub record Span : Type 0 where
  pub cfg : Config
  pub dir : Bytes
  pub buffered : Bool
  pub ended : Bool
  pub trace_id : Bytes
  pub span_id : Bytes
  pub parent_id : Bytes
  pub name : Bytes
  pub started_at : Bytes
  pub attributes : Attributes
  pub status : Bytes
  pub service_name : Bytes
  pub sampled : Bool
  pub tracestate : Bytes
  pub baggage : Bytes
  pub http_method : Bytes
  pub http_route : Bytes
  pub http_status : ℕ

abbrev pub Context : Type 0
Context = Option Span

pub record Client : Type 0 where
  pub cfg : Config
  pub dir : Bytes

-- What a start draws: newTraceID, newSpanID and the clock.
pub record Drawn : Type 0 where
  pub trace_id : Bytes
  pub span_id : Bytes
  pub now : Bytes

-- A span that no client made has the zero Config.
abbrev pub bare_span : Bytes → Bytes → Span
bare_span name now = record {
  cfg = zero_config;
  dir = [];
  buffered = false;
  ended = false;
  trace_id = [];
  span_id = [];
  parent_id = [];
  name = name;
  started_at = now;
  attributes = [];
  status = [];
  service_name = [];
  sampled = true;
  tracestate = [];
  baggage = [];
  http_method = [];
  http_route = [];
  http_status = 0;
}

-- What a span takes over: the trace id, the parent id, the flag and the companion headers.
pub record Inherited : Type 0 where
  pub trace_id : Bytes
  pub parent_id : Bytes
  pub sampled : Bool
  pub tracestate : Bytes
  pub baggage : Bytes

abbrev pub born : Drawn → Inherited
born drawn = record {
  trace_id = drawn.trace_id;
  parent_id = [];
  sampled = true;
  tracestate = [];
  baggage = [];
}

abbrev pub inherited : Context → Drawn → Inherited
inherited none drawn = born drawn
inherited (some parent) drawn =
    if not (is_empty parent.trace_id)
    then record {
      trace_id = parent.trace_id;
      parent_id = parent.span_id;
      sampled = parent.sampled;
      tracestate = parent.tracestate;
      baggage = parent.baggage;
    }
    else born drawn

abbrev pub client_span : Client → Inherited → Bytes → Drawn → Span
client_span c i name drawn = record {
  cfg = c.cfg;
  dir = c.dir;
  buffered = true;
  ended = false;
  trace_id = i.trace_id;
  span_id = drawn.span_id;
  parent_id = i.parent_id;
  name = name;
  started_at = drawn.now;
  attributes = [];
  status = codes "ok";
  service_name = c.cfg.service_name;
  sampled = i.sampled;
  tracestate = i.tracestate;
  baggage = i.baggage;
  http_method = [];
  http_route = [];
  http_status = 0;
}

-- StartSpan: the context with the span in it, and the span. A nil client is `none`.
unfoldable pub start_span : Option Client → Context → Bytes → Drawn → Context × Span
start_span none ctx name drawn = (ctx, bare_span name drawn.now)
start_span (some c) ctx name drawn =
    if not c.cfg.enabled || not c.cfg.apm_enabled
    then (ctx, bare_span name drawn.now)
    else let span = client_span c (inherited ctx drawn) name drawn in (some span, span)

abbrev pub max_attributes : ℕ
max_attributes = 64

unfoldable pub set_attribute : Bytes → Bytes → Span → Span
set_attribute key value s =
    if leb max_attributes (length s.attributes)
    then s
    else record s { attributes = put key value s.attributes }

abbrev pub set_status : Bytes → Span → Span
set_status status s = record s { status = status }

abbrev pub traceparent : Context → Bytes
traceparent none = []
traceparent (some s) = format_traceparent s.trace_id s.span_id s.sampled

abbrev pub empty_context : RemoteContext
empty_context = record {
  trace_id = [];
  span_id = [];
  sampled = false;
  tracestate = [];
  baggage = [];
}

abbrev pub remote_context : Context → RemoteContext
remote_context none = empty_context
remote_context (some s) = record {
  trace_id = s.trace_id;
  span_id = s.span_id;
  sampled = s.sampled;
  tracestate = s.tracestate;
  baggage = s.baggage;
}

unfoldable pub adopt : RemoteContext → Span → Span
adopt remote s = if not (valid remote) then s else record s {
  trace_id = remote.trace_id;
  parent_id = remote.span_id;
  sampled = remote.sampled;
  tracestate = remote.tracestate;
  baggage = remote.baggage;
}

-- The span that stands for a remote parent has ended already.
abbrev pub stub_span : RemoteContext → Bytes → Span
stub_span remote now = record (bare_span [] now) {
  trace_id = remote.trace_id;
  span_id = remote.span_id;
  sampled = remote.sampled;
  tracestate = remote.tracestate;
  baggage = remote.baggage;
  ended = true;
}

unfoldable pub context_with_remote_context : Context → RemoteContext → Bytes → Context
context_with_remote_context ctx remote now =
    if not (valid remote) then ctx else some (stub_span remote now)

unfoldable pub context_with_remote_span : Context → Bytes → Bytes → Context
unfolding context_with_remote_context
context_with_remote_span ctx header now = elim (parse_traceparent_context header) [
  | none ↦ ctx
  | some remote ↦ context_with_remote_context ctx remote now
]

abbrev pub recorded_attributes : Build → Span → Attributes
recorded_attributes build s =
    with_resource_attributes build
      (if s.cfg.http_redact then redact_map s.attributes s.cfg.redact_patterns else s.attributes)
      s.cfg

abbrev pub span_record : Build → Span → Bytes → SpanRecord
span_record build s now = record {
  organisation = organisation_ref s.cfg;
  application = application_ref s.cfg;
  trace_id = s.trace_id;
  span_id = s.span_id;
  parent_span_id = s.parent_id;
  name = s.name;
  started_at = s.started_at;
  ended_at = now;
  status = s.status;
  attributes = recorded_attributes build s;
  service_name = s.service_name;
  http_method = s.http_method;
  http_route = s.http_route;
  http_status_code = s.http_status;
}

-- `none` where the source returns false.
unfoldable pub finish : Build → Bytes → Span → Option SpanRecord × Span
finish build now s =
    if s.ended
    then (none, s)
    else if not s.cfg.enabled || not s.cfg.apm_enabled || is_empty s.dir
    then (none, record s { ended = true })
    else (some (span_record build s now), record s { ended = true })

-- What End does behind finish: nothing, the one write of a span without a client, or the buffer's.
pub data Effect : Type 0 where
  nothing : Effect
  wrote : SpanBatch → Effect
  enqueued : SpanRecord → Effect

module _ (sha256 : Bytes → Bytes) where
  abbrev pub batch_of_one : Config → Bytes → SpanRecord → SpanBatch
  batch_of_one cfg seed r = record {
    schema = codes "chronos.tracing.span-batch.v1";
    processing = Identity.processing sha256 cfg (seed ++ r.span_id);
    spans = r ∷ [];
    span_count = codes "1";
  }

  abbrev pub effect_of : Span → Bytes → Option SpanRecord → Effect
  effect_of s seed none = nothing
  effect_of s seed (some r) =
      if not s.buffered then wrote (batch_of_one s.cfg seed r) else enqueued r

  unfoldable pub end : Build → Bytes → Bytes → Span → Effect × Span
  end build now seed s = let (done, s') = finish build now s in (effect_of s seed done, s')
