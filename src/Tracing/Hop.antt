-- ===== src/Tracing/Hop.antt =====
-- A trace across two processes: the traceparent that one writes makes the other's span its child.
use go_collector.Base.{[], true, false, ◌≡◌, refl, ap, none, some}
use go_collector.Base.Bytes.{Bytes, is_empty}
use go_collector.Propagation.Traceparent.{
  IsIds, parse_traceparent_context-format_traceparent, lower_hex-is_empty,
}
use go_collector.Tracing.{
  Span, Client, Drawn, client_span, stub_span, start_span, traceparent, context_with_remote_span,
}

abbrev pub remote_of : Span → Bytes → Span
remote_of s now =
    stub_span
      (record {
        trace_id = s.trace_id;
        span_id = s.span_id;
        sampled = s.sampled;
        tracestate = [];
        baggage = [];
      })
      now

context_with_remote_span-traceparent :
    (s : Span) (now : Bytes)
    → IsIds s.trace_id s.span_id
    → context_with_remote_span none (traceparent (some s)) now ≡ some (remote_of s now)
unfolding context_with_remote_span
context_with_remote_span-traceparent s now ids =
    rw
      (
        context_with_remote_span,
        parse_traceparent_context-format_traceparent s.trace_id s.span_id s.sampled ids,
        lower_hex-is_empty 31 s.trace_id ids.trace_hex,
        lower_hex-is_empty 15 s.span_id ids.span_hex,
      )
      refl

pub start_span-enabled :
    (c : Client) (parent : Span) (name : Bytes) (drawn : Drawn)
    → c.cfg.enabled ≡ true
    → c.cfg.apm_enabled ≡ true
    → is_empty parent.trace_id ≡ false
    → (start_span (some c) (some parent) name drawn).1
      ≡ client_span c
          (record {
            trace_id = parent.trace_id;
            parent_id = parent.span_id;
            sampled = parent.sampled;
            tracestate = parent.tracestate;
            baggage = parent.baggage;
          })
          name
          drawn
unfolding start_span
start_span-enabled c parent name drawn e a t = rw (e, a, t) refl

-- A span with ids that W3C allows is the parent of the first span that another process, with tracing
-- enabled, starts under its traceparent: same trace, its id as the parent, and its sampling decision,
-- set or not.
pub start_span-traceparent :
    (c : Client) (s : Span) (name now : Bytes) (drawn : Drawn)
    → IsIds s.trace_id s.span_id
    → c.cfg.enabled ≡ true
    → c.cfg.apm_enabled ≡ true
    → ((start_span
          (some c)
          (context_with_remote_span none (traceparent (some s)) now)
          name
          drawn).1.trace_id
        ≡ s.trace_id)
      × ((start_span
            (some c)
            (context_with_remote_span none (traceparent (some s)) now)
            name
            drawn).1.parent_id
          ≡ s.span_id)
      × ((start_span
            (some c)
            (context_with_remote_span none (traceparent (some s)) now)
            name
            drawn).1.sampled
          ≡ s.sampled)
start_span-traceparent c s name now drawn ids e a =
    let child =
      start_span-enabled c (remote_of s now) name drawn e a
        (lower_hex-is_empty 31 s.trace_id ids.trace_hex) in
    rw (context_with_remote_span-traceparent s now ids)
      (ap (λ x. x.trace_id) child, ap (λ x. x.parent_id) child, ap (λ x. x.sampled) child)
