-- ===== src/Sarama/Consumed/Parent.antt =====
-- The span of a consumed message is a child of the span of its publish.
use go_collector.Base.{
  Bool, true, false, not, ◌||◌, List, [], ◌∷◌, ◌≡◌, refl, ap, ◌∙◌, Option, none, some, Bool-cases,
  inl, inr,
}
use go_collector.Base.Bytes.{Bytes, is_empty}
use go_collector.Base.Int.{ℤ, pos, leb_ℤ}
use go_collector.Messaging.{
  MessagingSpan, Field, fixed, text, known, set_field, set_fields, fields_of, attr_int,
  start_messaging_span, apply_messaging_body, set_body, set_truncated, messaging_text,
  capture_messaging_bodies, span_name,
}
use go_collector.Propagation.Baggage.{normalize_baggage}
use go_collector.Propagation.Traceparent.{IsIds, lower_hex-is_empty}
use go_collector.Propagation.Tracestate.{normalize_tracestate}
use go_collector.Propagation.{RemoteContext}
use go_collector.Sarama.Consumed.{start_process_span, set_wait, consumed_span}
use go_collector.Sarama.Headers.{inject, extract}
use go_collector.Sarama.Headers.RoundTrip.{IsFree, sent, extract-inject}
use go_collector.Sarama.{ConsumerMessage, RecordHeader}
use go_collector.Tracing.{
  Client, Context, Drawn, Span, start_span, context_with_remote_context, remote_context, stub_span,
}
use go_collector.Tracing.Hop.{start_span-enabled}
use go_collector.Tracing.Place.{place, set_attribute-place}

set_field-place : (f : Field) (s : Span) → place (set_field f s) ≡ place s
set_field-place (fixed k v) s = set_attribute-place k v s
set_field-place (text k v) s = elim (Bool-cases (is_empty v)) [
  | inl absent ↦ rw absent refl
  | inr present ↦ rw present (set_attribute-place k v s)
]
set_field-place (known k n) s = elim (Bool-cases (leb_ℤ (pos 0) n)) [
  | inl present ↦ rw present (set_attribute-place k (attr_int n) s)
  | inr absent ↦ rw absent refl
]

set_fields-place : (fs : List Field) (s : Span) → place (set_fields fs s) ≡ place s
unfolding set_fields
set_fields-place [] s = refl
set_fields-place (f ∷ fs) s = set_fields-place fs (set_field f s) ∙ set_field-place f s

set_body-place : (raw : Bytes) (s : Span) → place (set_body raw s) ≡ place s
set_body-place raw s = elim (Bool-cases (messaging_text raw)) [
  | inl plain ↦ rw plain (set_attribute-place _ _ s)
  | inr binary ↦ rw binary (set_attribute-place _ _ _ ∙ set_attribute-place _ _ s)
]

set_truncated-place : (over : Bool) (s : Span) → place (set_truncated over s) ≡ place s
set_truncated-place true s = set_attribute-place _ _ s
set_truncated-place false s = refl

apply_messaging_body-place :
    (c : Option Client) (body : Bytes) (s : Span) → place (apply_messaging_body c body s) ≡ place s
unfolding apply_messaging_body
apply_messaging_body-place none body s = refl
apply_messaging_body-place (some c) body s =
    elim (Bool-cases (not (capture_messaging_bodies (some c)) || is_empty body)) [
      | inl off ↦ rw off refl
      | inr on ↦ rw on (set_truncated-place _ _ ∙ set_body-place _ s)
    ]

set_wait-place : (w : Option ℤ) (s : Span) → place (set_wait w s) ≡ place s
set_wait-place none s = refl
set_wait-place (some w) s = set_attribute-place _ _ s

pub start_messaging_span-place :
    (c : Option Client) (ctx : Context) (m : MessagingSpan) (drawn : Drawn)
    → place (start_messaging_span c ctx m drawn).1 ≡ place (start_span c ctx (span_name m) drawn).1
unfolding start_messaging_span
start_messaging_span-place c ctx m drawn =
    apply_messaging_body-place c m.body _ ∙ set_fields-place (fields_of m) _

-- What a consumer's span takes over from the publish.
abbrev normal : Span → RemoteContext
normal s = record (remote_context (some s)) {
  tracestate = normalize_tracestate s.tracestate;
  baggage = normalize_baggage s.baggage;
}

context_with_remote-valid :
    (s : Span) (now : Bytes) (ctx : Context)
    → IsIds s.trace_id s.span_id
    → context_with_remote_context ctx (normal s) now ≡ some (stub_span (normal s) now)
unfolding context_with_remote_context
context_with_remote-valid s now ctx ids =
    rw
      (lower_hex-is_empty 31 s.trace_id ids.trace_hex, lower_hex-is_empty 15 s.span_id ids.span_hex)
      refl

module _ (waited : Bytes → Bytes → Option ℤ) where
  start_process_span-place :
      (ctx : Context) (c : Option Client) (group : Bytes) (m : ConsumerMessage) (started : Bytes)
      (drawn : Drawn)
      → place (start_process_span waited ctx c group m started drawn).1
        ≡ place
            (start_span c
              (context_with_remote_context ctx (extract m.headers).0 started)
              (span_name (consumed_span c group m))
              drawn).1
  unfolding start_process_span
  start_process_span-place ctx c group m started drawn =
      set_wait-place _ _ ∙ start_messaging_span-place c _ (consumed_span c group m) drawn

  -- A message with the headers that inject wrote for a span whose ids W3C allows, behind headers of the
  -- caller that have none of the four keys, is consumed in a span of the same trace, under the publish,
  -- with its sampling decision, and with its tracestate and baggage normalised, by any client with
  -- tracing on and whatever context the consumer runs under.
  pub start_process_span-inject :
      (c : Client) (ctx : Context) (group : Bytes) (m : ConsumerMessage) (started : Bytes)
      (drawn : Drawn) (s : Span) (at : Bytes) (hs : List RecordHeader)
      → m.headers ≡ sent (inject (some s) at hs)
      → IsFree hs
      → IsIds s.trace_id s.span_id
      → c.cfg.enabled ≡ true
      → c.cfg.apm_enabled ≡ true
      → place (start_process_span waited ctx (some c) group m started drawn).1 ≡ (
        s.trace_id,
        drawn.span_id,
        s.span_id,
        s.sampled,
        normalize_tracestate s.tracestate,
        normalize_baggage s.baggage,
      )
  start_process_span-inject c ctx group m started drawn s at hs h free ids e a =
      start_process_span-place ctx (some c) group m started drawn
      ∙ rw (h, extract-inject s at hs free ids, context_with_remote-valid s started ctx ids)
          (ap place (
            start_span-enabled c (stub_span (normal s) started)
              (span_name (consumed_span (some c) group m)) drawn e a
              (lower_hex-is_empty 31 s.trace_id ids.trace_hex)))
