-- ===== src/Sarama/Producer/Sends.antt =====
-- A publish and its consumption are one trace.
use mathlib.Core.Path.{subst}
use go_collector.Base.{true, ◌≡◌, refl, sym, ap, ◌∙◌, Option, some}
use go_collector.Base.Bytes.{Bytes}
use go_collector.Base.Int.{ℤ}
use go_collector.Messaging.{MessagingSpan, start_messaging_span, span_name}
use go_collector.Propagation.Baggage.{normalize_baggage}
use go_collector.Propagation.Traceparent.{IsIds}
use go_collector.Propagation.Tracestate.{normalize_tracestate}
use go_collector.Sarama.Consumed.{start_process_span}
use go_collector.Sarama.Consumed.Parent.{start_messaging_span-place, start_process_span-inject}
use go_collector.Sarama.Headers.{inject}
use go_collector.Sarama.Headers.RoundTrip.{IsFree, sent}
use go_collector.Sarama.Producer.{SyncProducer, ProducerMessage, published_span, prepare}
use go_collector.Sarama.{ConsumerMessage}
use go_collector.Tracing.Place.{Place, place, HasIds, start_span-carried}
use go_collector.Tracing.{Client, Context, Drawn, Span, start_span, client_span, inherited}

module _ (c : Client) (on : c.cfg.enabled ≡ true) (apm : c.cfg.apm_enabled ≡ true) where
  start_messaging_span-carried :
      (client : Option Client) (ctx : Context) (m : MessagingSpan) (drawn : Drawn)
      → client ≡ some c
      → (start_messaging_span client ctx m drawn).0
        ≡ some (client_span c (inherited ctx drawn) (span_name m) drawn)
  unfolding start_messaging_span
  start_messaging_span-carried client ctx m drawn e =
      rw (e, start_messaging_span, start_span-carried c ctx (span_name m) drawn on apm) refl

  abbrev published : SyncProducer → Context → ProducerMessage → Drawn → Span
  published p ctx m drawn =
      client_span c (inherited ctx drawn) (span_name (published_span p m)) drawn

  prepare-headers :
      (p : SyncProducer) (ctx : Context) (m : ProducerMessage) (drawn : Drawn) (at : Bytes)
      → p.client ≡ some c
      → (prepare p ctx m drawn at).0.headers ≡ inject (some (published p ctx m drawn)) at m.headers
  unfolding prepare
  prepare-headers p ctx m drawn at e =
      ap (λ x. inject x at m.headers)
        (start_messaging_span-carried p.client ctx (published_span p m) drawn e)

  start_span-place :
      (client : Option Client) (ctx : Context) (name : Bytes) (drawn : Drawn)
      → client ≡ some c
      → place (start_span client ctx name drawn).1
        ≡ place (client_span c (inherited ctx drawn) name drawn)
  start_span-place client ctx name drawn e = rw (e, start_span-carried c ctx name drawn on apm) refl

  prepare-place :
      (p : SyncProducer) (ctx : Context) (m : ProducerMessage) (drawn : Drawn) (at : Bytes)
      → p.client ≡ some c
      → place (prepare p ctx m drawn at).1 ≡ place (published p ctx m drawn)
  unfolding prepare
  prepare-place p ctx m drawn at e =
      start_messaging_span-place p.client ctx (published_span p m) drawn
      ∙ start_span-place p.client ctx (span_name (published_span p m)) drawn e

-- Where a span stands that is started under a remote one.
abbrev child : Bytes → Place → Place
child id (trace_id, span_id, _, sampled, tracestate, baggage) =
    (trace_id, id, span_id, sampled, normalize_tracestate tracestate, normalize_baggage baggage)

-- A message that a producer's client with tracing on has prepared, from headers with none of the four
-- keys and with ids that W3C allows, is consumed, by a client with tracing on, in a span that is the
-- child of the span of its publish: in its trace, under its id, with its sampling decision, and with
-- its tracestate and baggage normalised.
pub start_process_span-prepare :
    (waited : Bytes → Bytes → Option ℤ) (c d : Client) (p : SyncProducer) (ctx consumer : Context)
    (m : ProducerMessage) (k : ConsumerMessage) (group at started : Bytes) (drawn again : Drawn)
    → p.client ≡ some c
    → c.cfg.enabled ≡ true
    → c.cfg.apm_enabled ≡ true
    → d.cfg.enabled ≡ true
    → d.cfg.apm_enabled ≡ true
    → IsFree m.headers
    → k.headers ≡ sent (prepare p ctx m drawn at).0.headers
    → let s = (prepare p ctx m drawn at).1 in
      IsIds s.trace_id s.span_id
      → place (start_process_span waited consumer (some d) group k started again).1 ≡ (
        s.trace_id,
        again.span_id,
        s.span_id,
        s.sampled,
        normalize_tracestate s.tracestate,
        normalize_baggage s.baggage,
      )
start_process_span-prepare waited c d p ctx consumer m k group at started drawn again e on apm don
      dapm free h ids =
    let same = prepare-place c on apm p ctx m drawn at e in
    let ids' = subst HasIds same ids in
    start_process_span-inject waited d consumer group k started again
      (published c on apm p ctx m drawn) at m.headers
      (h ∙ ap sent (prepare-headers c on apm p ctx m drawn at e)) free ids' don dapm
    ∙ ap (child again.span_id) (sym same)
