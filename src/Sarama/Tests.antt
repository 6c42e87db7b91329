-- ===== src/Sarama/Tests.antt =====
-- The theorems of the Kafka integration at concrete inputs.
use go_collector.Base.{
  ℕ, zero, suc, List, [], ◌∷◌, ◌++◌, ◌≡◌, refl, Option, none, some, All, length,
}
use go_collector.Base.Assoc.{put}
use go_collector.Base.Bytes.{Bytes, codes}
use go_collector.Base.Int.{ℤ, pos}
use go_collector.Messaging.{
  returns, apply_messaging_body, capture_messaging_bodies, set_fields, start_messaging_span,
}
use go_collector.Propagation.Traceparent.{IsIds}
use go_collector.Propagation.Tracestate.{normalize_tracestate}
use go_collector.Propagation.Baggage.{normalize_baggage}
use go_collector.Sarama.Batch.{Batch, batch_of, batch_span, describe_batch, new_batch}
use go_collector.Sarama.Batch.Closed.{IsClosed, run_batch-IsClosed}
use go_collector.Sarama.Batch.Handler.{Handler, done, ask, for_each, handle, start_ahead, run_batch}
use go_collector.Sarama.Batch.Spans.{World}
use go_collector.Sarama.Claim.{
  Flush, Event, receives, times_out, cancelled, fires, opened, flush_held, accumulate, claim_step,
  consume_claim,
}
use go_collector.Sarama.Claim.Kept.{handed_over, came, IsSettled, consume_claim_keeps}
use go_collector.Sarama.Claim.Limits.{IsWithin, NeverFull, bytes_of, consume_claim_bounded}
use go_collector.Sarama.Claim.Live.{consume_claim_flushes}
use go_collector.Sarama.Consumed.{start_process_span}
use go_collector.Sarama.Headers.RoundTrip.{sent}
use go_collector.Sarama.Headers.{has_header}
use go_collector.Sarama.Producer.{SyncProducer, ProducerMessage, prepare}
use go_collector.Sarama.Producer.Sends.{start_process_span-prepare}
use go_collector.Sarama.{ConsumerMessage, BatchOptions, on_demand, full}
use go_collector.Tracing.Place.{place}
use go_collector.Tracing.Sample.{client, drawn, build}
use go_collector.Tracing.{Drawn, Span, set_attribute, start_span}

abbrev message : ℕ → Bytes → ConsumerMessage
message address value = record {
  address = address;
  headers = [];
  key = codes "k";
  value = value;
  topic = codes "orders";
  partition = pos 0;
  offset = pos address;
}

abbrev two_records : BatchOptions
two_records = record {
  group = codes "workers";
  message_spans = on_demand;
  max_records = pos 2;
  max_bytes = pos 0;
  max_wait = pos 0;
}

-- A handler that counts its batches, and fails on the third one.
abbrev counting : ℕ → Flush → Option Bytes × ℕ
counting zero f = (none, 1)
counting (suc zero) f = (none, 2)
counting n f = (some (codes "full"), n)

abbrev some_events : List Event
some_events =
    receives (some (message 1 (codes "a")))
    ∷ receives (some (message 2 (codes "b")))
    ∷ receives (some (message 3 (codes "c")))
    ∷ []

consume_claim_keeps_example :
    let events = some_events ++ (fires ∷ times_out ∷ cancelled ∷ times_out ∷ []) in
    let (unread, c) = consume_claim counting two_records events (opened counting two_records 0) in
    (handed_over c.flushes ++ (c.batch ++ came unread) ≡ came events) × IsSettled c
consume_claim_keeps_example =
    consume_claim_keeps counting two_records
      (some_events ++ (fires ∷ times_out ∷ cancelled ∷ times_out ∷ [])) 0

running :
    (consume_claim counting two_records some_events (opened counting two_records 0)).1.returned
    ≡ none
unfolding consume_claim claim_step accumulate flush_held full
running = refl

consume_claim_flushes_example :
    let c = (consume_claim counting two_records some_events (opened counting two_records 0)).1 in
    let c' = claim_step counting two_records times_out (claim_step counting two_records fires c) in
    (handed_over c'.flushes ≡ handed_over c.flushes ++ c.batch) × (c'.batch ≡ [])
consume_claim_flushes_example = consume_claim_flushes counting two_records some_events 0 running

consume_claim_bounded_example :
    let (_, c) = consume_claim counting two_records some_events (opened counting two_records 0) in
    All (IsWithin two_records) c.flushes
    × NeverFull two_records (length c.batch) c.batch
    × (c.bytes ≡ bytes_of c.batch)
consume_claim_bounded_example = consume_claim_bounded counting two_records some_events 0

abbrev producer : SyncProducer
producer = record { client = some client; brokers = codes "broker:9092" }

abbrev order : ProducerMessage
order = record { topic = codes "orders"; key = none; value = none; headers = [] }

abbrev published : Span
published = (prepare producer none order drawn (codes "1700000000.5")).1

abbrev consumed : ConsumerMessage
consumed = record (message 1 []) {
  headers = sent (prepare producer none order drawn (codes "1700000000.5")).0.headers;
}

abbrev again : Drawn
again = record drawn { span_id = codes "b7ad6b7169203331" }

published-IsIds : IsIds published.trace_id published.span_id
unfolding prepare start_messaging_span apply_messaging_body capture_messaging_bodies set_fields
    set_attribute start_span put
published-IsIds = record {
  trace_hex = refl;
  span_hex = refl;
  trace_nonzero = refl;
  span_nonzero = refl;
}

abbrev unmeasured : Bytes → Bytes → Option ℤ
unmeasured stamp started = none

start_process_span-prepare_example :
    place
      (start_process_span unmeasured none
        (some client)
        (codes "workers")
        consumed
        drawn.now
        again).1
    ≡ (
      published.trace_id,
      again.span_id,
      published.span_id,
      published.sampled,
      normalize_tracestate published.tracestate,
      normalize_baggage published.baggage,
    )
unfolding has_header
start_process_span-prepare_example =
    start_process_span-prepare unmeasured client client producer none none order consumed
      (codes "workers") (codes "1700000000.5") drawn.now drawn again refl refl refl refl refl
      (refl, refl, refl, refl) refl published-IsIds

abbrev world : World
world = record {
  waited = unmeasured;
  sha256 = λ bytes. bytes;
  build = build;
  seed = codes "seed";
  drawn = λ n. drawn;
  started = λ n. drawn.now;
  clock = λ n. codes "2026-01-01T00:00:02Z";
}

-- It asks for the context of a message, loops over all of them, and hands on the error of a round.
abbrev looping : Handler
looping =
    ask (some (message 2 (codes "b"))) (λ ctx.
      for_each (λ ctx m. done (returns (some (codes "refused")))) (λ err. done (returns err)))

abbrev two_messages : List (Option ConsumerMessage)
two_messages = some (message 1 (codes "a")) ∷ some (message 2 (codes "b")) ∷ []

abbrev first_batch : Batch
first_batch =
    batch_of (some client) two_records none two_messages
      (start_messaging_span (some client) none
        (batch_span two_records (message 1 (codes "a")) two_messages) drawn).0
      (some (
        describe_batch (message 1 (codes "a")) (message 2 (codes "b")) 2
          (start_messaging_span (some client) none
            (batch_span two_records (message 1 (codes "a")) two_messages) drawn).1))

opens_first_batch : new_batch none (some client) two_records two_messages drawn ≡ some first_batch
unfolding new_batch
opens_first_batch = refl

run_batch-IsClosed_example :
    ((run_batch world looping first_batch).0
      ≡ (handle world looping (start_ahead world first_batch)).0)
    × IsClosed (run_batch world looping first_batch).1
run_batch-IsClosed_example =
    run_batch-IsClosed world none (some client) two_records two_messages drawn looping first_batch
      opens_first_batch
