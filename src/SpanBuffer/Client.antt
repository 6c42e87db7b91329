-- ===== src/SpanBuffer/Client.antt =====
-- The client's side of span_buffer.go: `enqueueSpan`, `flushSpanBatch` and `FlushSpans`. Between the
-- take and the end of the write other goroutines may add spans, while none of them takes any: an
-- arrival that fills a batch has its own flush behind this one. Each round of the loop names those
-- arrivals, the clock, and the outcome of `WriteJSON`. `none` means that the rounds ran out.
use go_collector.Base.{
  Bool, true, false, List, [], ◌∷◌, ◌++◌, Option, none, some, length, if◌then◌else◌,
}
use go_collector.Base.Bytes.{Bytes, codes}
use go_collector.Base.Decimal.{itoa}
use go_collector.Config.{Config}
use go_collector.Identity.{processing}
use go_collector.SpanBuffer.{SpanBuffer, add, take_spans, requeue}
use go_collector.Tracing.Wire.{SpanRecord, SpanBatch}

pub record Round : Type 0 where
  pub arrivals : List SpanRecord
  pub now : Bytes
  pub write_ok : Bool

-- `written` is what reached the spool, and `offered` every span that ended, both in order.
pub record World : Type 0 where
  pub buffer : SpanBuffer
  pub written : List SpanBatch
  pub offered : List SpanRecord

abbrev pub records_of : List SpanBatch → List SpanRecord
records_of [] = []
records_of (b ∷ bs) = b.spans ++ records_of bs

abbrev pub end_span : World → SpanRecord → World
end_span w r = record w { buffer = (add w.buffer r).0; offered = w.offered ++ r ∷ [] }

abbrev pub arrive : World → List SpanRecord → World
arrive w [] = w
arrive w (r ∷ rs) = arrive (end_span w r) rs

module _ (sha256 : Bytes → Bytes) (cfg : Config) where
  abbrev pub span_batch : Bytes → SpanRecord → List SpanRecord → SpanBatch
  span_batch now first rest = record {
    schema = codes "chronos.tracing.span-batch.v1";
    processing = processing sha256 cfg (now ++ first.span_id);
    spans = first ∷ rest;
    span_count = itoa (length (first ∷ rest));
  }

  -- The body of the loop behind the take; `again` is the next round.
  unfoldable pub flush_taken :
      Bool
      → Round
      → World
      → List SpanRecord
      → (World → Option (Bool × World))
      → Option (Bool × World)
  flush_taken whole round w [] again = some (true, w)
  flush_taken whole round w (first ∷ rest) again =
      let w1 = arrive w round.arrivals in
      let done = record w1 { written = w1.written ++ span_batch round.now first rest ∷ [] } in
      let more = again done in
      if round.write_ok
      then if whole then more else some (true, done)
      else some (false, record w1 { buffer = requeue w1.buffer (first ∷ rest) })

  unfoldable pub flush_span_batch : Bool → List Round → World → Option (Bool × World)
  unfolding flush_taken
  flush_span_batch whole [] w = none
  flush_span_batch whole (round ∷ rounds) w =
      flush_taken whole round (record w { buffer = (take_spans whole w.buffer).1 })
        (take_spans whole w.buffer).0 (flush_span_batch whole rounds)

  abbrev pub flush_spans : List Round → World → Option (Bool × World)
  flush_spans = flush_span_batch true

  -- The error of the inline flush is only logged.
  unfoldable pub enqueue_span : List Round → World → SpanRecord → Option World
  unfolding flush_span_batch
  enqueue_span rounds w r = elim (add w.buffer r).1 [
    | false ↦ some (end_span w r)
    | true ↦ elim (flush_span_batch false rounds (end_span w r)) [
      | none ↦ none
      | some (flushed, w') ↦ some w'
    ]
  ]
