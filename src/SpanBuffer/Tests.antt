-- ===== src/SpanBuffer/Tests.antt =====
-- The theorems of the span buffer at concrete inputs.
use go_collector.Base.{
  ◌+◌, ◌≤◌, Bool, true, false, [], ◌∷◌, ◌++◌, ◌≡◌, ◌≢◌, refl, Option, some, arith, length,
}
use go_collector.Base.Bytes.{Bytes, codes}
use go_collector.Base.Int.{pos}
use go_collector.Base.Subseq.{Subseq}
use go_collector.Config.{Config, zero_config}
use go_collector.SpanBuffer.{new_span_buffer, add, take_spans}
use go_collector.SpanBuffer.Client.{
  Round, World, records_of, end_span, span_batch, flush_span_batch, flush_spans,
}
use go_collector.SpanBuffer.Flush.{flush_spans_ends, flush_spans_drains, flush_spans_failed}
use go_collector.SpanBuffer.Order.{Writing, Turns, begun, turned, span_ended, opened, flush-Ordered}
use go_collector.SpanBuffer.System.{
  System, ended, taken, here, next, start, Accounted, spans-Accounted,
}
use go_collector.Tracing.Wire.{SpanRecord}

abbrev cfg : Config
cfg = record zero_config { enabled = true; organisation = codes "o"; application = codes "a" }

abbrev span : Bytes → SpanRecord
span id = record {
  organisation = record { organisation_id = codes "o" };
  application = record {
    application_id = codes "a";
    project = record {
      organisation = record { organisation_id = codes "o" };
      project_id = codes "p";
    };
  };
  trace_id = codes "t";
  span_id = id;
  parent_span_id = [];
  name = codes "GET /";
  started_at = [];
  ended_at = [];
  status = codes "ok";
  attributes = [];
  service_name = codes "svc";
  http_method = [];
  http_route = [];
  http_status_code = 0;
}

-- A span ends, is taken, and cannot be written.
abbrev s0 : System
s0 = start (pos 2) (pos 3)

abbrev s1 : System
s1 = record s0 { buffer = (add s0.buffer (span (codes "1"))).0; offered = s0.offered + 1 }

abbrev s2 : System
s2 = record s1 {
  buffer = (take_spans false s1.buffer).1;
  in_flight = (take_spans false s1.buffer).0 ∷ s1.in_flight;
}

spans-Accounted_example : (length s2.buffer.spans ≤ s2.buffer.max_buffered) × Accounted s2
spans-Accounted_example =
    spans-Accounted (pos 2) (pos 3)
      (next (next here (ended s0 (span (codes "1")))) (taken s1 false))

abbrev two_spans : World
two_spans = record {
  buffer = record {
    spans = span (codes "1") ∷ span (codes "2") ∷ [];
    batch_size = 2;
    max_buffered = 3;
    dropped = 0;
  };
  written = [];
  offered = span (codes "1") ∷ span (codes "2") ∷ [];
}

abbrev quiet_round : Bool → Round
quiet_round ok = record { arrivals = []; now = codes "0"; write_ok = ok }

abbrev sha256 : Bytes → Bytes
sha256 bytes = bytes

abbrev sent : Bool → World → Option (Bool × World)
sent whole w = flush_span_batch sha256 cfg whole (quiet_round true ∷ quiet_round true ∷ []) w

abbrev flushed : World
flushed = record {
  buffer = record { spans = []; batch_size = 2; max_buffered = 3; dropped = 0 };
  written = span_batch sha256 cfg (codes "0") (span (codes "1")) (span (codes "2") ∷ []) ∷ [];
  offered = two_spans.offered;
}

sent_two : sent true two_spans ≡ some (true, flushed)
unfolding flush_span_batch take_spans
sent_two = refl

-- Two spans have ended in a new buffer, and no flush holds any.
abbrev two_ended : Writing
two_ended = record { held = []; world = two_spans }

two_ended-Turns : Turns (opened (pos 2) (pos 3)) two_ended
unfolding new_span_buffer add
two_ended-Turns = turned (turned begun (span_ended (opened (pos 2) (pos 3)) (span (codes "1")))) (
    span_ended
      (record { held = []; world = end_span (opened (pos 2) (pos 3)).world (span (codes "1")) })
      (span (codes "2")))

flush-Ordered_example : Subseq (records_of flushed.written ++ flushed.buffer.spans) flushed.offered
flush-Ordered_example =
    flush-Ordered sha256 cfg (pos 2) (pos 3) (quiet_round true ∷ quiet_round true ∷ []) true true
      two_ended flushed two_ended-Turns refl sent_two

flush_spans_ends_example :
    (ok : Bool) × (w' : World) × (flush_spans sha256 cfg
        (quiet_round true ∷ quiet_round true ∷ quiet_round true ∷ [])
        two_spans
      ≡ some (ok, w'))
flush_spans_ends_example =
    flush_spans_ends sha256 cfg (quiet_round true ∷ quiet_round true ∷ quiet_round true ∷ [])
      two_spans (omega arith)

flush_spans_drains_example : flushed.buffer.spans ≡ []
flush_spans_drains_example =
    flush_spans_drains sha256 cfg (quiet_round true ∷ quiet_round true ∷ []) two_spans flushed
      sent_two

some_spans : two_spans.buffer.spans ≢ []
some_spans = λ e. cc

flush_spans_failed_example :
    flush_spans sha256 cfg (quiet_round false ∷ []) two_spans ≡ some (false, two_spans)
flush_spans_failed_example =
    flush_spans_failed sha256 cfg (codes "0") [] two_spans some_spans (omega arith)
