-- ===== src/Propagation.antt =====
-- propagation.go: the trace context on the wire. `Traceparent` holds its parser and printer,
-- `Tracestate` and `Baggage` the companion headers, `Percent` the encoding of baggage values.
pub mod Traceparent
pub mod Members
pub mod Tracestate
pub mod Percent
pub mod Baggage
mod Tests
use go_collector.Base.{Bool, not, ◌&&◌}
use go_collector.Base.Bytes.{Bytes, is_empty}

pub record RemoteContext : Type 0 where
  pub trace_id : Bytes
  pub span_id : Bytes
  pub sampled : Bool
  pub tracestate : Bytes
  pub baggage : Bytes

abbrev pub valid : RemoteContext → Bool
valid r = not (is_empty r.trace_id) && not (is_empty r.span_id)
