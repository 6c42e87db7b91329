-- ===== src/SpanBuffer.antt =====
-- span_buffer.go: the bounded buffer of finished spans. A method returns the new buffer; the mutex
-- makes each one a single step. Sizes are positive after `newSpanBuffer`, so they are kept in ℕ.
pub mod Bounds
pub mod Client
pub mod Order
pub mod System
pub mod Flush
mod Tests
use go_collector.Base.{
  ℕ, ◌+◌, ◌-◌, ◌%◌, Bool, true, false, not, ◌&&◌, List, [], ◌∷◌, ◌++◌, length, take, drop, ltb, leb,
  if◌then◌else◌, ◌==◌,
}
use go_collector.Base.Decimal.{u64_mod}
use go_collector.Base.Int.{ℤ, pos, pos_part, ltb_ℤ}
use go_collector.Config.{default_span_batch_size}
use go_collector.Tracing.Wire.{SpanRecord}

pub record SpanBuffer : Type 0 where
  pub spans : List SpanRecord
  pub batch_size : ℕ
  pub max_buffered : ℕ
  pub dropped : ℕ

-- The two sizes, each decided by an `if` of the source.
default_batch : ℤ → ℤ
default_batch batch_size =
    if ltb_ℤ (pos 0) batch_size then batch_size else pos default_span_batch_size

lowered_batch : ℤ → ℤ → ℤ
lowered_batch batch_size max_buffered =
    if ltb_ℤ (pos 0) max_buffered && ltb_ℤ max_buffered batch_size then max_buffered else batch_size

default_max : ℤ → ℤ → ℤ
default_max batch_size max_buffered =
    if ltb_ℤ (pos 0) max_buffered then max_buffered else batch_size

unfoldable pub new_span_buffer : ℤ → ℤ → SpanBuffer
unfolding default_batch lowered_batch default_max
new_span_buffer batch_size max_buffered =
    let size = lowered_batch (default_batch batch_size) max_buffered in
    record {
      spans = [];
      batch_size = pos_part size;
      max_buffered = pos_part (default_max size max_buffered);
      dropped = 0;
    }

-- The buffer, and whether it has reached its flush threshold.
unfoldable pub add : SpanBuffer → SpanRecord → SpanBuffer × Bool
add b r =
    if leb b.max_buffered (length b.spans)
    then (record b { dropped = (b.dropped + 1) % u64_mod }, false)
    else (record b { spans = b.spans ++ r ∷ [] }, leb b.batch_size (length b.spans + 1))

abbrev pub take_size : Bool → SpanBuffer → ℕ
take_size whole b =
    if not whole && ltb b.batch_size (length b.spans) then b.batch_size else length b.spans

-- The records taken (none when the buffer is empty), and the buffer left.
unfoldable pub take_spans : Bool → SpanBuffer → List SpanRecord × SpanBuffer
take_spans whole b =
    let n = take_size whole b in (take n b.spans, record b { spans = drop n b.spans })

-- Subtraction stops at 0, as `room` does.
unfoldable pub requeue : SpanBuffer → List SpanRecord → SpanBuffer
requeue b records =
    let room = b.max_buffered - length b.spans in
    if ltb room (length records)
    then record b {
      spans = take room records ++ b.spans;
      dropped = (b.dropped + (length records - room)) % u64_mod;
    }
    else record b { spans = records ++ b.spans }
