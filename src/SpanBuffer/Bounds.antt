-- ===== src/SpanBuffer/Bounds.antt =====
-- The buffer's sizes are usable whatever was configured, and no method passes the cap.
use go_collector.Base.{
  ◌-◌, ◌≤◌, ◌<◌, Bool, List, ◌∷◌, [], ◌≡◌, arith, length, length-append, length-take, length-drop,
  take, if◌then◌else◌,
}
use go_collector.Base.Int.{ℤ, pos, pos_part, ltb_ℤ}
use go_collector.Tracing.Wire.{SpanRecord}
use go_collector.SpanBuffer.{SpanBuffer, new_span_buffer, add, take_size, take_spans, requeue}

pub record IsValid (b : SpanBuffer) : Type 0 where
  pub threshold_pos : 0 < b.batch_size
  pub threshold_reachable : b.batch_size ≤ b.max_buffered
  pub within_cap : length b.spans ≤ b.max_buffered

pub new_span_buffer-IsValid :
    (batch_size max_buffered : ℤ) → IsValid (new_span_buffer batch_size max_buffered)
unfolding new_span_buffer
new_span_buffer-IsValid (pos b) (pos m) = ground arith
new_span_buffer-IsValid _ _ = ground arith

-- Whatever integers are configured, the new buffer has a positive flush threshold that its cap lets
-- it reach, and its cap is the configured one where that is positive, the threshold elsewhere.
pub new_span_buffer_sizes :
    (batch_size max_buffered : ℤ)
    → IsValid (new_span_buffer batch_size max_buffered)
      × ((new_span_buffer batch_size max_buffered).max_buffered ≡ (
          if ltb_ℤ (pos 0) max_buffered
          then pos_part max_buffered
          else (new_span_buffer batch_size max_buffered).batch_size))
unfolding new_span_buffer
new_span_buffer_sizes batch_size max_buffered =
    (new_span_buffer-IsValid batch_size max_buffered, ground arith)

pub add-IsValid : (b : SpanBuffer) (r : SpanRecord) → IsValid b → IsValid (add b r).0
unfolding add
add-IsValid b r v = ground (arith, length-append {0} b.spans (r ∷ []))

pub take_spans-IsValid :
    (whole : Bool) (b : SpanBuffer) → IsValid b → IsValid (take_spans whole b).1
unfolding take_spans
take_spans-IsValid whole b v = ground (arith, length-drop {0} (take_size whole b) b.spans)

pub requeue-IsValid : (b : SpanBuffer) (rs : List SpanRecord) → IsValid b → IsValid (requeue b rs)
unfolding requeue
requeue-IsValid b rs v =
    let room = b.max_buffered - length b.spans in
    ground (
      arith,
      length-append {0} (take room rs) b.spans,
      length-append {0} rs b.spans,
      length-take {0} room rs,
    )
