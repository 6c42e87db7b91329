-- ===== src/SpanBuffer/System.antt =====
-- Any number of goroutines on one buffer: spans end, and flushes (the inline one, the ticker's, the
-- one at shutdown) take batches, write them, and put back what could not be written, interleaved in
-- any order. A step is one critical section of the mutex, or one write.
use go_collector.Base.{
  ℕ, ◌+◌, ◌-◌, ◌%◌, ◌≤◌, Bool, List, [], ◌∷◌, ◌++◌, ◌≡◌, refl, ap, arith, length, length-append,
  length-take, length-drop, take,
}
use go_collector.Base.Decimal.{u64_mod}
use go_collector.Base.Int.{ℤ}
use go_collector.Tracing.Wire.{SpanRecord}
use go_collector.SpanBuffer.{SpanBuffer, new_span_buffer, add, take_size, take_spans, requeue}
use go_collector.SpanBuffer.Bounds.{
  IsValid, new_span_buffer-IsValid, add-IsValid, take_spans-IsValid, requeue-IsValid,
}

-- `offered` counts the spans that ended, and `in_flight` holds the batches being written.
pub record System : Type 0 where
  pub buffer : SpanBuffer
  pub in_flight : List (List SpanRecord)
  pub written : List SpanRecord
  pub offered : ℕ

pub data Step : System → System → Type 0 where
  ended :
      (s : System) (r : SpanRecord)
      → Step s (record s { buffer = (add s.buffer r).0; offered = s.offered + 1 })
  taken :
      (s : System) (whole : Bool)
      → Step s (record s {
        buffer = (take_spans whole s.buffer).1;
        in_flight = (take_spans whole s.buffer).0 ∷ s.in_flight;
      })
  wrote :
      (s : System) (before : List (List SpanRecord)) (batch : List SpanRecord)
      (after : List (List SpanRecord))
      → s.in_flight ≡ before ++ (batch ∷ after)
      → Step s (record s { in_flight = before ++ after; written = s.written ++ batch })
  failed :
      (s : System) (before : List (List SpanRecord)) (batch : List SpanRecord)
      (after : List (List SpanRecord))
      → s.in_flight ≡ before ++ (batch ∷ after)
      → Step s (record s { in_flight = before ++ after; buffer = requeue s.buffer batch })

pub data Reach (s : System) : System → Type 0 where
  here : Reach s s
  next : {t u : System} → Reach s t → Step t u → Reach s u

abbrev pub total : List (List SpanRecord) → ℕ
total [] = 0
total (b ∷ bs) = length b + total bs

total-append : (xs ys : List (List SpanRecord)) → total (xs ++ ys) ≡ total xs + total ys
total-append [] ys = omega arith
total-append (x ∷ xs) ys = omega (arith, total-append xs ys)

-- Every span that ended is written, in flight, buffered, or counted as dropped. The counter is
-- Go's uint64, so the equation holds modulo 2^64.
abbrev pub Accounted : System → Type 0
Accounted s =
    (length s.written + total s.in_flight + length s.buffer.spans + s.buffer.dropped) % u64_mod
    ≡ s.offered % u64_mod

add-accounted :
    (b : SpanBuffer) (r : SpanRecord)
    → (length (add b r).0.spans + (add b r).0.dropped) % u64_mod
      ≡ (length b.spans + b.dropped + 1) % u64_mod
unfolding add
add-accounted b r = ground (arith, length-append {0} b.spans (r ∷ []))

take_spans-accounted :
    (whole : Bool) (b : SpanBuffer)
    → length (take_spans whole b).0 + length (take_spans whole b).1.spans ≡ length b.spans
unfolding take_spans
take_spans-accounted whole b = ground (
  arith,
  length-take {0} (take_size whole b) b.spans,
  length-drop {0} (take_size whole b) b.spans,
)

take_spans-dropped : (whole : Bool) (b : SpanBuffer) → (take_spans whole b).1.dropped ≡ b.dropped
unfolding take_spans
take_spans-dropped whole b = refl

requeue-accounted :
    (b : SpanBuffer) (rs : List SpanRecord)
    → (length (requeue b rs).spans + (requeue b rs).dropped) % u64_mod
      ≡ (length b.spans + length rs + b.dropped) % u64_mod
unfolding requeue
requeue-accounted b rs =
    let room = b.max_buffered - length b.spans in
    ground (
      arith,
      length-append {0} (take room rs) b.spans,
      length-append {0} rs b.spans,
      length-take {0} room rs,
    )

-- What each step keeps: the buffer's bounds, and the account.
abbrev pub Inv : System → Type 0
Inv s = IsValid s.buffer × Accounted s

Step-Accounted : {s t : System} → Step s t → Accounted s → Accounted t
Step-Accounted (ended s r) h = omega (arith, add-accounted s.buffer r)
Step-Accounted (taken s whole) h =
    omega (arith, take_spans-accounted whole s.buffer, take_spans-dropped whole s.buffer)
Step-Accounted (wrote s before batch after e) h = omega (
  arith,
  length-append {0} s.written batch,
  total-append before after,
  total-append before (batch ∷ after),
  ap total e,
)
Step-Accounted (failed s before batch after e) h = omega (
  arith,
  requeue-accounted s.buffer batch,
  total-append before after,
  total-append before (batch ∷ after),
  ap total e,
)

Step-IsValid : {s t : System} → Step s t → IsValid s.buffer → IsValid t.buffer
Step-IsValid (ended s r) v = add-IsValid s.buffer r v
Step-IsValid (taken s whole) v = take_spans-IsValid whole s.buffer v
Step-IsValid (wrote s before batch after e) v = v
Step-IsValid (failed s before batch after e) v = requeue-IsValid s.buffer batch v

Reach-Inv : {s t : System} → Inv s → Reach s t → Inv t
Reach-Inv h here = h
Reach-Inv h (next r st) =
    let before = Reach-Inv h r in (Step-IsValid st before.0, Step-Accounted st before.1)

abbrev pub start : ℤ → ℤ → System
start batch_size max_buffered = record {
  buffer = new_span_buffer batch_size max_buffered;
  in_flight = [];
  written = [];
  offered = 0;
}

start-Accounted : (batch_size max_buffered : ℤ) → Accounted (start batch_size max_buffered)
unfolding new_span_buffer
start-Accounted batch_size max_buffered = omega arith

-- However spans and flushes interleave from a new buffer, and whichever writes fail, the buffer
-- never holds more spans than its cap, and every span that ended is written, in flight, buffered or
-- counted as dropped, modulo 2^64.
pub spans-Accounted :
    (batch_size max_buffered : ℤ) {s : System}
    → Reach (start batch_size max_buffered) s
    → (length s.buffer.spans ≤ s.buffer.max_buffered) × Accounted s
spans-Accounted batch_size max_buffered r =
    let inv =
      Reach-Inv
        (new_span_buffer-IsValid batch_size max_buffered, start-Accounted batch_size max_buffered)
        r in
    (inv.0.within_cap, inv.1)
