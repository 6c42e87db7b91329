-- ===== src/SpanBuffer/Order.antt =====
-- span_buffer.go: the order of the spans, while one flush at a time holds a batch. Two flushes that hold
-- batches at once may write them in either order, as two goroutines of enqueueSpan may.
use mathlib.Core.Path.{subst}
use go_collector.Base.{
  ℕ, ◌-◌, Bool, List, [], ◌∷◌, ◌++◌, ◌≡◌, refl, sym, ap, ◌∙◌, Option, none, some, length, take, ltb,
  leb, take-append-drop, append_assoc, append-nil, Bool-cases, inl, inr,
}
use go_collector.Base.Bytes.{Bytes}
use go_collector.Base.Subseq.{
  Subseq, nil, Subseq-refl, Subseq-append, Subseq-take, Subseq-trans, Subseq-more,
}
use go_collector.Base.Int.{ℤ}
use go_collector.Config.{Config}
use go_collector.SpanBuffer.{new_span_buffer, add, take_size, take_spans, requeue}
use go_collector.SpanBuffer.Client.{
  Round, World, records_of, end_span, arrive, span_batch, flush_taken, flush_span_batch,
}
use go_collector.Tracing.Wire.{SpanRecord, SpanBatch}

-- `held` are spans in the hands of a flush: behind what is written, before what is buffered.
abbrev pub Ordered : List SpanRecord → World → Type 0
Ordered held w = Subseq (records_of w.written ++ (held ++ w.buffer.spans)) w.offered

records_of-append :
    (xs ys : List SpanBatch) → records_of (xs ++ ys) ≡ records_of xs ++ records_of ys
records_of-append [] ys = refl
records_of-append (x ∷ xs) ys =
    ap (λ t. x.spans ++ t) (records_of-append xs ys)
    ∙ sym (append_assoc x.spans (records_of xs) (records_of ys))

Subseq-back :
    (a b c offered : List SpanRecord) (r : SpanRecord)
    → Subseq (a ++ (b ++ c)) offered
    → Subseq (a ++ (b ++ (c ++ r ∷ []))) (offered ++ r ∷ [])
Subseq-back a b c offered r h = simp append_assoc at (Subseq-append h (Subseq-refl (r ∷ [])))

end_span-Ordered :
    (held : List SpanRecord) (w : World) (r : SpanRecord)
    → Ordered held w
    → Ordered held (end_span w r)
unfolding add
end_span-Ordered held w r h =
    elim (Bool-cases (leb w.buffer.max_buffered (length w.buffer.spans))) [
      | inl full ↦ rw full (Subseq-more (r ∷ []) h)
      | inr room ↦ rw room (Subseq-back (records_of w.written) held w.buffer.spans w.offered r h)
    ]

arrive-Ordered :
    (rs held : List SpanRecord) (w : World) → Ordered held w → Ordered held (arrive w rs)
arrive-Ordered [] held w h = h
arrive-Ordered (r ∷ rs) held w h =
    arrive-Ordered rs held (end_span w r) (end_span-Ordered held w r h)

taken-Ordered :
    (whole : Bool) (w : World)
    → Ordered [] w
    → Ordered (take_spans whole w.buffer).0 (record w { buffer = (take_spans whole w.buffer).1 })
unfolding take_spans
taken-Ordered whole w h = rw (take-append-drop {0} (take_size whole w.buffer) w.buffer.spans) h

written-Ordered :
    (b : SpanBatch) (w : World)
    → Ordered b.spans w
    → Ordered [] (record w { written = w.written ++ b ∷ [] })
written-Ordered b w h = simp (records_of-append, append-nil, append_assoc) h

requeue_some :
    (room : ℕ) (a held spans offered : List SpanRecord)
    → Subseq (a ++ (held ++ spans)) offered
    → Subseq (a ++ (take room held ++ spans)) offered
requeue_some room a held spans offered h =
    Subseq-trans
      (Subseq-append (Subseq-refl a) (Subseq-append (Subseq-take room held) (Subseq-refl spans))) h

requeue-Ordered :
    (held : List SpanRecord) (w : World)
    → Ordered held w
    → Ordered [] (record w { buffer = requeue w.buffer held })
unfolding requeue
requeue-Ordered held w h =
    let room = w.buffer.max_buffered - length w.buffer.spans in
    elim (Bool-cases (ltb room (length held))) [
      | inl over ↦
          rw over (requeue_some room (records_of w.written) held w.buffer.spans w.offered h)
      | inr fits ↦ rw fits h
    ]

-- The worlds that a call of the loop may end in.
abbrev EndsOrdered : Option (Bool × World) → Type 0
EndsOrdered none = Unit
EndsOrdered (some (ok, w)) = Ordered [] w

module _ (sha256 : Bytes → Bytes) (cfg : Config) where
  flush_taken-Ordered :
      (whole : Bool) (round : Round) (w : World) (held : List SpanRecord)
      (again : World → Option (Bool × World))
      → Ordered held w
      → ((w' : World) → Ordered [] w' → EndsOrdered (again w'))
      → EndsOrdered (flush_taken sha256 cfg whole round w held again)
  unfolding flush_taken
  flush_taken-Ordered whole round w [] again h k = h
  flush_taken-Ordered whole round w (first ∷ rest) again h k =
      let arrived = arrive-Ordered round.arrivals (first ∷ rest) w h in
      let done =
        written-Ordered (span_batch sha256 cfg round.now first rest) (arrive w round.arrivals)
          arrived in
      elim (Bool-cases round.write_ok) [
        | inl wrote ↦ elim (Bool-cases whole) [
          | inl all ↦ rw (wrote, all) (k _ done)
          | inr one ↦ rw (wrote, one) done
        ]
        | inr failed ↦ rw failed (requeue-Ordered (first ∷ rest) (arrive w round.arrivals) arrived)
      ]

  flush_span_batch-Ordered :
      (rounds : List Round) (whole : Bool) (w : World)
      → Ordered [] w
      → EndsOrdered (flush_span_batch sha256 cfg whole rounds w)
  unfolding flush_span_batch
  flush_span_batch-Ordered [] whole w h = tt
  flush_span_batch-Ordered (round ∷ rounds) whole w h =
      flush_taken-Ordered whole round _ (take_spans whole w.buffer).0
        (flush_span_batch sha256 cfg whole rounds) (taken-Ordered whole w h)
        (flush_span_batch-Ordered rounds whole)

-- A buffer, and the spans that a flush has taken and neither written nor put back yet.
pub record Writing : Type 0 where
  pub held : List SpanRecord
  pub world : World

-- What goroutines do to the buffer while none takes spans before the flush in front of it has written
-- its batch or put it back. A span that fills a batch is a `span_ended`, and the inline flush of its
-- goroutine is the `batch_taken` of a later turn.
pub data Turn : Writing → Writing → Type 0 where
  span_ended : (s : Writing) (r : SpanRecord) → Turn s (record s { world = end_span s.world r })
  batch_taken :
      (s : Writing) (whole : Bool)
      → s.held ≡ []
      → Turn s (record {
        held = (take_spans whole s.world.buffer).0;
        world = record s.world { buffer = (take_spans whole s.world.buffer).1 };
      })
  batch_written :
      (s : Writing) (b : SpanBatch)
      → s.held ≡ b.spans
      → Turn s
          (record { held = []; world = record s.world { written = s.world.written ++ b ∷ [] } })
  batch_returned :
      (s : Writing)
      → Turn s
          (record { held = []; world = record s.world { buffer = requeue s.world.buffer s.held } })

pub data Turns (s : Writing) : Writing → Type 0 where
  begun : Turns s s
  turned : {t u : Writing} → Turns s t → Turn t u → Turns s u

Turn-Ordered : {s t : Writing} → Turn s t → Ordered s.held s.world → Ordered t.held t.world
Turn-Ordered (span_ended s r) h = end_span-Ordered s.held s.world r h
Turn-Ordered (batch_taken s whole e) h =
    taken-Ordered whole s.world (subst (λ held. Ordered held s.world) e h)
Turn-Ordered (batch_written s b e) h =
    written-Ordered b s.world (subst (λ held. Ordered held s.world) e h)
Turn-Ordered (batch_returned s) h = requeue-Ordered s.held s.world h

Turns-Ordered : {s t : Writing} → Ordered s.held s.world → Turns s t → Ordered t.held t.world
Turns-Ordered h begun = h
Turns-Ordered h (turned before turn) = Turn-Ordered turn (Turns-Ordered h before)

abbrev pub opened : ℤ → ℤ → Writing
opened batch_size max_buffered = record {
  held = [];
  world = record { buffer = new_span_buffer batch_size max_buffered; written = []; offered = [] };
}

opened-Ordered :
    (batch_size max_buffered : ℤ)
    → Ordered (opened batch_size max_buffered).held (opened batch_size max_buffered).world
unfolding new_span_buffer
opened-Ordered batch_size max_buffered = nil

-- From a new buffer, spans end and flushes take, write or put back batches in any order, with one
-- restriction: no flush takes spans while another one holds a batch that it has neither written nor
-- put back. If a flush is then run to its end under the same restriction, while spans go on to end and
-- any write may fail, what is written and then buffered is a subsequence of the spans that ended, in
-- the order in which they ended: no span is duplicated, and none is written before one that ended
-- earlier.
pub flush-Ordered :
    (sha256 : Bytes → Bytes) (cfg : Config) (batch_size max_buffered : ℤ) (rounds : List Round)
    (whole ok : Bool) (s : Writing) (w' : World)
    → Turns (opened batch_size max_buffered) s
    → s.held ≡ []
    → flush_span_batch sha256 cfg whole rounds s.world ≡ some (ok, w')
    → Subseq (records_of w'.written ++ w'.buffer.spans) w'.offered
flush-Ordered sha256 cfg batch_size max_buffered rounds whole ok s w' turns idle e =
    let h = Turns-Ordered (opened-Ordered batch_size max_buffered) turns in
    rw e at (
      flush_span_batch-Ordered sha256 cfg rounds whole s.world
        (subst (λ held. Ordered held s.world) idle h))
