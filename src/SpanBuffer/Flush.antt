-- ===== src/SpanBuffer/Flush.antt =====
-- What a flush achieves: it ends, a complete flush that succeeds leaves nothing buffered, and one
-- that fails with nothing arriving gives every span back.
use go_collector.Base.{
  ℕ, ◌+◌, ◌-◌, ◌<◌, ◌≤◌, Bool, true, false, List, [], ◌∷◌, ◌++◌, ◌≡◌, ◌≢◌, refl, ◌∙◌, Option, some,
  arith, length, take_all, drop_all, length-append, append-nil, Bool-cases, inl, inr, le→ltb,
}
use go_collector.Base.Bytes.{Bytes}
use go_collector.Config.{Config}
use go_collector.SpanBuffer.{SpanBuffer, add, take_spans, requeue}
use go_collector.SpanBuffer.Client.{
  Round, World, end_span, arrive, span_batch, flush_taken, flush_span_batch, flush_spans,
}
use go_collector.Tracing.Wire.{SpanRecord}

abbrev pub arrivals : List Round → ℕ
arrivals [] = 0
arrivals (r ∷ rs) = length r.arrivals + arrivals rs

length-add : (b : SpanBuffer) (r : SpanRecord) → length (add b r).0.spans ≤ length b.spans + 1
unfolding add
length-add b r = ground (arith, length-append {0} b.spans (r ∷ []))

length-arrive :
    (rs : List SpanRecord) (w : World)
    → length (arrive w rs).buffer.spans ≤ length w.buffer.spans + length rs
length-arrive [] w = omega arith
length-arrive (r ∷ rs) w = omega (arith, length-arrive rs (end_span w r), length-add w.buffer r)

-- A take of everything leaves an empty buffer, and returns all of it.
take_spans_whole : (b : SpanBuffer) → take_spans true b ≡ (b.spans, record b { spans = [] })
unfolding take_spans
take_spans_whole b = rw (
  take_all (length b.spans) b.spans (omega arith),
  drop_all (length b.spans) b.spans (omega arith),
)

abbrev emptied : World → World
emptied w = record w { buffer = record (w.buffer) { spans = [] } }

module _ (sha256 : Bytes → Bytes) (cfg : Config) where
  flush_spans-cons :
      (round : Round) (rounds : List Round) (w : World)
      → flush_spans sha256 cfg (round ∷ rounds) w
        ≡ flush_taken sha256 cfg true round
            (emptied w)
            w.buffer.spans
            (flush_spans sha256 cfg rounds)
  unfolding flush_span_batch
  flush_spans-cons round rounds w = rw (take_spans_whole w.buffer)

  abbrev Ends : List Round → World → Type 0
  Ends rounds w = (ok : Bool) × (w' : World) × (flush_spans sha256 cfg rounds w ≡ some (ok, w'))

  flush_taken-Ends :
      (round : Round) (rounds : List Round) (w : World) (held : List SpanRecord)
      → (held ≢ []
          → (w' : World) → length w'.buffer.spans ≤ length w.buffer.spans + length round.arrivals
          → Ends rounds w')
      → (ok : Bool) × (w' : World) × (flush_taken sha256 cfg true round w held
            (flush_spans sha256 cfg rounds)
          ≡ some (ok, w'))
  unfolding flush_taken
  flush_taken-Ends round rounds w [] again = (true, w, refl)
  flush_taken-Ends round rounds w (first ∷ rest) again = elim (Bool-cases round.write_ok) [
    | inl wrote ↦
        let w1 = arrive w round.arrivals in
        let sent = span_batch sha256 cfg round.now first rest in
        let (ok, w', e) =
          again (λ e. cc) (record w1 { written = w1.written ++ sent ∷ [] })
            (length-arrive round.arrivals w) in
        (ok, w', rw wrote e)
    | inr failed ↦
        let w1 = arrive w round.arrivals in
        (false, record w1 { buffer = requeue w1.buffer (first ∷ rest) }, rw failed)
  ]

  flush_spans-Ends_from :
      (rounds : List Round) (w : World) (held : List SpanRecord)
      → w.buffer.spans ≡ held
      → length held + arrivals rounds < length rounds
      → Ends rounds w
  flush_spans-Ends_from [] w held e h = absurd (omega arith)
  flush_spans-Ends_from (round ∷ rounds) w [] e h =
      (true, emptied w, flush_spans-cons round rounds w ∙ rw e (unfold flush_taken in refl))
  flush_spans-Ends_from (round ∷ rounds) w (first ∷ rest) e h =
      let (ok, w', ends) =
        flush_taken-Ends round rounds (emptied w) w.buffer.spans
          (λ ne w1 few. flush_spans-Ends_from rounds w1 w1.buffer.spans refl (omega arith)) in
      (ok, w', flush_spans-cons round rounds w ∙ ends)

  -- `FlushSpans` returns when the loop is given more rounds than there are spans, those buffered and
  -- those that arrive during the rounds: it cannot go on for ever on finitely many spans.
  pub flush_spans_ends :
      (rounds : List Round) (w : World)
      → length w.buffer.spans + arrivals rounds < length rounds
      → (ok : Bool) × (w' : World) × (flush_spans sha256 cfg rounds w ≡ some (ok, w'))
  flush_spans_ends rounds w h = flush_spans-Ends_from rounds w w.buffer.spans refl h

  abbrev Drained : Option (Bool × World) → Type 0
  Drained (some (true, w)) = w.buffer.spans ≡ []
  Drained _ = Unit

  flush_taken_drains :
      (round : Round) (w : World) (held : List SpanRecord) (again : World → Option (Bool × World))
      → w.buffer.spans ≡ []
      → ((w' : World) → Drained (again w'))
      → Drained (flush_taken sha256 cfg true round w held again)
  unfolding flush_taken
  flush_taken_drains round w [] again e k = e
  flush_taken_drains round w (first ∷ rest) again e k = elim (Bool-cases round.write_ok) [
    | inl wrote ↦ rw wrote (k _)
    | inr failed ↦ rw failed tt
  ]

  flush_spans_drains_from :
      (rounds : List Round) (w : World) → Drained (flush_spans sha256 cfg rounds w)
  flush_spans_drains_from [] w = unfold flush_span_batch in tt
  flush_spans_drains_from (round ∷ rounds) w = rw (flush_spans-cons round rounds w) (
      flush_taken_drains round (emptied w) w.buffer.spans (flush_spans sha256 cfg rounds) refl
        (flush_spans_drains_from rounds))

  -- When `FlushSpans` returns no error the buffer is empty, whatever arrived while it ran.
  pub flush_spans_drains :
      (rounds : List Round) (w w' : World)
      → flush_spans sha256 cfg rounds w ≡ some (true, w')
      → w'.buffer.spans ≡ []
  flush_spans_drains rounds w w' e = rw e at (flush_spans_drains_from rounds w)

  flush_taken_failed :
      (now : Bytes) (w : World) (held : List SpanRecord) (again : World → Option (Bool × World))
      → w.buffer.spans ≡ []
      → held ≢ []
      → length held ≤ w.buffer.max_buffered
      → flush_taken sha256 cfg true
          (record { arrivals = []; now = now; write_ok = false })
          w
          held
          again
        ≡ some (false, record w { buffer = record (w.buffer) { spans = held } })
  unfolding flush_taken requeue
  flush_taken_failed now w [] again e ne h = absurd (ne refl)
  flush_taken_failed now w (first ∷ rest) again e ne h =
      rw
        (le→ltb (w.buffer.max_buffered - length w.buffer.spans) (length (first ∷ rest))
          (rw e (omega arith)))
        (rw e (rw append-nil))

  -- A flush whose write fails while nothing arrives returns the error and leaves the client as it
  -- was: the same spans in the same order, and nothing dropped.
  pub flush_spans_failed :
      (now : Bytes) (rounds : List Round) (w : World)
      → w.buffer.spans ≢ []
      → length w.buffer.spans ≤ w.buffer.max_buffered
      → flush_spans sha256 cfg (record { arrivals = []; now = now; write_ok = false } ∷ rounds) w
        ≡ some (false, w)
  flush_spans_failed now rounds w ne h =
      flush_spans-cons _ rounds w
      ∙ flush_taken_failed now (emptied w) w.buffer.spans (flush_spans sha256 cfg rounds) refl ne h
