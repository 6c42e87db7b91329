-- ===== src/Sarama/Batch/Spans.antt =====
-- contrib/sarama/batch.go: the message spans of a batch, from their start to their end. `drawn` is what
-- the start of the n-th span draws, `started` when it was taken, and `clock` the time of the n-th end.
use go_collector.Base.{
  ℕ, suc, zero, Bool, true, false, not, ◌||◌, List, [], ◌∷◌, ◌++◌, ◌+◌, Option, none, some, length,
  if◌then◌else◌,
}
use go_collector.Base.Bytes.{Bytes, codes}
use go_collector.Base.Decimal.{itoa}
use go_collector.Base.Int.{ℤ}
use go_collector.Messaging.{attr_int}
use go_collector.Resource.{Build}
use go_collector.Sarama.Batch.{Active, minted, outside, Batch, same, context_of, index_of}
use go_collector.Sarama.Consumed.{start_process_span}
use go_collector.Sarama.{is_never, ConsumerMessage}
use go_collector.Tracing.{Client, Context, Drawn, Span, Effect, set_attribute, end}

-- Whether StartSpan puts its span into the context.
abbrev pub carries : Option Client → Bool
carries none = false
carries (some c) = not (not c.cfg.enabled || not c.cfg.apm_enabled)

abbrev pub refer_to_batch : Option Span → Span → Span
refer_to_batch none s = s
refer_to_batch (some batch) s =
    set_attribute (codes "messaging.batch.span_id") batch.span_id
      (set_attribute (codes "messaging.batch.trace_id") batch.trace_id s)

abbrev pub set_index : ℤ → Span → Span
set_index i = set_attribute (codes "messaging.batch.index") (attr_int i)

-- What the code needs of its surroundings.
pub record World : Type 0 where
  pub waited : Bytes → Bytes → Option ℤ
  pub sha256 : Bytes → Bytes
  pub build : Build
  pub seed : Bytes
  pub drawn : ℕ → Drawn
  pub started : ℕ → Bytes
  pub clock : ℕ → Bytes

module _ (w : World) where
  -- The context and the span of `start`, and the batch behind it.
  unfoldable pub mint : ConsumerMessage → Batch → (Context × Active) × Batch
  mint m b =
      let (ctx, span) =
        start_process_span w.waited b.parent b.client b.options.group m (w.started b.traced)
          (w.drawn b.traced) in
      let n = length b.spans in
      (
        (ctx, minted n),
        record b {
          contexts =
              b.contexts
              ++ (record {
                address = m.address;
                context = ctx;
                active = if carries b.client then minted n else outside;
              }
                  ∷ []);
          spans = b.spans ++ (refer_to_batch b.span (set_index (index_of m b) span) ∷ []);
          traced = suc b.traced;
        },
      )

  unfoldable pub start : ConsumerMessage → Batch → (Context × Active) × Batch
  start m b = elim (context_of m.address b.contexts) [
    | some existing ↦ ((existing.context, existing.active), b)
    | none ↦ mint m b
  ]

  -- End on the n-th minted span: its effect, and the spans behind it.
  unfoldable pub end_at : Bytes → ℕ → List Span → List Effect × List Span
  end_at now n [] = ([], [])
  end_at now zero (s ∷ ss) = let (e, s') = end w.sha256 w.build now w.seed s in (e ∷ [], s' ∷ ss)
  end_at now (suc n) (s ∷ ss) = let (es, ss') = end_at now n ss in (es, s ∷ ss')

  -- The end of a span that the batch does not own is not followed: where the client is off, Each ends
  -- the caller's own span, if a message is started twice.
  abbrev pub end_active : Active → Batch → Batch
  end_active outside b = b
  end_active (minted n) b =
      let (es, ss) = end_at (w.clock (length b.effects)) n b.spans in
      record b { spans = ss; effects = b.effects ++ es }

  abbrev pub end_running : Batch → Batch
  end_running b = elim b.running [ none ↦ b | some n ↦ end_active (minted n) b ]

  -- The span of another message is over once a message is asked about.
  abbrev pub leave_running : ConsumerMessage → Batch → Batch
  leave_running m b =
      if same m.address b.running_message
      then b
      else record (end_running b) { running = none; running_message = none }

  abbrev pub handle_of : Active → Option ℕ
  handle_of (minted n) = some n
  handle_of outside = none

  abbrev pub open_for : ConsumerMessage → Batch → Context × Batch
  open_for m b =
      let ((ctx, active), b') = start m (leave_running m b) in
      (ctx, record b' { running = handle_of active; running_message = some m.address })

  unfoldable pub context_for : Option ConsumerMessage → Batch → Context × Batch
  context_for none b = (b.ctx, b)
  context_for (some m) b = elim (context_of m.address b.contexts) [
    | some existing ↦ (existing.context, b)
    | none ↦ if is_never b.options.message_spans then (b.ctx, b) else open_for m b
  ]

  abbrev pub end_all : ℕ → List Span → List Effect × List Span
  end_all n [] = ([], [])
  end_all n (s ∷ ss) =
      let (e, s') = end w.sha256 w.build (w.clock n) w.seed s in
      let (es, ss') = end_all (suc n) ss in (e ∷ es, s' ∷ ss')

  abbrev pub end_batch_span : ℕ → ℕ → Option Span → List Effect × Option Span
  end_batch_span n traced none = ([], none)
  end_batch_span n traced (some s) =
      let (e, s') =
        end w.sha256 w.build (w.clock n) w.seed
          (set_attribute (codes "messaging.batch.traced_message_count") (itoa traced) s) in
      (e ∷ [], some s')

  -- Batch.end, which does its work once.
  unfoldable pub end_batch : Batch → Batch
  end_batch b =
      if b.ended
      then b
      else let (es, ss) = end_all (length b.effects) b.spans in
        let (e, s) = end_batch_span (length b.effects + length es) b.traced b.span in
        record b {
          spans = ss;
          span = s;
          running = none;
          running_message = none;
          ended = true;
          effects = b.effects ++ (es ++ e);
        }
