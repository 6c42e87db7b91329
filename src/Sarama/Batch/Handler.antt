-- ===== src/Sarama/Batch/Handler.antt =====
-- contrib/sarama/batch.go: Each, and the run of a flush. A handler is what it does with its batch: it
-- asks for a context, sets an attribute, loops with Each, and returns or panics.
use go_collector.Base.{List, [], ◌∷◌, ◌++◌, Option, none, some, if◌then◌else◌, map}
use go_collector.Base.Bytes.{Bytes, codes}
use go_collector.Messaging.{Outcome, returns, panics, mark_error}
use go_collector.Sarama.Batch.Spans.{World, start, end_active, end_batch, context_for}
use go_collector.Sarama.Batch.{Active, minted, Batch, same, modify, new_batch}
use go_collector.Sarama.{BatchOptions, is_never, is_always, ConsumerMessage}
use go_collector.Tracing.{Client, Context, Drawn, Span, set_attribute}

pub data Handler : Type 0 where
  done : Outcome → Handler
  ask : Option ConsumerMessage → (Context → Handler) → Handler
  note : Bytes → Bytes → Handler → Handler
  for_each : (Context → ConsumerMessage → Handler) → (Option Bytes → Handler) → Handler

abbrev pub on_span : (Span → Span) → Batch → Batch
on_span f b = elim b.span [ none ↦ b | some s ↦ record b { span = some (f s) } ]

abbrev pub set_batch_attribute : Bytes → Bytes → Batch → Batch
set_batch_attribute key value = on_span (set_attribute key value)

abbrev pub mark_active : Outcome → Active → Batch → Batch
mark_active (returns (some e)) (minted n) b = record b { spans = modify n (mark_error e) b.spans }
mark_active _ _ b = b

abbrev pub forget_running : ConsumerMessage → Batch → Batch
forget_running m b =
    if same m.address b.running_message
    then record b { running = none; running_message = none }
    else b

module _ (w : World) where
  abbrev pub finish_one : Active → Outcome × Batch → Outcome × Batch
  finish_one active (out, b) = (out, end_active w active (mark_active out active b))

  -- One round of Each, whose span ends on a panic too.
  unfoldable pub each_one :
      (Context → Batch → Outcome × Batch) → ConsumerMessage → Batch → Outcome × Batch
  each_one fn m b =
      if is_never b.options.message_spans
      then fn b.ctx b
      else let ((ctx, active), b') = start w m (forget_running m b) in finish_one active (fn ctx b')

  abbrev pub go_round : (Batch → Outcome × Batch) → Outcome × Batch → Outcome × Batch
  go_round rest (returns none, b) = rest b
  go_round rest (returns (some e), b) = (returns (some e), b)
  go_round rest (panics p, b) = (panics p, b)

  unfoldable pub each_from :
      (Context → ConsumerMessage → Batch → Outcome × Batch)
      → List (Option ConsumerMessage)
      → Batch
      → Outcome × Batch
  each_from fn [] b = (returns none, b)
  each_from fn (none ∷ ms) b = each_from fn ms b
  each_from fn (some m ∷ ms) b = go_round (each_from fn ms) (each_one (λ ctx b'. fn ctx m b') m b)

  abbrev pub after_each :
      (Option Bytes → Batch → Outcome × Batch) → Outcome × Batch → Outcome × Batch
  after_each k (returns e, b) = k e b
  after_each k (panics p, b) = (panics p, b)

  -- What a handler does to its batch.
  unfoldable pub handle : Handler → Batch → Outcome × Batch
  handle (done out) b = (out, b)
  handle (ask m k) b = let (ctx, b') = context_for w m b in handle (k ctx) b'
  handle (note key value k) b = handle k (set_batch_attribute key value b)
  handle (for_each body k) b =
      after_each (λ e b'. handle (k e) b')
        (each_from (λ ctx m b'. handle (body ctx m) b') b.messages b)

  abbrev pub start_messages : List (Option ConsumerMessage) → Batch → Batch
  start_messages [] b = b
  start_messages (none ∷ ms) b = start_messages ms b
  start_messages (some m ∷ ms) b = start_messages ms (start w m b).1

  abbrev pub start_ahead : Batch → Batch
  start_ahead b = if is_always b.options.message_spans then start_messages b.messages b else b

  -- A panic is raised again behind the end of the batch.
  abbrev pub finish_run : Outcome × Batch → Outcome × Batch
  finish_run (returns none, b) = (returns none, end_batch w b)
  finish_run (returns (some e), b) = (returns (some e), end_batch w (on_span (mark_error e) b))
  finish_run (panics p, b) = (panics p, end_batch w (on_span (mark_error (codes "panic: " ++ p)) b))

  abbrev pub run_batch : Handler → Batch → Outcome × Batch
  run_batch h b = finish_run (handle h (start_ahead b))

  -- The handler is given the batch's own context. `none` where new_batch panics.
  unfoldable pub process_batch :
      Context
      → Option Client
      → BatchOptions
      → List (Option ConsumerMessage)
      → Drawn
      → (Context → Handler)
      → Option (Outcome × Batch)
  process_batch ctx c o ms drawn h = elim (new_batch ctx c o ms drawn) [
    | none ↦ none
    | some b ↦ some (run_batch (h b.ctx) b)
  ]

  -- batchConsumerGroupHandler.flush: the trigger on the batch span, and the application's handler.
  unfoldable pub flush :
      Context
      → Option Client
      → BatchOptions
      → List ConsumerMessage
      → Bytes
      → Drawn
      → (Context → Handler)
      → Option (Outcome × Batch)
  flush ctx c o ms trigger drawn h = elim (new_batch ctx c o (map (λ m. some m) ms) drawn) [
    | none ↦ none
    | some b ↦
        some (run_batch (h b.ctx) (set_batch_attribute (codes "messaging.batch.trigger") trigger b))
  ]
