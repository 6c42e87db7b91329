-- ===== src/Sarama/Batch.antt =====
-- contrib/sarama/batch.go: one flush, with its batch span and the spans of its messages. A span that a
-- batch has minted is named by its position in `spans`, since the source holds each by several
-- pointers; `outside` is any other span that a context may carry, which the batch does not own.
pub mod Spans
pub mod Handler
pub mod Traced
pub mod Closed
use go_collector.Base.{
  ℕ, suc, zero, Bool, true, false, not, ◌&&◌, ◌||◌, List, [], ◌∷◌, ◌++◌, ◌+◌, ◌-◌, Option, none,
  some, length, if◌then◌else◌, ◌==◌,
}
use go_collector.Base.Bytes.{Bytes, codes}
use go_collector.Base.Decimal.{itoa}
use go_collector.Base.Int.{ℤ, pos, negsuc}
use go_collector.Messaging.{MessagingSpan, start_messaging_span, operation_process, attr_int}
use go_collector.Sarama.Consumed.{system, start_process_span}
use go_collector.Sarama.{BatchOptions, MessageSpans, never, ConsumerMessage, batch_bytes}
use go_collector.Tracing.{Client, Context, Drawn, Span, Effect, set_attribute}

pub data Active : Type 0 where
  minted : ℕ → Active
  outside : Active

-- The context handed back for a message, and the span that it carries.
pub record MessageContext : Type 0 where
  pub address : ℕ
  pub context : Context
  pub active : Active

pub record Batch : Type 0 where
  pub client : Option Client
  pub options : BatchOptions
  pub messages : List (Option ConsumerMessage)
  pub span : Option Span
  pub ctx : Context
  pub parent : Context
  pub running : Option ℕ
  pub running_message : Option ℕ
  pub contexts : List MessageContext
  pub spans : List Span
  pub traced : ℕ
  pub ended : Bool
  pub effects : List Effect

-- The last pointer of the messages, behind a first one.
abbrev last_of : Option ConsumerMessage → List (Option ConsumerMessage) → Option ConsumerMessage
last_of m [] = m
last_of m (n ∷ ms) = last_of n ms

abbrev pub batch_of :
    Option Client
    → BatchOptions
    → Context
    → List (Option ConsumerMessage)
    → Context
    → Option Span
    → Batch
batch_of c o parent ms ctx span = record {
  client = c;
  options = o;
  messages = ms;
  span = span;
  ctx = ctx;
  parent = parent;
  running = none;
  running_message = none;
  contexts = [];
  spans = [];
  traced = 0;
  ended = false;
  effects = [];
}

abbrev pub batch_span :
    BatchOptions → ConsumerMessage → List (Option ConsumerMessage) → MessagingSpan
batch_span o first ms = record {
  system = system;
  operation = operation_process;
  destination = first.topic;
  server = [];
  partition = first.partition;
  offset = negsuc 0;
  body_size = pos (batch_bytes ms);
  body = [];
  message_id = [];
  consumer_group = o.group;
}

abbrev pub describe_batch : ConsumerMessage → ConsumerMessage → ℕ → Span → Span
describe_batch first last count s =
    set_attribute (codes "messaging.kafka.offset.last") (attr_int last.offset) (
      set_attribute (codes "messaging.kafka.offset.first") (attr_int first.offset) (
        set_attribute (codes "messaging.batch.message_count") (itoa count)
          (record s { name = codes "PROCESS " ++ (first.topic ++ codes " BATCH") })))

-- `none` where the source dereferences a nil pointer, and panics: the first or the last message is nil.
unfoldable pub new_batch :
    Context → Option Client → BatchOptions → List (Option ConsumerMessage) → Drawn → Option Batch
new_batch ctx c o [] drawn = some (batch_of c o ctx [] ctx none)
new_batch ctx c o (none ∷ ms) drawn = none
new_batch ctx c o (some first ∷ ms) drawn = elim (last_of (some first) ms) [
  | none ↦ none
  | some last ↦
      let all = some first ∷ ms in
      let (ctx', span) = start_messaging_span c ctx (batch_span o first all) drawn in
      some (batch_of c o ctx all ctx' (some (describe_batch first last (length all) span)))
]

abbrev pub same : ℕ → Option ℕ → Bool
same a none = false
same a (some b) = a == b

unfoldable pub context_of : ℕ → List MessageContext → Option MessageContext
context_of a [] = none
context_of a (c ∷ cs) = if c.address == a then some c else context_of a cs

-- The position of the message's pointer; -1 without one.
unfoldable pub index_from : ℕ → ℕ → List (Option ConsumerMessage) → ℤ
index_from i a [] = negsuc 0
index_from i a (none ∷ ms) = index_from (suc i) a ms
index_from i a (some m ∷ ms) =
    let later = index_from (suc i) a ms in if m.address == a then pos i else later

abbrev pub index_of : ConsumerMessage → Batch → ℤ
index_of m b = index_from 0 m.address b.messages

abbrev pub modify : ℕ → (Span → Span) → List Span → List Span
modify n f [] = []
modify zero f (s ∷ ss) = f s ∷ ss
modify (suc n) f (s ∷ ss) = s ∷ modify n f ss
