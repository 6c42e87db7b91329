-- ===== src/Sarama/Producer.antt =====
-- contrib/sarama/sarama.go: the spans of a SyncProducer. The producer under it is a parameter: what it
-- answers to the messages that it is handed.
pub mod Sends
use go_collector.Base.{
  ℕ, suc, Bool, true, false, List, [], ◌∷◌, ◌++◌, Option, none, some, length, if◌then◌else◌,
}
use go_collector.Base.Bytes.{Bytes, codes}
use go_collector.Base.Int.{ℤ, pos, negsuc}
use go_collector.Messaging.{
  MessagingSpan, start_messaging_span, capture_messaging_bodies, operation_publish, attr_int,
  mark_error,
}
use go_collector.Resource.{Build}
use go_collector.Sarama.Consumed.{system}
use go_collector.Sarama.Headers.{inject}
use go_collector.Sarama.{RecordHeader}
use go_collector.Tracing.{Client, Context, Drawn, Span, Effect, set_attribute, end}

-- A sarama.Encoder: its length, what it encodes to, and its text where it is a StringEncoder.
pub record Encoder : Type 0 where
  pub length : ℤ
  pub encoded : Option Bytes
  pub as_text : Option Bytes

pub record ProducerMessage : Type 0 where
  pub topic : Bytes
  pub key : Option Encoder
  pub value : Option Encoder
  pub headers : List RecordHeader

-- A wrapped producer; `brokers` are joined already.
pub record SyncProducer : Type 0 where
  pub client : Option Client
  pub brokers : Bytes

abbrev pub encoder_length : Option Encoder → ℤ
encoder_length none = negsuc 0
encoder_length (some e) = e.length

abbrev or_nil : Option Bytes → Bytes
or_nil none = []
or_nil (some v) = v

abbrev pub encoder_bytes : Option Client → Option Encoder → Bytes
encoder_bytes c none = []
encoder_bytes c (some e) = if capture_messaging_bodies c then or_nil e.encoded else []

abbrev pub key_of : Option Encoder → Bytes
key_of none = []
key_of (some e) = or_nil e.as_text

abbrev pub published_span : SyncProducer → ProducerMessage → MessagingSpan
published_span p m = record {
  system = system;
  operation = operation_publish;
  destination = m.topic;
  server = p.brokers;
  partition = negsuc 0;
  offset = negsuc 0;
  body_size = encoder_length m.value;
  body = encoder_bytes p.client m.value;
  message_id = key_of m.key;
  consumer_group = [];
}

-- The span of a publish and the message with its headers, which the source writes into the message.
unfoldable pub prepare :
    SyncProducer → Context → ProducerMessage → Drawn → Bytes → ProducerMessage × Span
prepare p ctx m drawn enqueued_at =
    let (ctx', span) = start_messaging_span p.client ctx (published_span p m) drawn in
    (record m { headers = inject ctx' enqueued_at m.headers }, span)

pub record Sent : Type 0 where
  pub partition : ℤ
  pub offset : ℤ
  pub error : Option Bytes

abbrev pub mark_sent : Sent → Span → Span
mark_sent sent s = elim sent.error [
  | some e ↦ mark_error e s
  | none ↦
      set_attribute (codes "messaging.kafka.offset") (attr_int sent.offset)
        (set_attribute (codes "messaging.kafka.partition") (attr_int sent.partition) s)
]

abbrev pub mark_all : Option Bytes → Span → Span
mark_all none s = s
mark_all (some e) s = mark_error e s

-- The spans of the messages of one call, with the n-th start's draw and stamp; a nil message is handed
-- on without a span.
unfoldable pub prepare_all :
    SyncProducer
    → Context
    → (ℕ → Drawn)
    → (ℕ → Bytes)
    → ℕ
    → List (Option ProducerMessage)
    → List (Option ProducerMessage) × List Span
prepare_all p ctx drawn stamp n [] = ([], [])
prepare_all p ctx drawn stamp n (none ∷ ms) =
    let (out, spans) = prepare_all p ctx drawn stamp n ms in (none ∷ out, spans)
prepare_all p ctx drawn stamp n (some m ∷ ms) =
    let (m', span) = prepare p ctx m (drawn n) (stamp n) in
    let (out, spans) = prepare_all p ctx drawn stamp (suc n) ms in (some m' ∷ out, span ∷ spans)

module _ (sha256 : Bytes → Bytes) (build : Build) (now seed : Bytes) where
  abbrev pub end_marked : Option Bytes → List Span → List Effect
  end_marked err [] = []
  end_marked err (s ∷ ss) = (end sha256 build now seed (mark_all err s)).0 ∷ end_marked err ss

  -- SendMessageContext: the answer of the producer, and what the end of the span does.
  unfoldable pub send_message :
      (Option ProducerMessage → Sent)
      → SyncProducer
      → Context
      → Option ProducerMessage
      → Drawn
      → Bytes
      → Sent × List Effect
  send_message send p ctx none drawn enqueued_at = (send none, [])
  send_message send p ctx (some m) drawn enqueued_at =
      let (m', span) = prepare p ctx m drawn enqueued_at in
      let sent = send (some m') in (sent, (end sha256 build now seed (mark_sent sent span)).0 ∷ [])

  -- SendMessagesContext.
  unfoldable pub send_messages :
      (List (Option ProducerMessage) → Option Bytes)
      → SyncProducer
      → Context
      → (ℕ → Drawn)
      → (ℕ → Bytes)
      → List (Option ProducerMessage)
      → Option Bytes × List Effect
  send_messages send p ctx drawn stamp ms =
      let (out, spans) = prepare_all p ctx drawn stamp 0 ms in
      let err = send out in (err, end_marked err spans)
