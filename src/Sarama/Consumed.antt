-- ===== src/Sarama/Consumed.antt =====
-- contrib/sarama/sarama.go: the span of a consumed message, and the proxy that a claim's messages go
-- through.
pub mod Parent
use go_collector.Base.{
  Bool, true, false, not, ℕ, suc, List, [], ◌∷◌, ◌++◌, Option, none, some, length, if◌then◌else◌,
}
use go_collector.Base.Bytes.{Bytes, codes}
use go_collector.Base.Int.{ℤ, pos}
use go_collector.Messaging.{
  MessagingSpan, start_messaging_span, capture_messaging_bodies, operation_process, attr_int,
}
use go_collector.Resource.{Build}
use go_collector.Sarama.Headers.{extract, wait_milliseconds}
use go_collector.Sarama.{ConsumerMessage}
use go_collector.Tracing.{
  Client, Context, Drawn, Span, Effect, nothing, context_with_remote_context, set_attribute, end,
}

abbrev pub system : Bytes
system = codes "kafka"

abbrev pub consume_body : Option Client → Bytes → Bytes
consume_body c value = if capture_messaging_bodies c then value else []

abbrev pub consumed_span : Option Client → Bytes → ConsumerMessage → MessagingSpan
consumed_span c group m = record {
  system = system;
  operation = operation_process;
  destination = m.topic;
  server = [];
  partition = m.partition;
  offset = m.offset;
  body_size = pos (length m.value);
  body = consume_body c m.value;
  message_id = m.key;
  consumer_group = group;
}

abbrev pub set_wait : Option ℤ → Span → Span
set_wait none s = s
set_wait (some waited) s =
    set_attribute (codes "messaging.message.queue_time_ms") (attr_int waited) s

-- `waited` is what wait_milliseconds is given, and `started` the time at which the message was taken.
module _ (waited : Bytes → Bytes → Option ℤ) where
  unfoldable pub start_process_span :
      Context → Option Client → Bytes → ConsumerMessage → Bytes → Drawn → Context × Span
  start_process_span ctx c group m started drawn =
      let (remote, enqueued_at) = extract m.headers in
      let (ctx', span) =
        start_messaging_span c (context_with_remote_context ctx remote started)
          (consumed_span c group m) drawn in
      (ctx', set_wait (wait_milliseconds waited enqueued_at started) span)

  -- A nil message has no span.
  abbrev pub start_process :
      Context
      → Option Client
      → Bytes
      → Option ConsumerMessage
      → Bytes
      → Drawn
      → Context × Option Span
  start_process ctx c group none started drawn = (ctx, none)
  start_process ctx c group (some m) started drawn =
      let (ctx', span) = start_process_span ctx c group m started drawn in (ctx', some span)

-- A nil span has nothing to end.
module _ (sha256 : Bytes → Bytes) (build : Build) (seed : Bytes) where
  abbrev pub end_open : Bytes → Option Span → List Effect
  end_open now none = []
  end_open now (some s) = (end sha256 build now seed s).0 ∷ []

-- The goroutine of Messages, over what the claim's channel gives: the messages that it passes on, and
-- the effects of the spans that it ends. `clock` is the time of each round, and `drawn` what its start
-- draws.
module _ (waited : Bytes → Bytes → Option ℤ) (sha256 : Bytes → Bytes) (build : Build) (seed : Bytes)
    (clock : ℕ → Bytes) (drawn : ℕ → Drawn) where
  unfoldable pub proxy_from :
      Context
      → Option Client
      → Bytes
      → ℕ
      → Option Span
      → List (Option ConsumerMessage)
      → List (Option ConsumerMessage) × List Effect
  proxy_from ctx c group round running [] = ([], end_open sha256 build seed (clock round) running)
  proxy_from ctx c group round running (m ∷ ms) =
      let (_, next) = start_process waited ctx c group m (clock round) (drawn round) in
      let (out, ended) = proxy_from ctx c group (suc round) next ms in
      (m ∷ out, end_open sha256 build seed (clock round) running ++ ended)

  abbrev pub proxy :
      Context
      → Option Client
      → Bytes
      → List (Option ConsumerMessage)
      → List (Option ConsumerMessage) × List Effect
  proxy ctx c group ms = proxy_from ctx c group 0 none ms
