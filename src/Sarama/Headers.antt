-- ===== src/Sarama/Headers.antt =====
-- contrib/sarama/sarama.go: the trace context in the headers of a record. The time that a publisher
-- stamps stands for its text, and what the text of a stamp makes of a wait, which is floating-point
-- arithmetic, is a parameter.
pub mod RoundTrip
use go_collector.Base.{
  Bool, true, false, ◌||◌, List, [], ◌∷◌, ◌++◌, ℕ, Option, none, some, if◌then◌else◌,
}
use go_collector.Base.Bytes.{Bytes, codes, is_empty}
use go_collector.Base.Int.{ℤ}
use go_collector.Propagation.Baggage.{normalize_baggage}
use go_collector.Propagation.Traceparent.{parse_traceparent_context}
use go_collector.Propagation.Tracestate.{normalize_tracestate}
use go_collector.Propagation.{RemoteContext}
use go_collector.Sarama.{RecordHeader}
use go_collector.Text.Fold.{equal_fold}
use go_collector.Text.Trim.{trim_space}
use go_collector.Tracing.{Context, traceparent, remote_context, empty_context}

abbrev pub traceparent_header : Bytes
traceparent_header = codes "traceparent"

abbrev pub tracestate_header : Bytes
tracestate_header = codes "tracestate"

abbrev pub baggage_header : Bytes
baggage_header = codes "baggage"

abbrev pub enqueued_at_header : Bytes
enqueued_at_header = codes "x-chronos-enqueued-at"

unfoldable pub has_header : Bytes → List RecordHeader → Bool
has_header key [] = false
has_header key (h ∷ hs) = equal_fold h.key key || has_header key hs

unfoldable pub set_header : Bytes → Bytes → List RecordHeader → List RecordHeader
set_header key value hs =
    if is_empty value || has_header key hs
    then hs
    else hs ++ (record { key = key; value = value } ∷ [])

-- The tracestate and the baggage of the context's span are empty without one.
unfoldable pub inject : Context → Bytes → List RecordHeader → List RecordHeader
inject ctx enqueued_at hs = set_header enqueued_at_header enqueued_at (
    set_header baggage_header (remote_context ctx).baggage (
      set_header tracestate_header (remote_context ctx).tracestate
        (set_header traceparent_header (traceparent ctx) hs)))

-- The four variables of `extract`.
pub record Carrier : Type 0 where
  pub traceparent : Bytes
  pub tracestate : Bytes
  pub baggage : Bytes
  pub enqueued_at : Bytes

abbrev pub no_carrier : Carrier
no_carrier = record { traceparent = []; tracestate = []; baggage = []; enqueued_at = [] }

unfoldable pub read_header : RecordHeader → Carrier → Carrier
read_header h c =
    if equal_fold h.key traceparent_header
    then record c { traceparent = h.value }
    else if equal_fold h.key tracestate_header
    then record c { tracestate = h.value }
    else if equal_fold h.key baggage_header
    then record c { baggage = h.value }
    else if equal_fold h.key enqueued_at_header
    then record c { enqueued_at = h.value }
    else c

unfoldable pub read_headers : List (Option RecordHeader) → Carrier → Carrier
read_headers [] c = c
read_headers (none ∷ hs) c = read_headers hs c
read_headers (some h ∷ hs) c = read_headers hs (read_header h c)

unfoldable pub remote_of : Carrier → RemoteContext × Bytes
remote_of c = elim (parse_traceparent_context c.traceparent) [
  | none ↦ (empty_context, c.enqueued_at)
  | some remote ↦ (
    record remote {
      tracestate = normalize_tracestate c.tracestate;
      baggage = normalize_baggage c.baggage;
    },
    c.enqueued_at,
  )
]

abbrev pub extract : List (Option RecordHeader) → RemoteContext × Bytes
extract hs = remote_of (read_headers hs no_carrier)

-- `waited` parses the trimmed stamp and subtracts it from the time at which the message was taken.
unfoldable pub wait_milliseconds : (Bytes → Bytes → Option ℤ) → Bytes → Bytes → Option ℤ
wait_milliseconds waited enqueued_at now =
    if is_empty (trim_space enqueued_at) then none else waited (trim_space enqueued_at) now
