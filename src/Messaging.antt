-- ===== src/Messaging.antt =====
-- messaging.go: the spans of published and consumed messages.
pub mod Clear
pub mod Body
mod Tests
use go_collector.Base.{
  ℕ, Bool, true, false, not, ◌&&◌, ◌||◌, List, [], ◌∷◌, ◌++◌, ◌-◌, Option, none, some, length, all,
  take, leb, ltb, ◌==◌, within, if◌then◌else◌,
}
use go_collector.Base.Bytes.{Bytes, codes, is_empty, bytes_eq}
use go_collector.Base.Int.{ℤ, pos, negsuc, ltb_ℤ, leb_ℤ, pos_part}
use go_collector.Config.{Config}
use go_collector.Resource.{Build}
use go_collector.Sql.Params.{format_int}
use go_collector.Text.Base64.{base64_encode}
use go_collector.Text.Utf8.{utf8_valid}
use go_collector.Tracing.{
  Client, Context, Drawn, Span, Effect, start_span, set_attribute, set_status, end,
}

abbrev pub operation_publish : Bytes
operation_publish = codes "publish"

abbrev pub operation_process : Bytes
operation_process = codes "process"

pub record MessagingSpan : Type 0 where
  pub system : Bytes
  pub operation : Bytes
  pub destination : Bytes
  pub server : Bytes
  pub partition : ℤ
  pub offset : ℤ
  pub body_size : ℤ
  pub body : Bytes
  pub message_id : Bytes
  pub consumer_group : Bytes

abbrev upper_byte : ℕ → ℕ
upper_byte c = if within b'a' b'z' c then c - 32 else c

unfoldable pub upper_ascii : Bytes → Bytes
upper_ascii [] = []
upper_ascii (c ∷ s) = upper_byte c ∷ upper_ascii s

unfoldable pub span_name : MessagingSpan → Bytes
span_name m =
    let name = upper_ascii (if is_empty m.operation then operation_publish else m.operation) in
    if is_empty m.destination then name else name ++ (b' ' ∷ m.destination)

unfoldable pub span_kind_for : Bytes → Bytes
span_kind_for operation =
    if bytes_eq operation operation_publish then codes "producer" else codes "consumer"

abbrev pub attr_int : ℤ → Bytes
attr_int = format_int

-- A field that is written always, one that is written unless it is empty, and one that is written
-- unless it is negative.
pub data Field : Type 0 where
  fixed text : Bytes → Bytes → Field
  known : Bytes → ℤ → Field

abbrev pub set_field : Field → Span → Span
set_field (fixed key value) s = set_attribute key value s
set_field (text key value) s = if is_empty value then s else set_attribute key value s
set_field (known key n) s = if leb_ℤ (pos 0) n then set_attribute key (attr_int n) s else s

unfoldable pub set_fields : List Field → Span → Span
set_fields [] s = s
set_fields (f ∷ fs) s = set_fields fs (set_field f s)

abbrev pub size_of : MessagingSpan → ℤ
size_of m =
    if leb_ℤ m.body_size (pos 0) && ltb 0 (length m.body) then pos (length m.body) else m.body_size

unfoldable pub capture_messaging_bodies : Option Client → Bool
capture_messaging_bodies none = false
capture_messaging_bodies (some c) =
    c.cfg.enabled && (c.cfg.apm_enabled && c.cfg.messaging_capture_bodies)

abbrev text_byte : ℕ → Bool
text_byte b = leb 0x20 b || (b == b'\t' || (b == b'\n' || b == b'\r'))

unfoldable pub messaging_text : Bytes → Bool
messaging_text bytes = utf8_valid bytes && all text_byte bytes

abbrev pub body_key : Bytes
body_key = codes "messaging.message.body"

abbrev pub encoding_key : Bytes
encoding_key = codes "messaging.message.body.encoding"

abbrev pub truncated_key : Bytes
truncated_key = codes "messaging.message.body.truncated"

abbrev pub too_long : Config → Bytes → Bool
too_long cfg body =
    ltb_ℤ (pos 0) cfg.messaging_max_body && ltb (pos_part cfg.messaging_max_body) (length body)

abbrev pub captured : Config → Bytes → Bytes
captured cfg body = if too_long cfg body then take (pos_part cfg.messaging_max_body) body else body

abbrev pub set_body : Bytes → Span → Span
set_body raw s =
    if messaging_text raw
    then set_attribute body_key raw s
    else set_attribute encoding_key (codes "base64") (set_attribute body_key (base64_encode raw) s)

abbrev pub set_truncated : Bool → Span → Span
set_truncated truncated s = if truncated then set_attribute truncated_key (codes "true") s else s

unfoldable pub apply_messaging_body : Option Client → Bytes → Span → Span
apply_messaging_body none body s = s
apply_messaging_body (some c) body s =
    if not (capture_messaging_bodies (some c)) || is_empty body
    then s
    else set_truncated (too_long c.cfg body) (set_body (captured c.cfg body) s)

abbrev pub fields_of : MessagingSpan → List Field
fields_of m =
    fixed (codes "span.kind") (span_kind_for m.operation)
    ∷ text (codes "messaging.system") m.system
    ∷ text (codes "messaging.operation") m.operation
    ∷ text (codes "messaging.destination.name") m.destination
    ∷ text (codes "server.address") m.server
    ∷ text (codes "messaging.consumer.group.name") m.consumer_group
    ∷ text (codes "messaging.message.id") m.message_id
    ∷ known (codes "messaging.kafka.partition") m.partition
    ∷ known (codes "messaging.kafka.offset") m.offset
    ∷ known (codes "messaging.message.body.size") (size_of m)
    ∷ []

-- The span is the one in the context, which keeps the copy from its start: what is read through a
-- context are its ids and its companion headers, and they stay as they are.
unfoldable pub start_messaging_span :
    Option Client → Context → MessagingSpan → Drawn → Context × Span
start_messaging_span c ctx m drawn =
    let (ctx', span) = start_span c ctx (span_name m) drawn in
    (ctx', apply_messaging_body c m.body (set_fields (fields_of m) span))

-- What a function of the application does: it returns an error's text or none, or it panics.
pub data Outcome : Type 0 where
  returns : Option Bytes → Outcome
  panics : Bytes → Outcome

abbrev pub mark_error : Bytes → Span → Span
mark_error message s = set_attribute (codes "error.message") message (set_status (codes "error") s)

abbrev pub mark_outcome : Outcome → Span → Span
mark_outcome (returns (some message)) s = mark_error message s
mark_outcome (returns none) s = s
mark_outcome (panics _) s = s

-- The deferred End runs on a panic too, and the outcome of `fn` is handed on as it is.
module _ (sha256 : Bytes → Bytes) (build : Build) where
  unfoldable pub record_messaging :
      Option Client
      → Context
      → MessagingSpan
      → Drawn
      → Bytes
      → Bytes
      → (Context → Outcome)
      → Outcome × (Effect × Span)
  record_messaging c ctx m drawn now seed fn =
      let (ctx', span) = start_messaging_span c ctx m drawn in
      let outcome = fn ctx' in (outcome, end sha256 build now seed (mark_outcome outcome span))
