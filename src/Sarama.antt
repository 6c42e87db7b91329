-- ===== src/Sarama.antt =====
-- contrib/sarama: what the Kafka instrumentation is given. A pointer to a message is its address and
-- the message behind it, so that two pointers are the same when their addresses are; a nil pointer is
-- `none`.
pub mod Headers
pub mod Consumed
pub mod Producer
pub mod Batch
pub mod Claim
mod Tests
use go_collector.Base.{
  ℕ, Bool, true, false, ◌&&◌, ◌||◌, List, [], ◌∷◌, ◌+◌, ◌*◌, Option, none, some, length,
  if◌then◌else◌,
}
use go_collector.Base.Bytes.{Bytes, codes}
use go_collector.Base.Int.{ℤ, pos, ltb_ℤ, leb_ℤ}

pub record RecordHeader : Type 0 where
  pub key : Bytes
  pub value : Bytes

pub record ConsumerMessage : Type 0 where
  pub address : ℕ
  pub headers : List (Option RecordHeader)
  pub key : Bytes
  pub value : Bytes
  pub topic : Bytes
  pub partition : ℤ
  pub offset : ℤ

pub data MessageSpans : Type 0 where
  on_demand always never : MessageSpans

abbrev pub is_never : MessageSpans → Bool
is_never never = true
is_never _ = false

abbrev pub is_always : MessageSpans → Bool
is_always always = true
is_always _ = false

pub record BatchOptions : Type 0 where
  pub group : Bytes
  pub message_spans : MessageSpans
  pub max_records : ℤ
  pub max_bytes : ℤ
  pub max_wait : ℤ

-- In nanoseconds.
abbrev pub default_max_wait : ℤ
default_max_wait = pos (1000 * (1000 * 1000))

abbrev pub wait_of : BatchOptions → ℤ
wait_of o = if ltb_ℤ (pos 0) o.max_wait then o.max_wait else default_max_wait

unfoldable pub full : BatchOptions → ℕ → ℕ → Bool
full o records bytes =
    (ltb_ℤ (pos 0) o.max_records && leb_ℤ o.max_records (pos records))
    || (ltb_ℤ (pos 0) o.max_bytes && leb_ℤ o.max_bytes (pos bytes))

-- A nil message counts nothing.
unfoldable pub batch_bytes : List (Option ConsumerMessage) → ℕ
batch_bytes [] = 0
batch_bytes (none ∷ ms) = batch_bytes ms
batch_bytes (some m ∷ ms) = length m.value + batch_bytes ms
