-- ===== src/Spool/Frame/Codec.antt =====
-- The header of a frame, and what the spool relies on of encoding/json for it.
use go_collector.Base.{Bool, true, Option, some, ◌≡◌}
use go_collector.Base.Bytes.{Bytes}

pub record FrameHeader : Type 0 where
  pub signal : Bytes
  pub encoding : Bytes
  pub id : Bytes

-- `valid` holds of headers whose texts are valid UTF-8: json.Marshal replaces other bytes.
pub record HeaderCodec : Type 0 where
  pub marshal : FrameHeader → Option Bytes
  pub unmarshal : Bytes → Option FrameHeader
  pub valid : FrameHeader → Bool
  pub round_trip :
      (h : FrameHeader) (bytes : Bytes)
      → valid h ≡ true
      → marshal h ≡ some bytes
      → unmarshal bytes ≡ some h
