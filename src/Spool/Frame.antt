-- ===== src/Spool/Frame.antt =====
-- EncodeFrame and DecodeFrames of spool/segment.go. encoding/json is a parameter, known by the law
-- that a header of valid UTF-8 comes back from its own rendering.
pub mod Codec
pub mod RoundTrip
pub mod Damage
use go_collector.Base.{
  ℕ, zero, suc, ◌+◌, ◌*◌, ◌/◌, ◌%◌, ◌^◌, Bool, true, false, not, ◌||◌, List, [], ◌∷◌, ◌++◌, Option,
  none, some, length, take, drop, slice, ltb, ◌==◌, if◌then◌else◌,
}
use go_collector.Base.Bytes.{Bytes, codes, bytes_eq, is_empty}
use go_collector.Spool.Crc.{crc32}
use go_collector.Spool.Frame.Codec.{FrameHeader, HeaderCodec}

abbrev pub frame_prefix_bytes : ℕ
frame_prefix_bytes = 14

abbrev pub max_frame_payload : ℕ
max_frame_payload = 8 * 1024 * 1024

abbrev pub frame_magic : Bytes
frame_magic = codes "CHRN"

pub record Frame : Type 0 where
  pub signal : Bytes
  pub encoding : Bytes
  pub id : Bytes
  pub payload : Bytes

pub data EncodeError : Type 0 where
  unnamed marshal_failed : EncodeError
  payload_too_large header_too_large : ℕ → EncodeError

pub data Encoded : Type 0 where
  ok : Bytes → Encoded
  err : EncodeError → Encoded

-- binary.LittleEndian's AppendUint16 and AppendUint32 of a truncated value, in front of the rest.
abbrev pub append_uint16 : ℕ → Bytes → Bytes
append_uint16 n rest = (n % 256) ∷ (n / 256 % 256) ∷ rest

abbrev pub append_uint32 : ℕ → Bytes → Bytes
append_uint32 n rest = (n % 256) ∷ (n / 256 % 256) ∷ (n / 65536 % 256) ∷ (n / 16777216 % 256) ∷ rest

-- binary.LittleEndian's Uint16 and Uint32: the value of two or four bytes.
abbrev pub little_endian : Bytes → ℕ
little_endian [] = 0
little_endian (b ∷ bs) = b + 256 * little_endian bs

abbrev pub frame_of : Bytes → Bytes → Bytes
frame_of header payload =
    let body = header ++ payload in
    frame_magic
    ++ append_uint16 (length header % 2 ^ 16)
        (append_uint32 (length payload % 2 ^ 32) (append_uint32 (crc32 body) body))

abbrev pub header_of : Frame → FrameHeader
header_of f = record { signal = f.signal; encoding = f.encoding; id = f.id }

pub data DecodeError : Type 0 where
  boundary_lost checksum_mismatch bad_header : ℕ → DecodeError

pub record Decoded : Type 0 where
  pub frames : List Frame
  pub error : Option DecodeError

-- One round of the loop of DecodeFrames on data[offset:]: the loop ends (`stop`), returns an error
-- that names the offset, or takes a frame and goes on behind its bytes.
pub data Round : Type 0 where
  stop : Round
  fails : (ℕ → DecodeError) → Round
  took : Frame → ℕ → Round

module _ (codec : HeaderCodec) where
  unfoldable pub encode_frame : Frame → Encoded
  encode_frame f =
      if is_empty f.signal || is_empty f.encoding
      then err unnamed
      else if ltb max_frame_payload (length f.payload)
      then err (payload_too_large (length f.payload))
      else elim (codec.marshal (header_of f)) [
        | none ↦ err marshal_failed
        | some header ↦
            if ltb 0xFFFF (length header)
            then err (header_too_large (length header))
            else ok (frame_of header f.payload)
      ]

  -- The header's bytes parsed, on a body whose checksum held.
  unfoldable pub decode_body : ℕ → Bytes → Round
  decode_body header_len body = elim (codec.unmarshal (take header_len body)) [
    | none ↦ fails bad_header
    | some h ↦
        took
          (record {
            signal = h.signal;
            encoding = h.encoding;
            id = h.id;
            payload = drop header_len body;
          })
          (frame_prefix_bytes + length body)
  ]

  unfoldable pub decode_round : Bytes → Round
  unfolding decode_body
  decode_round rest =
      let header_len = little_endian (slice 4 6 rest) in
      let payload_len = little_endian (slice 6 10 rest) in
      let checksum = little_endian (slice 10 14 rest) in
      let body = take (header_len + payload_len) (drop frame_prefix_bytes rest) in
      if ltb (length rest) frame_prefix_bytes
      then stop
      else if not (bytes_eq (take 4 rest) frame_magic)
      then fails boundary_lost
      else if ltb (length rest) (frame_prefix_bytes + (header_len + payload_len))
      then stop
      else if not (crc32 body == checksum)
      then fails checksum_mismatch
      else decode_body header_len body

  abbrev pub keep_frame : Frame → Option Decoded → Option Decoded
  keep_frame f none = none
  keep_frame f (some d) = some (record d { frames = f ∷ d.frames })

  -- `none` means that the fuel ran out.
  unfoldable pub decode_from : ℕ → ℕ → Bytes → Option Decoded
  unfolding decode_round
  decode_from zero offset rest = none
  decode_from (suc fuel) offset rest = elim (decode_round rest) [
    | stop ↦ some (record { frames = []; error = none })
    | fails e ↦ some (record { frames = []; error = some (e offset) })
    | took f n ↦ keep_frame f (decode_from fuel (offset + n) (drop n rest))
  ]

  -- A frame takes fourteen bytes or more, so a round for each byte is more than enough.
  unfoldable pub decode_frames : Bytes → Option Decoded
  unfolding decode_from
  decode_frames bytes = decode_from (suc (length bytes)) 0 bytes
