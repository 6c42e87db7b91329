-- ===== src/Spool/Segments.antt =====
-- Append and Read of spool/segment.go. The gaps are what other processes do to the directory while
-- `openActive` loops; nothing happens between the open and the write.
pub mod Active
pub mod Store
pub mod Uncounted
pub mod Log
use go_collector.Base.{
  ℕ, ◌+◌, Bool, true, false, List, [], ◌∷◌, ◌++◌, Option, none, some, length, take, leb, ltb, not,
  ◌==◌, if◌then◌else◌,
}
use go_collector.Base.Assoc.{lookup, put}
use go_collector.Base.Bytes.{Bytes, is_empty}
use go_collector.Spool.Directory.{
  Files, Host, Spool, Gap, Opened, opened, open_failed, Rotated, rotated, rotate_failed,
  generations, open_active, rotate, segment_max_bytes, count_dropped,
}
use go_collector.Spool.Frame.Codec.{HeaderCodec}
use go_collector.Spool.Frame.{
  Frame, Encoded, EncodeError, encode_frame, Decoded, DecodeError, decode_frames, ok, err,
}
use go_collector.Spool.Names.{segment_name}

pub data Outcome : Type 0 where
  appended : Outcome
  not_encoded : EncodeError → Outcome
  no_directory no_mkdir no_open no_rotation write_failed short_append : Outcome

-- The bytes of a segment, as the open handle sees them.
unfoldable pub content_of : ℕ → Files → Bytes
content_of g files = elim (lookup (segment_name g) files) [ none ↦ [] | some c ↦ c ]

-- The one write, and its result inspected.
unfoldable pub write_frame : Host → Bytes → ℕ → Spool → Outcome × Spool
write_frame host frame g s =
    let (written, failed) = host.write (length frame) in
    let s' = record s {
      files = put (segment_name g) (content_of g s.files ++ take written frame) s.files;
    } in
    if failed
    then (write_failed, s')
    else if not (written == length frame)
    then (short_append, count_dropped 1 (length frame) s')
    else (appended, s')

abbrev pub write_rotated : Host → Bytes → Option Rotated → Option (Outcome × Spool)
write_rotated host frame none = none
write_rotated host frame (some (rotated g s)) = some (write_frame host frame g s)
write_rotated host frame (some (rotate_failed s)) = some (no_rotation, s)

-- Behind the open: rotate when the active segment has reached its size, then write.
unfoldable pub append_opened :
    Host → List Gap → Bytes → Spool → Option Opened → Option (Outcome × Spool)
append_opened host gaps frame s none = none
append_opened host gaps frame s (some (open_failed files)) =
    some (no_open, record s { files = files })
append_opened host gaps frame s (some (opened g files)) =
    let s1 = record s { files = files } in
    if leb segment_max_bytes (length (content_of g files))
    then write_rotated host frame (rotate host gaps g s1)
    else some (write_frame host frame g s1)

module _ (codec : HeaderCodec) (host : Host) where
  unfoldable pub append : List Gap → Bytes → Frame → Spool → Option (Outcome × Spool)
  append gaps dir f s = elim (encode_frame codec f) [
    | err e ↦ some (not_encoded e, count_dropped 1 (length f.payload) s)
    | ok frame ↦
        if is_empty dir
        then some (no_directory, s)
        else if not host.mkdir_ok
        then some (no_mkdir, s)
        else append_opened host gaps frame s (open_active host gaps s.files)
  ]

-- Read: `unread` stands for an error of os.ReadFile.
pub data ReadError : Type 0 where
  unread : ReadError
  undecoded : DecodeError → ReadError

pub record ReadResult : Type 0 where
  pub frames : List Frame
  pub error : Option ReadError

abbrev pub prepend : List Frame → Option ReadResult → Option ReadResult
prepend fs none = none
prepend fs (some r) = some (record r { frames = fs ++ r.frames })

-- An error of DecodeFrames ends the read, behind the frames that it decoded.
abbrev pub read_decoded : List Frame → Option DecodeError → Option ReadResult → Option ReadResult
read_decoded fs (some e) rest = some (record { frames = fs; error = some (undecoded e) })
read_decoded fs none rest = prepend fs rest

abbrev pub read_segment : Option Decoded → Option ReadResult → Option ReadResult
read_segment none rest = none
read_segment (some d) rest = read_decoded d.frames d.error rest

module _ (codec : HeaderCodec) where
  unfoldable pub read_from : List ℕ → Files → Option ReadResult
  read_from [] files = some (record { frames = []; error = none })
  read_from (g ∷ gs) files =
      let rest = read_from gs files in
      elim (lookup (segment_name g) files) [
        | none ↦ some (record { frames = []; error = some unread })
        | some bytes ↦ read_segment (decode_frames codec bytes) rest
      ]

  unfoldable pub read : Host → Files → Option ReadResult
  unfolding read_from
  read host files = read_from (generations host files) files
