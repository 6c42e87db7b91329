-- ===== src/Spool/Tests.antt =====
-- The theorems of the spool at concrete inputs. The codec stands in for encoding/json: a header is
-- rendered as its first two texts, each behind its length, and the third.
use mathlib.Core.Option.{some-injective}
use go_collector.Base.{
  ℕ, zero, suc, ◌/◌, ◌-◌, true, List, [], ◌∷◌, ◌++◌, ◌≡◌, ◌≢◌, refl, Option, none, some, arith,
  length, take, drop, take-append_of_eq, drop-append_of_eq, sym,
}
use go_collector.Base.Assoc.{lookup, put}
use go_collector.Base.Bytes.{Bytes, codes}
use go_collector.Base.Decimal.{pad_six}
use go_collector.Spool.Crc.{crc32}
use go_collector.Spool.Frame.Codec.{FrameHeader, HeaderCodec}
use go_collector.Spool.Frame.Damage.{decode_frames_total, decode_frames_corrupt}
use go_collector.Spool.Frame.RoundTrip.{Log, nil, cons, torn, decode_frames-Log}
use go_collector.Spool.Frame.{
  Frame, Decoded, checksum_mismatch, ok, frame_of, header_of, encode_frame, decode_frames,
}
use go_collector.Spool.Directory.Segs.{Segs, Represents}
use go_collector.Spool.Directory.Steps.{Represents-create, Represents-put}
use go_collector.Spool.Directory.{Host, Files, host_fine, Spool, enforce_segment_budget}
use go_collector.Spool.Segments.Active.{quiet, Counted, enforce_segment_budget-Represents}
use go_collector.Spool.Segments.Log.{done, segment, concat, read-append}
use go_collector.Spool.Segments.Store.{store, Stored, append_stores}
use go_collector.Spool.Segments.{write_frame, appended, append, read}
use go_collector.Spool.Segments.Uncounted.{WritesAll, write_frame_uncounted}
use go_collector.Spool.Names.{segment_name, generation_of, generation_of-segment_name}

abbrev render : FrameHeader → Bytes
render h = length h.signal ∷ (h.signal ++ (length h.encoding ∷ (h.encoding ++ h.id)))

abbrev scan_rest : Bytes → Bytes → Option FrameHeader
scan_rest signal [] = none
scan_rest signal (n ∷ rest) =
    some (record { signal = signal; encoding = take n rest; id = drop n rest })

abbrev scan : Bytes → Option FrameHeader
scan [] = none
scan (n ∷ rest) = scan_rest (take n rest) (drop n rest)

scan-render : (h : FrameHeader) → scan (render h) ≡ some h
scan-render h =
    rw
      (
        take-append_of_eq (length h.signal) h.signal (length h.encoding ∷ (h.encoding ++ h.id))
            refl,
        drop-append_of_eq (length h.signal) h.signal (length h.encoding ∷ (h.encoding ++ h.id))
            refl,
        take-append_of_eq (length h.encoding) h.encoding h.id refl,
        drop-append_of_eq (length h.encoding) h.encoding h.id refl,
      )
      refl

abbrev codec : HeaderCodec
codec = record {
  marshal = λ h. some (render h);
  unmarshal = scan;
  valid = λ h. true;
  round_trip = λ h bytes v e. rw (sym (some-injective (render h) bytes e)) (scan-render h);
}

abbrev frame_a : Frame
frame_a = record {
  signal = codes "trace";
  encoding = codes "json";
  id = codes "a";
  payload = codes "{}";
}

abbrev frame_b : Frame
frame_b = record {
  signal = codes "log";
  encoding = codes "json";
  id = codes "b";
  payload = codes "[1]";
}

abbrev bytes_a : Bytes
bytes_a = frame_of (render (header_of frame_a)) frame_a.payload

abbrev bytes_b : Bytes
bytes_b = frame_of (render (header_of frame_b)) frame_b.payload

encode_a : encode_frame codec frame_a ≡ ok bytes_a
unfolding encode_frame
encode_a = refl

encode_b : encode_frame codec frame_b ≡ ok bytes_b
unfolding encode_frame
encode_b = refl

frame_a-Log : Log codec (frame_a ∷ []) (bytes_a ++ [])
frame_a-Log = cons frame_a bytes_a refl encode_a nil

decode_frames-Log_example :
    decode_frames codec ((bytes_a ++ []) ++ take 20 bytes_b)
    ≡ some (record { frames = frame_a ∷ []; error = none })
decode_frames-Log_example =
    decode_frames-Log codec (take 20 bytes_b) frame_a-Log
      (torn frame_b bytes_b 20 (take 20 bytes_b) encode_b (omega arith) refl)

decode_frames_total_example : (d : Decoded) × (decode_frames codec (codes "CHRN rubbish") ≡ some d)
decode_frames_total_example = decode_frames_total codec (codes "CHRN rubbish")

-- The last byte of the payload of `frame_b` became another.
abbrev rotten : Bytes
rotten = render (header_of frame_b) ++ codes "[1)"

rotten_shows : crc32 rotten ≢ crc32 (drop 14 bytes_b)
unfolding crc32
rotten_shows = ground arith

decode_frames_corrupt_example :
    decode_frames codec ((bytes_a ++ []) ++ (take 14 bytes_b ++ (rotten ++ bytes_a)))
    ≡ some (record {
      frames = frame_a ∷ [];
      error = some (checksum_mismatch (length (bytes_a ++ [])));
    })
decode_frames_corrupt_example =
    decode_frames_corrupt codec frame_b bytes_b rotten bytes_a frame_a-Log encode_b refl
      rotten_shows

generation_of-segment_name_example : generation_of (segment_name 1234567) ≡ some 1234567
generation_of-segment_name_example = generation_of-segment_name 1234567 (omega arith)

empty-Represents : Represents [] []
unfolding lookup
empty-Represents = record {
  canonical = tt;
  scanned = refl;
  contents = λ g h. refl;
  strict = tt;
  in_range = tt;
}

abbrev one_spool : Spool
one_spool = record {
  files = (segment_name 1, bytes_a ++ []) ∷ [];
  dropped_frames = 0;
  dropped_bytes = 0;
}

one_spool-Represents : Represents one_spool.files ((1, bytes_a ++ []) ∷ [])
unfolding put segment_name pad_six
one_spool-Represents =
    Represents-put ((segment_name 1, []) ∷ []) [] 1 [] (bytes_a ++ [])
      (Represents-create [] [] 1 empty-Represents tt (omega arith))

append_stores_example :
    (t : Spool) × (append codec host_fine (quiet ∷ []) (codes "/spool") frame_b one_spool
      ≡ some (appended, t))
    × Stored one_spool t (store bytes_b ((1, bytes_a ++ []) ∷ []))
append_stores_example =
    append_stores codec [] (codes "/spool") frame_b bytes_b one_spool ((1, bytes_a ++ []) ∷ [])
      encode_b refl one_spool-Represents (omega arith) (omega arith, tt)

read-append_example :
    (t : Spool) × (kept : List Frame) × (append codec host_fine
        (quiet ∷ [])
        (codes "/spool")
        frame_b
        one_spool
      ≡ some (appended, t))
    × (read codec host_fine t.files ≡ some (record { frames = kept; error = none }))
    × (concat ((frame_a ∷ []) ∷ []) ++ frame_b ∷ []
        ≡ concat (take (length (store bytes_b ((1, bytes_a ++ []) ∷ [])) - 4) ((frame_a ∷ []) ∷ []))
          ++ kept)
read-append_example =
    read-append codec [] (codes "/spool") frame_b bytes_b one_spool ((1, bytes_a ++ []) ∷ [])
      ((frame_a ∷ []) ∷ []) encode_b refl refl one_spool-Represents (segment 1 frame_a-Log done)
      (omega arith) (omega arith, tt)

abbrev counted_up : ℕ → Files
counted_up zero = []
counted_up (suc n) = (segment_name (suc n), []) ∷ counted_up n

abbrev five_segments : Segs
five_segments = (1, []) ∷ (2, []) ∷ (3, []) ∷ (4, []) ∷ (5, []) ∷ []

five-Represents : Represents (counted_up 5) five_segments
five-Represents =
    let one = Represents-create [] [] 1 empty-Represents tt (omega arith) in
    let two =
      Represents-create (counted_up 1) ((1, []) ∷ []) 2 one (omega arith, tt) (omega arith) in
    let three =
      Represents-create (counted_up 2) ((1, []) ∷ (2, []) ∷ []) 3 two
        (omega arith, (omega arith, tt)) (omega arith) in
    let four =
      Represents-create (counted_up 3) ((1, []) ∷ (2, []) ∷ (3, []) ∷ []) 4 three
        (omega arith, (omega arith, (omega arith, tt))) (omega arith) in
    Represents-create (counted_up 4) ((1, []) ∷ (2, []) ∷ (3, []) ∷ (4, []) ∷ []) 5 four
      (omega arith, (omega arith, (omega arith, (omega arith, tt)))) (omega arith)

abbrev five_spool : Spool
five_spool = record { files = counted_up 5; dropped_frames = 0; dropped_bytes = 0 }

enforce_segment_budget-Represents_example :
    Represents (enforce_segment_budget host_fine five_spool).files (drop 1 five_segments)
    × Counted five_spool (enforce_segment_budget host_fine five_spool) (take 1 five_segments)
enforce_segment_budget-Represents_example =
    enforce_segment_budget-Represents five_spool five_segments five-Represents

-- A full disk: half of every write, and an error.
abbrev full_disk : Host
full_disk = record host_fine { write = λ n. (n / 2, true) }

full_disk-WritesAll : WritesAll full_disk
full_disk-WritesAll = λ n e. absurd (cc e)

write_frame_uncounted_example :
    ((write_frame full_disk bytes_b 1 one_spool).1.dropped_frames ≡ one_spool.dropped_frames)
    × ((write_frame full_disk bytes_b 1 one_spool).1.dropped_bytes ≡ one_spool.dropped_bytes)
write_frame_uncounted_example =
    write_frame_uncounted full_disk bytes_b 1 one_spool full_disk-WritesAll
