-- ===== src/Spool/Names.antt =====
-- segmentName and generationOf of spool/segment.go.
use go_collector.Base.{ℕ, ◌<◌, not, ◌||◌, ◌++◌, ◌≡◌, Option, none, some, if◌then◌else◌}
use go_collector.Base.Bytes.{
  Bytes, codes, has_prefix, has_suffix, trim_prefix, trim_suffix, has_suffix-append,
  trim_suffix-append,
}
use go_collector.Base.Decimal.{u64_mod, pad_six, parse_uint, parse_uint-pad_six}

abbrev pub segment_prefix : Bytes
segment_prefix = codes "segment-"

abbrev pub segment_extension : Bytes
segment_extension = codes ".spool"

unfoldable pub segment_name : ℕ → Bytes
segment_name generation = segment_prefix ++ (pad_six generation ++ segment_extension)

unfoldable pub generation_of : Bytes → Option ℕ
generation_of name =
    if not (has_prefix name segment_prefix) || not (has_suffix name segment_extension)
    then none
    else parse_uint (trim_suffix (trim_prefix name segment_prefix) segment_extension)

-- The generation in the name of a segment is read back, for every generation that a uint64 holds.
pub generation_of-segment_name : (g : ℕ) → g < u64_mod → generation_of (segment_name g) ≡ some g
unfolding generation_of segment_name
generation_of-segment_name g h =
    rw (has_suffix-append (segment_prefix ++ pad_six g) segment_extension)
      (rw (trim_suffix-append (pad_six g) segment_extension) (parse_uint-pad_six g h))
