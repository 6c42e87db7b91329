-- ===== src/Spool/Frame/Damage.antt =====
-- DecodeFrames on any bytes: it always returns, and damage costs nothing in front of it.
use go_collector.Base.{
  ℕ, zero, suc, ◌+◌, ◌≤◌, ◌<◌, false, List, [], ◌∷◌, ◌++◌, ◌≡◌, ◌≢◌, refl, sym, ap, ◌∙◌, none, some,
  arith, length, take, drop, length-append, length-drop, take-append_of_eq, ◌==◌, le→ltb,
}
use go_collector.Base.Bytes.{Bytes}
use go_collector.Spool.Crc.{crc32, crc32-lt}
use go_collector.Spool.Frame.Codec.{HeaderCodec}
use go_collector.Spool.Frame.RoundTrip.{
  decode_round-framed, encode_frame-eq_ok, Log, decode_frames-ends,
}
use go_collector.Spool.Frame.{
  Frame, ok, Decoded, DecodeError, checksum_mismatch, Round, stop, fails, took, encode_frame,
  decode_round, decode_from, decode_frames,
}

module _ (codec : HeaderCodec) where
  decode_round-took :
      (rest : Bytes) (f : Frame) (n : ℕ)
      → decode_round codec rest ≡ took f n
      → (14 ≤ n) × (14 ≤ length rest)
  unfolding decode_round
  decode_round-took rest f n e = ground arith

  decode_from_round :
      (fuel offset : ℕ) (rest : Bytes) (r : Round)
      → decode_round codec rest ≡ r
      → ((o : ℕ) (n : ℕ)
          → 14 ≤ n
          → 14 ≤ length rest
          → (d : Decoded) × (decode_from codec fuel o (drop n rest) ≡ some d))
      → (d : Decoded) × (decode_from codec (suc fuel) offset rest ≡ some d)
  unfolding decode_from
  decode_from_round fuel offset rest stop e again =
      (record { frames = []; error = none }, rw (e, decode_from))
  decode_from_round fuel offset rest (fails w) e again =
      (record { frames = []; error = some (w offset) }, rw (e, decode_from))
  decode_from_round fuel offset rest (took f n) e again =
      let (big, long) = decode_round-took rest f n e in
      let (d, later) = again (offset + n) n big long in
      (record d { frames = f ∷ d.frames }, rw (e, decode_from, later))

  decode_from_total :
      (fuel offset : ℕ) (rest : Bytes)
      → length rest < fuel
      → (d : Decoded) × (decode_from codec fuel offset rest ≡ some d)
  decode_from_total zero offset rest h = absurd (omega arith)
  decode_from_total (suc fuel) offset rest h =
      decode_from_round fuel offset rest (decode_round codec rest) refl (λ o n big long.
        decode_from_total fuel o (drop n rest) (omega (arith, length-drop {0} n rest)))

  -- DecodeFrames ends on every input, damaged or not, whatever encoding/json does with a header.
  pub decode_frames_total : (bytes : Bytes) → (d : Decoded) × (decode_frames codec bytes ≡ some d)
  unfolding decode_frames
  decode_frames_total bytes = decode_from_total (suc (length bytes)) 0 bytes (omega arith)

  decode_frames-fails :
      {fs : List Frame} {bytes : Bytes} (rest : Bytes) (why : ℕ → DecodeError)
      → Log codec fs bytes
      → decode_round codec rest ≡ fails why
      → decode_frames codec (bytes ++ rest)
        ≡ some (record { frames = fs; error = some (why (length bytes)) })
  unfolding decode_from
  decode_frames-fails rest why log e =
      decode_frames-ends codec rest (λ o. some (why o)) log (λ f o. rw (e, decode_from))

  -- A body that changed under a frame's prefix is refused, if its checksum shows the change.
  decode_round_corrupt :
      (f : Frame) (bytes body rest : Bytes)
      → encode_frame codec f ≡ ok bytes
      → 14 + length body ≡ length bytes
      → crc32 body ≢ crc32 (drop 14 bytes)
      → decode_round codec (take 14 bytes ++ (body ++ rest)) ≡ fails checksum_mismatch
  decode_round_corrupt f bytes body rest e size differs =
      let (header, marshalled, is_frame, h, p) = encode_frame-eq_ok codec f bytes e in
      let whole = header ++ f.payload in
      let sum = length-append {0} header f.payload in
      let long : length header + length f.payload ≡ length body =
        omega (arith, ap length is_frame, size, sum) in
      let changed : crc32 body ≢ crc32 whole =
        λ same. differs (same ∙ ap crc32 (sym (ap (drop 14) is_frame))) in
      let unequal : (crc32 body == crc32 whole) ≡ false = ground arith in
      rw is_frame (
        decode_round-framed codec (length header) (length f.payload) (crc32 whole) (body ++ rest) h
          p (crc32-lt whole)
        ∙ rw (
          le→ltb (length (body ++ rest)) (length header + length f.payload)
              (omega (arith, length-append {0} body rest)),
          take-append_of_eq (length header + length f.payload) body rest long,
          unequal,
        ))

  -- Bit rot in a frame's header or payload that changes the checksum stops the reader at that
  -- frame's offset with the frames in front of it, whatever stands behind.
  pub decode_frames_corrupt :
      {fs : List Frame} {log : Bytes} (f : Frame) (bytes body rest : Bytes)
      → Log codec fs log
      → encode_frame codec f ≡ ok bytes
      → 14 + length body ≡ length bytes
      → crc32 body ≢ crc32 (drop 14 bytes)
      → decode_frames codec (log ++ (take 14 bytes ++ (body ++ rest)))
        ≡ some (record { frames = fs; error = some (checksum_mismatch (length log)) })
  decode_frames_corrupt f bytes body rest log e size differs =
      decode_frames-fails (take 14 bytes ++ (body ++ rest)) checksum_mismatch log
        (decode_round_corrupt f bytes body rest e size differs)
