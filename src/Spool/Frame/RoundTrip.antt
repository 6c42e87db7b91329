-- ===== src/Spool/Frame/RoundTrip.antt =====
-- What was encoded is decoded, frame by frame, also where the last frame is cut short.
use go_collector.Base.{
  ℕ, zero, suc, ◌+◌, ◌*◌, ◌/◌, ◌%◌, ◌-◌, ◌^◌, ◌≤◌, ◌<◌, true, not, List, [], ◌∷◌, ◌++◌, ◌≡◌, refl,
  ap, ◌∙◌, Option, none, some, arith, length, take, ltb, ◌==◌, ==_refl, if◌then◌else◌,
  length-append, length-take, ltb→lt, take-append_of_eq, drop-append_of_eq, append_assoc,
  Bool-cases, Option-cases, inl, inr, lt→ltb, le→ltb,
}
use go_collector.Base.Bytes.{Bytes}
use go_collector.Spool.Crc.{crc32, crc32-lt}
use go_collector.Spool.Frame.Codec.{HeaderCodec}
use go_collector.Spool.Frame.{
  Frame, ok, DecodeError, checksum_mismatch, stop, fails, took, append_uint16, append_uint32,
  frame_magic, frame_of, header_of, encode_frame, decode_body, decode_round, decode_from,
  decode_frames, keep_frame,
}

abbrev pub framed : ℕ → ℕ → ℕ → Bytes → Bytes
framed n m c xs = frame_magic ++ append_uint16 n (append_uint32 m (append_uint32 c xs))

little_endian-uint16 : (n : ℕ) → n < 2 ^ 16 → n % 256 + 256 * (n / 256 % 256 + 256 * 0) ≡ n
little_endian-uint16 n h = omega arith

little_endian-uint32 :
    (n : ℕ)
    → n < 2 ^ 32
    → n % 256
        + 256 * (n / 256 % 256 + 256 * (n / 65536 % 256 + 256 * (n / 16777216 % 256 + 256 * 0)))
      ≡ n
little_endian-uint32 n h = omega arith

pub frame_of-eq :
    (header payload : Bytes)
    → length header < 2 ^ 16
    → length payload < 2 ^ 32
    → frame_of header payload
      ≡ framed (length header) (length payload) (crc32 (header ++ payload)) (header ++ payload)
frame_of-eq header payload h p =
    let eh : length header % 2 ^ 16 ≡ length header = omega arith in
    let ep : length payload % 2 ^ 32 ≡ length payload = omega arith in rw (eh, ep)

module _ (codec : HeaderCodec) where
  -- A round on a well-formed prefix looks only at the lengths, the checksum and the body.
  pub decode_round-framed :
      (n m c : ℕ) (xs : Bytes)
      → n < 2 ^ 16
      → m < 2 ^ 32
      → c < 2 ^ 32
      → decode_round codec (framed n m c xs) ≡ (
          if ltb (length xs) (n + m)
          then stop
          else if not (crc32 (take (n + m) xs) == c)
          then fails checksum_mismatch
          else decode_body codec n (take (n + m) xs))
  unfolding decode_round
  decode_round-framed n m c xs hn hm hc =
      rw (little_endian-uint16 n hn, little_endian-uint32 m hm, little_endian-uint32 c hc)
        (ground arith)

  -- What a successful encoding is made of.
  pub encode_frame-eq_ok :
      (f : Frame) (bytes : Bytes)
      → encode_frame codec f ≡ ok bytes
      → (header : Bytes) × (codec.marshal (header_of f) ≡ some header)
        × (bytes
            ≡ framed
                (length header)
                (length f.payload)
                (crc32 (header ++ f.payload))
                (header ++ f.payload))
        × (length header < 2 ^ 16)
        × (length f.payload < 2 ^ 32)
  unfolding encode_frame
  encode_frame-eq_ok f bytes e = elim (Option-cases (codec.marshal (header_of f))) [
    | inl lost ↦ absurd (ground arith)
    | inr (header, marshalled) ↦
        let h : length header < 2 ^ 16 = ground arith in
        let p : length f.payload < 2 ^ 32 = ground arith in
        let is_frame : bytes ≡ frame_of header f.payload = ground arith in
        (header, marshalled, is_frame ∙ frame_of-eq header f.payload h p, h, p)
  ]

  decode_body-took :
      (f : Frame) (header : Bytes)
      → codec.unmarshal header ≡ some (header_of f)
      → decode_body codec (length header) (header ++ f.payload)
        ≡ took f (14 + length (header ++ f.payload))
  unfolding decode_body
  decode_body-took f header e = ground (
    arith,
    take-append_of_eq {0} (length header) header f.payload refl,
    drop-append_of_eq {0} (length header) header f.payload refl,
  )

  -- A round on an encoded frame takes that frame and all of its bytes, whatever follows.
  pub decode_round-encode_frame :
      (f : Frame) (bytes rest : Bytes)
      → codec.valid (header_of f) ≡ true
      → encode_frame codec f ≡ ok bytes
      → decode_round codec (bytes ++ rest) ≡ took f (length bytes)
  decode_round-encode_frame f bytes rest v e =
      let (header, marshalled, is_frame, h, p) = encode_frame-eq_ok f bytes e in
      let body = header ++ f.payload in
      let long : length header + length f.payload ≡ length body =
        omega (arith, length-append {0} header f.payload) in
      rw is_frame (
        rw
          (
            decode_round-framed (length header) (length f.payload) (crc32 body) (body ++ rest) h p
                (crc32-lt body),
            take-append_of_eq (length header + length f.payload) body rest long,
            le→ltb (length (body ++ rest)) (length header + length f.payload)
                (omega (arith, length-append {0} body rest)),
            ==_refl (crc32 body),
          )
          (decode_body-took f header (codec.round_trip (header_of f) header v marshalled)
            ∙ ap (took f) (omega arith)))

-- The bytes of a segment: encoded frames one behind the other, each with a header of valid UTF-8.
pub data Log (codec : HeaderCodec) : List Frame → Bytes → Type 0 where
  nil : Log codec [] []
  cons :
      (f : Frame) (bytes : Bytes) {fs : List Frame} {rest : Bytes}
      → codec.valid (header_of f) ≡ true
      → encode_frame codec f ≡ ok bytes
      → Log codec fs rest
      → Log codec (f ∷ fs) (bytes ++ rest)

-- What an interrupted append leaves behind: a proper prefix of a frame, which may be empty.
pub data Torn (codec : HeaderCodec) : Bytes → Type 0 where
  torn :
      (f : Frame) (bytes : Bytes) (k : ℕ) (left : Bytes)
      → encode_frame codec f ≡ ok bytes
      → k < length bytes
      → left ≡ take k bytes
      → Torn codec left

module _ (codec : HeaderCodec) where
  -- A prefix of fewer than fourteen bytes ends the loop.
  decode_round_short : (xs : Bytes) → length xs < 14 → decode_round codec xs ≡ stop
  unfolding decode_round
  decode_round_short xs h = rw (lt→ltb (length xs) 14 h)

  take-framed :
      (j n m c : ℕ) (xs : Bytes) → take (14 + j) (framed n m c xs) ≡ framed n m c (take j xs)
  take-framed j n m c xs =
      let e : 14 + j
          ≡ suc (suc (suc (suc (suc (suc (suc (suc (suc (suc (suc (suc (suc (suc j))))))))))))) =
        omega arith in
      rw e refl

  -- The loop ends at a frame that was cut short, wherever the cut is.
  decode_round-Torn : (left : Bytes) → Torn codec left → decode_round codec left ≡ stop
  decode_round-Torn left (torn f bytes k left' e less is_left) =
      let (header, marshalled, is_frame, h, p) = encode_frame-eq_ok codec f bytes e in
      let body = header ++ f.payload in
      let size : length bytes ≡ 14 + length body = rw is_frame (omega arith) in
      let sum = length-append {0} header f.payload in
      rw is_left (elim (Bool-cases (ltb k 14)) [
        | inl short ↦
            decode_round_short (take k bytes)
              (omega (arith, length-take {0} k bytes, ltb→lt k 14 short))
        | inr long ↦
            let past : 14 ≤ k = ground arith in
            let cut : k ≡ 14 + (k - 14) = omega arith in
            rw (cut, is_frame, take-framed)
              (decode_round-framed codec (length header) (length f.payload) (crc32 body)
                  (take (k - 14) body) h p (crc32-lt body)
                ∙ rw (
                    lt→ltb (length (take (k - 14) body)) (length header + length f.payload)
                      (omega (arith, length-take {0} (k - 14) body))))
      ])

  frame_pos : (f : Frame) (bytes : Bytes) → encode_frame codec f ≡ ok bytes → 14 ≤ length bytes
  frame_pos f bytes e =
      let (header, marshalled, is_frame, h, p) = encode_frame-eq_ok codec f bytes e in
      rw is_frame (omega arith)

  decode_from-cons :
      (fuel offset : ℕ) (f : Frame) (bytes rest : Bytes)
      → codec.valid (header_of f) ≡ true
      → encode_frame codec f ≡ ok bytes
      → decode_from codec (suc fuel) offset (bytes ++ rest)
        ≡ keep_frame codec f (decode_from codec fuel (offset + length bytes) rest)
  unfolding decode_from
  decode_from-cons fuel offset f bytes rest v e = rw (
    decode_round-encode_frame codec f bytes rest v e,
    decode_from,
    drop-append_of_eq (length bytes) bytes rest refl,
  )

  -- Behind whole frames the loop meets `tail`, which ends it with `final` of its offset.
  pub decode_from-Log :
      (fuel offset : ℕ) {fs : List Frame} {bytes : Bytes} (tail : Bytes)
      (final : ℕ → Option DecodeError)
      → Log codec fs bytes
      → ((f o : ℕ)
          → decode_from codec (suc f) o tail ≡ some (record { frames = []; error = final o }))
      → length bytes < fuel
      → decode_from codec fuel offset (bytes ++ tail)
        ≡ some (record { frames = fs; error = final (offset + length bytes) })
  decode_from-Log zero offset tail final log ends h = absurd (omega arith)
  decode_from-Log (suc fuel) offset tail final nil ends h =
      ends fuel offset ∙ ap (λ o. some (record { frames = []; error = final o })) (omega arith)
  decode_from-Log (suc fuel) offset tail final (cons f bytes {fs} {rest} v e log) ends h =
      ap (decode_from codec (suc fuel) offset) (append_assoc bytes rest tail)
      ∙ decode_from-cons fuel offset f bytes (rest ++ tail) v e
      ∙ ap (keep_frame codec f) (
          decode_from-Log fuel (offset + length bytes) tail final log ends
            (omega (arith, length-append {0} bytes rest, frame_pos f bytes e)))
      ∙ ap (λ o. some (record { frames = f ∷ fs; error = final o }))
          (omega (arith, length-append {0} bytes rest))

  pub decode_frames-ends :
      {fs : List Frame} {bytes : Bytes} (tail : Bytes) (final : ℕ → Option DecodeError)
      → Log codec fs bytes
      → ((f o : ℕ)
          → decode_from codec (suc f) o tail ≡ some (record { frames = []; error = final o }))
      → decode_frames codec (bytes ++ tail)
        ≡ some (record { frames = fs; error = final (length bytes) })
  unfolding decode_frames
  decode_frames-ends {fs} {bytes} tail final log ends =
      decode_from-Log (suc (length (bytes ++ tail))) 0 tail final log ends
        (omega (arith, length-append {0} bytes tail))
      ∙ ap (λ o. some (record { frames = fs; error = final o })) (omega arith)

  -- A segment of encoded frames whose headers are valid UTF-8, cut anywhere inside a last frame or
  -- not at all, decodes without an error to exactly the complete frames, in order.
  pub decode_frames-Log :
      {fs : List Frame} {bytes : Bytes} (left : Bytes)
      → Log codec fs bytes
      → Torn codec left
      → decode_frames codec (bytes ++ left) ≡ some (record { frames = fs; error = none })
  unfolding decode_from
  decode_frames-Log left log t =
      decode_frames-ends left (λ o. none) log (λ f o. rw (decode_round-Torn left t, decode_from))
