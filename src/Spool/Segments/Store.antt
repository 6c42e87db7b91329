-- ===== src/Spool/Segments/Store.antt =====
-- Append refines `store`: one frame more at the end of the newest segment, or a new segment for it.
use go_collector.Base.{
  ℕ, ◌+◌, ◌-◌, ◌≤◌, ◌<◌, true, false, List, [], ◌∷◌, ◌++◌, ◌≡◌, refl, sym, ap, ◌∙◌, Option, some,
  arith, length, length-append, take, drop, take_all, leb, ==_refl, if◌then◌else◌, Bool-cases, inl,
  inr, ◌⊎◌,
}
use mathlib.Core.Path.{subst}
use go_collector.Base.Assoc.{put}
use go_collector.Base.Bytes.{Bytes, is_empty}
use go_collector.Base.Decimal.{u64_mod}
use go_collector.Spool.Directory.{
  Files, host_fine, Spool, Gap, opened, open_active, enforce_segment_budget, segment_max_bytes,
}
use go_collector.Spool.Directory.Segs.{Segs, Below, Represents, Below-init, Strict-Below}
use go_collector.Spool.Directory.Steps.{Represents-put, Represents-create}
use go_collector.Spool.Frame.Codec.{HeaderCodec}
use go_collector.Spool.Frame.{Frame, encode_frame, ok}
use go_collector.Spool.Names.{segment_name}
use go_collector.Spool.Segments.Active.{
  quiet, lookup_newest, open_active_newest, open_active_empty, drop-append_le, take-append_le,
  Counted, Below-next, enforce_segment_budget-Represents, rotate_newest,
}
use go_collector.Spool.Segments.{Outcome, appended, content_of, write_frame, append_opened, append}

-- What a spool directory promises its writer, on segments from the oldest to the newest.
abbrev pub store : Bytes → Segs → Segs
store frame [] = (1, frame) ∷ []
store frame ((g, c) ∷ []) =
    if leb segment_max_bytes (length c) then (g, c) ∷ (g + 1, frame) ∷ [] else (g, c ++ frame) ∷ []
store frame (s ∷ t ∷ ss) = s ∷ store frame (t ∷ ss)

pub store-full :
    (frame : Bytes) (ss : Segs) (g : ℕ) (c : Bytes)
    → leb segment_max_bytes (length c) ≡ true
    → store frame (ss ++ (g, c) ∷ []) ≡ (ss ++ (g, c) ∷ []) ++ (g + 1, frame) ∷ []
store-full frame [] g c full = rw full
store-full frame (s ∷ []) g c full = rw full
store-full frame (s ∷ t ∷ ss) g c full = ap (◌∷◌ s) (store-full frame (t ∷ ss) g c full)

pub store-room :
    (frame : Bytes) (ss : Segs) (g : ℕ) (c : Bytes)
    → leb segment_max_bytes (length c) ≡ false
    → store frame (ss ++ (g, c) ∷ []) ≡ ss ++ (g, c ++ frame) ∷ []
store-room frame [] g c room = rw room
store-room frame (s ∷ []) g c room = rw room
store-room frame (s ∷ t ∷ ss) g c room = ap (◌∷◌ s) (store-room frame (t ∷ ss) g c room)

-- Every list of segments is empty or ends with a newest one.
pub newest_cases :
    (segs : Segs) → (segs ≡ []) ⊎ ((ss : Segs) × (g : ℕ) × (c : Bytes) × (segs ≡ ss ++ (g, c) ∷ []))
newest_cases [] = inl refl
newest_cases ((g, c) ∷ ss) = elim (newest_cases ss) [
  | inl e ↦ inr ([], g, c, ap (◌∷◌ (g, c)) e)
  | inr (xs, h, d, e) ↦ inr ((g, c) ∷ xs, h, d, ap (◌∷◌ (g, c)) e)
]

content_of-newest :
    (files : Files) (ss : Segs) (g : ℕ) (c : Bytes)
    → Represents files (ss ++ (g, c) ∷ [])
    → content_of g files ≡ c
unfolding content_of
content_of-newest files ss g c r = rw (lookup_newest files ss g c r, content_of)

write_frame-whole :
    (frame : Bytes) (s : Spool) (g : ℕ) (c : Bytes)
    → content_of g s.files ≡ c
    → write_frame host_fine frame g s
      ≡ (appended, record s { files = put (segment_name g) (c ++ frame) s.files })
unfolding write_frame
write_frame-whole frame s g c e =
    let whole : take (length frame) frame ≡ frame = take_all (length frame) frame (omega arith) in
    let same = ==_refl (length frame) in ground arith

-- The directory after one append, and what was counted as dropped.
pub record Stored (s t : Spool) (segs : Segs) : Type 0 where
  pub represents : Represents t.files (drop (length segs - 4) segs)
  pub counted : Counted s t (take (length segs - 4) segs)

abbrev Appends : Option (Outcome × Spool) → Spool → Segs → Type 0
Appends o s segs = (t : Spool) × (o ≡ some (appended, t)) × Stored s t segs

Stored-few :
    (s t : Spool) (segs : Segs)
    → length segs ≤ 4
    → Represents t.files segs
    → Counted s t []
    → Stored s t segs
Stored-few s t segs few r c =
    let none_over : length segs - 4 ≡ 0 = omega arith in
    record { represents = rw none_over r; counted = rw none_over c }

-- With room in the newest segment the frame goes there.
append_opened-room :
    (gaps : List Gap) (frame : Bytes) (s : Spool) (files : Files) (ss : Segs) (g : ℕ) (c : Bytes)
    → Represents files (ss ++ (g, c) ∷ [])
    → leb segment_max_bytes (length c) ≡ false
    → length (ss ++ (g, c) ∷ []) ≤ 4
    → Appends
        (append_opened host_fine gaps frame s (some (opened g files)))
        s
        (store frame (ss ++ (g, c) ∷ []))
unfolding append_opened
append_opened-room gaps frame s files ss g c r room few =
    let s1 = record s { files = files } in
    let content = content_of-newest files ss g c r in
    let t = record s { files = put (segment_name g) (c ++ frame) files } in
    (
      t,
      ground (arith, write_frame-whole frame s1 g c content),
      rw (store-room frame ss g c room) (
          Stored-few s t (ss ++ (g, c ++ frame) ∷ [])
            (omega (
              arith,
              length-append {0} ss ((g, c) ∷ []),
              length-append {0} ss ((g, c ++ frame) ∷ []),
            ))
            (Represents-put files ss g c (c ++ frame) r)
            (record { frames = omega arith; bytes = omega arith })),
    )

-- The directory and the counts behind a rotation, seen with the frame already in the new segment.
Stored-next :
    (s t s2 : Spool) (old : Segs) (next : ℕ) (frame : Bytes)
    → Represents t.files (drop (length (old ++ (next, []) ∷ []) - 4) old ++ (next, frame) ∷ [])
    → t.dropped_frames ≡ s2.dropped_frames
    → t.dropped_bytes ≡ s2.dropped_bytes
    → Counted s s2 (take (length (old ++ (next, []) ∷ []) - 4) (old ++ (next, []) ∷ []))
    → length (old ++ (next, []) ∷ []) - 4 ≤ length old
    → length old ≤ 4
    → Stored s t (old ++ (next, frame) ∷ [])
Stored-next s t s2 old next frame r ef eb counted fits few =
    let same : length (old ++ (next, frame) ∷ []) ≡ length (old ++ (next, []) ∷ []) = omega (
      arith,
      length-append {0} old ((next, frame) ∷ []),
      length-append {0} old ((next, []) ∷ []),
    ) in
    let k = length (old ++ (next, []) ∷ []) - 4 in
    let counted' = rw (take-append_le k old ((next, []) ∷ []) fits) at counted in
    record {
      represents = rw (same, drop-append_le k old ((next, frame) ∷ []) fits) r;
      counted =
          rw (same, take-append_le k old ((next, frame) ∷ []) fits)
            (record {
              frames = omega (arith, ef, counted'.frames);
              bytes = omega (arith, eb, counted'.bytes);
            });
    }

-- With the newest segment at its size the frame opens the next one, and the budget is enforced.
append_opened-full :
    (gaps : List Gap) (frame : Bytes) (s : Spool) (files : Files) (ss : Segs) (g : ℕ) (c : Bytes)
    → Represents files (ss ++ (g, c) ∷ [])
    → leb segment_max_bytes (length c) ≡ true
    → length (ss ++ (g, c) ∷ []) ≤ 4
    → g + 1 < u64_mod
    → Appends
        (append_opened host_fine gaps frame s (some (opened g files)))
        s
        (store frame (ss ++ (g, c) ∷ []))
unfolding append_opened
append_opened-full gaps frame s files ss g c r full few h =
    let old = ss ++ (g, c) ∷ [] in
    let next = g + 1 in
    let (above, below) = Strict-Below 0 g c ss r.strict in
    let s1 = record s { files = (segment_name next, []) ∷ files } in
    let grown = Represents-create files old next r (Below-next g c ss below) h in
    let (kept, counted) = enforce_segment_budget-Represents s1 (old ++ (next, []) ∷ []) grown in
    let s2 = enforce_segment_budget host_fine s1 in
    let k = length (old ++ (next, []) ∷ []) - 4 in
    let fits : k ≤ length old = omega (arith, length-append {0} old ((next, []) ∷ [])) in
    let kept' : Represents s2.files (drop k old ++ (next, []) ∷ []) =
      rw (drop-append_le k old ((next, []) ∷ []) fits) at kept in
    let content = content_of-newest s2.files (drop k old) next [] kept' in
    let t = record s2 { files = put (segment_name next) frame s2.files } in
    (
      t,
      ground (
        arith,
        content_of-newest files ss g c r,
        rotate_newest gaps (record s { files = files }) ss g c r h,
        write_frame-whole frame s2 next [] content,
      ),
      rw (store-full frame ss g c full) (
          Stored-next s t s2 old next frame
            (Represents-put s2.files (drop k old) next [] frame kept') refl refl
            (record { frames = counted.frames; bytes = counted.bytes }) fits few),
    )

module _ (codec : HeaderCodec) where
  append-opened :
      (gaps : List Gap) (dir : Bytes) (f : Frame) (frame : Bytes) (s : Spool)
      → encode_frame codec f ≡ ok frame
      → is_empty dir ≡ false
      → append codec host_fine gaps dir f s
        ≡ append_opened host_fine gaps frame s (open_active host_fine gaps s.files)
  unfolding append
  append-opened gaps dir f frame s e named = ground arith

  append-Appends :
      (gaps : List Gap) (frame : Bytes) (s : Spool) (files : Files) (ss : Segs) (g : ℕ) (c : Bytes)
      → Represents files (ss ++ (g, c) ∷ [])
      → length (ss ++ (g, c) ∷ []) ≤ 4
      → g + 1 < u64_mod
      → Appends
          (append_opened host_fine gaps frame s (some (opened g files)))
          s
          (store frame (ss ++ (g, c) ∷ []))
  append-Appends gaps frame s files ss g c r few h =
      elim (Bool-cases (leb segment_max_bytes (length c))) [
        | inl full ↦ append_opened-full gaps frame s files ss g c r full few h
        | inr room ↦ append_opened-room gaps frame s files ss g c r room few
      ]

  abbrev Promise : List Gap → Bytes → Frame → Bytes → Spool → Segs → Type 0
  Promise gaps dir f frame s segs =
      Represents s.files segs
      → length segs ≤ 4
      → Below (u64_mod - 1) segs
      → Appends (append codec host_fine (quiet ∷ gaps) dir f s) s (store frame segs)

  append_first :
      (gaps : List Gap) (dir : Bytes) (f : Frame) (frame : Bytes) (s : Spool)
      → encode_frame codec f ≡ ok frame
      → is_empty dir ≡ false
      → Promise gaps dir f frame s []
  append_first gaps dir f frame s e named r few low =
      let files = (segment_name 1, []) ∷ s.files in
      let first = Represents-create s.files [] 1 r tt (omega arith) in
      let (t, done, st) =
        append_opened-room (quiet ∷ gaps) frame s files [] 1 [] first refl (omega arith) in
      (
        t,
        append-opened (quiet ∷ gaps) dir f frame s e named
            ∙ ap (append_opened host_fine (quiet ∷ gaps) frame s) (open_active_empty gaps s.files r)
            ∙ done,
        st,
      )

  append_next :
      (gaps : List Gap) (dir : Bytes) (f : Frame) (frame : Bytes) (s : Spool) (ss : Segs) (g : ℕ)
      (c : Bytes)
      → encode_frame codec f ≡ ok frame
      → is_empty dir ≡ false
      → Promise gaps dir f frame s (ss ++ (g, c) ∷ [])
  append_next gaps dir f frame s ss g c e named r few low =
      let (t, done, st) =
        append-Appends (quiet ∷ gaps) frame s s.files ss g c r few
          (omega (arith, (Below-init (u64_mod - 1) g c ss low).0)) in
      (
        t,
        append-opened (quiet ∷ gaps) dir f frame s e named
            ∙ ap (append_opened host_fine (quiet ∷ gaps) frame s)
                (open_active_newest gaps s.files ss g c r)
            ∙ done,
        st,
      )

  -- On a host whose system calls succeed, and with nobody else in the directory, Append of a frame
  -- that encodes succeeds on a directory of at most four segments, each with the name that
  -- segmentName gives it and below the last two generations: the directory then holds the segments
  -- of `store`, less the oldest where these would be five, and exactly the segment that went is
  -- counted, as one dropped frame and its bytes, modulo 2^64.
  pub append_stores :
      (gaps : List Gap) (dir : Bytes) (f : Frame) (frame : Bytes) (s : Spool) (segs : Segs)
      → encode_frame codec f ≡ ok frame
      → is_empty dir ≡ false
      → Represents s.files segs
      → length segs ≤ 4
      → Below (u64_mod - 1) segs
      → (t : Spool) × (append codec host_fine (quiet ∷ gaps) dir f s ≡ some (appended, t))
        × Stored s t (store frame segs)
  append_stores gaps dir f frame s segs e named = elim (newest_cases segs) [
    | inl none_yet ↦
        subst (Promise gaps dir f frame s) (sym none_yet) (append_first gaps dir f frame s e named)
    | inr (ss, g, c, is_segs) ↦
        subst (Promise gaps dir f frame s) (sym is_segs)
          (append_next gaps dir f frame s ss g c e named)
  ]
