-- ===== src/Spool/Segments/Log.antt =====
-- Read behind Append: the directory as a log of frames.
use mathlib.Core.Path.{subst}
use go_collector.Base.{
  ℕ, zero, suc, ◌+◌, ◌-◌, ◌≤◌, ◌<◌, true, false, List, [], ◌∷◌, ◌++◌, ◌≡◌, refl, sym, ap, ◌∙◌, none,
  some, arith, length, take, drop, leb, ◌==◌, ==_refl, Bool-cases, inl, inr, append-nil,
  append_assoc,
}
use go_collector.Base.Assoc.{lookup}
use go_collector.Base.Bytes.{Bytes, is_empty}
use go_collector.Base.Decimal.{u64_mod}
use go_collector.Spool.Directory.Segs.{Segs, gens, find, Strict, Below, Represents}
use go_collector.Spool.Directory.{Files, host_fine, Spool, Gap, segment_max_bytes}
use go_collector.Spool.Frame.Codec.{HeaderCodec}
use go_collector.Spool.Frame.RoundTrip.{Log, nil, cons, decode_frames-ends}
use go_collector.Spool.Frame.{
  Frame, encode_frame, ok, header_of, decode_round, decode_from, decode_frames,
}
use go_collector.Spool.Names.{segment_name}
use go_collector.Spool.Segments.Active.{quiet, generations-Represents}
use go_collector.Spool.Segments.Store.{store, append_stores}
use go_collector.Spool.Segments.{appended, append, read_from, read}

abbrev pub concat : List (List Frame) → List Frame
concat [] = []
concat (fs ∷ fss) = fs ++ concat fss

-- The frames that each segment holds, whole.
pub data Logs (codec : HeaderCodec) : Segs → List (List Frame) → Type 0 where
  done : Logs codec [] []
  segment :
      (g : ℕ) {bytes : Bytes} {fs : List Frame} {ss : Segs} {fss : List (List Frame)}
      → Log codec fs bytes
      → Logs codec ss fss
      → Logs codec ((g, bytes) ∷ ss) (fs ∷ fss)

abbrev Has : Files → Segs → Type 0
Has files [] = Unit
Has files ((g, c) ∷ ss) = (lookup (segment_name g) files ≡ some c) × Has files ss

find-cons_ne : (g j : ℕ) (c : Bytes) (ss : Segs) → g + 1 ≤ j → find j ((g, c) ∷ ss) ≡ find j ss
find-cons_ne g j c ss h = let ne : (g == j) ≡ false = ground arith in rw ne

Has-find :
    (files : Files) (ss : Segs) (lo : ℕ)
    → Strict lo ss
    → Below u64_mod ss
    → ((j : ℕ) → lo ≤ j → j < u64_mod → lookup (segment_name j) files ≡ find j ss)
    → Has files ss
Has-find files [] lo s b h = tt
Has-find files ((g, c) ∷ ss) lo s b h = (
  h g s.0 b.0 ∙ rw (==_refl g),
  Has-find files ss (g + 1) s.1 b.1
      (λ j le less. h j (omega (arith, s.0)) less ∙ find-cons_ne g j c ss le),
)

Represents-Has : (files : Files) (ss : Segs) → Represents files ss → Has files ss
Represents-Has files ss r = Has-find files ss 0 r.strict r.in_range (λ j le less. r.contents j less)

store-pos : (frame : Bytes) (ss : Segs) → 0 < length (store frame ss)
store-pos frame [] = omega arith
store-pos frame ((g, c) ∷ []) = ground arith
store-pos frame (s ∷ t ∷ ss) = omega arith

take_none : (k : ℕ) (fss gss : List (List Frame)) → k < 1 → take k fss ≡ take k gss
take_none zero fss gss h = refl
take_none (suc k) fss gss h = absurd (omega arith)

take_first : (fs gs : List Frame) (k : ℕ) → k < 2 → take k (fs ∷ gs ∷ []) ≡ take k (fs ∷ [])
take_first fs gs zero h = refl
take_first fs gs (suc zero) h = refl
take_first fs gs (suc (suc k)) h = absurd (omega arith)

take-cons :
    (fs : List Frame) (xs ys : List (List Frame)) {n : ℕ}
    → ((k : ℕ) → k < n → take k xs ≡ take k ys)
    → (k : ℕ) → k < suc n
    → take k (fs ∷ xs) ≡ take k (fs ∷ ys)
take-cons fs xs ys older zero h = refl
take-cons fs xs ys older (suc k) h = ap (◌∷◌ fs) (older k (omega arith))

module _ (codec : HeaderCodec) where
  decode_frames_whole :
      {fs : List Frame} {bytes : Bytes}
      → Log codec fs bytes
      → decode_frames codec bytes ≡ some (record { frames = fs; error = none })
  unfolding decode_from
  decode_frames_whole {fs} {bytes} log =
      ap (decode_frames codec) (sym (append-nil bytes))
      ∙ decode_frames-ends codec [] (λ o. none) log (λ f o. unfold decode_round in refl)

  read_from-Logs :
      (files : Files) {ss : Segs} {fss : List (List Frame)}
      → Logs codec ss fss
      → Has files ss
      → read_from codec (gens ss) files ≡ some (record { frames = concat fss; error = none })
  unfolding read_from
  read_from-Logs files done h = refl
  read_from-Logs files (segment g log logs) h =
      rw (h.0, read_from) (rw (decode_frames_whole log) (rw (read_from-Logs files logs h.1)))

  -- Read returns every frame of every segment, oldest segment first, when the files hold whole
  -- frames only.
  pub read-Logs :
      (files : Files) {ss : Segs} {fss : List (List Frame)}
      → Represents files ss
      → Logs codec ss fss
      → read codec host_fine files ≡ some (record { frames = concat fss; error = none })
  unfolding read
  read-Logs files {ss} r logs =
      rw (generations-Represents files ss r) (read_from-Logs files logs (Represents-Has files ss r))

  Log-append :
      {fs gs : List Frame} {xs ys : Bytes}
      → Log codec fs xs
      → Log codec gs ys
      → Log codec (fs ++ gs) (xs ++ ys)
  Log-append nil k = k
  Log-append {ys} (cons f bytes {rest} v e log) k =
      subst (Log codec _) (sym (append_assoc bytes rest ys)) (cons f bytes v e (Log-append log k))

  Logs-drop :
      (k : ℕ) {ss : Segs} {fss : List (List Frame)}
      → Logs codec ss fss
      → Logs codec (drop k ss) (drop k fss)
  Logs-drop zero l = l
  Logs-drop (suc k) done = done
  Logs-drop (suc k) (segment g log logs) = Logs-drop k logs

  abbrev StoredLogs : Frame → Bytes → Segs → List (List Frame) → Type 0
  StoredLogs f frame ss fss =
      (fss' : List (List Frame)) × Logs codec (store frame ss) fss'
      × (concat fss' ≡ concat fss ++ f ∷ [])
      × ((k : ℕ) → k < length (store frame ss) → take k fss' ≡ take k fss)

  one_frame :
      (f : Frame) (frame : Bytes)
      → codec.valid (header_of f) ≡ true
      → encode_frame codec f ≡ ok frame
      → Log codec (f ∷ []) frame
  one_frame f frame v e = subst (Log codec _) (append-nil frame) (cons f frame v e nil)

  Logs-store :
      (f : Frame) (frame : Bytes) {ss : Segs} {fss : List (List Frame)}
      → Log codec (f ∷ []) frame
      → Logs codec ss fss
      → StoredLogs f frame ss fss
  Logs-store f frame one done = ((f ∷ []) ∷ [], segment 1 one done, refl, λ k h. take_none k _ _ h)
  Logs-store f frame one (segment g {bytes} {fs} log done) =
      elim (Bool-cases (leb segment_max_bytes (length bytes))) [
        | inl full ↦ rw full (
          fs ∷ (f ∷ []) ∷ [],
          segment g log (segment (g + 1) one done),
          simp append-nil,
          take_first fs (f ∷ []),
        )
        | inr room ↦ rw room (
          (fs ++ f ∷ []) ∷ [],
          segment g (Log-append log one) done,
          simp append-nil,
          λ k h. take_none k _ _ h,
        )
      ]
  Logs-store f frame one (segment g {fs} log (segment h log' logs)) =
      let (fss', stored, e, older) = Logs-store f frame one (segment h log' logs) in
      (
        fs ∷ fss',
        segment g log stored,
        ap (λ t. fs ++ t) e ∙ sym (append_assoc fs _ (f ∷ [])),
        take-cons fs fss' _ older,
      )

  concat-split :
      (k : ℕ) (fss : List (List Frame)) → concat fss ≡ concat (take k fss) ++ concat (drop k fss)
  concat-split zero fss = refl
  concat-split (suc k) [] = refl
  concat-split (suc k) (fs ∷ fss) =
      ap (λ t. fs ++ t) (concat-split k fss)
      ∙ sym (append_assoc fs (concat (take k fss)) (concat (drop k fss)))

  -- On a host whose system calls succeed and with nobody else in the directory, append a frame whose
  -- header is valid UTF-8 to a directory of at most four segments of whole frames, named as
  -- segmentName does and below the last two generations. Append succeeds, and Read then returns all
  -- the frames in the order of their appends, the new one last, less the frames of the oldest
  -- segments by which `store` has more than four: none, or those of the one that a fifth pushed out.
  pub read-append :
      (gaps : List Gap) (dir : Bytes) (f : Frame) (frame : Bytes) (s : Spool) (segs : Segs)
      (fss : List (List Frame))
      → encode_frame codec f ≡ ok frame
      → codec.valid (header_of f) ≡ true
      → is_empty dir ≡ false
      → Represents s.files segs
      → Logs codec segs fss
      → length segs ≤ 4
      → Below (u64_mod - 1) segs
      → (t : Spool) × (kept : List Frame) × (append codec host_fine (quiet ∷ gaps) dir f s
          ≡ some (appended, t))
        × (read codec host_fine t.files ≡ some (record { frames = kept; error = none }))
        × (concat fss ++ f ∷ [] ≡ concat (take (length (store frame segs) - 4) fss) ++ kept)
  read-append gaps dir f frame s segs fss e v named r logs few low =
      let (t, appends, stored) = append_stores codec gaps dir f frame s segs e named r few low in
      let (fss', logs', all, older) = Logs-store f frame (one_frame f frame v e) logs in
      let k = length (store frame segs) - 4 in
      (
        t,
        concat (drop k fss'),
        appends,
        read-Logs t.files stored.represents (Logs-drop k logs'),
        sym all
            ∙ concat-split k fss'
            ∙ ap (λ l. concat l ++ concat (drop k fss'))
                (older k (omega (arith, store-pos frame segs))),
      )
