-- ===== src/Profiling/Chunks.antt =====
-- writeProfileSamples of profiling.go. A sample is of any type. The outcome of each WriteJSON, and the
-- clock that each batch is seeded with, are given by the offset of the batch.
use go_collector.Base.{
  ℕ, zero, suc, ◌+◌, ◌≤◌, ◌<◌, Bool, true, false, List, [], ◌∷◌, ◌++◌, ◌≡◌, ◌⊎◌, refl, sym, ap, ◌∙◌,
  Option, none, some, arith, length, take, drop, length-append, take-append-drop, length-take,
  length-drop, append_assoc, if◌then◌else◌, Bool-cases, inl, inr,
}
use go_collector.Base.Bytes.{Bytes, codes}
use go_collector.Base.Decimal.{itoa}
use go_collector.Base.Int.{ℤ, pos, pos_part, ltb_ℤ}
use go_collector.Config.{Config}
use go_collector.Config.Load.{default_profile_batch_size}
use go_collector.Identity.{ProcessingIdentity, processing}

pub record ProfileBatch (A : Type 0) : Type 0 where
  pub schema : Bytes
  pub processing_identity : ProcessingIdentity
  pub samples : List A
  pub sample_count : Bytes

abbrev pub chunk_limit : Config → ℕ
chunk_limit cfg =
    if ltb_ℤ (pos 0) cfg.profile_batch_size
    then pos_part cfg.profile_batch_size
    else default_profile_batch_size

-- A batch size, or 500 where it is no positive number.
abbrev pub limit_of : ℤ → ℕ
limit_of size = if ltb_ℤ (pos 0) size then pos_part size else 500

chunk_limit-pos : (cfg : Config) → 0 < chunk_limit cfg
chunk_limit-pos cfg = elim (Bool-cases (ltb_ℤ (pos 0) cfg.profile_batch_size)) [
  | inl set ↦ rw set (ground arith)
  | inr unset ↦ rw unset (omega arith)
]

module _ {A : Type 0} (sha256 : Bytes → Bytes) (cfg : Config) (series : Bytes) (now : ℕ → Bytes)
    (write_ok : ℕ → Bool) where
  abbrev pub profile_batch : ℕ → List A → ProfileBatch A
  profile_batch start chunk = record {
    schema = codes "chronos.profiling.sample-batch.v1";
    processing_identity = processing sha256 cfg (now start ++ (series ++ itoa start));
    samples = chunk;
    sample_count = itoa (length chunk);
  }

  abbrev pub behind :
      ProfileBatch A → Option (Bool × List (ProfileBatch A)) → Option (Bool × List (ProfileBatch A))
  behind batch none = none
  behind batch (some (ok, written)) = some (ok, batch ∷ written)

  -- The loop from `start` on, over the samples from there: whether it ends without an error, and the
  -- batches that it wrote. `none` means that the fuel ran out.
  unfoldable pub write_from : ℕ → ℕ → List A → Option (Bool × List (ProfileBatch A))
  write_from fuel start [] = some (true, [])
  write_from zero start (x ∷ xs) = none
  write_from (suc fuel) start (x ∷ xs) = elim (write_ok start) [
    | false ↦ some (false, [])
    | true ↦
        behind (profile_batch start (take (chunk_limit cfg) (x ∷ xs)))
          (write_from fuel (start + chunk_limit cfg) (drop (chunk_limit cfg) (x ∷ xs)))
  ]

  -- Each batch takes a sample or more.
  unfoldable pub write_profile_samples : List A → Option (Bool × List (ProfileBatch A))
  unfolding write_from
  write_profile_samples samples = write_from (length samples) 0 samples

  abbrev pub samples_of : List (ProfileBatch A) → List A
  samples_of [] = []
  samples_of (b ∷ bs) = b.samples ++ samples_of bs

  -- Each batch holds a sample, and no more than the limit, and says how many.
  abbrev pub Sized : List (ProfileBatch A) → Type 0
  Sized [] = Unit
  Sized (b ∷ bs) =
      ((0 < length b.samples)
        × (length b.samples ≤ limit_of cfg.profile_batch_size)
        × (b.sample_count ≡ itoa (length b.samples)))
      × Sized bs

  -- The write of each batch succeeded, from the offset `start` on.
  abbrev pub Succeeded : ℕ → List (ProfileBatch A) → Type 0
  Succeeded start [] = Unit
  Succeeded start (b ∷ bs) =
      (write_ok start ≡ true) × Succeeded (start + limit_of cfg.profile_batch_size) bs

  -- `start` is the offset of the samples. A failed write is the one behind those that succeeded, at the
  -- offset of the first sample that is not written.
  pub record Written (start : ℕ) (samples : List A) (result : Option (Bool × List (ProfileBatch A)))
      : Type 0 where
    pub ok : Bool
    pub batches : List (ProfileBatch A)
    pub unwritten : List A
    pub returns : result ≡ some (ok, batches)
    pub all_samples : samples_of batches ++ unwritten ≡ samples
    pub sized : Sized batches
    pub succeeded : Succeeded start batches
    pub outcome :
        ((ok ≡ true) × (unwritten ≡ []))
        ⊎ ((ok ≡ false)
            × (0 < length unwritten)
            × (write_ok (start + length (samples_of batches)) ≡ false))

  outcome-behind :
      (start : ℕ) (samples unwritten : List A) (bs : List (ProfileBatch A)) (ok : Bool)
      → samples_of bs ++ unwritten ≡ drop (chunk_limit cfg) samples
      → ((ok ≡ true) × (unwritten ≡ []))
        ⊎ ((ok ≡ false)
            × (0 < length unwritten)
            × (write_ok (start + chunk_limit cfg + length (samples_of bs)) ≡ false))
      → ((ok ≡ true) × (unwritten ≡ []))
        ⊎ ((ok ≡ false)
            × (0 < length unwritten)
            × (write_ok (start + length (take (chunk_limit cfg) samples ++ samples_of bs)) ≡ false))
  outcome-behind start samples unwritten bs ok e (inl done) = inl done
  outcome-behind start samples unwritten bs ok e (inr (failed, some_, at)) =
      let limit = chunk_limit cfg in
      let same : start + limit + length (samples_of bs)
          ≡ start + length (take limit samples ++ samples_of bs) =
        omega (
          arith,
          some_,
          ap length e,
          length-append {0} (samples_of bs) unwritten,
          length-append {0} (take limit samples) (samples_of bs),
          length-take {0} limit samples,
          length-drop {0} limit samples,
        ) in
      inr (failed, some_, ap write_ok (sym same) ∙ at)

  Written-behind :
      (start : ℕ) (samples : List A) (result : Option (Bool × List (ProfileBatch A)))
      → 0 < length (take (chunk_limit cfg) samples)
      → length (take (chunk_limit cfg) samples) ≤ chunk_limit cfg
      → write_ok start ≡ true
      → Written (start + chunk_limit cfg) (drop (chunk_limit cfg) samples) result
      → Written start samples (behind (profile_batch start (take (chunk_limit cfg) samples)) result)
  Written-behind start samples result some_ few wrote w =
      let chunk = take (chunk_limit cfg) samples in
      record {
        ok = w.ok;
        batches = profile_batch start chunk ∷ w.batches;
        unwritten = w.unwritten;
        returns = rw w.returns refl;
        all_samples =
            append_assoc chunk (samples_of w.batches) w.unwritten
            ∙ ap (λ t. chunk ++ t) w.all_samples
            ∙ take-append-drop (chunk_limit cfg) samples;
        sized = ((some_, few, refl), w.sized);
        succeeded = (wrote, w.succeeded);
        outcome = outcome-behind start samples w.unwritten w.batches w.ok w.all_samples w.outcome;
      }

  write_from-Written :
      (fuel start : ℕ) (samples : List A)
      → length samples ≤ fuel
      → Written start samples (write_from fuel start samples)
  unfolding write_from
  write_from-Written fuel start [] h = record {
    ok = true;
    batches = [];
    unwritten = [];
    returns = refl;
    all_samples = refl;
    sized = tt;
    succeeded = tt;
    outcome = inl (refl, refl);
  }
  write_from-Written zero start (x ∷ xs) h = absurd (omega arith)
  write_from-Written (suc fuel) start (x ∷ xs) h = elim (Bool-cases (write_ok start)) [
    | inl wrote ↦
        let limit = chunk_limit cfg in
        let size = length-take {0} limit (x ∷ xs) in
        let pos_limit = chunk_limit-pos cfg in
        let later =
          write_from-Written fuel (start + limit) (drop limit (x ∷ xs))
            (omega (arith, length-drop {0} limit (x ∷ xs))) in
        rw (write_from, wrote)
          (Written-behind start (x ∷ xs) _ (omega arith) (omega arith) wrote later)
    | inr failed ↦
        rw (write_from, failed)
          (record {
            ok = false;
            batches = [];
            unwritten = x ∷ xs;
            returns = refl;
            all_samples = refl;
            sized = tt;
            succeeded = tt;
            outcome = inr (refl, omega arith, ap write_ok (omega arith) ∙ failed);
          })
  ]

  -- Whatever the configured batch size, and whichever writes succeed, the samples are written in batches
  -- of one sample to the limit, each with its count, which hold in order the samples up to the first
  -- write that fails: each of their writes succeeded; without an error these are all samples, and
  -- with one the write at the offset of the first sample that is left failed, and there is one.
  pub write_profile_samples-Written :
      (samples : List A) → Written 0 samples (write_profile_samples samples)
  unfolding write_profile_samples
  write_profile_samples-Written samples =
      write_from-Written (length samples) 0 samples (omega arith)
