-- ===== src/Profiling/Sampler.antt =====
-- wallSampler of profile_wall.go. A snapshot is the stacks of the goroutines, and the hash of a stack a
-- parameter, two stacks with one hash included; the mutex makes each method one step.
pub mod Banked
use go_collector.Base.{
  ℕ, zero, suc, ◌+◌, ◌≤◌, ◌<◌, Bool, true, false, List, [], ◌∷◌, ◌++◌, ◌≡◌, refl, sym, ap, ◌∙◌,
  Option, none, some, arith, length, length-append, leb, ltb, ◌==◌, if◌then◌else◌, Bool-cases, inl,
  inr,
}
use go_collector.Base.Int.{ℤ}
use go_collector.Profiling.Recorder.{or_size}

pub record Bucket : Type 0 where
  pub key : ℕ
  pub pcs : List ℕ
  pub ticks : ℕ

pub record WallSampler : Type 0 where
  pub buckets : List Bucket
  pub max_stacks : ℕ
  pub dropped : ℕ
  pub ticks : ℕ

unfoldable pub new_wall_sampler : ℤ → WallSampler
new_wall_sampler max_stacks = record {
  buckets = [];
  max_stacks = or_size max_stacks 4096;
  dropped = 0;
  ticks = 0;
}

-- One tick more in the bucket of a key, where there is one.
unfoldable pub tick : ℕ → List Bucket → Option (List Bucket)
tick key [] = none
tick key (b ∷ bs) =
    let rest = tick key bs in
    if b.key == key
    then some (record b { ticks = suc b.ticks } ∷ bs)
    else elim rest [ none ↦ none | some bs' ↦ some (b ∷ bs') ]

module _ (hash : List ℕ → ℕ) where
  abbrev pub open_bucket : List ℕ → WallSampler → WallSampler
  open_bucket pcs w =
      if leb w.max_stacks (length w.buckets)
      then record w { dropped = suc w.dropped }
      else record w {
        buckets = w.buckets ++ (record { key = hash pcs; pcs = pcs; ticks = 1 } ∷ []);
      }

  abbrev pub bank_in : Option (List Bucket) → List ℕ → WallSampler → WallSampler
  bank_in (some bs) pcs w = record w { buckets = bs }
  bank_in none pcs w = open_bucket pcs w

  -- One record of a snapshot.
  unfoldable pub bank : List ℕ → WallSampler → WallSampler
  bank [] w = w
  bank (pc ∷ pcs) w = bank_in (tick (hash (pc ∷ pcs)) w.buckets) (pc ∷ pcs) w

  unfoldable pub bank_all : List (List ℕ) → WallSampler → WallSampler
  bank_all [] w = w
  bank_all (r ∷ rs) w = bank_all rs (bank r w)

  -- `none` is a snapshot that three attempts did not get.
  unfoldable pub sample : Option (List (List ℕ)) → WallSampler → WallSampler
  sample none w = w
  sample (some records) w = bank_all records (record w { ticks = suc w.ticks })

-- sort.Slice by ticks, the most first.
abbrev insert_bucket : Bucket → List Bucket → List Bucket
insert_bucket b [] = b ∷ []
insert_bucket b (c ∷ cs) = if ltb c.ticks b.ticks then b ∷ c ∷ cs else c ∷ insert_bucket b cs

unfoldable pub by_ticks : List Bucket → List Bucket
by_ticks [] = []
by_ticks (b ∷ bs) = insert_bucket b (by_ticks bs)

-- The buckets, the ticks and the drops since the last drain, and the sampler without them.
unfoldable pub drain_wall : WallSampler → (List Bucket × ℕ × ℕ) × WallSampler
drain_wall w =
    ((by_ticks w.buckets, w.ticks, w.dropped), record w { buckets = []; ticks = 0; dropped = 0 })
