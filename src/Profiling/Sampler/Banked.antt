-- ===== src/Profiling/Sampler/Banked.antt =====
-- The wall sampler accounts for every stack that it is shown, within its bound.
use go_collector.Base.{
  ℕ, suc, ◌+◌, ◌≤◌, List, [], ◌∷◌, ◌++◌, ◌≡◌, refl, ap, ◌∙◌, Option, none, some, arith, length,
  length-append, leb, ltb, ◌==◌, Bool-cases, Option-cases, inl, inr,
}
use go_collector.Base.Int.{ℤ}
use go_collector.Profiling.Recorder.{or_size}
use go_collector.Profiling.Sampler.{
  Bucket, WallSampler, new_wall_sampler, tick, open_bucket, bank_in, bank, bank_all, sample,
  insert_bucket, by_ticks, drain_wall,
}

-- The ticks that buckets hold.
unfoldable pub held : List Bucket → ℕ
held [] = 0
held (b ∷ bs) = b.ticks + held bs

held-append : (bs cs : List Bucket) → held (bs ++ cs) ≡ held bs + held cs
unfolding held
held-append [] cs = omega arith
held-append (b ∷ bs) cs = omega (arith, held-append bs cs)

-- The stacks of snapshots that have a frame, and the snapshots that were taken.
unfoldable pub stacks_in : List (List ℕ) → ℕ
stacks_in [] = 0
stacks_in ([] ∷ rs) = stacks_in rs
stacks_in ((_ ∷ _) ∷ rs) = suc (stacks_in rs)

unfoldable pub shown : List (Option (List (List ℕ))) → ℕ
shown [] = 0
shown (none ∷ ss) = shown ss
shown (some rs ∷ ss) = stacks_in rs + shown ss

unfoldable pub taken : List (Option (List (List ℕ))) → ℕ
taken [] = 0
taken (none ∷ ss) = taken ss
taken (some rs ∷ ss) = suc (taken ss)

abbrev Ticked : List Bucket → Option (List Bucket) → Type 0
Ticked bs none = Unit
Ticked bs (some bs') = (held bs' ≡ suc (held bs)) × (length bs' ≡ length bs)

tick-Ticked : (key : ℕ) (bs : List Bucket) → Ticked bs (tick key bs)
unfolding tick held
tick-Ticked key [] = tt
tick-Ticked key (b ∷ bs) = elim (Bool-cases (b.key == key)) [
  | inl this ↦ rw this (omega arith, refl)
  | inr other ↦ elim (Option-cases (tick key bs)) [
    | inl absent ↦ rw (other, absent) tt
    | inr (bs', there) ↦
        let (h, l) = rw there at (tick-Ticked key bs) in
        rw (other, there) (omega (arith, h), ap suc l)
  ]
]

module _ (hash : List ℕ → ℕ) where
  -- `n` stacks shown so far, and the bound.
  abbrev IsBanked : ℕ → ℕ → WallSampler → Type 0
  IsBanked max n w =
      (held w.buckets + w.dropped ≡ n) × (length w.buckets ≤ max) × (w.max_stacks ≡ max)

  held-one :
      (bs : List Bucket) (pcs : List ℕ) (dropped n : ℕ)
      → held bs + dropped ≡ n
      → held (bs ++ (record { key = hash pcs; pcs = pcs; ticks = 1 } ∷ [])) + dropped ≡ suc n
  unfolding held
  held-one bs pcs dropped n h =
      omega (arith, h, held-append bs (record { key = hash pcs; pcs = pcs; ticks = 1 } ∷ []))

  open_bucket-IsBanked :
      (max n : ℕ) (pcs : List ℕ) (w : WallSampler)
      → IsBanked max n w
      → IsBanked max (suc n) (open_bucket hash pcs w)
  open_bucket-IsBanked max n pcs w (h, l, m) =
      elim (Bool-cases (leb w.max_stacks (length w.buckets))) [
        | inl full ↦ rw (open_bucket, full) (omega arith, l, m)
        | inr room ↦
            rw (open_bucket, room)
              (
                held-one w.buckets pcs w.dropped n h,
                ground (
                  arith,
                  length-append {0} w.buckets
                      (record { key = hash pcs; pcs = pcs; ticks = 1 } ∷ []),
                ),
                m,
              )
      ]

  bank_in-IsBanked :
      (max n : ℕ) (found : Option (List Bucket)) (pcs : List ℕ) (w : WallSampler)
      → Ticked w.buckets found
      → IsBanked max n w
      → IsBanked max (suc n) (bank_in hash found pcs w)
  bank_in-IsBanked max n none pcs w t b = open_bucket-IsBanked max n pcs w b
  bank_in-IsBanked max n (some bs) pcs w (t, same) (h, l, m) =
      (omega (arith, t, h), omega (arith, same), m)

  bank_all-IsBanked :
      (max n : ℕ) (rs : List (List ℕ)) (w : WallSampler)
      → IsBanked max n w
      → IsBanked max (n + stacks_in rs) (bank_all hash rs w)
  unfolding bank_all bank stacks_in
  bank_all-IsBanked max n [] w (h, l, m) = (omega (arith, h), l, m)
  bank_all-IsBanked max n ([] ∷ rs) w b = bank_all-IsBanked max n rs w b
  bank_all-IsBanked max n ((pc ∷ pcs) ∷ rs) w b =
      let (h, l, m) = bank_all-IsBanked max (suc n) rs _ (
        bank_in-IsBanked max n (tick (hash (pc ∷ pcs)) w.buckets) (pc ∷ pcs) w
          (tick-Ticked _ w.buckets) b) in
      (omega (arith, h), l, m)

  bank_in-ticks :
      (found : Option (List Bucket)) (pcs : List ℕ) (w : WallSampler)
      → (bank_in hash found pcs w).ticks ≡ w.ticks
  bank_in-ticks none pcs w = elim (Bool-cases (leb w.max_stacks (length w.buckets))) [
    | inl full ↦ rw (bank_in, open_bucket, full) refl
    | inr room ↦ rw (bank_in, open_bucket, room) refl
  ]
  bank_in-ticks (some bs) pcs w = refl

  bank_all-ticks : (rs : List (List ℕ)) (w : WallSampler) → (bank_all hash rs w).ticks ≡ w.ticks
  unfolding bank_all bank
  bank_all-ticks [] w = refl
  bank_all-ticks ([] ∷ rs) w = bank_all-ticks rs w
  bank_all-ticks ((pc ∷ pcs) ∷ rs) w =
      bank_all-ticks rs _ ∙ bank_in-ticks (tick (hash (pc ∷ pcs)) w.buckets) (pc ∷ pcs) w

  unfoldable pub samples : List (Option (List (List ℕ))) → WallSampler → WallSampler
  samples [] w = w
  samples (s ∷ ss) w = samples ss (sample hash s w)

  samples-IsBanked :
      (max n : ℕ) (ss : List (Option (List (List ℕ)))) (w : WallSampler)
      → IsBanked max n w
      → IsBanked max (n + shown ss) (samples ss w) × ((samples ss w).ticks ≡ w.ticks + taken ss)
  unfolding samples sample shown taken
  samples-IsBanked max n [] w (h, l, m) = ((omega (arith, h), l, m), omega arith)
  samples-IsBanked max n (none ∷ ss) w b = samples-IsBanked max n ss w b
  samples-IsBanked max n (some rs ∷ ss) w b =
      let w' : WallSampler = record w { ticks = suc w.ticks } in
      let ((h, l, m), t) =
        samples-IsBanked max (n + stacks_in rs) ss (bank_all hash rs w')
          (bank_all-IsBanked max n rs w' b) in
      ((omega (arith, h), l, m), omega (arith, t, bank_all-ticks rs w'))

insert_bucket-held :
    (b : Bucket) (bs : List Bucket)
    → (held (insert_bucket b bs) ≡ b.ticks + held bs)
      × (length (insert_bucket b bs) ≡ suc (length bs))
unfolding held
insert_bucket-held b [] = (refl, refl)
insert_bucket-held b (c ∷ cs) = elim (Bool-cases (ltb c.ticks b.ticks)) [
  | inl more ↦ rw more (refl, refl)
  | inr less ↦ let (h, l) = insert_bucket-held b cs in rw less (omega (arith, h), ap suc l)
]

by_ticks-held :
    (bs : List Bucket) → (held (by_ticks bs) ≡ held bs) × (length (by_ticks bs) ≡ length bs)
unfolding held by_ticks
by_ticks-held [] = (refl, refl)
by_ticks-held (b ∷ bs) =
    let (h, l) = by_ticks-held bs in
    let (h', l') = insert_bucket-held b (by_ticks bs) in
    (omega (arith, h, h'), omega (arith, l, l'))

-- No bucket has more ticks than the one in front of it.
abbrev pub IsDescending : List Bucket → Type 0
IsDescending [] = Unit
IsDescending (b ∷ []) = Unit
IsDescending (b ∷ c ∷ cs) = (c.ticks ≤ b.ticks) × IsDescending (c ∷ cs)

below_head :
    (b c e : Bucket) (es : List Bucket)
    → b.ticks ≤ c.ticks
    → e.ticks ≤ c.ticks
    → IsDescending (insert_bucket b (e ∷ es))
    → IsDescending (c ∷ insert_bucket b (e ∷ es))
below_head b c e es below head d = elim (Bool-cases (ltb e.ticks b.ticks)) [
  | inl more ↦ rw more (below, rw more at d)
  | inr less ↦ rw less (head, rw less at d)
]

insert_bucket-IsDescending :
    (b : Bucket) (bs : List Bucket) → IsDescending bs → IsDescending (insert_bucket b bs)
insert_bucket-IsDescending b [] d = tt
insert_bucket-IsDescending b (c ∷ []) d = elim (Bool-cases (ltb c.ticks b.ticks)) [
  | inl more ↦ rw more (ground arith, tt)
  | inr less ↦ rw less (ground arith, tt)
]
insert_bucket-IsDescending b (c ∷ e ∷ es) d = elim (Bool-cases (ltb c.ticks b.ticks)) [
  | inl more ↦ rw more (ground arith, d)
  | inr less ↦
      rw less (below_head b c e es (ground arith) d.0 (insert_bucket-IsDescending b (e ∷ es) d.1))
]

by_ticks-IsDescending : (bs : List Bucket) → IsDescending (by_ticks bs)
unfolding by_ticks
by_ticks-IsDescending [] = tt
by_ticks-IsDescending (b ∷ bs) =
    insert_bucket-IsDescending b (by_ticks bs) (by_ticks-IsDescending bs)

-- A drain, behind any snapshots of a new sampler, returns at most the configured number of buckets,
-- 4096 where that is no positive number, the most ticked first; together with the count of dropped
-- stacks their ticks are the stacks that were shown, whatever the hash; and the ticks of the drain are
-- the snapshots that were taken.
pub drain_wall-banked :
    (hash : List ℕ → ℕ) (max_stacks : ℤ) (ss : List (Option (List (List ℕ))))
    → let ((buckets, ticks, dropped), _) =
        drain_wall (samples hash ss (new_wall_sampler max_stacks)) in
      (held buckets + dropped ≡ shown ss)
      × (length buckets ≤ or_size max_stacks 4096)
      × IsDescending buckets
      × (ticks ≡ taken ss)
unfolding drain_wall new_wall_sampler
drain_wall-banked hash max_stacks ss =
    let w = new_wall_sampler max_stacks in
    let ((h, l, m), t) =
      samples-IsBanked hash (or_size max_stacks 4096) 0 ss w
        (unfold held in refl, omega arith, refl) in
    let (same, size) = by_ticks-held (samples hash ss w).buckets in
    (
      omega (arith, h, same),
      omega (arith, l, size),
      by_ticks-IsDescending (samples hash ss w).buckets,
      omega (arith, t),
    )
