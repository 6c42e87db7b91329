-- ===== src/Sarama/Claim/Limits.antt =====
-- The batches of a claim keep to the limits on their records and bytes.
use go_collector.Base.{
  ℕ, zero, suc, Bool, true, false, List, [], ◌∷◌, ◌++◌, ◌+◌, ◌-◌, ◌≤◌, ◌<◌, ◌≡◌, refl, sym, ap, ◌∙◌,
  Option, none, some, length, take, All, All-append, length-append, take_all, arith, ltb, ltb→lt,
  Bool-cases, Option-cases, inl, inr,
}
use go_collector.Sarama.{ConsumerMessage, BatchOptions, full, wait_of}
use go_collector.Sarama.Claim.{
  Trigger, is_full, max_wait, channel_closed, shutdown, Flush, Timer, Event, receives, times_out,
  cancelled, fires, ClaimState, opened, flush_held, flush_claim, go_on, accumulate, claim_step,
  consume_claim, stop_and_reset, reset_timer,
}
use go_collector.Sarama.Claim.Kept.{consume_claim-returned, consume_claim-running}

take-append_of_le {ℓ} :
    {A : Type ℓ} (n : ℕ) (xs ys : List A) → n ≤ length xs → take n (xs ++ ys) ≡ take n xs
take-append_of_le zero xs ys h = refl
take-append_of_le (suc n) [] ys h = absurd (omega arith)
take-append_of_le (suc n) (x ∷ xs) ys h = ap (x ∷◌) (take-append_of_le n xs ys (omega arith))

-- The bytes of the values.
unfoldable pub bytes_of : List ConsumerMessage → ℕ
bytes_of [] = 0
bytes_of (m ∷ ms) = length m.value + bytes_of ms

bytes_of-append : (xs ys : List ConsumerMessage) → bytes_of (xs ++ ys) ≡ bytes_of xs + bytes_of ys
unfolding bytes_of
bytes_of-append [] ys = omega arith
bytes_of-append (x ∷ xs) ys = omega (arith, bytes_of-append xs ys)

bytes_of-one :
    (xs : List ConsumerMessage) (m : ConsumerMessage)
    → bytes_of (xs ++ (m ∷ [])) ≡ bytes_of xs + length m.value
unfolding bytes_of
bytes_of-one xs m = omega (arith, bytes_of-append xs (m ∷ []))

abbrev by_size : Trigger → Bool
by_size is_full = true
by_size _ = false

module _ (o : BatchOptions) where
  -- The first `n` messages are not full, for each `n` from one up to below `stop`.
  abbrev IsRoomy : ℕ → List ConsumerMessage → Type 0
  IsRoomy stop ms = (n : ℕ) → 0 < n → n < stop → full o n (bytes_of (take n ms)) ≡ false

  -- The same, with its instances written out: the first message, the first two, up to `last`.
  abbrev pub NeverFull : ℕ → List ConsumerMessage → Type 0
  NeverFull zero ms = Unit
  NeverFull (suc n) ms = NeverFull n ms × (full o (suc n) (bytes_of (take (suc n) ms)) ≡ false)

  IsRoomy-NeverFull :
      (last stop : ℕ) (ms : List ConsumerMessage)
      → last < stop
      → IsRoomy stop ms
      → NeverFull last ms
  IsRoomy-NeverFull zero stop ms below h = tt
  IsRoomy-NeverFull (suc n) stop ms below h =
      (IsRoomy-NeverFull n stop ms (omega arith) h, h (suc n) (omega arith) below)

  -- A flush has messages, is not full without its last one, and is full with it exactly when its size
  -- was the trigger.
  abbrev pub IsWithin : Flush → Type 0
  IsWithin f =
      (0 < length f.messages)
      × NeverFull (length f.messages - 1) f.messages
      × (full o (length f.messages) (bytes_of f.messages) ≡ by_size f.trigger)

  IsRoomy-more :
      (ms : List ConsumerMessage) (m : ConsumerMessage)
      → IsRoomy (suc (length ms)) ms
      → IsRoomy (length (ms ++ (m ∷ []))) (ms ++ (m ∷ []))
  IsRoomy-more ms m h n pos below =
      let fits : n ≤ length ms = omega (arith, length-append {0} ms (m ∷ [])) in
      rw (take-append_of_le n ms (m ∷ []) fits) (h n pos (omega arith))

  IsRoomy-whole :
      (ms : List ConsumerMessage)
      → IsRoomy (length ms) ms
      → full o (length ms) (bytes_of ms) ≡ false
      → IsRoomy (suc (length ms)) ms
  IsRoomy-whole ms h whole n pos below = elim (Bool-cases (ltb n (length ms))) [
    | inl less ↦ h n pos (ltb→lt n (length ms) less)
    | inr all ↦
        let e : n ≡ length ms = ground arith in rw (e, take_all (length ms) ms (omega arith)) whole
  ]

module _ {H E : Type 0} (consume : H → Flush → Option E × H) (o : BatchOptions) where
  abbrev IsBounded : ClaimState H E → Type 0
  IsBounded c =
      (c.bytes ≡ bytes_of c.batch)
      × IsRoomy o (suc (length c.batch)) c.batch
      × All (IsWithin o) c.flushes

  IsRoomy-none : IsRoomy o 1 []
  IsRoomy-none n pos below = absurd (omega arith)

  flush_held-IsBounded :
      (ms : List ConsumerMessage) (why : Trigger) (c : ClaimState H E)
      → c.batch ≡ ms
      → c.bytes ≡ bytes_of ms
      → IsRoomy o (length ms) ms
      → (0 < length ms → full o (length ms) (bytes_of ms) ≡ by_size why)
      → All (IsWithin o) c.flushes
      → IsBounded (flush_held consume ms why c).1
  unfolding flush_held
  flush_held-IsBounded [] why c e b room size fs = rw e (b, IsRoomy-none, fs)
  flush_held-IsBounded (m ∷ ms) why c e b room size fs = (
    unfold bytes_of in refl,
    IsRoomy-none,
    All-append (IsWithin o) c.flushes _ fs (
      (
        omega arith,
        IsRoomy-NeverFull o _ (length (m ∷ ms)) (m ∷ ms) (omega arith) room,
        size (omega arith),
      ),
      tt,
    ),
  )

  go_on-IsBounded :
      (again : Timer → Timer) (r : Option E × ClaimState H E)
      → IsBounded r.1
      → IsBounded (go_on consume again r)
  go_on-IsBounded again (some e, c) b = b
  go_on-IsBounded again (none, c) b = b

  -- A flush that no size triggered, of what is roomy as a whole.
  flush_claim-IsBounded :
      (why : Trigger) (c : ClaimState H E)
      → by_size why ≡ false
      → IsBounded c
      → IsBounded (flush_claim consume why c).1
  flush_claim-IsBounded why c other (b, room, fs) =
      flush_held-IsBounded c.batch why c refl b (λ n pos below. room n pos (omega arith))
        (λ pos.
          ap (λ ms. full o (length c.batch) (bytes_of ms))
            (sym (take_all (length c.batch) c.batch (omega arith)))
          ∙ room (length c.batch) pos (omega arith)
          ∙ sym other)
        fs

  accumulate-IsBounded :
      (m : ConsumerMessage) (c : ClaimState H E)
      → IsBounded c
      → IsBounded (accumulate consume o m c)
  unfolding accumulate
  accumulate-IsBounded m c (b, room, fs) =
      let bytes : c.bytes + length m.value ≡ bytes_of (c.batch ++ (m ∷ [])) =
        ap (λ k. k + length m.value) b ∙ sym (bytes_of-one c.batch m) in
      let more = IsRoomy-more o c.batch m room in
      elim (Bool-cases (full o (length (c.batch ++ (m ∷ []))) (c.bytes + length m.value))) [
        | inl whole ↦ rw whole (
            go_on-IsBounded (stop_and_reset (wait_of o)) _ (
              flush_held-IsBounded (c.batch ++ (m ∷ [])) is_full _ refl bytes more
                (λ pos. ap (full o (length (c.batch ++ (m ∷ [])))) (sym bytes) ∙ whole) fs))
        | inr some_room ↦ rw some_room (
          bytes,
          IsRoomy-whole o (c.batch ++ (m ∷ [])) more
              (ap (full o (length (c.batch ++ (m ∷ [])))) (sym bytes) ∙ some_room),
          fs,
        )
      ]

  claim_step-IsBounded :
      (e : Event) (c : ClaimState H E) → IsBounded c → IsBounded (claim_step consume o e c)
  unfolding claim_step
  claim_step-IsBounded (receives (some m)) c b = accumulate-IsBounded m c b
  claim_step-IsBounded (receives none) c b = flush_claim-IsBounded channel_closed c refl b
  claim_step-IsBounded cancelled c b = flush_claim-IsBounded shutdown c refl b
  claim_step-IsBounded fires c b = b
  claim_step-IsBounded times_out c b = elim (Bool-cases c.timer.ready) [
    | inl ready ↦
        rw ready
          (go_on-IsBounded (reset_timer (wait_of o)) _ (flush_claim-IsBounded max_wait _ refl b))
    | inr waiting ↦ rw waiting b
  ]

  consume_claim-IsBounded :
      (es : List Event) (c : ClaimState H E)
      → IsBounded c
      → IsBounded (consume_claim consume o es c).1
  consume_claim-IsBounded [] c b = unfold consume_claim in b
  consume_claim-IsBounded (e ∷ es) c b = elim (Option-cases c.returned) [
    | inr (r, ended) ↦ rw (consume_claim-returned consume o (e ∷ es) c r ended) b
    | inl running ↦
        rw (consume_claim-running consume o e es c running)
          (consume_claim-IsBounded es (claim_step consume o e c) (claim_step-IsBounded e c b))
  ]

  -- Every batch that a claim hands over has a message, is not full before its last message, and is
  -- full with it exactly when the limits on records and bytes are why it was handed over; what is
  -- collected is never full, and its bytes are counted.
  pub consume_claim_bounded :
      (es : List Event) (h : H)
      → let (_, c) = consume_claim consume o es (opened consume o h) in
        All (IsWithin o) c.flushes
        × NeverFull o (length c.batch) c.batch
        × (c.bytes ≡ bytes_of c.batch)
  consume_claim_bounded es h =
      let (b, room, fs) =
        consume_claim-IsBounded es (opened consume o h)
          (unfold bytes_of in refl, IsRoomy-none, tt) in
      let c = (consume_claim consume o es (opened consume o h)).1 in
      (
        fs,
        IsRoomy-NeverFull o (length c.batch) (suc (length c.batch)) c.batch (omega arith) room,
        b,
      )
