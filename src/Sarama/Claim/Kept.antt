-- ===== src/Sarama/Claim/Kept.antt =====
-- No message of a claim is lost, handed over twice or moved: what the handler was given, then what is
-- collected, then what was not read is what came.
use go_collector.Base.{
  List, [], ◌∷◌, ◌++◌, ◌+◌, ◌≡◌, refl, sym, ap, ◌∙◌, Option, none, some, length, append-nil,
  append_assoc, Bool-cases, Option-cases, inl, inr,
}
use go_collector.Sarama.{ConsumerMessage, BatchOptions, full, wait_of}
use go_collector.Sarama.Claim.{
  Trigger, is_full, max_wait, channel_closed, shutdown, Flush, Timer, Event, receives, times_out,
  cancelled, fires, ClaimState, opened, flush_held, flush_claim, go_on, flush_and_return,
  flush_and_go_on, accumulate, claim_step, consume_claim, stop_and_reset, reset_timer,
}

abbrev pub handed_over : List Flush → List ConsumerMessage
handed_over [] = []
handed_over (f ∷ fs) = f.messages ++ handed_over fs

-- The messages that came with the events.
abbrev pub came : List Event → List ConsumerMessage
came [] = []
came (receives (some m) ∷ es) = m ∷ came es
came (receives none ∷ es) = came es
came (times_out ∷ es) = came es
came (cancelled ∷ es) = came es
came (fires ∷ es) = came es

handed_over-append :
    (fs gs : List Flush) → handed_over (fs ++ gs) ≡ handed_over fs ++ handed_over gs
handed_over-append [] gs = refl
handed_over-append (f ∷ fs) gs =
    rw (handed_over-append fs gs) (sym (append_assoc f.messages (handed_over fs) (handed_over gs)))

module _ {H E : Type 0} where
  -- What the claim has handed over or still holds, in order.
  abbrev pub held : ClaimState H E → List ConsumerMessage
  held c = handed_over c.flushes ++ c.batch

  abbrev pub IsSettled : ClaimState H E → Type 0
  IsSettled c = elim c.returned [ none ↦ Unit {0} | some _ ↦ c.batch ≡ [] ]

module _ {H E : Type 0} (consume : H → Flush → Option E × H) where
  abbrev IsKept : ClaimState H E → ClaimState H E → Type 0
  IsKept c c' = (held c' ≡ held c) × IsSettled c'

  -- A flush keeps what is held, and leaves nothing collected.
  pub flush_held-Kept :
      (ms : List ConsumerMessage) (why : Trigger) (c : ClaimState H E)
      → c.batch ≡ ms
      → let c' = (flush_held consume ms why c).1 in
        (held c' ≡ held c) × (c'.batch ≡ []) × (c'.returned ≡ c.returned)
  unfolding flush_held
  flush_held-Kept [] why c e = (refl, e, refl)
  flush_held-Kept (m ∷ ms) why c e = (
    append-nil (handed_over (c.flushes ++ _))
        ∙ handed_over-append c.flushes _
        ∙ ap (handed_over c.flushes ++◌) (append-nil (m ∷ ms) ∙ sym e),
    refl,
    refl,
  )

  flush_and_return-IsKept :
      (why : Trigger) (c : ClaimState H E) → IsKept c (flush_and_return consume why c)
  flush_and_return-IsKept why c = let (h, b, _) = flush_held-Kept c.batch why c refl in (h, b)

  pub go_on-IsKept :
      (again : Timer → Timer) (c : ClaimState H E) (r : Option E × ClaimState H E)
      → held r.1 ≡ held c
      → r.1.batch ≡ []
      → r.1.returned ≡ none
      → IsKept c (go_on consume again r)
  go_on-IsKept again c (some e, c') h b running = (h, b)
  go_on-IsKept again c (none, c') h b running = (h, rw running tt)

  flush_and_go_on-IsKept :
      (why : Trigger) (again : Timer → Timer) (c : ClaimState H E)
      → c.returned ≡ none
      → IsKept c (flush_and_go_on consume why again c)
  flush_and_go_on-IsKept why again c running =
      let (h, b, r) = flush_held-Kept c.batch why c refl in
      go_on-IsKept again c (flush_claim consume why c) h b (r ∙ running)

  accumulate-Kept :
      (o : BatchOptions) (m : ConsumerMessage) (c : ClaimState H E)
      → c.returned ≡ none
      → let c' = accumulate consume o m c in (held c' ≡ held c ++ (m ∷ [])) × IsSettled c'
  unfolding accumulate
  accumulate-Kept o m c running =
      let more = sym (append_assoc (handed_over c.flushes) c.batch (m ∷ [])) in
      elim (Bool-cases (full o (length (c.batch ++ (m ∷ []))) (c.bytes + length m.value))) [
        | inl yes_full ↦ rw yes_full (
            let (h, b) = flush_and_go_on-IsKept is_full (stop_and_reset (wait_of o)) _ running in
            (h ∙ more, b))
        | inr room ↦ rw room (more, rw running tt)
      ]

  claim_step-Kept :
      (o : BatchOptions) (e : Event) (c : ClaimState H E)
      → c.returned ≡ none
      → let c' = claim_step consume o e c in (held c' ≡ held c ++ came (e ∷ [])) × IsSettled c'
  unfolding claim_step
  claim_step-Kept o (receives (some m)) c running = accumulate-Kept o m c running
  claim_step-Kept o (receives none) c running =
      let (h, b) = flush_and_return-IsKept channel_closed c in (h ∙ sym (append-nil (held c)), b)
  claim_step-Kept o cancelled c running =
      let (h, b) = flush_and_return-IsKept shutdown c in (h ∙ sym (append-nil (held c)), b)
  claim_step-Kept o fires c running = (sym (append-nil (held c)), rw running tt)
  claim_step-Kept o times_out c running = elim (Bool-cases c.timer.ready) [
    | inl ready ↦ rw ready (
        let (h, b) = flush_and_go_on-IsKept max_wait (reset_timer (wait_of o)) _ running in
        (h ∙ sym (append-nil (held c)), b))
    | inr waiting ↦ rw waiting (sym (append-nil (held c)), rw running tt)
  ]

  came-cons : (e : Event) (es : List Event) → came (e ∷ es) ≡ came (e ∷ []) ++ came es
  came-cons (receives (some m)) es = refl
  came-cons (receives none) es = refl
  came-cons times_out es = refl
  came-cons cancelled es = refl
  came-cons fires es = refl

  pub consume_claim-returned :
      (o : BatchOptions) (es : List Event) (c : ClaimState H E) (r : Option E)
      → c.returned ≡ some r
      → consume_claim consume o es c ≡ (es, c)
  unfolding consume_claim
  consume_claim-returned o [] c r ended = refl
  consume_claim-returned o (e ∷ es) c r ended = simp (ended, consume_claim)

  pub consume_claim-running :
      (o : BatchOptions) (e : Event) (es : List Event) (c : ClaimState H E)
      → c.returned ≡ none
      → consume_claim consume o (e ∷ es) c ≡ consume_claim consume o es (claim_step consume o e c)
  unfolding consume_claim
  consume_claim-running o e es c running = simp (running, consume_claim)

  consume_claim-Kept :
      (o : BatchOptions) (es : List Event) (c : ClaimState H E)
      → IsSettled c
      → let (unread, c') = consume_claim consume o es c in
        (held c' ++ came unread ≡ held c ++ came es) × IsSettled c'
  consume_claim-Kept o [] c s = unfold consume_claim in (refl, s)
  consume_claim-Kept o (e ∷ es) c s = elim (Option-cases c.returned) [
    | inr (r, ended) ↦ rw (consume_claim-returned o (e ∷ es) c r ended) (refl, s)
    | inl running ↦
        let (h, s') = claim_step-Kept o e c running in
        let (h', s'') = consume_claim-Kept o es (claim_step consume o e c) s' in
        rw (consume_claim-running o e es c running) (
          h'
              ∙ ap (λ l. l ++ came es) h
              ∙ append_assoc (held c) (came (e ∷ [])) (came es)
              ∙ ap (held c ++◌) (sym (came-cons e es)),
          s'',
        )
  ]

  -- From the start of a claim, whatever events come, the messages handed to the handler, then those
  -- collected, then those not read are the messages that came, each once and in order; and once
  -- ConsumeClaim has returned, with an error or without, nothing is left collected.
  pub consume_claim_keeps :
      (o : BatchOptions) (es : List Event) (h : H)
      → let (unread, c) = consume_claim consume o es (opened consume o h) in
        (handed_over c.flushes ++ (c.batch ++ came unread) ≡ came es) × IsSettled c
  consume_claim_keeps o es h =
      let (e, s) = consume_claim-Kept o es (opened consume o h) tt in
      let c = (consume_claim consume o es (opened consume o h)).1 in
      (sym (append_assoc (handed_over c.flushes) c.batch _) ∙ e, s)
