-- ===== src/Sarama/Claim/Live.antt =====
-- No collected message waits for ever: while the loop runs its timer is ticking or has fired, so the
-- next time it fires, at the latest, hands over what is collected.
use go_collector.Base.{
  true, not, List, [], ◌∷◌, ◌++◌, ◌≡◌, refl, sym, ap, ◌∙◌, append-nil, Option, none, some, length,
  arith, Bool-cases, Option-cases, inl, inr, ◌+◌,
}
use go_collector.Base.Int.{ℤ}
use go_collector.Sarama.{ConsumerMessage, BatchOptions, full, wait_of}
use go_collector.Sarama.Claim.{
  Trigger, is_full, max_wait, Flush, Timer, Event, receives, times_out, cancelled, fires,
  ClaimState, opened, flush_held, flush_claim, go_on, accumulate, claim_step, consume_claim,
  stop_and_reset, reset_timer, take_value, expire,
}
use go_collector.Sarama.Claim.Kept.{
  consume_claim-returned, consume_claim-running, flush_held-Kept, handed_over,
}

-- Never neither and, since a fired timer is read before it is started again, never both.
abbrev IsArmed : Timer → Type 0
IsArmed t = t.ready ≡ not t.ticking

reset-IsArmed : (wait : ℤ) (t : Timer) → IsArmed t → IsArmed (stop_and_reset wait t)
reset-IsArmed wait t a = ground arith

module _ {H E : Type 0} (consume : H → Flush → Option E × H) (o : BatchOptions) where
  abbrev IsAwake : ClaimState H E → Type 0
  IsAwake c = elim c.returned [ none ↦ IsArmed c.timer | some _ ↦ Unit {0} ]

  IsAwake-IsArmed : (c : ClaimState H E) → c.returned ≡ none → IsAwake c → IsArmed c.timer
  IsAwake-IsArmed c running a = rw running at a

  flush_held-timer :
      (ms : List ConsumerMessage) (why : Trigger) (c : ClaimState H E)
      → (flush_held consume ms why c).1.timer ≡ c.timer
  unfolding flush_held
  flush_held-timer [] why c = refl
  flush_held-timer (m ∷ ms) why c = refl

  go_on-IsAwake :
      (again : Timer → Timer) (r : Option E × ClaimState H E)
      → IsArmed (again r.1.timer)
      → r.1.returned ≡ none
      → IsAwake (go_on consume again r)
  go_on-IsAwake again (some e, c) a running = tt
  go_on-IsAwake again (none, c) a running = rw running a

  accumulate-IsAwake :
      (m : ConsumerMessage) (c : ClaimState H E)
      → c.returned ≡ none
      → IsArmed c.timer
      → IsAwake (accumulate consume o m c)
  unfolding accumulate
  accumulate-IsAwake m c running a =
      elim (Bool-cases (full o (length (c.batch ++ (m ∷ []))) (c.bytes + length m.value))) [
        | inl whole ↦
            let c' : ClaimState H E = record c {
              batch = c.batch ++ (m ∷ []);
              bytes = c.bytes + length m.value;
            } in
            let (_, _, r) = flush_held-Kept consume c'.batch is_full c' refl in
            rw whole (
              go_on-IsAwake (stop_and_reset (wait_of o)) (flush_claim consume is_full c')
                (rw (flush_held-timer c'.batch is_full c') (reset-IsArmed (wait_of o) c.timer a))
                (r ∙ running))
        | inr room ↦ rw room (rw running a)
      ]

  claim_step-IsAwake :
      (e : Event) (c : ClaimState H E)
      → c.returned ≡ none
      → IsArmed c.timer
      → IsAwake (claim_step consume o e c)
  unfolding claim_step
  claim_step-IsAwake (receives (some m)) c running a = accumulate-IsAwake m c running a
  claim_step-IsAwake (receives none) c running a = tt
  claim_step-IsAwake cancelled c running a = tt
  claim_step-IsAwake fires c running a = rw running (ground arith)
  claim_step-IsAwake times_out c running a = elim (Bool-cases c.timer.ready) [
    | inl ready ↦
        let c' : ClaimState H E = record c { timer = take_value c.timer } in
        let (_, _, r) = flush_held-Kept consume c'.batch max_wait c' refl in
        rw ready (
          go_on-IsAwake (reset_timer (wait_of o)) (flush_claim consume max_wait c')
            (rw (flush_held-timer c'.batch max_wait c') refl) (r ∙ running))
    | inr waiting ↦ rw waiting (rw running (sym waiting ∙ a))
  ]

  consume_claim-IsAwake :
      (es : List Event) (c : ClaimState H E) → IsAwake c → IsAwake (consume_claim consume o es c).1
  consume_claim-IsAwake [] c b = unfold consume_claim in b
  consume_claim-IsAwake (e ∷ es) c b = elim (Option-cases c.returned) [
    | inr (r, ended) ↦ rw (consume_claim-returned consume o (e ∷ es) c r ended) b
    | inl running ↦ rw (consume_claim-running consume o e es c running) (
        consume_claim-IsAwake es (claim_step consume o e c)
          (claim_step-IsAwake e c running (IsAwake-IsArmed c running b)))
  ]

  expire-ready : (t : Timer) → IsArmed t → (expire t).ready ≡ true
  expire-ready t a = ground arith

  go_on-flushes :
      (again : Timer → Timer) (r : Option E × ClaimState H E)
      → ((go_on consume again r).flushes ≡ r.1.flushes)
        × ((go_on consume again r).batch ≡ r.1.batch)
  go_on-flushes again (some e, c) = (refl, refl)
  go_on-flushes again (none, c) = (refl, refl)

  hands_over :
      (c : ClaimState H E)
      → c.returned ≡ none
      → IsArmed c.timer
      → let c' = claim_step consume o times_out (claim_step consume o fires c) in
        (handed_over c'.flushes ≡ handed_over c.flushes ++ c.batch) × (c'.batch ≡ [])
  unfolding claim_step
  hands_over c running a =
      let c' : ClaimState H E = record c { timer = take_value (expire c.timer) } in
      let (h, b, _) = flush_held-Kept consume c'.batch max_wait c' refl in
      let (fs, none_left) =
        go_on-flushes (reset_timer (wait_of o)) (flush_claim consume max_wait c') in
      rw (expire-ready c.timer a) (
        ap handed_over fs
            ∙ sym (append-nil _)
            ∙ ap (handed_over (flush_claim consume max_wait c').1.flushes ++◌) (sym b)
            ∙ h,
        none_left ∙ b,
      )

  -- While the loop of a claim has not returned, the firing of its timer and the round that takes it
  -- hand over everything that is collected and leave nothing, whatever events came before.
  pub consume_claim_flushes :
      (es : List Event) (h : H)
      → (consume_claim consume o es (opened consume o h)).1.returned ≡ none
      → let c = (consume_claim consume o es (opened consume o h)).1 in
        let c' = claim_step consume o times_out (claim_step consume o fires c) in
        (handed_over c'.flushes ≡ handed_over c.flushes ++ c.batch) × (c'.batch ≡ [])
  consume_claim_flushes es h running =
      let c = (consume_claim consume o es (opened consume o h)).1 in
      hands_over c running
        (IsAwake-IsArmed c running (consume_claim-IsAwake es (opened consume o h) refl))
