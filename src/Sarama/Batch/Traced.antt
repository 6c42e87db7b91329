-- ===== src/Sarama/Batch/Traced.antt =====
-- Whatever a handler does: no message has two spans, the spans are counted, and all are ended.
use go_collector.Base.{
  ℕ, suc, zero, false, List, [], ◌∷◌, ◌++◌, ◌≡◌, refl, sym, ap, ◌∙◌, Option, none, some, length,
  length-append, ◌==◌, arith, Bool-cases, Option-cases, inl, inr,
}
use go_collector.Base.Bytes.{Bytes}
use go_collector.Messaging.{Outcome, returns, panics, mark_error}
use go_collector.Sarama.Batch.Handler.{
  Handler, done, ask, note, for_each, on_span, mark_active, forget_running, each_one, go_round,
  each_from, after_each, handle,
}
use go_collector.Sarama.Batch.Spans.{
  World, mint, start, end_at, end_active, end_running, leave_running, open_for, context_for,
}
use go_collector.Sarama.Batch.{
  Active, minted, outside, MessageContext, Batch, same, modify, context_of,
}
use go_collector.Sarama.{is_never, ConsumerMessage}
use go_collector.Tracing.{Context, Span}

abbrev pub Distinct : List MessageContext → Type 0
Distinct [] = Unit
Distinct (c ∷ cs) = (context_of c.address cs ≡ none) × Distinct cs

context_of-append :
    (a : ℕ) (cs : List MessageContext) (c : MessageContext)
    → context_of a cs ≡ none
    → (c.address == a) ≡ false
    → context_of a (cs ++ (c ∷ [])) ≡ none
unfolding context_of
context_of-append a [] c h d = rw d refl
context_of-append a (x ∷ cs) c h d = elim (Bool-cases (x.address == a)) [
  | inl found ↦ absurd (ground (arith, found))
  | inr other ↦ rw other (context_of-append a cs c (rw other at h) d)
]

Distinct-append :
    (cs : List MessageContext) (c : MessageContext)
    → Distinct cs
    → context_of c.address cs ≡ none
    → Distinct (cs ++ (c ∷ []))
unfolding context_of
Distinct-append [] c d h = (refl, tt)
Distinct-append (x ∷ cs) c d h =
    let other : (x.address == c.address) ≡ false = ground arith in
    let back : (c.address == x.address) ≡ false = ground arith in
    (context_of-append x.address cs c d.0 back, Distinct-append cs c d.1 (rw other at h))

abbrev pub IsTraced : Batch → Type 0
IsTraced b =
    (b.ended ≡ false)
    × (b.traced ≡ length b.spans)
    × (length b.contexts ≡ length b.spans)
    × Distinct b.contexts

modify-length : (n : ℕ) (f : Span → Span) (ss : List Span) → length (modify n f ss) ≡ length ss
modify-length n f [] = refl
modify-length zero f (s ∷ ss) = refl
modify-length (suc n) f (s ∷ ss) = ap suc (modify-length n f ss)

module _ (w : World) where
  end_at-length : (now : Bytes) (n : ℕ) (ss : List Span) → length (end_at w now n ss).1 ≡ length ss
  unfolding end_at
  end_at-length now n [] = refl
  end_at-length now zero (s ∷ ss) = refl
  end_at-length now (suc n) (s ∷ ss) = ap suc (end_at-length now n ss)

  end_active-IsTraced : (a : Active) (b : Batch) → IsTraced b → IsTraced (end_active w a b)
  end_active-IsTraced outside b t = t
  end_active-IsTraced (minted n) b (o, t, c, d) =
      let e = end_at-length (w.clock (length b.effects)) n b.spans in (o, t ∙ sym e, c ∙ sym e, d)

  mint-IsTraced :
      (m : ConsumerMessage) (b : Batch)
      → context_of m.address b.contexts ≡ none
      → IsTraced b
      → IsTraced (mint w m b).1
  unfolding mint
  mint-IsTraced m b new (o, t, c, d) = (
    o,
    omega (arith, length-append {0} b.spans, t),
    omega (arith, length-append {0} b.spans, length-append {0} b.contexts),
    Distinct-append b.contexts _ d new,
  )

  start-new :
      (m : ConsumerMessage) (b : Batch)
      → context_of m.address b.contexts ≡ none
      → start w m b ≡ mint w m b
  unfolding start
  start-new m b new = rw (start, new) refl

  start-old :
      (m : ConsumerMessage) (b : Batch) (c : MessageContext)
      → context_of m.address b.contexts ≡ some c
      → start w m b ≡ ((c.context, c.active), b)
  unfolding start
  start-old m b c old = rw (start, old) refl

  pub start-IsTraced : (m : ConsumerMessage) (b : Batch) → IsTraced b → IsTraced (start w m b).1
  start-IsTraced m b t = elim (Option-cases (context_of m.address b.contexts)) [
    | inl new ↦ rw (start-new m b new) (mint-IsTraced m b new t)
    | inr (c, old) ↦ rw (start-old m b c old) t
  ]

  end_running-IsTraced : (b : Batch) → IsTraced b → IsTraced (end_running w b)
  end_running-IsTraced b t = elim (Option-cases b.running) [
    | inl idle ↦ rw (end_running, idle) t
    | inr (n, busy) ↦ rw (end_running, busy) (end_active-IsTraced (minted n) b t)
  ]

  leave_running-IsTraced :
      (m : ConsumerMessage) (b : Batch) → IsTraced b → IsTraced (leave_running w m b)
  leave_running-IsTraced m b t = elim (Bool-cases (same m.address b.running_message)) [
    | inl this ↦ rw (leave_running, this) t
    | inr other ↦ rw (leave_running, other) (end_running-IsTraced b t)
  ]

  open_for-IsTraced : (m : ConsumerMessage) (b : Batch) → IsTraced b → IsTraced (open_for w m b).1
  open_for-IsTraced m b t = start-IsTraced m (leave_running w m b) (leave_running-IsTraced m b t)

  context_for-IsTraced :
      (m : Option ConsumerMessage) (b : Batch) → IsTraced b → IsTraced (context_for w m b).1
  unfolding context_for
  context_for-IsTraced none b t = t
  context_for-IsTraced (some m) b t = elim (Option-cases (context_of m.address b.contexts)) [
    | inr (c, old) ↦ rw (context_for, old) t
    | inl new ↦ elim (Bool-cases (is_never b.options.message_spans)) [
      | inl off ↦ rw (context_for, new, off) t
      | inr on ↦ rw (context_for, new, on) (open_for-IsTraced m b t)
    ]
  ]

  pub on_span-IsTraced : (f : Span → Span) (b : Batch) → IsTraced b → IsTraced (on_span f b)
  on_span-IsTraced f b t = elim (Option-cases b.span) [
    | inl absent ↦ rw (on_span, absent) t
    | inr (s, present) ↦ rw (on_span, present) t
  ]

  mark_active-IsTraced :
      (out : Outcome) (a : Active) (b : Batch) → IsTraced b → IsTraced (mark_active out a b)
  mark_active-IsTraced (returns (some e)) (minted n) b (o, t, c, d) =
      let l = modify-length n (mark_error e) b.spans in (o, t ∙ sym l, c ∙ sym l, d)
  mark_active-IsTraced (returns (some e)) outside b t = t
  mark_active-IsTraced (returns none) a b t = t
  mark_active-IsTraced (panics p) a b t = t

  forget_running-IsTraced :
      (m : ConsumerMessage) (b : Batch) → IsTraced b → IsTraced (forget_running m b)
  forget_running-IsTraced m b t = elim (Bool-cases (same m.address b.running_message)) [
    | inl this ↦ rw (forget_running, this) t
    | inr other ↦ rw (forget_running, other) t
  ]

  each_one-IsTraced :
      (fn : Context → Batch → Outcome × Batch) (m : ConsumerMessage) (b : Batch)
      → ((ctx : Context) (b' : Batch) → IsTraced b' → IsTraced (fn ctx b').1)
      → IsTraced b
      → IsTraced (each_one w fn m b).1
  unfolding each_one
  each_one-IsTraced fn m b keeps t = elim (Bool-cases (is_never b.options.message_spans)) [
    | inl off ↦ rw (each_one, off) (keeps b.ctx b t)
    | inr on ↦
        let ((ctx, active), b') = start w m (forget_running m b) in
        rw (each_one, on)
          (end_active-IsTraced active _ (
            mark_active-IsTraced (fn ctx b').0 active _
              (keeps ctx b' (start-IsTraced m _ (forget_running-IsTraced m b t)))))
  ]

  go_round-IsTraced :
      (rest : Batch → Outcome × Batch) (r : Outcome × Batch)
      → ((b : Batch) → IsTraced b → IsTraced (rest b).1)
      → IsTraced r.1
      → IsTraced (go_round w rest r).1
  go_round-IsTraced rest (returns none, b) keeps t = keeps b t
  go_round-IsTraced rest (returns (some e), b) keeps t = t
  go_round-IsTraced rest (panics p, b) keeps t = t

  each_from-IsTraced :
      (fn : Context → ConsumerMessage → Batch → Outcome × Batch)
      (ms : List (Option ConsumerMessage)) (b : Batch)
      → ((ctx : Context) (m : ConsumerMessage) (b' : Batch)
          → IsTraced b'
          → IsTraced (fn ctx m b').1)
      → IsTraced b
      → IsTraced (each_from w fn ms b).1
  unfolding each_from
  each_from-IsTraced fn [] b keeps t = t
  each_from-IsTraced fn (none ∷ ms) b keeps t = each_from-IsTraced fn ms b keeps t
  each_from-IsTraced fn (some m ∷ ms) b keeps t =
      go_round-IsTraced (each_from w fn ms) (each_one w (λ ctx b'. fn ctx m b') m b)
        (λ b' t'. each_from-IsTraced fn ms b' keeps t')
        (each_one-IsTraced (λ ctx b'. fn ctx m b') m b (λ ctx b' t'. keeps ctx m b' t') t)

  after_each-IsTraced :
      (k : Option Bytes → Batch → Outcome × Batch) (r : Outcome × Batch)
      → ((e : Option Bytes) (b : Batch) → IsTraced b → IsTraced (k e b).1)
      → IsTraced r.1
      → IsTraced (after_each w k r).1
  after_each-IsTraced k (returns e, b) keeps t = keeps e b t
  after_each-IsTraced k (panics p, b) keeps t = t

  pub handle-IsTraced : (h : Handler) (b : Batch) → IsTraced b → IsTraced (handle w h b).1
  unfolding handle
  handle-IsTraced (done out) b t = t
  handle-IsTraced (ask m k) b t = handle-IsTraced (k _) _ (context_for-IsTraced m b t)
  handle-IsTraced (note key value k) b t = handle-IsTraced k _ (on_span-IsTraced _ b t)
  handle-IsTraced (for_each body k) b t =
      after_each-IsTraced (λ e b'. handle w (k e) b')
        (each_from w (λ ctx m b'. handle w (body ctx m) b') b.messages b)
        (λ e b' t'. handle-IsTraced (k e) b' t')
        (each_from-IsTraced (λ ctx m b'. handle w (body ctx m) b') b.messages b
          (λ ctx m b' t'. handle-IsTraced (body ctx m) b' t') t)
