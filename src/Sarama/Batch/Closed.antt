-- ===== src/Sarama/Batch/Closed.antt =====
-- The end of a flush: every span of it is ended, whatever its handler did and however it left.
use go_collector.Base.{
  ℕ, suc, true, not, ◌||◌, List, [], ◌∷◌, ◌≡◌, refl, sym, ap, ◌∙◌, Option, none, some, length, All,
  Bool-cases, Option-cases, inl, inr,
}
use go_collector.Base.Bytes.{Bytes, is_empty}
use go_collector.Messaging.{Outcome, returns, panics, mark_error}
use go_collector.Resource.{Build}
use go_collector.Sarama.Batch.Handler.{
  Handler, handle, start_messages, start_ahead, finish_run, run_batch,
}
use go_collector.Sarama.Batch.Spans.{World, end_batch, end_all, end_batch_span}
use go_collector.Sarama.Batch.Traced.{
  Distinct, IsTraced, handle-IsTraced, start-IsTraced, on_span-IsTraced,
}
use go_collector.Sarama.Batch.{Batch, new_batch, last_of}
use go_collector.Sarama.{BatchOptions, ConsumerMessage, is_always}
use go_collector.Tracing.{Client, Context, Drawn, Span, finish, end}

end_ended :
    (sha256 : Bytes → Bytes) (build : Build) (now seed : Bytes) (s : Span)
    → (end sha256 build now seed s).1.ended ≡ true
unfolding end finish
end_ended sha256 build now seed s = elim (Bool-cases s.ended) [
  | inl already ↦ rw already refl
  | inr running ↦ elim (Bool-cases (not s.cfg.enabled || not s.cfg.apm_enabled || is_empty s.dir)) [
    | inl off ↦ rw (running, off) refl
    | inr on ↦ rw (running, on) refl
  ]
]

abbrev pub IsEnded : Span → Type 0
IsEnded s = s.ended ≡ true

abbrev pub IsGone : Option Span → Type 0
IsGone none = Unit
IsGone (some s) = IsEnded s

-- What is left behind a flush: the batch and each of its spans are ended, the spans are counted, and no
-- two of them are for one message.
abbrev pub IsClosed : Batch → Type 0
IsClosed b =
    (b.ended ≡ true)
    × All IsEnded b.spans
    × IsGone b.span
    × (b.traced ≡ length b.spans)
    × (length b.contexts ≡ length b.spans)
    × Distinct b.contexts

module _ (w : World) where
  end_all-IsEnded : (n : ℕ) (ss : List Span) → All IsEnded (end_all w n ss).1
  end_all-IsEnded n [] = tt
  end_all-IsEnded n (s ∷ ss) =
      (end_ended w.sha256 w.build (w.clock n) w.seed s, end_all-IsEnded (suc n) ss)

  end_all-length : (n : ℕ) (ss : List Span) → length (end_all w n ss).1 ≡ length ss
  end_all-length n [] = refl
  end_all-length n (s ∷ ss) = ap suc (end_all-length (suc n) ss)

  end_batch_span-IsGone : (n traced : ℕ) (s : Option Span) → IsGone (end_batch_span w n traced s).1
  end_batch_span-IsGone n traced none = tt
  end_batch_span-IsGone n traced (some s) = end_ended w.sha256 w.build (w.clock n) w.seed _

  end_batch-IsClosed : (b : Batch) → IsTraced b → IsClosed (end_batch w b)
  unfolding end_batch
  end_batch-IsClosed b (o, t, c, d) =
      let e = end_all-length (length b.effects) b.spans in
      rw (end_batch, o)
        (
          refl,
          end_all-IsEnded _ b.spans,
          end_batch_span-IsGone _ b.traced b.span,
          t ∙ sym e,
          c ∙ sym e,
          d,
        )

  start_messages-IsTraced :
      (ms : List (Option ConsumerMessage)) (b : Batch)
      → IsTraced b
      → IsTraced (start_messages w ms b)
  start_messages-IsTraced [] b t = t
  start_messages-IsTraced (none ∷ ms) b t = start_messages-IsTraced ms b t
  start_messages-IsTraced (some m ∷ ms) b t = start_messages-IsTraced ms _ (start-IsTraced w m b t)

  start_ahead-IsTraced : (b : Batch) → IsTraced b → IsTraced (start_ahead w b)
  start_ahead-IsTraced b t = elim (Bool-cases (is_always b.options.message_spans)) [
    | inl always ↦ rw (start_ahead, always) (start_messages-IsTraced b.messages b t)
    | inr asked ↦ rw (start_ahead, asked) t
  ]

  finish_run-IsClosed :
      (r : Outcome × Batch) → IsTraced r.1 → (finish_run w r).0 ≡ r.0 × IsClosed (finish_run w r).1
  finish_run-IsClosed (returns none, b) t = (refl, end_batch-IsClosed b t)
  finish_run-IsClosed (returns (some e), b) t =
      (refl, end_batch-IsClosed _ (on_span-IsTraced w (mark_error e) b t))
  finish_run-IsClosed (panics p, b) t =
      (refl, end_batch-IsClosed _ (on_span-IsTraced w (mark_error _) b t))

  abbrev IfTraced : Option Batch → Type 0
  IfTraced none = Unit
  IfTraced (some b) = IsTraced b

  new_batch-IfTraced :
      (ctx : Context) (c : Option Client) (o : BatchOptions) (ms : List (Option ConsumerMessage))
      (drawn : Drawn)
      → IfTraced (new_batch ctx c o ms drawn)
  unfolding new_batch
  new_batch-IfTraced ctx c o [] drawn = (refl, refl, refl, tt)
  new_batch-IfTraced ctx c o (none ∷ ms) drawn = tt
  new_batch-IfTraced ctx c o (some first ∷ ms) drawn =
      elim (Option-cases (last_of (some first) ms)) [
        | inl absent ↦ rw (new_batch, absent) tt
        | inr (last, there) ↦ rw (new_batch, there) (refl, refl, refl, tt)
      ]

  -- A flush of a new batch hands its handler's outcome on, an error or a panic included, and leaves the
  -- batch span and every message span ended, no message with two spans, and their number counted,
  -- whatever the handler does to the batch.
  pub run_batch-IsClosed :
      (ctx : Context) (c : Option Client) (o : BatchOptions) (ms : List (Option ConsumerMessage))
      (drawn : Drawn) (h : Handler) (b : Batch)
      → new_batch ctx c o ms drawn ≡ some b
      → ((run_batch w h b).0 ≡ (handle w h (start_ahead w b)).0) × IsClosed (run_batch w h b).1
  run_batch-IsClosed ctx c o ms drawn h b e =
      let fresh = rw e at (new_batch-IfTraced ctx c o ms drawn) in
      finish_run-IsClosed (handle w h (start_ahead w b))
        (handle-IsTraced w h _ (start_ahead-IsTraced b fresh))
