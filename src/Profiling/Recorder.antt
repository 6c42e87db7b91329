-- ===== src/Profiling/Recorder.antt =====
-- ioRecorder of profile_io.go. A wait is of any type; the mutex makes each method one step.
use go_collector.Base.{
  ℕ, ◌+◌, ◌≤◌, List, [], ◌∷◌, ◌++◌, ◌≡◌, sym, arith, length, length-append, leb, append-nil,
  append_assoc, if◌then◌else◌, Bool-cases, inl, inr,
}
use go_collector.Base.Int.{ℤ, pos, pos_part, ltb_ℤ}
use go_collector.Base.Subseq.{Subseq, nil, Subseq-append, Subseq-refl, Subseq-more}

pub record IoRecorder (A : Type 0) : Type 0 where
  pub waits : List A
  pub max : ℕ
  pub max_depth : ℕ
  pub dropped : ℕ

abbrev pub or_size : ℤ → ℕ → ℕ
or_size n d = if ltb_ℤ (pos 0) n then pos_part n else d

-- What the instrumented clients and the flushes do to a recorder.
pub data Call (A : Type 0) : Type 0 where
  measured : A → Call A
  drained : Call A

-- The recorder, what the drains have returned, and what was measured, both in order.
pub record Trace (A : Type 0) : Type 0 where
  pub recorder : IoRecorder A
  pub flushed : List A
  pub offered : List A

module _ {A : Type 0} where
  unfoldable pub new_io_recorder : ℤ → ℤ → IoRecorder A
  new_io_recorder max max_depth = record {
    waits = [];
    max = or_size max 4096;
    max_depth = or_size max_depth 64;
    dropped = 0;
  }

  unfoldable pub add : IoRecorder A → A → IoRecorder A
  add r w =
      if leb r.max (length r.waits)
      then record r { dropped = r.dropped + 1 }
      else record r { waits = r.waits ++ w ∷ [] }

  -- The waits, and the recorder without them.
  abbrev pub drain : IoRecorder A → List A × IoRecorder A
  drain r = (r.waits, record r { waits = [] })

  abbrev pub call : Call A → Trace A → Trace A
  call (measured w) t = record t { recorder = add t.recorder w; offered = t.offered ++ w ∷ [] }
  call drained t = record t {
    recorder = (drain t.recorder).1;
    flushed = t.flushed ++ (drain t.recorder).0;
  }

  abbrev pub calls : List (Call A) → Trace A → Trace A
  calls [] t = t
  calls (c ∷ cs) t = calls cs (call c t)

  pub record Accounts (t : Trace A) : Type 0 where
    pub within_cap : length t.recorder.waits ≤ t.recorder.max
    pub counted : length t.flushed + length t.recorder.waits + t.recorder.dropped ≡ length t.offered
    pub in_order : Subseq (t.flushed ++ t.recorder.waits) t.offered

  measured-Accounts : (w : A) (t : Trace A) → Accounts t → Accounts (call (measured w) t)
  unfolding add
  measured-Accounts w t a =
      let sum = length-append {0} t.offered (w ∷ []) in
      let sum' = length-append {0} t.recorder.waits (w ∷ []) in
      elim (Bool-cases (leb t.recorder.max (length t.recorder.waits))) [
        | inl full ↦ rw full (record {
          within_cap = a.within_cap;
          counted = omega (arith, a.counted, sum);
          in_order = Subseq-more (w ∷ []) a.in_order;
        })
        | inr room ↦ rw room (record {
          within_cap = ground (arith, sum');
          counted = omega (arith, a.counted, sum, sum');
          in_order =
              rw (sym (append_assoc t.flushed t.recorder.waits (w ∷ [])))
                (Subseq-append a.in_order (Subseq-refl (w ∷ [])));
        })
      ]

  drained-Accounts : (t : Trace A) → Accounts t → Accounts (call drained t)
  drained-Accounts t a = record {
    within_cap = omega arith;
    counted = omega (arith, a.counted, length-append {0} t.flushed t.recorder.waits);
    in_order = rw (append-nil (t.flushed ++ t.recorder.waits)) a.in_order;
  }

  calls-Accounts : (cs : List (Call A)) (t : Trace A) → Accounts t → Accounts (calls cs t)
  calls-Accounts [] t a = a
  calls-Accounts (measured w ∷ cs) t a =
      calls-Accounts cs (call (measured w) t) (measured-Accounts w t a)
  calls-Accounts (drained ∷ cs) t a = calls-Accounts cs (call drained t) (drained-Accounts t a)

  abbrev pub fresh : ℤ → ℤ → Trace A
  fresh max max_depth = record {
    recorder = new_io_recorder max max_depth;
    flushed = [];
    offered = [];
  }

  -- Whatever sizes are configured, and however measured calls and flushes follow each other, a recorder
  -- never holds more waits than its cap, each wait that was measured is flushed, held or counted as
  -- dropped, and those flushed and then those held are in the order of their measurement.
  pub new_io_recorder-Accounts :
      (max max_depth : ℤ) (cs : List (Call A)) → Accounts (calls cs (fresh max max_depth))
  unfolding new_io_recorder
  new_io_recorder-Accounts max max_depth cs =
      calls-Accounts cs (fresh max max_depth)
        (record { within_cap = omega arith; counted = omega arith; in_order = nil })
