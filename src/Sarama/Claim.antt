-- ===== src/Sarama/Claim.antt =====
-- contrib/sarama/batch.go: the loop of ConsumeClaim, which collects the messages of a claim and hands
-- them over in batches. A round of the loop is an event that `select` takes; the timer's channel
-- holds at most one value.
pub mod Kept
pub mod Limits
pub mod Live
use go_collector.Base.{
  ℕ, Bool, true, false, List, [], ◌∷◌, ◌++◌, ◌+◌, Option, none, some, length, if◌then◌else◌,
}
use go_collector.Base.Int.{ℤ}
use go_collector.Sarama.{ConsumerMessage, BatchOptions, full, wait_of}

-- Why a batch closed.
pub data Trigger : Type 0 where
  channel_closed is_full max_wait shutdown : Trigger

pub record Flush : Type 0 where
  pub messages : List ConsumerMessage
  pub trigger : Trigger

-- `ticking` while it has still to fire, and `ready` while its channel holds a value.
pub record Timer : Type 0 where
  pub wait : ℤ
  pub ticking : Bool
  pub ready : Bool

abbrev pub new_timer : ℤ → Timer
new_timer wait = record { wait = wait; ticking = true; ready = false }

abbrev pub expire : Timer → Timer
expire t = if t.ticking then record t { ticking = false; ready = true } else t

abbrev pub take_value : Timer → Timer
take_value t = record t { ready = false }

abbrev pub reset_timer : ℤ → Timer → Timer
reset_timer wait t = record t { wait = wait; ticking = true }

-- `!timer.Stop()` is that it was not ticking; the value in its channel is taken before the reset.
abbrev pub stop_and_reset : ℤ → Timer → Timer
stop_and_reset wait t = reset_timer wait (if t.ticking then t else take_value t)

-- A received nil is a closed channel; `fires` is the runtime's, and no round of the loop.
pub data Event : Type 0 where
  receives : Option ConsumerMessage → Event
  times_out : Event
  cancelled : Event
  fires : Event

-- `returned` is what ConsumeClaim returned, once it has; `handler` is the state of the application's
-- handler, and `flushes` what it was handed so far.
pub record ClaimState (H E : Type 0) : Type 0 where
  pub batch : List ConsumerMessage
  pub bytes : ℕ
  pub timer : Timer
  pub flushes : List Flush
  pub handler : H
  pub returned : Option (Option E)

-- `consume` is the method `flush` with the application's ConsumeBatch in it: the error, or none.
module _ {H E : Type 0} (consume : H → Flush → Option E × H) where
  abbrev pub opened : BatchOptions → H → ClaimState H E
  opened o h = record {
    batch = [];
    bytes = 0;
    timer = new_timer (wait_of o);
    flushes = [];
    handler = h;
    returned = none;
  }

  -- The closure `flush`, on what is collected: its error, and the state behind it.
  unfoldable pub flush_held :
      List ConsumerMessage → Trigger → ClaimState H E → Option E × ClaimState H E
  flush_held [] why c = (none, c)
  flush_held (m ∷ ms) why c =
      let flush : Flush = record { messages = m ∷ ms; trigger = why } in
      let (err, h) = consume c.handler flush in
      (err, record c { batch = []; bytes = 0; flushes = c.flushes ++ (flush ∷ []); handler = h })

  abbrev pub flush_claim : Trigger → ClaimState H E → Option E × ClaimState H E
  flush_claim why c = flush_held c.batch why c

  -- return flush(why)
  abbrev pub flush_and_return : Trigger → ClaimState H E → ClaimState H E
  flush_and_return why c = let (err, c') = flush_claim why c in record c' { returned = some err }

  -- if err != nil { return err }, and what follows it on the timer.
  abbrev pub go_on : (Timer → Timer) → Option E × ClaimState H E → ClaimState H E
  go_on again (some e, c) = record c { returned = some (some e) }
  go_on again (none, c) = record c { timer = again c.timer }

  abbrev pub flush_and_go_on : Trigger → (Timer → Timer) → ClaimState H E → ClaimState H E
  flush_and_go_on why again c = go_on again (flush_claim why c)

  unfoldable pub accumulate : BatchOptions → ConsumerMessage → ClaimState H E → ClaimState H E
  accumulate o m c =
      let c' = record c { batch = c.batch ++ (m ∷ []); bytes = c.bytes + length m.value } in
      if full o (length c'.batch) c'.bytes
      then flush_and_go_on is_full (stop_and_reset (wait_of o)) c'
      else c'

  -- `times_out` can be taken only while the channel of the timer holds a value.
  unfoldable pub claim_step : BatchOptions → Event → ClaimState H E → ClaimState H E
  claim_step o (receives none) c = flush_and_return channel_closed c
  claim_step o (receives (some m)) c = accumulate o m c
  claim_step o times_out c =
      if c.timer.ready
      then flush_and_go_on max_wait (reset_timer (wait_of o))
          (record c { timer = take_value c.timer })
      else c
  claim_step o cancelled c = flush_and_return shutdown c
  claim_step o fires c = record c { timer = expire c.timer }

  -- The events that the loop did not get to, because it had returned, and its last state.
  unfoldable pub consume_claim :
      BatchOptions → List Event → ClaimState H E → List Event × ClaimState H E
  consume_claim o [] c = ([], c)
  consume_claim o (e ∷ es) c = elim c.returned [
    | some _ ↦ (e ∷ es, c)
    | none ↦ consume_claim o es (claim_step o e c)
  ]
