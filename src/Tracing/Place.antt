-- ===== src/Tracing/Place.antt =====
-- tracing.go: where a span stands in a trace, which its attributes do not change.
use go_collector.Base.{Bool, true, ◌≡◌, refl, some, length, leb, Bool-cases, inl, inr}
use go_collector.Base.Bytes.{Bytes}
use go_collector.Propagation.Traceparent.{IsIds}
use go_collector.Tracing.{
  Client, Context, Drawn, Span, set_attribute, start_span, client_span, inherited,
}

-- What places a span in a trace.
abbrev pub Place : Type 0
Place = Bytes × Bytes × Bytes × Bool × Bytes × Bytes

abbrev pub place : Span → Place
place s = (s.trace_id, s.span_id, s.parent_id, s.sampled, s.tracestate, s.baggage)

abbrev pub HasIds : Place → Type 0
HasIds x = IsIds x.0 x.1

pub set_attribute-place : (k v : Bytes) (s : Span) → place (set_attribute k v s) ≡ place s
unfolding set_attribute
set_attribute-place k v s = elim (Bool-cases (leb 64 (length s.attributes))) [
  | inl full ↦ rw full refl
  | inr room ↦ rw room refl
]

-- The span that a client with tracing on starts is the one in the context.
pub start_span-carried :
    (c : Client) (ctx : Context) (name : Bytes) (drawn : Drawn)
    → c.cfg.enabled ≡ true
    → c.cfg.apm_enabled ≡ true
    → start_span (some c) ctx name drawn ≡ (
      some (client_span c (inherited ctx drawn) name drawn),
      client_span c (inherited ctx drawn) name drawn,
    )
unfolding start_span
start_span-carried c ctx name drawn e a = rw (start_span, e, a) refl
