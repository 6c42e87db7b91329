-- ===== src/Sarama/Headers/RoundTrip.antt =====
-- A trace across the broker: what a consumer extracts from the headers that a producer injected.
use go_collector.Base.{
  false, ◌||◌, List, [], ◌∷◌, ◌++◌, map, ◌≡◌, refl, ap, ◌∙◌, Option, some, if◌then◌else◌, arith,
  Bool-cases, inl, inr,
}
use go_collector.Base.Bytes.{Bytes, is_empty}
use go_collector.Propagation.Baggage.{normalize_baggage}
use go_collector.Propagation.Traceparent.{IsIds, parse_traceparent_context-format_traceparent}
use go_collector.Propagation.Tracestate.{normalize_tracestate}
use go_collector.Sarama.{RecordHeader}
use go_collector.Sarama.Headers.{
  traceparent_header, tracestate_header, baggage_header, enqueued_at_header, has_header, set_header,
  inject, Carrier, no_carrier, read_header, read_headers, remote_of, extract,
}
use go_collector.Text.Fold.{equal_fold}
use go_collector.Tracing.{Span, Context, traceparent, remote_context}

abbrev pub sent : List RecordHeader → List (Option RecordHeader)
sent hs = map (λ h. some h) hs

read_headers-append :
    (hs : List RecordHeader) (h : RecordHeader) (c : Carrier)
    → read_headers (sent (hs ++ (h ∷ []))) c ≡ read_header h (read_headers (sent hs) c)
unfolding read_headers
read_headers-append [] h c = refl
read_headers-append (g ∷ hs) h c = read_headers-append hs h (read_header g c)

has_header-append :
    (key : Bytes) (hs : List RecordHeader) (h : RecordHeader)
    → has_header key (hs ++ (h ∷ [])) ≡ has_header key hs || equal_fold h.key key
unfolding has_header
has_header-append key [] h = ground arith
has_header-append key (g ∷ hs) h = ground (arith, has_header-append key hs h)

-- A header that no header in front has the key of.
abbrev put_in : RecordHeader → Carrier → Carrier
put_in h c = if is_empty h.value then c else read_header h c

read_headers-set_header :
    (key value : Bytes) (hs : List RecordHeader) (c : Carrier)
    → has_header key hs ≡ false
    → read_headers (sent (set_header key value hs)) c
      ≡ put_in (record { key = key; value = value }) (read_headers (sent hs) c)
unfolding set_header
read_headers-set_header key value hs c free = elim (Bool-cases (is_empty value)) [
  | inl absent ↦ rw absent refl
  | inr present ↦ rw (present, free) (read_headers-append hs _ c)
]

has_header-set_header :
    (key other value : Bytes) (hs : List RecordHeader)
    → has_header key hs ≡ false
    → equal_fold other key ≡ false
    → has_header key (set_header other value hs) ≡ false
unfolding set_header
has_header-set_header key other value hs free differs =
    elim (Bool-cases (is_empty value || has_header other hs)) [
      | inl kept ↦ rw kept free
      | inr added ↦ rw added (has_header-append key hs _ ∙ rw (free, differs) refl)
    ]

-- No header of the caller has one of the four keys.
abbrev pub IsFree : List RecordHeader → Type 0
IsFree hs =
    (has_header traceparent_header hs ≡ false)
    × (has_header tracestate_header hs ≡ false)
    × (has_header baggage_header hs ≡ false)
    × (has_header enqueued_at_header hs ≡ false)

read_header-other :
    (h : RecordHeader) (c : Carrier)
    → equal_fold h.key traceparent_header ≡ false
    → equal_fold h.key tracestate_header ≡ false
    → equal_fold h.key baggage_header ≡ false
    → equal_fold h.key enqueued_at_header ≡ false
    → read_header h c ≡ c
unfolding read_header
read_header-other h c p s b e = rw (p, s, b, e) refl

IsFree-tail : (h : RecordHeader) (hs : List RecordHeader) → IsFree (h ∷ hs) → IsFree hs
unfolding has_header
IsFree-tail h hs (p, s, b, e) = (ground arith, ground arith, ground arith, ground arith)

read_headers-IsFree :
    (hs : List RecordHeader) (c : Carrier) → IsFree hs → read_headers (sent hs) c ≡ c
unfolding read_headers has_header
read_headers-IsFree [] c free = refl
read_headers-IsFree (h ∷ hs) c free =
    let (p, s, b, e) = free in
    ap (read_headers (sent hs))
      (read_header-other h c (ground arith) (ground arith) (ground arith) (ground arith))
    ∙ read_headers-IsFree hs c (IsFree-tail h hs free)

abbrev carried : Bytes → Bytes → Bytes → Bytes → Carrier
carried p s b e = record { traceparent = p; tracestate = s; baggage = b; enqueued_at = e }

put_in-traceparent :
    (v s b e : Bytes)
    → put_in (record { key = traceparent_header; value = v }) (carried [] s b e) ≡ carried v s b e
unfolding read_header equal_fold
put_in-traceparent [] s b e = refl
put_in-traceparent (c ∷ v) s b e = refl

put_in-tracestate :
    (v p b e : Bytes)
    → put_in (record { key = tracestate_header; value = v }) (carried p [] b e) ≡ carried p v b e
unfolding read_header equal_fold
put_in-tracestate [] p b e = refl
put_in-tracestate (c ∷ v) p b e = refl

put_in-baggage :
    (v p s e : Bytes)
    → put_in (record { key = baggage_header; value = v }) (carried p s [] e) ≡ carried p s v e
unfolding read_header equal_fold
put_in-baggage [] p s e = refl
put_in-baggage (c ∷ v) p s e = refl

put_in-enqueued_at :
    (v p s b : Bytes)
    → put_in (record { key = enqueued_at_header; value = v }) (carried p s b []) ≡ carried p s b v
unfolding read_header equal_fold
put_in-enqueued_at [] p s b = refl
put_in-enqueued_at (c ∷ v) p s b = refl

read_headers-inject :
    (ctx : Context) (at : Bytes) (hs : List RecordHeader)
    → IsFree hs
    → read_headers (sent (inject ctx at hs)) no_carrier
      ≡ carried (traceparent ctx) (remote_context ctx).tracestate (remote_context ctx).baggage at
unfolding inject equal_fold
read_headers-inject ctx at hs (p, s, b, e) =
    let t0 = traceparent ctx in
    let t1 = (remote_context ctx).tracestate in
    let t2 = (remote_context ctx).baggage in
    let h1 = set_header traceparent_header t0 hs in
    let h2 = set_header tracestate_header t1 h1 in
    let h3 = set_header baggage_header t2 h2 in
    let s1 = has_header-set_header tracestate_header traceparent_header t0 hs s refl in
    let b1 = has_header-set_header baggage_header traceparent_header t0 hs b refl in
    let b2 = has_header-set_header baggage_header tracestate_header t1 h1 b1 refl in
    let e1 = has_header-set_header enqueued_at_header traceparent_header t0 hs e refl in
    let e2 = has_header-set_header enqueued_at_header tracestate_header t1 h1 e1 refl in
    let e3 = has_header-set_header enqueued_at_header baggage_header t2 h2 e2 refl in
    read_headers-set_header enqueued_at_header at h3 no_carrier e3
    ∙ ap (put_in _) (
        read_headers-set_header baggage_header t2 h2 no_carrier b2
        ∙ ap (put_in _) (
            read_headers-set_header tracestate_header t1 h1 no_carrier s1
            ∙ ap (put_in _) (
                read_headers-set_header traceparent_header t0 hs no_carrier p
                ∙ ap (put_in _) (read_headers-IsFree hs no_carrier (p, s, b, e))
                ∙ put_in-traceparent t0 [] [] [])
            ∙ put_in-tracestate t1 t0 [] [])
        ∙ put_in-baggage t2 t0 t1 [])
    ∙ put_in-enqueued_at at t0 t1 t2

-- From the headers that inject wrote for a span whose ids W3C allows, behind headers of the caller
-- that have none of the four keys, extract reads the span's trace id, its id and its sampling
-- decision, set or not, its tracestate and its baggage normalised, and the time of the publish.
pub extract-inject :
    (s : Span) (at : Bytes) (hs : List RecordHeader)
    → IsFree hs
    → IsIds s.trace_id s.span_id
    → extract (sent (inject (some s) at hs)) ≡ (
      record (remote_context (some s)) {
        tracestate = normalize_tracestate s.tracestate;
        baggage = normalize_baggage s.baggage;
      },
      at,
    )
unfolding remote_of
extract-inject s at hs free ids =
    ap remote_of (read_headers-inject (some s) at hs free)
    ∙ rw
        (remote_of, parse_traceparent_context-format_traceparent s.trace_id s.span_id s.sampled ids)
        refl
