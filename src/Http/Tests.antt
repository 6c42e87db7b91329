-- ===== src/Http/Tests.antt =====
-- The theorems of the HTTP instrumentation at concrete inputs.
use go_collector.Base.{
  true, false, not, ◌&&◌, List, [], ◌∷◌, ◌≡◌, refl, Option, none, some, length, ltb, take,
}
use mathlib.Core.Option.{map}
use go_collector.Base.Bytes.{Bytes, codes}
use go_collector.Base.Int.{pos, pos_part}
use go_collector.Http.{
  Headers, Body, Request, get_header, body_cap_bytes, http_route, should_skip_http_path,
}
use go_collector.Http.Hop.{or_own, calling, handler-round_trip}
use go_collector.Http.Outbound.{Answer, answered, Called, round_trip}
use go_collector.Http.Recorder.{Act, writes_header, writes, new_recorder, serve}
use go_collector.Http.Recorder.Captured.{passed, written, serve-captured}
use go_collector.Http.Server.{Response}
use go_collector.Http.Server.Passes.{run, handler-IsPassed}
use go_collector.Metrics.{no_counters}
use go_collector.Propagation.Baggage.{normalize_baggage}
use go_collector.Propagation.Traceparent.{IsIds}
use go_collector.Propagation.Tracestate.{normalize_tracestate}
use go_collector.Resource.{Attributes}
use go_collector.Tracing.Sample.{client, drawn, build}
use go_collector.Tracing.Place.{place}
use go_collector.Tracing.{Context, Span, client_span, inherited, start_span}

abbrev plain : Headers
plain = (codes "Content-Type", codes "text/plain" ∷ []) ∷ []

abbrev some_acts : List Act
some_acts = writes_header (pos 201) ∷ writes (codes "abc") ∷ writes (codes "de") ∷ []

serve-captured_example :
    let n = pos_part (body_cap_bytes (get_header (codes "Content-Type") plain) (pos 4)) in
    let r = serve some_acts (new_recorder plain true (pos 4)) in
    (passed r.down ≡ written some_acts)
    × (r.body ≡ take n (written some_acts))
    × ((ltb n (length (written some_acts)) && not r.body_truncated) ≡ false)
serve-captured_example = serve-captured plain (pos 4) some_acts refl refl

abbrev unrendered : Attributes → Option Bytes
unrendered values = none

abbrev request : Request
request = record {
  verb = codes "GET";
  pattern_text = codes "GET /orders";
  url = record {
    path = codes "/orders";
    raw_query = [];
    request_uri = codes "/orders";
    redacted = codes "http://shop/orders";
    host = codes "shop";
  };
  headers = [];
  tls = false;
  host = codes "shop";
  body = none;
  cookies = [];
  query = [];
}

-- It writes, and panics.
abbrev app : Context → Option Body → Response unrendered
app ctx body = record { acts = some_acts; panics = true }

abbrev hash : Bytes → Bytes
hash bytes = bytes

handler-IsPassed_example :
    let v =
      run unrendered hash build drawn.now
        (codes "seed")
        (pos 5)
        (some client)
        app
        none
        request
        drawn
        plain
        no_counters in
    (passed v.recorder.down ≡ written (app v.ctx v.given).acts)
    × (v.panicked ≡ (app v.ctx v.given).panics)
handler-IsPassed_example =
    handler-IsPassed unrendered hash build drawn.now (codes "seed") (pos 5) (some client) app none
      request drawn plain no_counters

-- The span under which the call is made.
abbrev parent : Span
parent = client_span client (inherited none drawn) (codes "GET /shop") drawn

abbrev asking : Request
asking = record request { headers = (codes "Tracestate", codes "vendor=1" ∷ []) ∷ [] }

abbrev answers : Headers → Answer
answers headers = answered (pos 200)

abbrev called : Called
called =
    round_trip hash build drawn.now (codes "seed") answers client (some parent) asking drawn (pos 5)
      [] none

abbrev served : Request
served = record request { headers = called.sent }

not_skipped : should_skip_http_path client.cfg.http_skip_paths (http_route served) ≡ false
unfolding should_skip_http_path http_route
not_skipped = refl

calling-IsIds :
    IsIds (calling client parent asking drawn).trace_id (calling client parent asking drawn).span_id
unfolding start_span
calling-IsIds = record {
  trace_hex = refl;
  span_hex = refl;
  trace_nonzero = refl;
  span_nonzero = refl;
}

handler-round_trip_example :
    let call = calling client parent asking drawn in
    map place
      (run unrendered hash build drawn.now
        (codes "seed")
        (pos 5)
        (some client)
        app
        none
        served
        drawn
        plain
        no_counters).ctx
    ≡ some (
      call.trace_id,
      drawn.span_id,
      call.span_id,
      call.sampled,
      normalize_tracestate
          (or_own call.tracestate (get_header (codes "Tracestate") asking.headers)),
      normalize_baggage (or_own call.baggage (get_header (codes "Baggage") asking.headers)),
    )
handler-round_trip_example =
    handler-round_trip hash build drawn.now (codes "seed") unrendered answers client client parent
      asking served drawn drawn (pos 5) (pos 5) [] none app none plain no_counters refl refl refl
      not_skipped calling-IsIds refl
