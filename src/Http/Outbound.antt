-- ===== src/Http/Outbound.antt =====
-- Transport and chronosTransport of http.go. The round trip underneath is a parameter: what it answers
-- to the headers that it is sent.
use go_collector.Base.{ℕ, not, List, [], ◌∷◌, ◌++◌, Option, none, some, if◌then◌else◌}
use go_collector.Base.Assoc.{put}
use go_collector.Base.Bytes.{Bytes, codes, is_empty}
use go_collector.Base.Int.{ℤ}
use go_collector.Http.Server.{status_from_code, uint32_status}
use go_collector.Http.{Headers, Request}
use go_collector.Messaging.{attr_int}
use go_collector.Profiling.Io.{IoWait, record_io_wait}
use go_collector.Profiling.Recorder.{IoRecorder}
use go_collector.Resource.{Build}
use go_collector.Tracing.{
  Client, Context, Drawn, Span, Effect, start_span, set_attribute, set_status, traceparent, end,
}

-- A nil response without an error is `nothing_back`.
pub data Answer : Type 0 where
  answered : ℤ → Answer
  failed : Bytes → Answer
  nothing_back : Answer

-- A header is set unless it would be empty, and one that the caller set is then kept.
abbrev pub forward : Bytes → Bytes → Headers → Headers
forward key value hs = if is_empty value then hs else put key (value ∷ []) hs

-- The headers of the cloned request; without a traceparent the caller's request is sent.
unfoldable pub outbound_headers : Span → Headers → Headers
outbound_headers s hs =
    let tp = traceparent (some s) in
    if is_empty tp
    then hs
    else forward (codes "Baggage") s.baggage
        (forward (codes "Tracestate") s.tracestate (put (codes "Traceparent") (tp ∷ []) hs))

abbrev pub describe_call : Request → Span → Span
describe_call r s =
    record (set_attribute (codes "server.address") r.url.host (
      set_attribute (codes "url.full") r.url.redacted (
        set_attribute (codes "http.request.method") r.verb
          (set_attribute (codes "span.kind") (codes "client") s)))) {
            http_method = r.verb;
            http_route = r.url.path;
          }

abbrev pub mark_answer : Answer → Span → Span
mark_answer (failed e) s =
    set_attribute (codes "exception.message") e
      (set_attribute (codes "error") (codes "true") (set_status (codes "error") s))
mark_answer (answered code) s = set_status (status_from_code code) (
    set_attribute (codes "http.response.status_code") (attr_int code)
      (record s { http_status = uint32_status code }))
mark_answer nothing_back s = s

pub record Called : Type 0 where
  pub sent : Headers
  pub answer : Answer
  pub effect : Option Effect
  pub io : Option (IoRecorder IoWait)

module _ (sha256 : Bytes → Bytes) (build : Build) (now seed : Bytes) (next : Headers → Answer) where
  -- A call is traced only under a span.
  abbrev pub call_span : Client → Context → Request → Drawn → Option Span
  call_span c none r drawn = none
  call_span c (some parent) r drawn =
      if not c.cfg.apm_enabled
      then none
      else some
          (describe_call r (start_span (some c) (some parent) (codes "HTTP " ++ r.verb) drawn).1)

  abbrev pub sent_headers : Option Span → Headers → Headers
  sent_headers none hs = hs
  sent_headers (some s) hs = outbound_headers s hs

  abbrev pub end_call : Answer → Option Span → Option Effect
  end_call answer none = none
  end_call answer (some s) = some (end sha256 build now seed (mark_answer answer s)).0

  unfoldable pub round_trip :
      Client → Context → Request → Drawn → ℤ → List ℕ → Option (IoRecorder IoWait) → Called
  round_trip c ctx r drawn duration callers io =
      let span = call_span c ctx r drawn in
      let hs = sent_headers span r.headers in
      let answer = next hs in
      record {
        sent = hs;
        answer = answer;
        effect = end_call answer span;
        io =
            record_io_wait c.cfg ctx (codes "HTTP " ++ (r.verb ++ (b' ' ∷ r.url.host)))
              (codes "http") duration callers now io;
      }

  -- Transport: a nil client, or one that is not enabled, leaves the transport as it is.
  unfoldable pub transport :
      Option Client → Context → Request → Drawn → ℤ → List ℕ → Option (IoRecorder IoWait) → Called
  transport none ctx r drawn duration callers io = record {
    sent = r.headers;
    answer = next r.headers;
    effect = none;
    io = io;
  }
  transport (some c) ctx r drawn duration callers io =
      if not c.cfg.enabled
      then record { sent = r.headers; answer = next r.headers; effect = none; io = io }
      else round_trip c ctx r drawn duration callers io
