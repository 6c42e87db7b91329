-- ===== src/Propagation/Tests.antt =====
-- The theorems of the trace context at concrete headers.
use go_collector.Base.{true, false, [], ◌≡◌, refl, some, arith, length, ltb, if◌then◌else◌}
use go_collector.Base.Bytes.{Bytes, codes}
use go_collector.Propagation.Baggage.{
  max_baggage_header_bytes, normalize_baggage, baggage_member, decoded_pair,
}
use go_collector.Propagation.Baggage.Stable as BaggageStable
use go_collector.Propagation.Baggage.Stable.{normalize_baggage_again}
use go_collector.Propagation.Percent.{percent_decode, percent_encode}
use go_collector.Propagation.Traceparent.{
  IsIds, parse_fields, parse_ids, parse_hex_byte, parse_traceparent_context, format_traceparent,
  parse_traceparent_context-format_traceparent, parse_traceparent_context_stable,
}
use go_collector.Propagation.Tracestate.{
  normalize_tracestate, tracestate_member, valid_tracestate_key, valid_tracestate_value,
}
use go_collector.Propagation.Tracestate.Safe.{normalize_tracestate-printable}
use go_collector.Propagation.Tracestate.Stable as TracestateStable
use go_collector.Propagation.Tracestate.Stable.{normalize_tracestate_stable}
use go_collector.Propagation.Members.{collect}
use go_collector.Text.Split.{split, join, cut}
use go_collector.Text.Trim.{trim_space}
use go_collector.Text.Printable.{printable}

abbrev trace_id : Bytes
trace_id = codes "4bf92f3577b34da6a3ce929d0e0e4736"

abbrev span_id : Bytes
span_id = codes "00f067aa0ba902b7"

trace_id-IsIds : IsIds trace_id span_id
trace_id-IsIds = record {
  trace_hex = refl;
  span_hex = refl;
  trace_nonzero = refl;
  span_nonzero = refl;
}

parse_traceparent_context-format_traceparent_example :
    parse_traceparent_context (format_traceparent trace_id span_id false)
    ≡ some (record {
      trace_id = trace_id;
      span_id = span_id;
      sampled = false;
      tracestate = [];
      baggage = [];
    })
parse_traceparent_context-format_traceparent_example =
    parse_traceparent_context-format_traceparent trace_id span_id false trace_id-IsIds

-- A header with other flags and white space around it.
abbrev padded : Bytes
padded = codes " 00-4bf92f3577b34da6a3ce929d0e0e4736-00f067aa0ba902b7-ff\t"

padded_parse :
    parse_traceparent_context padded
    ≡ some (record {
      trace_id = trace_id;
      span_id = span_id;
      sampled = true;
      tracestate = [];
      baggage = [];
    })
unfolding parse_traceparent_context parse_fields parse_ids parse_hex_byte trim_space split
padded_parse = refl

parse_traceparent_context_stable_example :
    IsIds trace_id span_id
    × (parse_traceparent_context (format_traceparent trace_id span_id true)
        ≡ some (record {
          trace_id = trace_id;
          span_id = span_id;
          sampled = true;
          tracestate = [];
          baggage = [];
        }))
parse_traceparent_context_stable_example =
    parse_traceparent_context_stable padded
      (record {
        trace_id = trace_id;
        span_id = span_id;
        sampled = true;
        tracestate = [];
        baggage = [];
      })
      padded_parse

abbrev vendors : Bytes
vendors = codes "rojo=00f067aa0ba902b7 , congo=t61rcWkgMzE,rojo=again,Bad=1"

normalize_tracestate_stable_example :
    TracestateStable.IsNormal (normalize_tracestate vendors)
    × (normalize_tracestate (normalize_tracestate vendors) ≡ normalize_tracestate vendors)
normalize_tracestate_stable_example = normalize_tracestate_stable vendors

vendors_normal : normalize_tracestate vendors ≡ codes "rojo=00f067aa0ba902b7,congo=t61rcWkgMzE"
unfolding normalize_tracestate trim_space split join collect tracestate_member cut
    valid_tracestate_key valid_tracestate_value
vendors_normal = refl

normalize_tracestate-printable_example :
    printable (normalize_tracestate (codes "a=b\r\nX: y,c=d")) ≡ true
normalize_tracestate-printable_example = normalize_tracestate-printable (codes "a=b\r\nX: y,c=d")

abbrev item : Bytes
item = codes "k=!"

normalize_baggage_again_example :
    BaggageStable.IsNormal (normalize_baggage item)
    × (normalize_baggage (normalize_baggage item) ≡ (
        if ltb max_baggage_header_bytes (length (normalize_baggage item))
        then []
        else normalize_baggage item))
normalize_baggage_again_example =
    normalize_baggage_again item (omega arith, (omega arith, (omega arith, tt)))

item_normal : normalize_baggage item ≡ codes "k=%21"
unfolding normalize_baggage trim_space split join collect baggage_member decoded_pair cut
    percent_decode percent_encode
item_normal = refl
