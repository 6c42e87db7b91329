-- ===== src/Tracing/Tests.antt =====
-- The theorems of spans at concrete inputs.
use go_collector.Base.{
  ◌≤◌, false, [], ◌∷◌, ◌≡◌, refl, none, some, arith, length, leb, if◌then◌else◌,
}
use go_collector.Base.Assoc.{lookup}
use go_collector.Base.Bytes.{Bytes, codes, bytes_eq}
use go_collector.Propagation.Traceparent.{IsIds}
use go_collector.Resource.{merge, process_attributes, put_version, or_else}
use go_collector.Tracing.Finish.{
  finish_once, recorded_under, finish-attributes, set_attribute-lookup,
}
use go_collector.Tracing.Hop.{start_span-traceparent}
use go_collector.Tracing.Sample.{client, drawn, build}
use go_collector.Tracing.{
  Span, client_span, inherited, start_span, traceparent, context_with_remote_span, set_attribute,
  finish, span_record,
}

abbrev parent : Span
parent = record (client_span client (inherited none drawn) (codes "publish") drawn) {
  sampled = false;
}

parent-IsIds : IsIds parent.trace_id parent.span_id
parent-IsIds = record {
  trace_hex = refl;
  span_hex = refl;
  trace_nonzero = refl;
  span_nonzero = refl;
}

abbrev child : Span
child =
    (start_span (some client) (context_with_remote_span none (traceparent (some parent)) drawn.now)
      (codes "consume") drawn).1

start_span-traceparent_example :
    (child.trace_id ≡ parent.trace_id)
    × (child.parent_id ≡ parent.span_id)
    × (child.sampled ≡ parent.sampled)
start_span-traceparent_example =
    start_span-traceparent client parent (codes "consume") drawn.now drawn parent-IsIds refl refl

abbrev tagged : Span
tagged = record parent { attributes = (codes "auth_token", codes "abcdefghijkl") ∷ [] }

abbrev later : Bytes
later = codes "2026-01-01T00:00:01Z"

finish_once_example :
    finish build later (finish build later tagged).1 ≡ (none, (finish build later tagged).1)
finish_once_example = finish_once build later later tagged

tagged-finish : (finish build later tagged).0 ≡ some (span_record build tagged later)
unfolding finish
tagged-finish = refl

finish-attributes_example :
    lookup (codes "auth_token") (span_record build tagged later).attributes
    ≡ or_else (recorded_under (codes "auth_token") tagged) (
        lookup
          (codes "auth_token")
          (put_version tagged.cfg.service_version (merge (process_attributes build) [])))
finish-attributes_example =
    finish-attributes build later (codes "auth_token") tagged (span_record build tagged later)
      tagged-finish

set_attribute-lookup_example :
    (length (set_attribute (codes "k") (codes "v") tagged).attributes ≤ 64)
    × (lookup (codes "k") (set_attribute (codes "k") (codes "v") tagged).attributes ≡ (
        if leb 64 (length tagged.attributes)
        then lookup (codes "k") tagged.attributes
        else if bytes_eq (codes "k") (codes "k")
        then some (codes "v")
        else lookup (codes "k") tagged.attributes))
set_attribute-lookup_example =
    set_attribute-lookup (codes "k") (codes "v") (codes "k") tagged (omega arith)
