-- ===== src/Propagation/Tracestate/Safe.antt =====
-- The tracestate that is forwarded cannot break out of the header it is put into.
use go_collector.Base.{true, List, [], ◌∷◌, map, ◌≡◌, refl, arith}
use go_collector.Base.Bytes.{Bytes}
use go_collector.Propagation.Members.{Pair, AllGood}
use go_collector.Propagation.Tracestate.{
  tracestate_value_bytes, tracestate_render, normalize_tracestate,
}
use go_collector.Propagation.Tracestate.Stable.{
  IsMember, key-bytes, value-bytes, normalize_tracestate_stable,
}
use go_collector.Text.Printable.{printable, printable-append, AllPrintable, printable-join_comma}

printable-value_bytes : (s : Bytes) → tracestate_value_bytes s ≡ true → printable s ≡ true
printable-value_bytes [] h = refl
printable-value_bytes (c ∷ s) h = ground (arith, printable-value_bytes s)

AllPrintable-render :
    (ps : List Pair) → AllGood IsMember ps → AllPrintable (map tracestate_render ps)
AllPrintable-render [] g = tt
AllPrintable-render (p ∷ ps) g = (
  printable-append p.0 (b'=' ∷ p.1) (printable-value_bytes p.0 (key-bytes p.0 g.0.0).0)
      (printable-value_bytes p.1 (value-bytes p.1 g.0.1).0),
  AllPrintable-render ps g.1,
)

-- Whatever header arrives, every byte of the tracestate that NormalizeTracestate returns is printable
-- ASCII: no line break or other control byte of the input is forwarded.
pub normalize_tracestate-printable :
    (header : Bytes) → printable (normalize_tracestate header) ≡ true
normalize_tracestate-printable header =
    let n = (normalize_tracestate_stable header).0 in
    rw n.is_header
      (printable-join_comma (map tracestate_render n.pairs) (AllPrintable-render n.pairs n.members))
