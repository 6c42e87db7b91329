-- ===== src/Text/Printable.antt =====
-- Printable ASCII: no control byte, and so no line break, and nothing beyond ASCII.
use go_collector.Base.{Bool, true, ◌&&◌, List, [], ◌∷◌, ◌++◌, ◌≡◌, refl, arith, within}
use go_collector.Base.Bytes.{Bytes}
use go_collector.Text.Split.{join}

abbrev pub printable : Bytes → Bool
printable [] = true
printable (c ∷ s) = within 0x20 0x7e c && printable s

pub printable-append :
    (s t : Bytes) → printable s ≡ true → printable t ≡ true → printable (s ++ t) ≡ true
printable-append [] t hs ht = ht
printable-append (c ∷ s) t hs ht = ground (arith, printable-append s t)

abbrev pub AllPrintable : List Bytes → Type 0
AllPrintable [] = Unit
AllPrintable (s ∷ ss) = (printable s ≡ true) × AllPrintable ss

pub printable-join_comma : (ss : List Bytes) → AllPrintable ss → printable (join b',' ss) ≡ true
unfolding join
printable-join_comma [] h = refl
printable-join_comma (s ∷ []) h = h.0
printable-join_comma (s ∷ t ∷ ts) h =
    printable-append s (b',' ∷ join b',' (t ∷ ts)) h.0 (printable-join_comma (t ∷ ts) h.1)
