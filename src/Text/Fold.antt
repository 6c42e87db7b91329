-- ===== src/Text/Fold.antt =====
-- strings.EqualFold, where its second text is in ASCII: besides the case of a letter, simple folding
-- takes U+017F to an s and U+212A to a k.
use go_collector.Base.{Bool, ◌&&◌, [], ◌∷◌, ◌==◌, if◌then◌else◌}
use go_collector.Base.Bytes.{Bytes, bytes_eq}
use go_collector.Text.Lower.{lower_byte}

unfoldable pub fold : Bytes → Bytes
fold [] = []
fold (c ∷ []) = lower_byte c ∷ []
fold (c ∷ d ∷ []) = if c == 0xc5 && d == 0xbf then b's' ∷ [] else lower_byte c ∷ lower_byte d ∷ []
fold (c ∷ d ∷ e ∷ s) =
    let one = fold (d ∷ e ∷ s) in
    let two = fold (e ∷ s) in
    let three = fold s in
    if c == 0xc5 && d == 0xbf
    then b's' ∷ two
    else if c == 0xe2 && (d == 0x84 && e == 0xaa)
    then b'k' ∷ three
    else lower_byte c ∷ one

unfoldable pub equal_fold : Bytes → Bytes → Bool
unfolding fold
equal_fold s t = bytes_eq (fold s) (fold t)
