-- ===== src/Text/Utf8.antt =====
-- unicode/utf8's Valid: the byte sequences of Unicode's Table 3-7.
use go_collector.Base.{
  ℕ, Bool, true, false, ◌&&◌, [], ◌∷◌, leb, ltb, within, ◌==◌, if◌then◌else◌, zero, suc,
}
use go_collector.Base.Bytes.{Bytes}

-- The range of the byte behind the lead byte of a sequence.
abbrev pub second : ℕ → ℕ → Bool
second lead c =
    if lead == 0xe0
    then within 0xa0 0xbf c
    else if lead == 0xed
    then within 0x80 0x9f c
    else if lead == 0xf0
    then within 0x90 0xbf c
    else if lead == 0xf4
    then within 0x80 0x8f c
    else within 0x80 0xbf c

-- How many bytes follow a lead byte; a byte that leads nothing has none and is above ASCII.
abbrev pub follows : ℕ → ℕ
follows lead =
    if within 0xc2 0xdf lead
    then 1
    else if within 0xe0 0xef lead
    then 2
    else if within 0xf0 0xf4 lead
    then 3
    else 0

-- `rest` continuation bytes are due.
unfoldable pub utf8_from : ℕ → Bytes → Bool
utf8_from zero [] = true
utf8_from (suc n) [] = false
utf8_from (suc n) (c ∷ s) = let more = utf8_from n s in if within 0x80 0xbf c then more else false
utf8_from zero (c ∷ []) = ltb c 0x80
utf8_from zero (c ∷ d ∷ s) =
    let ascii = utf8_from zero (d ∷ s) in
    let wide = utf8_from (follows c) (d ∷ s) in
    if ltb c 0x80 then ascii else if leb 1 (follows c) && second c d then wide else false

unfoldable pub utf8_valid : Bytes → Bool
unfolding utf8_from
utf8_valid s = utf8_from zero s
