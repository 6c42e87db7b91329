-- ===== src/Text/Lower.antt =====
-- strings.ToLower and strings.Contains. Letters beyond ASCII are left as they are, which is what
-- ToLower does to all but the capital letters among them.
use go_collector.Base.{ℕ, ◌+◌, Bool, ◌||◌, [], ◌∷◌, within, if◌then◌else◌}
use go_collector.Base.Bytes.{Bytes, has_prefix}

abbrev pub lower_byte : ℕ → ℕ
lower_byte c = if within b'A' b'Z' c then c + 32 else c

abbrev pub to_lower : Bytes → Bytes
to_lower [] = []
to_lower (c ∷ s) = lower_byte c ∷ to_lower s

abbrev pub contains : Bytes → Bytes → Bool
contains [] p = has_prefix [] p
contains (c ∷ s) p = has_prefix (c ∷ s) p || contains s p
