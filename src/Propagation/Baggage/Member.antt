-- ===== src/Propagation/Baggage/Member.antt =====
-- A piece of a baggage header that is kept: what it decodes to, and that its rendering is read back.
use go_collector.Base.{
  ℕ, ◌≤◌, ◌<◌, true, false, not, ◌||◌, [], ◌∷◌, ◌++◌, ◌≡◌, refl, ◌∙◌, Option, none, some, arith,
  length, ltb, le→ltb, ◌==◌, All, Bool-cases, Option-cases, and_true, inl, inr,
}
use go_collector.Base.Bytes.{Bytes, is_empty}
use go_collector.Propagation.Baggage.{
  max_baggage_value_bytes, max_baggage_key_bytes, token_bytes, valid_baggage_key, before_properties,
  decoded_pair, baggage_member, baggage_render,
}
use go_collector.Propagation.Members.{Pair}
use go_collector.Propagation.Percent.{
  percent_decode, percent_encode, unreserved, percent_decode-percent_encode, All-percent_decode,
  percent_decode-is_empty,
}
use go_collector.Propagation.Baggage.Safe.{
  safe, safes, safes-token_bytes, safes-encode, graphics-safes, Free-safes, not_comma,
  not_semicolon, not_equals,
}
use go_collector.Text.Edged.{
  Edged, graphics, graphics-append, graphics-Edged, trim_space-graphics, trim_space-Edged,
}
use go_collector.Text.Split.{cut, Free, Free-append, cut-append, cut-Free}
use go_collector.Text.Trim.{trim_space}
use go_collector.Text.Within.{All-trim_space, All-cut}

abbrev pub IsBytes : Bytes → Type 0
IsBytes s = All (λ c. c < 256) s

-- A member that may be kept: a key, and the value that stands encoded behind it.
pub record IsMember (p : Pair) : Type 0 where
  pub valid_key : valid_baggage_key p.0 ≡ true
  pub short_key : length p.0 ≤ max_baggage_key_bytes
  pub nonempty : is_empty p.1 ≡ false
  pub short_value : length p.1 ≤ max_baggage_value_bytes
  pub value_bytes : IsBytes p.1

abbrev IfMember : Option Pair → Type 0
IfMember none = Unit
IfMember (some p) = IsMember p

decoded_pair-IfMember :
    (key encoded : Bytes) → IsBytes encoded → IfMember (decoded_pair key encoded)
unfolding decoded_pair
decoded_pair-IfMember key encoded b =
    elim (Bool-cases (
      is_empty key
      || is_empty encoded
      || ltb max_baggage_key_bytes (length key)
      || not (valid_baggage_key key))) [
        | inl bad ↦ rw bad tt
        | inr good ↦
            elim (Bool-cases (ltb max_baggage_value_bytes (length (percent_decode encoded)))) [
              | inl long ↦ rw (good, long) tt
              | inr short ↦
                  rw (good, short)
                    (record {
                      valid_key = ground arith;
                      short_key = ground arith;
                      nonempty = percent_decode-is_empty encoded ∙ ground arith;
                      short_value = ground arith;
                      value_bytes = All-percent_decode encoded b;
                    })
            ]
      ]

before_properties-IsBytes : (s : Bytes) → IsBytes s → IsBytes (before_properties s)
before_properties-IsBytes s b = elim (Option-cases (cut b';' s)) [
  | inl none_there ↦ rw (before_properties, none_there) b
  | inr ((before, after), found) ↦
      rw (before_properties, found)
        (All-trim_space (λ c. c < 256) before
          (All-cut (λ c. c < 256) b';' s before after found b).0)
]

baggage_member-IfMember : (raw : Bytes) → IsBytes raw → IfMember (baggage_member raw)
unfolding baggage_member
baggage_member-IfMember raw b =
    let trimmed = All-trim_space (λ c. c < 256) raw b in
    let bare = before_properties-IsBytes (trim_space raw) trimmed in
    elim (Bool-cases (is_empty (trim_space raw))) [
      | inl nothing ↦ rw nothing tt
      | inr something ↦ elim (Option-cases (cut b'=' (before_properties (trim_space raw)))) [
        | inl keyless ↦ rw (something, keyless) tt
        | inr ((k, e), found) ↦ elim (Bool-cases (is_empty k)) [
          | inl no_key ↦ rw (something, found, no_key) tt
          | inr key ↦
              rw (something, found, key)
                (decoded_pair-IfMember (trim_space k) (trim_space e) (
                  All-trim_space (λ c. c < 256) e
                    (All-cut (λ c. c < 256) b'=' (before_properties (trim_space raw)) k e found
                      bare).1))
        ]
      ]
    ]

pub baggage_member-sound :
    (raw : Bytes) (p : Pair) → IsBytes raw → baggage_member raw ≡ some p → IsMember p
baggage_member-sound raw p b e = rw e at (baggage_member-IfMember raw b)

pub safes-key : (p : Pair) → IsMember p → safes p.0 ≡ true
safes-key p g =
    safes-token_bytes p.0 (and_true (token_bytes p.0) (not (is_empty p.0)) g.valid_key).0

pub safes-value : (p : Pair) → IsMember p → safes (percent_encode p.1) ≡ true
safes-value p g = safes-encode p.1 g.value_bytes

key-nonempty : (k : Bytes) → valid_baggage_key k ≡ true → is_empty k ≡ false
key-nonempty k h = ground arith

graphics-render : (p : Pair) → IsMember p → graphics (baggage_render p) ≡ true
graphics-render p g =
    graphics-append p.0 (b'=' ∷ percent_encode p.1) (graphics-safes p.0 (safes-key p g))
      (graphics-safes (percent_encode p.1) (safes-value p g))

-- A key of a byte or more and the `=` make two graphic bytes.
Edged-keyed :
    (k t : Bytes) → is_empty k ≡ false → graphics (k ++ (b'=' ∷ t)) ≡ true → Edged (k ++ (b'=' ∷ t))
Edged-keyed [] t h g = absurd (ground arith)
Edged-keyed (c ∷ []) t h g = graphics-Edged c b'=' t g
Edged-keyed (c ∷ d ∷ k) t h g = graphics-Edged c d (k ++ (b'=' ∷ t)) g

pub Edged-render : (p : Pair) → IsMember p → Edged (baggage_render p)
Edged-render p g =
    Edged-keyed p.0 (percent_encode p.1) (key-nonempty p.0 g.valid_key) (graphics-render p g)

Free-render :
    (sep : ℕ)
    → (b'=' == sep) ≡ false
    → ((c : ℕ) → safe c ≡ true → (c == sep) ≡ false)
    → (p : Pair) → IsMember p
    → Free sep (baggage_render p)
Free-render sep e k p g =
    Free-append sep p.0 (b'=' ∷ percent_encode p.1) (Free-safes sep k p.0 (safes-key p g))
      (e, Free-safes sep k (percent_encode p.1) (safes-value p g))

pub Free-render_comma : (p : Pair) → IsMember p → Free b',' (baggage_render p)
Free-render_comma = Free-render b',' refl not_comma

before_properties-render :
    (p : Pair) → IsMember p → before_properties (baggage_render p) ≡ baggage_render p
before_properties-render p g =
    rw
      (
        before_properties,
        cut-Free b';' (baggage_render p) (Free-render b';' refl not_semicolon p g),
      )
      refl

percent_encode-nonempty : (s : Bytes) → is_empty s ≡ false → is_empty (percent_encode s) ≡ false
unfolding percent_encode
percent_encode-nonempty [] h = absurd (ground arith)
percent_encode-nonempty (c ∷ s) h = elim (Bool-cases (unreserved c)) [
  | inl plain ↦ rw plain refl
  | inr escape ↦ rw escape refl
]

decoded_pair-member : (p : Pair) → IsMember p → decoded_pair p.0 (percent_encode p.1) ≡ some p
unfolding decoded_pair
decoded_pair-member p g =
    rw
      (
        key-nonempty p.0 g.valid_key,
        percent_encode-nonempty p.1 g.nonempty,
        le→ltb max_baggage_key_bytes (length p.0) g.short_key,
        (and_true (token_bytes p.0) (not (is_empty p.0)) g.valid_key).0,
        percent_decode-percent_encode p.1 g.value_bytes,
        le→ltb max_baggage_value_bytes (length p.1) g.short_value,
      )
      refl

keyed-nonempty : (k t : Bytes) → is_empty k ≡ false → is_empty (k ++ t) ≡ false
keyed-nonempty [] t h = absurd (ground arith)
keyed-nonempty (c ∷ k) t h = refl

-- A kept member is read back from what was rendered of it.
pub baggage_member-render : (p : Pair) → IsMember p → baggage_member (baggage_render p) ≡ some p
unfolding baggage_member
baggage_member-render p g =
    let key = key-nonempty p.0 g.valid_key in
    rw
      (
        trim_space-Edged (baggage_render p) (Edged-render p g),
        keyed-nonempty p.0 (b'=' ∷ percent_encode p.1) key,
        before_properties-render p g,
        cut-append b'=' p.0 (percent_encode p.1) (Free-safes b'=' not_equals p.0 (safes-key p g)),
        key,
        trim_space-graphics p.0 (graphics-safes p.0 (safes-key p g)),
        trim_space-graphics (percent_encode p.1)
            (graphics-safes (percent_encode p.1) (safes-value p g)),
      )
      (decoded_pair-member p g)
