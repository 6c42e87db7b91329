-- ===== src/Messaging/Body.antt =====
-- The payload of a message on its span: what a reader gets back from the attributes.
use go_collector.Base.{
  ℕ, suc, Bool, true, false, not, ◌||◌, [], ◌∷◌, ◌<◌, ◌≡◌, refl, ap, ◌∙◌, Option, none, some,
  length, take, take_all, length-take, ltb, sym, arith, if◌then◌else◌, Bool-cases, inl, inr, zero,
}
use go_collector.Base.Assoc.{lookup}
use go_collector.Base.Bytes.{Bytes, codes, is_empty, bytes_eq}
use go_collector.Base.Int.{ℤ, pos, pos_part, ltb_ℤ}
use go_collector.Config.{Config}
use go_collector.Messaging.{
  MessagingSpan, set_fields, fields_of, start_messaging_span, span_name, apply_messaging_body,
  set_body, set_truncated, captured, too_long, capture_messaging_bodies, messaging_text, body_key,
  encoding_key, truncated_key,
}
use go_collector.Messaging.Clear.{
  set_attribute-room, set_attribute-length, IsClear, set_fields-IsClear,
}
use go_collector.Resource.{Attributes}
use go_collector.Text.Base64.{AreBytes, base64_encode, base64_decode, base64_decode-base64_encode}
use go_collector.Tracing.{Client, Context, Drawn, Span, start_span, set_attribute}

-- What a reader of the attributes makes of the body.
abbrev decoded : Option Bytes → Bytes → Bytes
decoded none body = body
decoded (some encoding) body =
    if bytes_eq encoding (codes "base64") then base64_decode body else body

abbrev reading : Option Bytes → Option Bytes → Option Bytes
reading none encoding = none
reading (some body) encoding = some (decoded encoding body)

abbrev pub body_read : Attributes → Option Bytes
body_read a = reading (lookup body_key a) (lookup encoding_key a)

body_read-of :
    (a : Attributes) (encoding : Option Bytes) (body : Bytes)
    → lookup body_key a ≡ some body
    → lookup encoding_key a ≡ encoding
    → body_read a ≡ some (decoded encoding body)
body_read-of a encoding body b e = rw (body_read, b, e) refl

body_read-same :
    (a b : Attributes)
    → lookup body_key a ≡ lookup body_key b
    → lookup encoding_key a ≡ lookup encoding_key b
    → body_read a ≡ body_read b
body_read-same a b h e =
    ap (λ x. reading x (lookup encoding_key a)) h ∙ ap (reading (lookup body_key b)) e

abbrev Reads : Bytes → Span → Type 0
Reads raw s =
    (body_read s.attributes ≡ some raw)
    × (lookup truncated_key s.attributes ≡ none)
    × (length s.attributes < 64)

set_body-Reads : (raw : Bytes) (s : Span) → AreBytes raw → IsClear 61 s → Reads raw (set_body raw s)
set_body-Reads raw s bytes (len, enc, tru) = elim (Bool-cases (messaging_text raw)) [
  | inl plain ↦
      let s1 = set_attribute body_key raw s in
      rw plain (
        body_read-of s1.attributes none raw
            (set_attribute-room body_key raw body_key s (omega arith))
            (set_attribute-room body_key raw encoding_key s (omega arith) ∙ enc),
        set_attribute-room body_key raw truncated_key s (omega arith) ∙ tru,
        omega (arith, set_attribute-length body_key raw s),
      )
  | inr binary ↦
      let s1 = set_attribute body_key (base64_encode raw) s in
      let s2 = set_attribute encoding_key (codes "base64") s1 in
      let len1 = set_attribute-length body_key (base64_encode raw) s in
      let len2 = set_attribute-length encoding_key (codes "base64") s1 in
      let room = set_attribute-room encoding_key (codes "base64") in
      rw binary (
        body_read-of s2.attributes (some (codes "base64")) (base64_encode raw)
              (room body_key s1 (omega arith)
                ∙ set_attribute-room body_key _ body_key s (omega arith))
              (room encoding_key s1 (omega arith))
            ∙ ap some (base64_decode-base64_encode raw bytes),
        room truncated_key s1 (omega arith)
            ∙ set_attribute-room body_key _ truncated_key s (omega arith)
            ∙ tru,
        omega arith,
      )
]

set_truncated-read :
    (raw : Bytes) (over : Bool) (s : Span)
    → Reads raw s
    → let a = (set_truncated over s).attributes in
      (body_read a ≡ some raw)
      × (lookup truncated_key a ≡ (if over then some (codes "true") else none))
set_truncated-read raw false s (r, t, len) = (r, t)
set_truncated-read raw true s (r, t, len) =
    let s' = set_attribute truncated_key (codes "true") s in
    (
      body_read-same s'.attributes s.attributes (set_attribute-room truncated_key _ body_key s len)
            (set_attribute-room truncated_key _ encoding_key s len)
          ∙ r,
      set_attribute-room truncated_key (codes "true") truncated_key s len,
    )

take-AreBytes : (n : ℕ) (s : Bytes) → AreBytes s → AreBytes (take n s)
take-AreBytes zero s h = tt
take-AreBytes (suc n) [] h = tt
take-AreBytes (suc n) (b ∷ s) h = (h.0, take-AreBytes n s h.1)

captured-AreBytes : (cfg : Config) (body : Bytes) → AreBytes body → AreBytes (captured cfg body)
captured-AreBytes cfg body h = elim (Bool-cases (too_long cfg body)) [
  | inl over ↦ rw over (take-AreBytes (pos_part cfg.messaging_max_body) body h)
  | inr fits ↦ rw fits h
]

-- What a reader finds behind the capture of a body, on a span with room that describes none yet.
apply_messaging_body-read :
    (c : Client) (body : Bytes) (s : Span)
    → capture_messaging_bodies (some c) ≡ true
    → is_empty body ≡ false
    → AreBytes body
    → IsClear 61 s
    → let a = (apply_messaging_body (some c) body s).attributes in
      (body_read a ≡ some (captured c.cfg body))
      × (lookup truncated_key a ≡ (if too_long c.cfg body then some (codes "true") else none))
unfolding apply_messaging_body
apply_messaging_body-read c body s on present bytes clear =
    rw (on, present)
      (set_truncated-read (captured c.cfg body) (too_long c.cfg body)
        (set_body (captured c.cfg body) s)
        (set_body-Reads (captured c.cfg body) s (captured-AreBytes c.cfg body bytes) clear))

start_span-fresh :
    (c : Client) (ctx : Context) (name : Bytes) (drawn : Drawn)
    → (start_span (some c) ctx name drawn).1.attributes ≡ []
unfolding start_span
start_span-fresh c ctx name drawn = elim (Bool-cases (not c.cfg.enabled || not c.cfg.apm_enabled)) [
  | inl off ↦ rw off refl
  | inr on ↦ rw on refl
]

-- The first `max` bytes, or all of them where `max` is no positive number.
abbrev pub kept_of : ℤ → Bytes → Bytes
kept_of max body = if ltb_ℤ (pos 0) max then take (pos_part max) body else body

captured-kept_of :
    (cfg : Config) (body : Bytes) → captured cfg body ≡ kept_of cfg.messaging_max_body body
captured-kept_of cfg body = elim (Bool-cases (ltb_ℤ (pos 0) cfg.messaging_max_body)) [
  | inr unlimited ↦ rw unlimited refl
  | inl limited ↦ elim (Bool-cases (ltb (pos_part cfg.messaging_max_body) (length body))) [
    | inl over ↦ rw (limited, over) refl
    | inr fits ↦
        rw (limited, fits) (sym (take_all (pos_part cfg.messaging_max_body) body (ground arith)))
  ]
]

too_long-kept_of :
    (cfg : Config) (body : Bytes)
    → too_long cfg body ≡ ltb (length (kept_of cfg.messaging_max_body body)) (length body)
too_long-kept_of cfg body = elim (Bool-cases (ltb_ℤ (pos 0) cfg.messaging_max_body)) [
  | inr unlimited ↦ rw unlimited (ground arith)
  | inl limited ↦
      rw limited (ground (arith, length-take {0} (pos_part cfg.messaging_max_body) body))
]

-- With bodies captured, a reader of the attributes of a new message span recovers the first
-- MessagingMaxBody bytes of the payload, or all of it where that is no positive number, from the text
-- or from base64; and it is told that bytes are missing exactly when what it recovers is shorter than
-- the payload.
pub start_messaging_span-body :
    (c : Client) (ctx : Context) (m : MessagingSpan) (drawn : Drawn)
    → capture_messaging_bodies (some c) ≡ true
    → is_empty m.body ≡ false
    → AreBytes m.body
    → let a = (start_messaging_span (some c) ctx m drawn).1.attributes in
      let kept = kept_of c.cfg.messaging_max_body m.body in
      (body_read a ≡ some kept)
      × (lookup truncated_key a
          ≡ (if ltb (length kept) (length m.body) then some (codes "true") else none))
unfolding start_messaging_span lookup
start_messaging_span-body c ctx m drawn on present bytes =
    let (read, cut) =
      apply_messaging_body-read c m.body
        (set_fields (fields_of m) (start_span (some c) ctx (span_name m) drawn).1) on present bytes
        (set_fields-IsClear (fields_of m) 0 61 _ (omega arith) (omega arith) refl
          (rw (start_span-fresh c ctx (span_name m) drawn) (omega arith, refl, refl))) in
    (
      read ∙ ap some (captured-kept_of c.cfg m.body),
      cut ∙ ap (λ over. if over then some (codes "true") else none) (too_long-kept_of c.cfg m.body),
    )
