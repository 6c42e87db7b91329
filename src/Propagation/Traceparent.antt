-- ===== src/Propagation/Traceparent.antt =====
-- ParseTraceparentContext and FormatTraceparent. The parser's `false` is `none`.
use go_collector.Base.{
  ℕ, suc, ◌+◌, ◌-◌, ◌*◌, ◌%◌, Bool, true, false, not, ◌&&◌, ◌||◌, List, [], ◌∷◌, ◌++◌, ◌≡◌, refl,
  ap, ◌∙◌, Option, none, some, arith, length, ltb, ◌==◌, within, if◌then◌else◌, append_assoc,
  Bool-cases, or_false, Option-cases, inl, inr,
}
use go_collector.Base.Bytes.{Bytes, codes, is_empty, bytes_eq}
use go_collector.Propagation.{RemoteContext}
use go_collector.Text.Split.{split, Free, split-Free, split-append}
use go_collector.Text.Trim.{trim_space, trim_space-between}

abbrev pub lower_hex_digit : ℕ → Bool
lower_hex_digit c = within b'0' b'9' c || within b'a' b'f' c

abbrev pub lower_hex_digits : Bytes → Bool
lower_hex_digits [] = true
lower_hex_digits (c ∷ s) = lower_hex_digit c && lower_hex_digits s

abbrev pub lower_hex : Bytes → ℕ → Bool
lower_hex value n = length value == n && lower_hex_digits value

abbrev pub zeros_only : Bytes → Bool
zeros_only [] = true
zeros_only (c ∷ s) = c == b'0' && zeros_only s

abbrev pub all_zero : Bytes → Bool
all_zero value = zeros_only value && not (is_empty value)

-- strconv.ParseUint(_, 16, 8); the digits of either case.
abbrev pub hex_value : ℕ → Option ℕ
hex_value c =
    if within b'0' b'9' c
    then some (c - b'0')
    else if within b'a' b'f' c
    then some (c - b'a' + 10)
    else if within b'A' b'F' c
    then some (c - b'A' + 10)
    else none

abbrev pub parse_hex_from : ℕ → Bytes → Option ℕ
parse_hex_from n [] = if ltb n 256 then some n else none
parse_hex_from n (c ∷ s) = elim (hex_value c) [
  | none ↦ none
  | some d ↦ parse_hex_from (n * 16 + d) s
]

unfoldable pub parse_hex_byte : Bytes → Option ℕ
parse_hex_byte [] = none
parse_hex_byte (c ∷ s) = parse_hex_from 0 (c ∷ s)

unfoldable pub parse_ids : Bytes → Bytes → Bytes → Option RemoteContext
parse_ids trace_id span_id flags =
    if not (lower_hex trace_id 32) || not (lower_hex span_id 16) || not (lower_hex flags 2)
    then none
    else if all_zero trace_id || all_zero span_id
    then none
    else elim (parse_hex_byte flags) [
      | none ↦ none
      | some f ↦ some (record {
        trace_id = trace_id;
        span_id = span_id;
        sampled = f % 2 == 1;
        tracestate = [];
        baggage = [];
      })
    ]

unfoldable pub parse_fields : List Bytes → Option RemoteContext
parse_fields (version ∷ trace_id ∷ span_id ∷ flags ∷ []) =
    if bytes_eq version (codes "00") then parse_ids trace_id span_id flags else none
parse_fields _ = none

unfoldable pub parse_traceparent_context : Bytes → Option RemoteContext
parse_traceparent_context header = parse_fields (split b'-' (trim_space header))

abbrev pub sampled_flags : Bool → Bytes
sampled_flags sampled = if sampled then codes "01" else codes "00"

unfoldable pub format_traceparent : Bytes → Bytes → Bool → Bytes
format_traceparent trace_id span_id sampled =
    if is_empty trace_id || is_empty span_id
    then []
    else codes "00-" ++ (trace_id ++ (b'-' ∷ (span_id ++ (b'-' ∷ sampled_flags sampled))))

-- The ids that W3C allows: lowercase hexadecimal of their length, and not all zeros.
pub record IsIds (trace_id span_id : Bytes) : Type 0 where
  pub trace_hex : lower_hex trace_id 32 ≡ true
  pub span_hex : lower_hex span_id 16 ≡ true
  pub trace_nonzero : all_zero trace_id ≡ false
  pub span_nonzero : all_zero span_id ≡ false

Free-lower_hex_digits : (s : Bytes) → lower_hex_digits s ≡ true → Free b'-' s
Free-lower_hex_digits [] h = tt
Free-lower_hex_digits (c ∷ s) h = (ground arith, Free-lower_hex_digits s (ground arith))

lower_hex-digits : (n : ℕ) (s : Bytes) → lower_hex s n ≡ true → lower_hex_digits s ≡ true
lower_hex-digits n s h = ground arith

pub lower_hex-is_empty : (n : ℕ) (s : Bytes) → lower_hex s (suc n) ≡ true → is_empty s ≡ false
lower_hex-is_empty n [] h = ground arith
lower_hex-is_empty n (c ∷ s) h = refl

abbrev wire : Bytes → Bytes → Bool → Bytes
wire t s b = codes "00-" ++ (t ++ (b'-' ∷ (s ++ (b'-' ∷ sampled_flags b))))

format_traceparent-wire :
    (t s : Bytes) (b : Bool) → IsIds t s → format_traceparent t s b ≡ wire t s b
unfolding format_traceparent
format_traceparent-wire t s b ids =
    rw (lower_hex-is_empty 31 t ids.trace_hex, lower_hex-is_empty 15 s ids.span_hex) refl

abbrev inner : Bytes → Bytes → Bytes
inner t s = codes "0-" ++ (t ++ (b'-' ∷ (s ++ (b'-' ∷ (b'0' ∷ [])))))

wire-ends :
    (t s : Bytes) (d : ℕ)
    → codes "00-" ++ (t ++ (b'-' ∷ (s ++ (b'-' ∷ (b'0' ∷ d ∷ []))))) ≡ b'0' ∷ (inner t s ++ d ∷ [])
wire-ends t s d = simp append_assoc

trim_space-wire : (t s : Bytes) (b : Bool) → trim_space (wire t s b) ≡ wire t s b
trim_space-wire t s true =
    rw (wire-ends t s b'1') (trim_space-between b'0' b'1' (inner t s) refl refl)
trim_space-wire t s false =
    rw (wire-ends t s b'0') (trim_space-between b'0' b'0' (inner t s) refl refl)

split-flags : (b : Bool) → split b'-' (sampled_flags b) ≡ sampled_flags b ∷ []
split-flags true = split-Free b'-' (codes "01") (refl, (refl, tt))
split-flags false = split-Free b'-' (codes "00") (refl, (refl, tt))

split-wire :
    (t s : Bytes) (b : Bool)
    → IsIds t s
    → split b'-' (wire t s b) ≡ codes "00" ∷ t ∷ s ∷ sampled_flags b ∷ []
split-wire t s b ids =
    split-append b'-' (codes "00") (t ++ (b'-' ∷ (s ++ (b'-' ∷ sampled_flags b))))
      (refl, (refl, tt))
    ∙ ap (◌∷◌ (codes "00")) (
        split-append b'-' t (s ++ (b'-' ∷ sampled_flags b))
          (Free-lower_hex_digits t (lower_hex-digits 32 t ids.trace_hex))
        ∙ ap (◌∷◌ t) (
            split-append b'-' s (sampled_flags b)
              (Free-lower_hex_digits s (lower_hex-digits 16 s ids.span_hex))
            ∙ ap (◌∷◌ s) (split-flags b)))

parse_trace_id-IsIds :
    (t s : Bytes) (b : Bool)
    → IsIds t s
    → parse_ids t s (sampled_flags b)
      ≡ some (record { trace_id = t; span_id = s; sampled = b; tracestate = []; baggage = [] })
unfolding parse_ids parse_hex_byte
parse_trace_id-IsIds t s true ids =
    rw (ids.trace_hex, ids.span_hex, ids.trace_nonzero, ids.span_nonzero) refl
parse_trace_id-IsIds t s false ids =
    rw (ids.trace_hex, ids.span_hex, ids.trace_nonzero, ids.span_nonzero) refl

-- A traceparent that FormatTraceparent writes for two ids that W3C allows is parsed back to exactly
-- these ids and the sampling decision, set or not.
pub parse_traceparent_context-format_traceparent :
    (trace_id span_id : Bytes) (sampled : Bool)
    → IsIds trace_id span_id
    → parse_traceparent_context (format_traceparent trace_id span_id sampled)
      ≡ some (record {
        trace_id = trace_id;
        span_id = span_id;
        sampled = sampled;
        tracestate = [];
        baggage = [];
      })
unfolding parse_traceparent_context parse_fields
parse_traceparent_context-format_traceparent t s b ids =
    rw (format_traceparent-wire t s b ids, trim_space-wire t s b, split-wire t s b ids)
      (parse_trace_id-IsIds t s b ids)

-- What the parser believes: allowed ids, and no companion headers.
abbrev Believed : RemoteContext → Type 0
Believed r = IsIds r.trace_id r.span_id × ((r.tracestate ≡ []) × (r.baggage ≡ []))

abbrev IfBelieved : Option RemoteContext → Type 0
IfBelieved none = Unit
IfBelieved (some r) = Believed r

not_or3 : (a b c : Bool) → not a || not b || not c ≡ false → (a ≡ true) × (b ≡ true)
not_or3 a b c h = (ground arith, ground arith)

parse_ids-IfBelieved : (t s f : Bytes) → IfBelieved (parse_ids t s f)
unfolding parse_ids
parse_ids-IfBelieved t s f =
    elim (Bool-cases (not (lower_hex t 32) || not (lower_hex s 16) || not (lower_hex f 2))) [
      | inl bad ↦ rw bad tt
      | inr hex ↦ elim (Bool-cases (all_zero t || all_zero s)) [
        | inl zero ↦ rw (hex, zero) tt
        | inr nonzero ↦
            let (th, sh) = not_or3 (lower_hex t 32) (lower_hex s 16) (lower_hex f 2) hex in
            let ids : IsIds t s = record {
              trace_hex = th;
              span_hex = sh;
              trace_nonzero = (or_false (all_zero t) (all_zero s) nonzero).0;
              span_nonzero = (or_false (all_zero t) (all_zero s) nonzero).1;
            } in
            elim (Option-cases (parse_hex_byte f)) [
              | inl wrong ↦ rw (hex, nonzero, wrong) tt
              | inr (v, right) ↦ rw (hex, nonzero, right) (ids, (refl, refl))
            ]
      ]
    ]

parse_fields-IfBelieved : (fields : List Bytes) → IfBelieved (parse_fields fields)
unfolding parse_fields
parse_fields-IfBelieved (v ∷ t ∷ s ∷ f ∷ []) = elim (Bool-cases (bytes_eq v (codes "00"))) [
  | inl known ↦ rw known (parse_ids-IfBelieved t s f)
  | inr unknown ↦ rw unknown tt
]
parse_fields-IfBelieved _ = tt

-- Whatever header arrives, a context that the parser accepts has ids that W3C allows, in lowercase,
-- and no companion headers, and the traceparent rendered from it is parsed to the same context: the
-- next hop believes exactly what this one did.
pub parse_traceparent_context_stable :
    (header : Bytes) (r : RemoteContext)
    → parse_traceparent_context header ≡ some r
    → IsIds r.trace_id r.span_id
      × (parse_traceparent_context (format_traceparent r.trace_id r.span_id r.sampled) ≡ some r)
unfolding parse_traceparent_context
parse_traceparent_context_stable header r e =
    let (ids, (no_state, no_baggage)) =
      rw e at (parse_fields-IfBelieved (split b'-' (trim_space header))) in
    (
      ids,
      parse_traceparent_context-format_traceparent r.trace_id r.span_id r.sampled ids
          ∙ rw (no_state, no_baggage) refl,
    )
