-- ===== src/Propagation/Tracestate/Stable.antt =====
-- What NormalizeTracestate returns: members of the grammar, which a second pass leaves as they are.
use go_collector.Base.{
  ℕ, ◌≤◌, Bool, true, false, not, ◌&&◌, ◌||◌, List, [], ◌∷◌, ◌++◌, map, ◌≡◌, refl, ap, Option, none,
  some, arith, length, ◌==◌, append_assoc, Bool-cases, All, and_true, Option-cases, inl, inr,
}
use go_collector.Base.Bytes.{Bytes, is_empty}
use go_collector.Propagation.Members.{
  Pair, collect, Fresh, AllGood, Kept, collect-Kept, collect-again, split-rendered,
}
use go_collector.Propagation.Tracestate.{
  max_tracestate_entries, tracestate_key_tail, key_part, valid_tracestate_key,
  tracestate_value_byte, tracestate_value_bytes, last_byte, valid_tracestate_value,
  tracestate_member, tracestate_render, normalize_tracestate,
}
use go_collector.Text.Edged.{Edged, trim_space-Edged, cut-eq}
use go_collector.Text.Split.{cut, split, join, Free, Free-append, cut-append}
use go_collector.Text.Trim.{trim_space, graphic, trim_space-nil}

-- A member that may be kept.
abbrev pub IsMember : Pair → Type 0
IsMember p = (valid_tracestate_key p.0 ≡ true) × (valid_tracestate_value p.1 ≡ true)

bytes-append :
    (s t : Bytes)
    → tracestate_value_bytes s ≡ true
    → tracestate_value_bytes t ≡ true
    → tracestate_value_bytes (s ++ t) ≡ true
bytes-append [] t hs ht = ht
bytes-append (c ∷ s) t hs ht = ground (arith, bytes-append s t)

key_tail-bytes : (s : Bytes) → tracestate_key_tail s ≡ true → tracestate_value_bytes s ≡ true
key_tail-bytes [] h = refl
key_tail-bytes (c ∷ s) h =
    let here : tracestate_value_byte c ≡ true = ground arith in
    let there : tracestate_key_tail s ≡ true = ground arith in
    rw (here, key_tail-bytes s there) refl

-- A text that begins with a graphic byte.
pub record Headed (s : Bytes) : Type 0 where
  first : ℕ
  behind : Bytes
  is_text : s ≡ first ∷ behind
  first_graphic : graphic first ≡ true

key_part-bytes :
    (most : ℕ) (digits : Bool) (s : Bytes)
    → key_part most digits s ≡ true
    → tracestate_value_bytes s ≡ true
key_part-bytes most digits [] h = refl
key_part-bytes most digits (c ∷ s) h =
    let here : tracestate_value_byte c ≡ true = ground arith in
    let there : tracestate_key_tail s ≡ true = ground arith in
    rw (here, key_tail-bytes s there) refl

key_part-Headed : (most : ℕ) (digits : Bool) (s : Bytes) → key_part most digits s ≡ true → Headed s
key_part-Headed most digits [] h = absurd (ground arith)
key_part-Headed most digits (c ∷ s) h = record {
  first = c;
  behind = s;
  is_text = refl;
  first_graphic = ground arith;
}

Headed-append : (s t : Bytes) → Headed s → Headed (s ++ t)
Headed-append s t h = record {
  first = h.first;
  behind = h.behind ++ t;
  is_text = rw h.is_text refl;
  first_graphic = h.first_graphic;
}

pub key-bytes :
    (k : Bytes) → valid_tracestate_key k ≡ true → (tracestate_value_bytes k ≡ true) × Headed k
unfolding valid_tracestate_key
key-bytes k h = elim (Option-cases (cut b'@' k)) [
  | inl single ↦
      let part : key_part 256 false k ≡ true = rw (valid_tracestate_key, single) at h in
      (key_part-bytes 256 false k part, key_part-Headed 256 false k part)
  | inr ((tenant, system), multi) ↦
      let both : key_part 241 true tenant && key_part 14 false system ≡ true =
        rw (valid_tracestate_key, multi) at h in
      let (left, right) = and_true (key_part 241 true tenant) (key_part 14 false system) both in
      rw (cut-eq b'@' k tenant system multi) (
        bytes-append tenant (b'@' ∷ system) (key_part-bytes 241 true tenant left)
            (key_part-bytes 14 false system right),
        Headed-append tenant (b'@' ∷ system) (key_part-Headed 241 true tenant left),
      )
]

last_byte-snoc : (c : ℕ) (s : Bytes) → (init : Bytes) × (c ∷ s ≡ init ++ last_byte c s ∷ [])
last_byte-snoc c [] = ([], refl)
last_byte-snoc c (d ∷ s) = let (init, e) = last_byte-snoc d s in (c ∷ init, ap (◌∷◌ c) e)

last_byte-bytes :
    (c : ℕ) (s : Bytes)
    → tracestate_value_bytes (c ∷ s) ≡ true
    → tracestate_value_byte (last_byte c s) ≡ true
last_byte-bytes c [] h = ground arith
last_byte-bytes c (d ∷ s) h = last_byte-bytes d s (ground arith)

-- A text that ends with a graphic byte.
pub record Ended (s : Bytes) : Type 0 where
  before : Bytes
  final : ℕ
  is_text : s ≡ before ++ final ∷ []
  final_graphic : graphic final ≡ true

pub value-bytes :
    (v : Bytes) → valid_tracestate_value v ≡ true → (tracestate_value_bytes v ≡ true) × Ended v
unfolding valid_tracestate_value
value-bytes [] h = absurd (ground arith)
value-bytes (c ∷ s) h =
    let bytes : tracestate_value_bytes (c ∷ s) ≡ true = ground arith in
    let spaceless : (last_byte c s == b' ') ≡ false = ground arith in
    let (init, e) = last_byte-snoc c s in
    let inside = last_byte-bytes c s bytes in
    (
      bytes,
      record { before = init; final = last_byte c s; is_text = e; final_graphic = ground arith },
    )

Edged-render : (p : Pair) → IsMember p → Edged (tracestate_render p)
Edged-render p g =
    let k = (key-bytes p.0 g.0).1 in
    let v = (value-bytes p.1 g.1).1 in
    record {
      first = k.first;
      middle = k.behind ++ (b'=' ∷ v.before);
      final = v.final;
      is_text = rw (k.is_text, v.is_text) (simp append_assoc);
      first_graphic = k.first_graphic;
      final_graphic = v.final_graphic;
    }

Free-bytes_equals : (s : Bytes) → tracestate_value_bytes s ≡ true → Free b'=' s
Free-bytes_equals [] h = tt
Free-bytes_equals (c ∷ s) h = (ground arith, Free-bytes_equals s (ground arith))

Free-bytes_comma : (s : Bytes) → tracestate_value_bytes s ≡ true → Free b',' s
Free-bytes_comma [] h = tt
Free-bytes_comma (c ∷ s) h = (ground arith, Free-bytes_comma s (ground arith))

Free-render : (p : Pair) → IsMember p → Free b',' (tracestate_render p)
Free-render p g =
    Free-append b',' p.0 (b'=' ∷ p.1) (Free-bytes_comma p.0 (key-bytes p.0 g.0).0)
      (refl, Free-bytes_comma p.1 (value-bytes p.1 g.1).0)

abbrev IfMember : Option Pair → Type 0
IfMember none = Unit
IfMember (some p) = IsMember p

refused_member : (a b c : Bool) → a || (not b || not c) ≡ false → (b ≡ true) × (c ≡ true)
refused_member a b c h = (ground arith, ground arith)

tracestate_member-IfMember : (raw : Bytes) → IfMember (tracestate_member raw)
unfolding tracestate_member
tracestate_member-IfMember raw = elim (Bool-cases (is_empty (trim_space raw))) [
  | inl nothing ↦ rw nothing tt
  | inr something ↦ elim (Option-cases (cut b'=' (trim_space raw))) [
    | inl keyless ↦ rw (something, keyless) tt
    | inr ((k, v), found) ↦
        elim (Bool-cases
          (is_empty k || (not (valid_tracestate_key k) || not (valid_tracestate_value v)))) [
            | inl bad ↦ rw (something, found, bad) tt
            | inr good ↦
                rw (something, found, good)
                  (refused_member (is_empty k) (valid_tracestate_key k) (valid_tracestate_value v)
                    good)
          ]
  ]
]

tracestate_member-sound :
    (raw : Bytes) (p : Pair) → Unit {0} → tracestate_member raw ≡ some p → IsMember p
tracestate_member-sound raw p u e = rw e at (tracestate_member-IfMember raw)

is_empty-Headed : (s : Bytes) → Headed s → is_empty s ≡ false
is_empty-Headed s h = rw h.is_text refl

-- A kept member is read back from what was rendered of it.
tracestate_member-render :
    (p : Pair) → IsMember p → tracestate_member (tracestate_render p) ≡ some p
unfolding tracestate_member
tracestate_member-render p g =
    let (bytes, headed) = key-bytes p.0 g.0 in
    rw
      (
        trim_space-Edged (tracestate_render p) (Edged-render p g),
        is_empty-Headed (tracestate_render p) (Headed-append p.0 (b'=' ∷ p.1) headed),
        cut-append b'=' p.0 p.1 (Free-bytes_equals p.0 bytes),
        is_empty-Headed p.0 headed,
        g.0,
        g.1,
      )
      refl

abbrev members_of : Bytes → List Bytes
members_of header =
    collect tracestate_member tracestate_render max_tracestate_entries
      (split b',' (trim_space header)) [] []

All-any : (ss : List Bytes) → All (λ s. Unit {0}) ss
All-any [] = tt
All-any (s ∷ ss) = (tt, All-any ss)

members_of-Kept :
    (header : Bytes)
    → Kept tracestate_member tracestate_render max_tracestate_entries IsMember
        (λ raw. Unit {0})
        tracestate_member-sound
        []
        []
        (members_of header)
members_of-Kept header =
    collect-Kept tracestate_member tracestate_render max_tracestate_entries IsMember
      (λ raw. Unit {0}) tracestate_member-sound (split b',' (trim_space header)) [] []
      (All-any (split b',' (trim_space header))) (omega arith)

normalize_tracestate-rendered :
    (pairs : List Pair)
    → AllGood IsMember pairs
    → Fresh [] pairs
    → length pairs ≤ max_tracestate_entries
    → normalize_tracestate (join b',' (map tracestate_render pairs))
      ≡ join b',' (map tracestate_render pairs)
unfolding normalize_tracestate
normalize_tracestate-rendered [] g f h = unfold join in rw trim_space-nil refl
normalize_tracestate-rendered (p ∷ ps) g f h =
    let (there, apart) =
      split-rendered tracestate_render b',' IsMember Edged-render Free-render p ps g in
    rw (there, apart)
      (ap (join b',') (
        collect-again tracestate_member tracestate_render max_tracestate_entries IsMember
          (λ raw. Unit {0}) tracestate_member-sound tracestate_member-render (p ∷ ps) [] [] g f
          (omega arith)))

-- The header that NormalizeTracestate returns is made of at most 32 members whose keys and values the
-- grammar allows, no key twice, joined by commas.
pub record IsNormal (header : Bytes) : Type 0 where
  pub pairs : List Pair
  pub is_header : header ≡ join b',' (map tracestate_render pairs)
  pub members : AllGood IsMember pairs
  pub distinct : Fresh [] pairs
  pub few : length pairs ≤ max_tracestate_entries

normalize_tracestate-IsNormal : (header : Bytes) → IsNormal (normalize_tracestate header)
unfolding normalize_tracestate
normalize_tracestate-IsNormal header = elim (Bool-cases (is_empty (trim_space header))) [
  | inl nothing ↦ rw nothing (record {
    pairs = [];
    is_header = unfold join in refl;
    members = tt;
    distinct = tt;
    few = omega arith;
  })
  | inr something ↦
      let kept = members_of-Kept header in
      rw something (record {
        pairs = kept.pairs;
        is_header = ap (join b',') kept.is_result;
        members = kept.good;
        distinct = kept.fresh;
        few = omega (arith, kept.within_cap);
      })
]

-- Whatever header arrives, NormalizeTracestate returns at most 32 members whose keys and values the
-- grammar allows, no key twice, joined by commas, and a second pass returns the same bytes.
pub normalize_tracestate_stable :
    (header : Bytes)
    → IsNormal (normalize_tracestate header)
      × (normalize_tracestate (normalize_tracestate header) ≡ normalize_tracestate header)
normalize_tracestate_stable header =
    let n = normalize_tracestate-IsNormal header in
    (n, rw n.is_header (normalize_tracestate-rendered n.pairs n.members n.distinct n.few))
