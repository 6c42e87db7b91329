-- ===== src/Messaging/Clear.antt =====
-- messaging.go: the attributes that StartMessagingSpan sets in front of the body, and the room that they
-- leave for it.
use go_collector.Base.{
  ℕ, suc, Bool, true, false, not, ◌&&◌, List, [], ◌∷◌, ◌+◌, ◌≤◌, ◌<◌, ◌≡◌, refl, ◌∙◌, none, some,
  length, all, and_true, lt→leb, arith, if◌then◌else◌, Bool-cases, inl, inr,
}
use go_collector.Base.Assoc.{lookup, length-put}
use go_collector.Base.Bytes.{Bytes, is_empty, bytes_eq}
use go_collector.Base.Int.{pos, leb_ℤ}
use go_collector.Messaging.{
  Field, fixed, text, known, set_field, set_fields, encoding_key, truncated_key, attr_int,
}
use go_collector.Tracing.{Span, set_attribute}
use go_collector.Tracing.Finish.{set_attribute-lookup}

pub set_attribute-room :
    (k v j : Bytes) (s : Span)
    → length s.attributes < 64
    → lookup j (set_attribute k v s).attributes
      ≡ (if bytes_eq k j then some v else lookup j s.attributes)
set_attribute-room k v j s h =
    (set_attribute-lookup k v j s (omega arith)).1 ∙ rw (lt→leb 64 (length s.attributes) h) refl

pub set_attribute-length :
    (k v : Bytes) (s : Span) → length (set_attribute k v s).attributes ≤ suc (length s.attributes)
unfolding set_attribute
set_attribute-length k v s = ground (arith, length-put k v s.attributes)

-- At most `n` attributes, and none of the three that describe a body.
abbrev pub IsClear : ℕ → Span → Type 0
IsClear n s =
    (length s.attributes ≤ n)
    × (lookup encoding_key s.attributes ≡ none)
    × (lookup truncated_key s.attributes ≡ none)

set_attribute-IsClear :
    (k v : Bytes) (n : ℕ) (s : Span)
    → n < 64
    → bytes_eq k encoding_key ≡ false
    → bytes_eq k truncated_key ≡ false
    → IsClear n s
    → IsClear (suc n) (set_attribute k v s)
set_attribute-IsClear k v n s room e t (len, enc, tru) = (
  omega (arith, set_attribute-length k v s),
  set_attribute-room k v encoding_key s (omega arith) ∙ rw e enc,
  set_attribute-room k v truncated_key s (omega arith) ∙ rw t tru,
)

abbrev pub key_of : Field → Bytes
key_of (fixed key _) = key
key_of (text key _) = key
key_of (known key _) = key

abbrev pub other : Field → Bool
other f = not (bytes_eq (key_of f) encoding_key) && not (bytes_eq (key_of f) truncated_key)

other_lem :
    (f : Field)
    → other f ≡ true
    → (bytes_eq (key_of f) encoding_key ≡ false) × (bytes_eq (key_of f) truncated_key ≡ false)
other_lem f h = (ground arith, ground arith)

IsClear-more : (n : ℕ) (s : Span) → IsClear n s → IsClear (suc n) s
IsClear-more n s (len, enc, tru) = (omega arith, enc, tru)

set_field-IsClear :
    (f : Field) (n : ℕ) (s : Span)
    → n < 64
    → other f ≡ true
    → IsClear n s
    → IsClear (suc n) (set_field f s)
set_field-IsClear (fixed k v) n s room h c =
    set_attribute-IsClear k v n s room (other_lem (fixed k v) h).0 (other_lem (fixed k v) h).1 c
set_field-IsClear (text k v) n s room h c = elim (Bool-cases (is_empty v)) [
  | inl absent ↦ rw absent (IsClear-more n s c)
  | inr present ↦
      rw present
        (set_attribute-IsClear k v n s room (other_lem (text k v) h).0 (other_lem (text k v) h).1 c)
]
set_field-IsClear (known k v) n s room h c = elim (Bool-cases (leb_ℤ (pos 0) v)) [
  | inr absent ↦ rw absent (IsClear-more n s c)
  | inl present ↦ rw present (
      set_attribute-IsClear k (attr_int v) n s room (other_lem (known k v) h).0
        (other_lem (known k v) h).1 c)
]

pub set_fields-IsClear :
    (fs : List Field) (n stop : ℕ) (s : Span)
    → n + length fs ≤ stop
    → stop ≤ 64
    → all other fs ≡ true
    → IsClear n s
    → IsClear stop (set_fields fs s)
unfolding set_fields
set_fields-IsClear [] n stop s room small h (len, enc, tru) = (omega arith, enc, tru)
set_fields-IsClear (f ∷ fs) n stop s room small h c =
    set_fields-IsClear fs (suc n) stop (set_field f s) (omega arith) small (and_true _ _ h).1
      (set_field-IsClear f n s (omega arith) (and_true _ _ h).0 c)
