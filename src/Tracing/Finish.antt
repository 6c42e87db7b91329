-- ===== src/Tracing/Finish.antt =====
-- What the end of a span records, and that it does so once.
use go_collector.Base.{
  [], ◌≤◌, not, ◌||◌, ◌≡◌, refl, ◌∙◌, Option, none, some, arith, length, leb, if◌then◌else◌,
  Bool-cases, inl, inr,
}
use go_collector.Base.Assoc.{lookup, lookup-put, length-put}
use go_collector.Base.Bytes.{Bytes, is_empty, bytes_eq}
use go_collector.Redact.Laws.{redacted_under, lookup-redact_map}
use go_collector.Resource.{
  Build, merge, process_attributes, put_version, with_resource_attributes, or_else, lookup-merge,
}
use go_collector.Tracing.Wire.{SpanRecord}
use go_collector.Tracing.{Span, recorded_attributes, finish, set_attribute}

-- A span is recorded at most once: behind a first finish, whatever it returned, a second one returns
-- nothing and changes nothing.
pub finish_once :
    (build : Build) (now later : Bytes) (s : Span)
    → finish build later (finish build now s).1 ≡ (none, (finish build now s).1)
unfolding finish
finish_once build now later s = elim (Bool-cases s.ended) [
  | inl already ↦ rw already refl
  | inr running ↦ elim (Bool-cases (not s.cfg.enabled || not s.cfg.apm_enabled || is_empty s.dir)) [
    | inl off ↦ rw (running, off) refl
    | inr on ↦ rw (running, on) refl
  ]
]

-- The application's value under a key, as it is recorded.
abbrev pub recorded_under : Bytes → Span → Option Bytes
recorded_under k s =
    if s.cfg.http_redact
    then redacted_under k s.cfg.redact_patterns (lookup k s.attributes)
    else lookup k s.attributes

lookup-recorded :
    (build : Build) (k : Bytes) (s : Span)
    → lookup k (recorded_attributes build s)
      ≡ or_else
          (recorded_under k s)
          (lookup k (put_version s.cfg.service_version (merge (process_attributes build) [])))
unfolding with_resource_attributes
lookup-recorded build k s = elim (Bool-cases s.cfg.http_redact) [
  | inl redact ↦
      rw redact
        (lookup-merge k _ _ ∙ rw (lookup-redact_map k s.attributes s.cfg.redact_patterns) refl)
  | inr plain ↦ rw plain (lookup-merge k _ _)
]

abbrev Records : Build → Bytes → Span → Option SpanRecord → Type 0
Records build k s none = Unit
Records build k s (some r) =
    lookup k r.attributes
    ≡ or_else (recorded_under k s)
        (lookup k (put_version s.cfg.service_version (merge (process_attributes build) [])))

finish-Records :
    (build : Build) (now k : Bytes) (s : Span) → Records build k s (finish build now s).0
unfolding finish
finish-Records build now k s = elim (Bool-cases s.ended) [
  | inl already ↦ rw already tt
  | inr running ↦ elim (Bool-cases (not s.cfg.enabled || not s.cfg.apm_enabled || is_empty s.dir)) [
    | inl off ↦ rw (running, off) tt
    | inr on ↦ rw (running, on) (lookup-recorded build k s)
  ]
]

-- In the record of a finished span, under every key, stands what the application set there, masked
-- where redaction is on and the key matches a pattern; under a key that it did not set, the attribute
-- of the process, which no pattern touches.
pub finish-attributes :
    (build : Build) (now k : Bytes) (s : Span) (r : SpanRecord)
    → (finish build now s).0 ≡ some r
    → lookup k r.attributes
      ≡ or_else
          (recorded_under k s)
          (lookup k (put_version s.cfg.service_version (merge (process_attributes build) [])))
finish-attributes build now k s r e = rw e at (finish-Records build now k s)

-- A span of at most 64 attributes keeps to that bound, and SetAttribute makes the value readable
-- exactly when there were fewer; at 64 it changes nothing, not even the value of a key that is there.
pub set_attribute-lookup :
    (k v j : Bytes) (s : Span)
    → length s.attributes ≤ 64
    → (length (set_attribute k v s).attributes ≤ 64)
      × (lookup j (set_attribute k v s).attributes ≡ (
          if leb 64 (length s.attributes)
          then lookup j s.attributes
          else if bytes_eq k j
          then some v
          else lookup j s.attributes))
unfolding set_attribute
set_attribute-lookup k v j s h = elim (Bool-cases (leb 64 (length s.attributes))) [
  | inl full ↦ rw full (h, refl)
  | inr room ↦ rw room (ground (arith, length-put k v s.attributes), lookup-put k j v s.attributes)
]
