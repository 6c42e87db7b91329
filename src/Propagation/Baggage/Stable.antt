-- ===== src/Propagation/Baggage/Stable.antt =====
-- What NormalizeBaggage returns: bounded members, which a second pass leaves as they are, if their
-- encoding still fits the bound on a header.
use go_collector.Base.{
  ◌≤◌, ◌<◌, ◌||◌, List, [], ◌∷◌, map, ◌≡◌, refl, ap, ◌∙◌, arith, length, ltb, if◌then◌else◌,
  Bool-cases, inl, inr,
}
use go_collector.Base.Bytes.{Bytes, is_empty}
use go_collector.Propagation.Baggage.{
  max_baggage_entries, max_baggage_header_bytes, baggage_member, baggage_render, normalize_baggage,
}
use go_collector.Propagation.Members.{
  Pair, collect, Fresh, AllGood, Kept, collect-Kept, collect-again, split-rendered, Edged-rendered,
}
use go_collector.Text.Edged.{trim_space-Edged}
use go_collector.Text.Split.{split, join}
use go_collector.Text.Trim.{trim_space, trim_space-nil}
use go_collector.Text.Within.{All-trim_space, Each-split}
use go_collector.Propagation.Baggage.Member.{
  IsBytes, IsMember, baggage_member-sound, baggage_member-render, Edged-render, Free-render_comma,
}

members_of-Kept :
    (header : Bytes)
    → IsBytes header
    → Kept baggage_member baggage_render max_baggage_entries IsMember IsBytes baggage_member-sound
        [] []
        (collect baggage_member baggage_render max_baggage_entries
          (split b',' (trim_space header))
          []
          [])
members_of-Kept header b =
    collect-Kept baggage_member baggage_render max_baggage_entries IsMember IsBytes
      baggage_member-sound (split b',' (trim_space header)) [] []
      (Each-split (λ c. c < 256) b',' (trim_space header) (All-trim_space (λ c. c < 256) header b))
      (omega arith)

-- At most 64 members, no key twice, each with a token of at most 256 bytes for a key and, encoded
-- behind it, a value of one to 4096 bytes, joined by commas.
pub record IsNormal (header : Bytes) : Type 0 where
  pub pairs : List Pair
  pub is_header : header ≡ join b',' (map baggage_render pairs)
  pub members : AllGood IsMember pairs
  pub distinct : Fresh [] pairs
  pub few : length pairs ≤ max_baggage_entries

normalize_baggage-IsNormal : (header : Bytes) → IsBytes header → IsNormal (normalize_baggage header)
unfolding normalize_baggage
normalize_baggage-IsNormal header b =
    elim (Bool-cases
      (is_empty (trim_space header) || ltb max_baggage_header_bytes (length (trim_space header)))) [
        | inl refused ↦ rw refused (record {
          pairs = [];
          is_header = unfold join in refl;
          members = tt;
          distinct = tt;
          few = omega arith;
        })
        | inr read ↦
            let kept = members_of-Kept header b in
            rw read (record {
              pairs = kept.pairs;
              is_header = ap (join b',') kept.is_result;
              members = kept.good;
              distinct = kept.fresh;
              few = omega (arith, kept.within_cap);
            })
      ]

abbrev rendered : List Pair → Bytes
rendered pairs = join b',' (map baggage_render pairs)

-- A header that is empty again, or too long, is refused; any other comes back.
normalize_baggage-rendered :
    (pairs : List Pair)
    → AllGood IsMember pairs
    → Fresh [] pairs
    → length pairs ≤ max_baggage_entries
    → normalize_baggage (rendered pairs) ≡ (
        if ltb max_baggage_header_bytes (length (trim_space (rendered pairs)))
        then []
        else rendered pairs)
unfolding normalize_baggage
normalize_baggage-rendered [] g f h = unfold join in rw trim_space-nil refl
normalize_baggage-rendered (p ∷ ps) g f h =
    let (there, apart) =
      split-rendered baggage_render b',' IsMember Edged-render Free-render_comma p ps g in
    rw (there, apart)
      (ap
        (λ t.
          if ltb max_baggage_header_bytes (length (trim_space (rendered (p ∷ ps))))
          then []
          else join b',' t)
        (collect-again baggage_member baggage_render max_baggage_entries IsMember IsBytes
          baggage_member-sound baggage_member-render (p ∷ ps) [] [] g f (omega arith)))

trim_space-rendered :
    (pairs : List Pair) → AllGood IsMember pairs → trim_space (rendered pairs) ≡ rendered pairs
unfolding join
trim_space-rendered [] g = trim_space-nil
trim_space-rendered (p ∷ ps) g =
    trim_space-Edged (rendered (p ∷ ps))
      (Edged-rendered baggage_render b',' IsMember Edged-render Free-render_comma p ps g)

-- For a header of bytes, NormalizeBaggage returns at most 64 members, no key twice, with keys of at
-- most 256 bytes and values of one to 4096, and a second pass, as the next process makes, returns the
-- same bytes when they are at most 8192 and nothing at all when the encoding has made them more.
pub normalize_baggage_again :
    (header : Bytes)
    → IsBytes header
    → IsNormal (normalize_baggage header)
      × (normalize_baggage (normalize_baggage header) ≡ (
          if ltb max_baggage_header_bytes (length (normalize_baggage header))
          then []
          else normalize_baggage header))
normalize_baggage_again header b =
    let n = normalize_baggage-IsNormal header b in
    (
      n,
      rw n.is_header (
          normalize_baggage-rendered n.pairs n.members n.distinct n.few
          ∙ ap (λ t. if ltb max_baggage_header_bytes (length t) then [] else rendered n.pairs)
              (trim_space-rendered n.pairs n.members)),
    )
