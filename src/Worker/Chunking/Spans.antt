-- ===== src/Worker/Chunking/Spans.antt =====
-- Where the segments of a group stand in its text, and which of them a window covers.
use serviq.Common.{
  ℕ, ◌+◌, ◌-◌, ◌≤◌, ◌≡◌, refl, sym, ap, ◌∙◌, subst, Bool, true, false, ◌&&◌, List, [], ◌∷◌, ◌++◌,
  take, length-append, append_assoc, drop-append, take-append, map, arith, length, ltb, leb,
  filter_where, All, inl, inr, Bool-cases,
}
use serviq.Worker.Chunking.{
  Segment, SegmentSpan, provenance_of, slice, group_separator, place, materialize_group,
  window_provenance,
}

-- The middle of a text in three parts.
slice_middle :
    (a b : ℕ) (xs ys zs : List ℕ)
    → length xs ≡ a
    → a + length ys ≡ b
    → slice a b (xs ++ (ys ++ zs)) ≡ ys
slice_middle a b xs ys zs h k =
    ap (take (b - a)) (drop-append a xs (ys ++ zs) h) ∙ take-append (b - a) ys zs (omega arith)

-- A span reads its segment's text out of the group's.
abbrev pub ReadsIts : List ℕ → SegmentSpan → Type 0
ReadsIts text sp = slice sp.start sp.end text ≡ sp.segment.text

place-ReadsIts :
    (before separator : List ℕ) (cursor : ℕ) (ss : List Segment)
    → length before ≡ cursor
    → let (text, spans) = place separator cursor ss in All (ReadsIts (before ++ text)) spans
unfolding place
place-ReadsIts before separator cursor [] h = tt
place-ReadsIts before separator cursor (s ∷ ss) h =
    let start = cursor + length separator in
    let end = start + length s.text in
    let rest = (place group_separator end ss).0 in
    let laid = append_assoc before separator (s.text ++ rest) in
    let long : length (before ++ separator) ≡ start =
      omega (arith, h, length-append before separator) in
    let all : before ++ separator ++ s.text ++ rest ≡ before ++ (separator ++ (s.text ++ rest)) =
      append_assoc (before ++ separator) s.text rest ∙ laid in
    (
      ap (slice start end) (sym laid)
          ∙ slice_middle start end (before ++ separator) s.text rest long refl,
      subst (λ t. All (ReadsIts t) (place group_separator end ss).1) all
          (place-ReadsIts (before ++ separator ++ s.text) group_separator end ss
            (omega (arith, long, length-append (before ++ separator) s.text))),
    )

-- In the text that a group of segments becomes, the span of every segment reads exactly that
-- segment's text.
pub materialize_group-ReadsIts :
    (ss : List Segment) → let (text, spans) = materialize_group ss in All (ReadsIts text) spans
materialize_group-ReadsIts ss = place-ReadsIts [] [] 0 ss refl

-- Spans start no earlier than `from`, in ascending order.
abbrev pub Ascending : ℕ → List SegmentSpan → Type 0
Ascending from [] = Unit
Ascending from (sp ∷ sps) = (from ≤ sp.start) × Ascending sp.start sps

pub place-Ascending :
    (separator : List ℕ) (from cursor : ℕ) (ss : List Segment)
    → from ≤ cursor
    → Ascending from (place separator cursor ss).1
unfolding place
place-Ascending separator from cursor [] h = tt
place-Ascending separator from cursor (s ∷ ss) h = (
  omega (arith, h),
  place-Ascending group_separator (cursor + length separator)
      (cursor + length separator + length s.text) ss (omega arith),
)

-- The spans that share a code point with the window [a, b), or are empty inside it.
abbrev pub covers : ℕ → ℕ → SegmentSpan → Bool
covers a b sp = ltb sp.start b && ltb a sp.end

none_after :
    (a b from : ℕ) (sps : List SegmentSpan)
    → b ≤ from
    → Ascending from sps
    → filter_where (covers a b) sps ≡ []
none_after a b from [] h up = refl
none_after a b from (sp ∷ sps) h up =
    let out : ltb sp.start b ≡ false = ground (arith, up.0) in
    rw out (none_after a b sp.start sps (omega (arith, up.0)) up.1)

pub provenance_lem :
    (a b from : ℕ) (sps : List SegmentSpan)
    → Ascending from sps
    → window_provenance sps a b
      ≡ map (λ sp. provenance_of sp.segment) (filter_where (covers a b) sps)
unfolding window_provenance
provenance_lem a b from [] up = refl
provenance_lem a b from (sp ∷ sps) up = elim (Bool-cases (leb b sp.start)) [
  | inl stop ↦
      let out : ltb sp.start b ≡ false = ground (arith, stop) in
      rw (stop, out)
        (ap (map (λ x. provenance_of x.segment))
          (sym (none_after a b sp.start sps (ground (arith, stop)) up.1)))
  | inr before ↦
      let in_reach : ltb sp.start b ≡ true = ground (arith, before) in
      elim (Bool-cases (leb sp.end a)) [
        | inl gone ↦
            let out : ltb a sp.end ≡ false = ground (arith, gone) in
            rw (before, gone, in_reach, out) (provenance_lem a b sp.start sps up.1)
        | inr hit ↦
            let over : ltb a sp.end ≡ true = ground (arith, hit) in
            rw (before, hit, in_reach, over)
              (ap (◌∷◌ (provenance_of sp.segment)) (provenance_lem a b sp.start sps up.1))
      ]
]
