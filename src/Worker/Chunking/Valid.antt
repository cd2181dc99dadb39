-- ===== src/Worker/Chunking/Valid.antt =====
-- Input that passes the validation has a token in each of its heading groups.
use serviq.Common.{
  ℕ, suc, ◌<◌, ◌≡◌, refl, sym, ap, ◌∙◌, inl, inr, String, none, some, Bool, true, false, ◌&&◌, List,
  [], ◌∷◌, ◌++◌, arith, length, ◌==◌, Bool-cases, All,
}
use serviq.Worker.Chunking.{
  ChunkPolicy, Segment, HeadingGroup, is_empty, find_tokens, tokens, validate_from,
  validate_segments, unless_invalid, same_path, group_from, groups_after, heading_groups, place,
  group_separator, materialize_group, chunk_groups, chunk_normalized_segments,
}
use serviq.Worker.Chunking.Whole.{HasToken, chunk_groups_lem, within, reference_groups}

abbrev all_space : (ℕ → Bool) → List ℕ → Bool
all_space is_space [] = true
all_space is_space (x ∷ xs) = is_space x && all_space is_space xs

open_some :
    (is_space : ℕ → Bool) (i a : ℕ) (text : List ℕ)
    → is_empty (find_tokens is_space i (some a) text) ≡ false
unfolding find_tokens
open_some is_space i a [] = refl
open_some is_space i a (x ∷ xs) = elim (Bool-cases (is_space x)) [
  | inl space ↦ rw (space, is_empty) refl
  | inr char ↦ rw (char, is_empty) (open_some is_space (suc i) a xs)
]

-- A text has no token just where it is all space.
find_tokens-is_empty :
    (is_space : ℕ → Bool) (i : ℕ) (text : List ℕ)
    → is_empty (find_tokens is_space i none text) ≡ all_space is_space text
unfolding find_tokens
find_tokens-is_empty is_space i [] = refl
find_tokens-is_empty is_space i (x ∷ xs) = elim (Bool-cases (is_space x)) [
  | inl space ↦ rw (space, is_empty) (find_tokens-is_empty is_space (suc i) xs)
  | inr char ↦ rw (char, is_empty) (open_some is_space (suc i) i xs)
]

all_space-append :
    (is_space : ℕ → Bool) (xs ys : List ℕ)
    → all_space is_space xs ≡ false
    → all_space is_space (xs ++ ys) ≡ false
all_space-append is_space [] ys h = ground arith
all_space-append is_space (x ∷ xs) ys h = ground (arith, all_space-append is_space xs ys)

abbrev Speaks : (ℕ → Bool) → Segment → Type 0
Speaks is_space s = is_empty (tokens is_space s.text) ≡ false

-- The first segment of a group has a token.
abbrev Opens : (ℕ → Bool) → List Segment → Type 0
Opens is_space [] = true ≡ false
Opens is_space (s ∷ ss) = Speaks is_space s

abbrev OpensGroup : (ℕ → Bool) → HeadingGroup → Type 0
OpensGroup is_space g = Opens is_space g.segments

Opens-append :
    (is_space : ℕ → Bool) (xs ys : List Segment) → Opens is_space xs → Opens is_space (xs ++ ys)
Opens-append is_space [] ys h = absurd (cc h)
Opens-append is_space (x ∷ xs) ys h = h

place-HasToken :
    (is_space : ℕ → Bool) (ss : List Segment)
    → Opens is_space ss
    → is_empty (tokens is_space (materialize_group ss).0) ≡ false
unfolding place
place-HasToken is_space [] h = absurd (cc h)
place-HasToken is_space (s ∷ ss) h =
    let rest = (place group_separator (length s.text) ss).0 in
    let spoken : all_space is_space s.text ≡ false =
      sym (find_tokens-is_empty is_space 0 s.text) ∙ h in
    find_tokens-is_empty is_space 0 (s.text ++ _) ∙ all_space-append is_space s.text _ spoken

group_from-Opens :
    (is_space : ℕ → Bool) (path : List String) (current ss : List Segment)
    → Opens is_space current
    → All (Speaks is_space) ss
    → All (OpensGroup is_space) (group_from path current ss)
unfolding group_from
group_from-Opens is_space path current [] o h = (o, tt)
group_from-Opens is_space path current (s ∷ ss) o h =
    elim (Bool-cases (same_path s.heading_path path)) [
      | inl same ↦
          rw (same, All)
            (group_from-Opens is_space path (current ++ s ∷ []) ss
              (Opens-append is_space current (s ∷ []) o) h.1)
      | inr other ↦
          rw (other, All) (o, group_from-Opens is_space s.heading_path (s ∷ []) ss h.0 h.1)
    ]

groups_after-Opens :
    (is_space : ℕ → Bool) (lead ss : List Segment)
    → Opens is_space lead
    → All (Speaks is_space) ss
    → All (OpensGroup is_space) (groups_after lead ss)
unfolding groups_after
groups_after-Opens is_space lead [] o h = (o, tt)
groups_after-Opens is_space lead (s ∷ ss) o h =
    let more = Opens-append is_space lead (s ∷ []) o in
    elim (Bool-cases (is_empty s.heading_path)) [
      | inl plain ↦ rw (plain, All) (groups_after-Opens is_space (lead ++ s ∷ []) ss more h.1)
      | inr headed ↦
          rw (headed, All) (group_from-Opens is_space s.heading_path (lead ++ s ∷ []) ss more h.1)
    ]

heading_groups-Opens :
    (is_space : ℕ → Bool) (s : Segment) (ss : List Segment)
    → All (Speaks is_space) (s ∷ ss)
    → All (OpensGroup is_space) (heading_groups (s ∷ ss))
unfolding groups_after
heading_groups-Opens is_space s ss h = elim (Bool-cases (is_empty s.heading_path)) [
  | inl plain ↦ rw (plain, All) (groups_after-Opens is_space (s ∷ []) ss h.0 h.1)
  | inr headed ↦ rw (headed, All) (group_from-Opens is_space s.heading_path (s ∷ []) ss h.0 h.1)
]

All-HasToken :
    (is_space : ℕ → Bool) (gs : List HeadingGroup)
    → All (OpensGroup is_space) gs
    → All (HasToken is_space) gs
All-HasToken is_space [] h = tt
All-HasToken is_space (g ∷ gs) h =
    (place-HasToken is_space g.segments h.0, All-HasToken is_space gs h.1)

validate_from_inv :
    (is_space : ℕ → Bool) (i : ℕ) (ss : List Segment)
    → validate_from is_space i ss ≡ none
    → All (Speaks is_space) ss
unfolding validate_from
validate_from_inv is_space i [] h = tt
validate_from_inv is_space i (s ∷ ss) h = elim (Bool-cases (s.ordinal == i)) [
  | inr wrong ↦ absurd (cc (rw wrong at h))
  | inl here ↦ elim (Bool-cases (is_empty (tokens is_space s.text))) [
    | inl blank ↦ absurd (cc (rw (here, blank) at h))
    | inr spoken ↦ (spoken, validate_from_inv is_space (suc i) ss (rw (here, spoken) at h))
  ]
]

-- Validated segments are chunked as the reference says, if the reference has at most `max_chunks`
-- chunks, and are refused with the limit's error if it has more; no other error is left. The
-- condition on the overlap is the policy's own check.
pub chunk_normalized_segments_lem :
    (is_space : ℕ → Bool) (ss : List Segment) (p : ChunkPolicy)
    → p.overlap_tokens < p.max_tokens
    → validate_segments is_space ss ≡ none
    → chunk_normalized_segments is_space ss p
      ≡ within p 0 (reference_groups is_space p 0 (heading_groups ss))
unfolding chunk_normalized_segments validate_segments
chunk_normalized_segments_lem is_space [] p ok h = absurd (cc h)
chunk_normalized_segments_lem is_space (s ∷ ss) p ok h =
    ap (λ v. unless_invalid v (chunk_groups is_space p 0 (heading_groups (s ∷ ss)))) h
    ∙ chunk_groups_lem is_space p 0 (heading_groups (s ∷ ss)) ok (omega arith) (
        All-HasToken is_space _
          (heading_groups-Opens is_space s ss (validate_from_inv is_space 0 (s ∷ ss) h)))
