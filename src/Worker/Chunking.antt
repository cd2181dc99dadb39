-- ===== src/Worker/Chunking.antt =====
-- services/worker/app/core/knowledge_chunking.py: deterministic chunking of normalized segments.
-- A text is a list of code points; which of them `\S` rejects is the parameter `is_space`. The
-- checks of Python types have no counterpart, since the rows here are typed.
pub mod Windows
pub mod Spans
pub mod Starts
pub mod Groups
pub mod Whole
pub mod Valid
use serviq.Common.{
  ℕ, zero, suc, ◌+◌, ◌-◌, String, Option, none, some, Bool, true, false, not, ◌&&◌, ◌||◌, List, [],
  ◌∷◌, ◌++◌, take, drop, length-append, length-drop, length-take, take-drop, append_nil,
  append_assoc, drop-append, take-append, nil_of_length, drop_short, take_more, map, length, ltb,
  leb, ◌==◌, str_eq, if◌then◌else◌,
}

pub data ChunkingError : Type 0 where
  empty_input invalid_segments token_empty_segment invalid_policy chunk_limit_exceeded :
      ChunkingError

pub data Outcome {ℓ} (A : Type ℓ) : Type ℓ where
  done : A → Outcome A
  refused : ChunkingError → Outcome A

pub record ChunkPolicy : Type 0 where
  pub max_tokens : ℕ
  pub overlap_tokens : ℕ
  pub max_chunks : ℕ

-- `ChunkPolicy.__post_init__`
unfoldable pub is_policy : ChunkPolicy → Bool
is_policy p = not (p.max_tokens == 0 || p.max_chunks == 0 || leb p.max_tokens p.overlap_tokens)

-- `NormalizedSegment`, and `ChunkProvenance` of a segment, which copies all but its text.
pub record Segment : Type 0 where
  pub ordinal : ℕ
  pub text : List ℕ
  pub page_number : Option ℕ
  pub heading_path : List String
  pub start_line : Option ℕ
  pub end_line : Option ℕ

pub record ChunkProvenance : Type 0 where
  pub segment_ordinal : ℕ
  pub page_number : Option ℕ
  pub heading_path : List String
  pub start_line : Option ℕ
  pub end_line : Option ℕ

abbrev pub provenance_of : Segment → ChunkProvenance
provenance_of s = record {
  segment_ordinal = s.ordinal;
  page_number = s.page_number;
  heading_path = s.heading_path;
  start_line = s.start_line;
  end_line = s.end_line;
}

pub record KnowledgeChunk : Type 0 where
  pub ordinal : ℕ
  pub text : List ℕ
  pub token_count : ℕ
  pub heading_path : List String
  pub provenance : List ChunkProvenance

pub record HeadingGroup : Type 0 where
  pub heading_path : List String
  pub segments : List Segment

pub record SegmentSpan : Type 0 where
  pub segment : Segment
  pub start : ℕ
  pub end : ℕ

pub record Token : Type 0 where
  pub start : ℕ
  pub end : ℕ

abbrev pub is_empty {ℓ} : {A : Type ℓ} → List A → Bool
is_empty [] = true
is_empty (x ∷ xs) = false

-- `_TOKEN.finditer`: the runs of code points that are no space, from position `i` on; a run that
-- is open began at its start.
unfoldable pub find_tokens : (ℕ → Bool) → ℕ → Option ℕ → List ℕ → List Token
find_tokens is_space i none [] = []
find_tokens is_space i (some a) [] = record { start = a; end = i } ∷ []
find_tokens is_space i none (x ∷ xs) = elim (is_space x) [
  | true ↦ find_tokens is_space (suc i) none xs
  | false ↦ find_tokens is_space (suc i) (some i) xs
]
find_tokens is_space i (some a) (x ∷ xs) = elim (is_space x) [
  | true ↦ record { start = a; end = i } ∷ find_tokens is_space (suc i) none xs
  | false ↦ find_tokens is_space (suc i) (some a) xs
]

abbrev pub tokens : (ℕ → Bool) → List ℕ → List Token
tokens is_space text = find_tokens is_space 0 none text

-- The loop of `_token_windows`: the deques that it yields from, given the current one and what
-- the iterator has left. Every turn takes a token from the iterator, so the tokens are the fuel.
unfoldable pub slide : ChunkPolicy → ℕ → List Token → List Token → List (List Token)
slide p zero window more = window ∷ []
slide p (suc n) window [] = window ∷ []
slide p (suc n) window (next ∷ more) =
    let kept = drop (p.max_tokens - p.overlap_tokens) window ++ next ∷ [] in
    let room = p.max_tokens - length kept in
    let rest = slide p n (kept ++ take room more) (drop room more) in
    if ltb (length window) p.max_tokens then window ∷ [] else window ∷ rest

unfoldable pub window_tokens : ChunkPolicy → List Token → List (List Token)
window_tokens p ts = slide p (length ts) (take p.max_tokens ts) (drop p.max_tokens ts)

-- What `_token_windows` yields of a deque. No deque is empty where the text has a token.
pub record Window : Type 0 where
  pub char_start : ℕ
  pub char_end : ℕ
  pub token_count : ℕ

abbrev pub last_end : ℕ → List Token → ℕ
last_end e [] = e
last_end e (t ∷ ts) = last_end t.end ts

abbrev pub window_of : List Token → Window
window_of [] = record { char_start = 0; char_end = 0; token_count = 0 }
window_of (t ∷ ts) = record {
  char_start = t.start;
  char_end = last_end t.end ts;
  token_count = suc (length ts);
}

abbrev pub yielded : ChunkPolicy → List Token → Outcome (List Window)
yielded p [] = refused token_empty_segment
yielded p (t ∷ ts) = done (map window_of (window_tokens p (t ∷ ts)))

-- `_token_windows`
unfoldable pub token_windows : (ℕ → Bool) → List ℕ → ChunkPolicy → Outcome (List Window)
token_windows is_space text p = yielded p (tokens is_space text)

-- `_validate_segments`, from an ordinal on.
unfoldable pub validate_from : (ℕ → Bool) → ℕ → List Segment → Option ChunkingError
validate_from is_space i [] = none
validate_from is_space i (s ∷ ss) =
    let rest = validate_from is_space (suc i) ss in
    if not (s.ordinal == i)
    then some invalid_segments
    else if is_empty (tokens is_space s.text)
    then some token_empty_segment
    else rest

unfoldable pub validate_segments : (ℕ → Bool) → List Segment → Option ChunkingError
validate_segments is_space [] = some empty_input
validate_segments is_space (s ∷ ss) = validate_from is_space 0 (s ∷ ss)

abbrev pub same_path : List String → List String → Bool
same_path [] [] = true
same_path (x ∷ xs) (y ∷ ys) = str_eq x y && same_path xs ys
same_path _ _ = false

-- The loop of `_heading_groups`, with the open group.
unfoldable pub group_from : List String → List Segment → List Segment → List HeadingGroup
group_from path current [] = record { heading_path = path; segments = current } ∷ []
group_from path current (s ∷ ss) = elim (same_path s.heading_path path) [
  | true ↦ group_from path (current ++ s ∷ []) ss
  | false ↦
      record { heading_path = path; segments = current } ∷ group_from s.heading_path (s ∷ []) ss
]

-- `_heading_groups`; the segments before the first heading join its group.
unfoldable pub groups_after : List Segment → List Segment → List HeadingGroup
groups_after lead [] = record { heading_path = []; segments = lead } ∷ []
groups_after lead (s ∷ ss) = elim (is_empty s.heading_path) [
  | true ↦ groups_after (lead ++ s ∷ []) ss
  | false ↦ group_from s.heading_path (lead ++ s ∷ []) ss
]

abbrev pub heading_groups : List Segment → List HeadingGroup
heading_groups ss = groups_after [] ss

-- `_GROUP_SEPARATOR`: two line feeds.
abbrev pub group_separator : List ℕ
group_separator = 10 ∷ 10 ∷ []

-- The loop of `_materialize_group`, from a cursor and with the separator of the next segment.
unfoldable pub place : List ℕ → ℕ → List Segment → List ℕ × List SegmentSpan
place separator cursor [] = ([], [])
place separator cursor (s ∷ ss) =
    let start = cursor + length separator in
    let end = start + length s.text in
    let (text, spans) = place group_separator end ss in
    (separator ++ (s.text ++ text), record { segment = s; start = start; end = end } ∷ spans)

-- `_materialize_group`
abbrev pub materialize_group : List Segment → List ℕ × List SegmentSpan
materialize_group ss = place [] 0 ss

-- The `while` that moves `provenance_start_index`; the index is the suffix of spans it leaves.
unfoldable pub skip_before : ℕ → List SegmentSpan → List SegmentSpan
skip_before a [] = []
skip_before a (sp ∷ sps) = elim (leb sp.end a) [ true ↦ skip_before a sps | false ↦ sp ∷ sps ]

-- `_window_provenance` on the spans from the start index on.
unfoldable pub window_provenance : List SegmentSpan → ℕ → ℕ → List ChunkProvenance
window_provenance [] a b = []
window_provenance (sp ∷ sps) a b =
    let rest = window_provenance sps a b in
    if leb b sp.start then [] else if leb sp.end a then rest else provenance_of sp.segment ∷ rest

-- `group_text[start:end]`
abbrev pub slice : ℕ → ℕ → List ℕ → List ℕ
slice a b text = take (b - a) (drop a text)

abbrev pub with_chunk :
    KnowledgeChunk → Outcome (List KnowledgeChunk) → Outcome (List KnowledgeChunk)
with_chunk c (done cs) = done (c ∷ cs)
with_chunk c (refused e) = refused e

-- The loop over the windows of one group, where `n` chunks exist already.
unfoldable pub chunk_windows :
    ChunkPolicy
    → List String
    → List ℕ
    → List SegmentSpan
    → ℕ
    → List Window
    → Outcome (List KnowledgeChunk)
chunk_windows p path text spans n [] = done []
chunk_windows p path text spans n (w ∷ ws) =
    let left = skip_before w.char_start spans in
    let rest = chunk_windows p path text left (suc n) ws in
    if leb p.max_chunks n
    then refused chunk_limit_exceeded
    else with_chunk
        (record {
          ordinal = n;
          text = slice w.char_start w.char_end text;
          token_count = w.token_count;
          heading_path = path;
          provenance = window_provenance left w.char_start w.char_end;
        })
        rest

abbrev pub chunk_group :
    ChunkPolicy
    → List String
    → List ℕ
    → List SegmentSpan
    → ℕ
    → Outcome (List Window)
    → Outcome (List KnowledgeChunk)
chunk_group p path text spans n (refused e) = refused e
chunk_group p path text spans n (done ws) = chunk_windows p path text spans n ws

abbrev pub followed_by :
    Outcome (List KnowledgeChunk)
    → (ℕ → Outcome (List KnowledgeChunk))
    → Outcome (List KnowledgeChunk)
followed_by (refused e) k = refused e
followed_by (done cs) k = elim (k (length cs)) [ done ds ↦ done (cs ++ ds) | refused e ↦ refused e ]

-- The loop over the groups, where `n` chunks exist already.
unfoldable pub chunk_groups :
    (ℕ → Bool) → ChunkPolicy → ℕ → List HeadingGroup → Outcome (List KnowledgeChunk)
chunk_groups is_space p n [] = done []
chunk_groups is_space p n (g ∷ gs) =
    let (text, spans) = materialize_group g.segments in
    followed_by (chunk_group p g.heading_path text spans n (token_windows is_space text p))
      λ k. chunk_groups is_space p (n + k) gs

abbrev pub unless_invalid {ℓ} : {A : Type ℓ} → Option ChunkingError → Outcome A → Outcome A
unless_invalid none x = x
unless_invalid (some e) x = refused e

-- `chunk_normalized_segments`
unfoldable pub chunk_normalized_segments :
    (ℕ → Bool) → List Segment → ChunkPolicy → Outcome (List KnowledgeChunk)
chunk_normalized_segments is_space ss p =
    unless_invalid (validate_segments is_space ss) (chunk_groups is_space p 0 (heading_groups ss))
