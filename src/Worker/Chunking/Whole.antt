-- ===== src/Worker/Chunking/Whole.antt =====
-- The whole chunking against a reference without start indices and without an early stop.
use serviq.Common.{
  ℕ, suc, ◌+◌, ◌≤◌, ◌<◌, ◌≡◌, refl, sym, ap, ◌∙◌, subst, inl, inr, String, Bool, true, false, List,
  [], ◌∷◌, ◌++◌, map, arith, length, length-append, leb, filter_where, Bool-cases, All,
  if◌then◌else◌,
}
use serviq.Worker.Chunking.{
  ChunkPolicy, Token, Window, SegmentSpan, HeadingGroup, KnowledgeChunk, ChunkProvenance, Outcome,
  done, refused, chunk_limit_exceeded, provenance_of, is_empty, slice, tokens, window_of,
  window_tokens, token_windows, yielded, materialize_group, skip_before, window_provenance,
  chunk_windows, with_chunk, chunk_group, followed_by, chunk_groups,
}
use serviq.Worker.Chunking.Spans.{Ascending, place-Ascending, covers, provenance_lem}
use serviq.Worker.Chunking.Starts.{Climbs, windows-Climbs}

-- The chunk of one window: its provenance is every segment that the window covers.
abbrev pub reference_chunk : List String → List ℕ → List SegmentSpan → ℕ → Window → KnowledgeChunk
reference_chunk path text spans n w = record {
  ordinal = n;
  text = slice w.char_start w.char_end text;
  token_count = w.token_count;
  heading_path = path;
  provenance =
      map (λ sp. provenance_of sp.segment) (filter_where (covers w.char_start w.char_end) spans);
}

abbrev pub reference_windows :
    List String → List ℕ → List SegmentSpan → ℕ → List Window → List KnowledgeChunk
reference_windows path text spans n [] = []
reference_windows path text spans n (w ∷ ws) =
    reference_chunk path text spans n w ∷ reference_windows path text spans (suc n) ws

-- Chunks that follow `n` others, unless there are more than the policy's limit.
abbrev pub within : ChunkPolicy → ℕ → List KnowledgeChunk → Outcome (List KnowledgeChunk)
within p n cs = if leb (n + length cs) p.max_chunks then done cs else refused chunk_limit_exceeded

skip_twice :
    (a b : ℕ) (sps : List SegmentSpan)
    → a ≤ b
    → skip_before b (skip_before a sps) ≡ skip_before b sps
unfolding skip_before
skip_twice a b [] h = refl
skip_twice a b (sp ∷ sps) h = ground (arith, skip_twice a b sps h)

covers-skip_before :
    (a b : ℕ) (sps : List SegmentSpan)
    → filter_where (covers a b) (skip_before a sps) ≡ filter_where (covers a b) sps
unfolding skip_before
covers-skip_before a b [] = refl
covers-skip_before a b (sp ∷ sps) = ground (arith, covers-skip_before a b sps)

Ascending-lower : (a b : ℕ) (sps : List SegmentSpan) → b ≤ a → Ascending a sps → Ascending b sps
Ascending-lower a b [] h up = tt
Ascending-lower a b (sp ∷ sps) h up = (omega (arith, up.0), up.1)

skip_before-Ascending :
    (a from : ℕ) (sps : List SegmentSpan) → Ascending from sps → Ascending from (skip_before a sps)
unfolding skip_before
skip_before-Ascending a from [] up = tt
skip_before-Ascending a from (sp ∷ sps) up = elim (Bool-cases (leb sp.end a)) [
  | inl gone ↦
      rw (gone, Ascending)
        (Ascending-lower sp.start from (skip_before a sps) up.0
          (skip_before-Ascending a sp.start sps up.1))
  | inr kept ↦ rw (kept, Ascending) up
]

-- With its start index, the source finds the segments that the window covers.
pub provenance-skip_before :
    (a b from : ℕ) (sps : List SegmentSpan)
    → Ascending from sps
    → window_provenance (skip_before a sps) a b
      ≡ map (λ sp. provenance_of sp.segment) (filter_where (covers a b) sps)
provenance-skip_before a b from sps up =
    provenance_lem a b from (skip_before a sps) (skip_before-Ascending a from sps up)
    ∙ ap (map (λ sp. provenance_of sp.segment)) (covers-skip_before a b sps)

with_chunk-within :
    (p : ChunkPolicy) (n : ℕ) (c : KnowledgeChunk) (cs : List KnowledgeChunk)
    → (if leb p.max_chunks n
        then refused chunk_limit_exceeded
        else with_chunk c (within p (suc n) cs))
      ≡ within p n (c ∷ cs)
with_chunk-within p n c cs = elim (Bool-cases (leb p.max_chunks n)) [
  | inl reached ↦
      let over : leb (n + suc (length cs)) p.max_chunks ≡ false = ground (arith, reached) in
      rw (reached, over) refl
  | inr room ↦ elim (Bool-cases (leb (n + suc (length cs)) p.max_chunks)) [
    | inl fits ↦
        let fits' : leb (suc n + length cs) p.max_chunks ≡ true = ground (arith, fits) in
        rw (room, fits, fits') refl
    | inr over ↦
        let over' : leb (suc n + length cs) p.max_chunks ≡ false = ground (arith, over) in
        rw (room, over, over') refl
  ]
]

-- One turn of the loop over the windows, given the window's provenance and the later turns.
abbrev limited :
    ChunkPolicy
    → ℕ
    → List String
    → List ℕ
    → Window
    → List ChunkProvenance
    → Outcome (List KnowledgeChunk)
    → Outcome (List KnowledgeChunk)
limited p n path text w marks rest =
    if leb p.max_chunks n
    then refused chunk_limit_exceeded
    else with_chunk
        (record {
          ordinal = n;
          text = slice w.char_start w.char_end text;
          token_count = w.token_count;
          heading_path = path;
          provenance = marks;
        })
        rest

chunk_windows_turn :
    (p : ChunkPolicy) (path : List String) (text : List ℕ) (spans : List SegmentSpan) (n : ℕ)
    (w : Window) (ws : List Window)
    → let left = skip_before w.char_start spans in
      chunk_windows p path text spans n (w ∷ ws)
      ≡ limited p n path text w
          (window_provenance left w.char_start w.char_end)
          (chunk_windows p path text left (suc n) ws)
unfolding chunk_windows
chunk_windows_turn p path text spans n w ws = refl

-- What is left of the spans finds the same windows from `a` on.
abbrev SkipsTo : ℕ → List SegmentSpan → List SegmentSpan → Type 0
SkipsTo a left spans = (b : ℕ) → a ≤ b → skip_before b left ≡ skip_before b spans

chunk_windows_lem :
    (p : ChunkPolicy) (path : List String) (text : List ℕ) (spans left : List SegmentSpan)
    (low n a : ℕ) (ws : List Window)
    → Ascending low spans
    → SkipsTo a left spans
    → Climbs a ws
    → n ≤ p.max_chunks
    → chunk_windows p path text left n ws ≡ within p n (reference_windows path text spans n ws)
chunk_windows_lem p path text spans left low n a [] up skips climb few =
    unfold chunk_windows in
    (let fits : leb (n + 0) p.max_chunks ≡ true = ground (arith, few) in rw fits refl)
chunk_windows_lem p path text spans left low n a (w ∷ ws) up skips climb few =
    let cs = reference_windows path text spans (suc n) ws in
    let next = skip_before w.char_start left in
    let same : next ≡ skip_before w.char_start spans = skips w.char_start climb.0 in
    let marks =
      ap (λ l. window_provenance l w.char_start w.char_end) same
      ∙ provenance-skip_before w.char_start w.char_end low spans up in
    let onward : SkipsTo w.char_start next spans =
      λ b h. skip_twice w.char_start b left h ∙ skips b (omega (arith, h, climb.0)) in
    chunk_windows_turn p path text left n w ws
    ∙ ap (λ q. limited p n path text w q (chunk_windows p path text next (suc n) ws)) marks
    ∙ elim (Bool-cases (leb p.max_chunks n)) [
      | inl reached ↦
          let over : leb (n + suc (length cs)) p.max_chunks ≡ false = ground (arith, reached) in
          rw (reached, over) refl
      | inr room ↦
          ap (limited p n path text w _) (
            chunk_windows_lem p path text spans next low (suc n) w.char_start ws up onward climb.1
              (ground (arith, room)))
          ∙ with_chunk-within p n (reference_chunk path text spans n w) cs
    ]

-- The windows of a text, by the tokens alone.
abbrev pub all_windows : (ℕ → Bool) → ChunkPolicy → List ℕ → List Window
all_windows is_space p text = map window_of (window_tokens p (tokens is_space text))

abbrev pub reference_groups : (ℕ → Bool) → ChunkPolicy → ℕ → List HeadingGroup → List KnowledgeChunk
reference_groups is_space p n [] = []
reference_groups is_space p n (g ∷ gs) =
    let (text, spans) = materialize_group g.segments in
    let cs = reference_windows g.heading_path text spans n (all_windows is_space p text) in
    cs ++ reference_groups is_space p (n + length cs) gs

-- The group's text has a token.
abbrev pub HasToken : (ℕ → Bool) → HeadingGroup → Type 0
HasToken is_space g = is_empty (tokens is_space (materialize_group g.segments).0) ≡ false

token_windows_some :
    (is_space : ℕ → Bool) (text : List ℕ) (p : ChunkPolicy) (t : Token) (ts : List Token)
    → tokens is_space text ≡ t ∷ ts
    → token_windows is_space text p ≡ done (all_windows is_space p text)
unfolding token_windows
token_windows_some is_space text p t ts e =
    ap (yielded p) e ∙ sym (ap (λ x. done (map window_of (window_tokens p x))) e)

token_windows_lem :
    (is_space : ℕ → Bool) (text : List ℕ) (p : ChunkPolicy) (ts : List Token)
    → tokens is_space text ≡ ts
    → is_empty ts ≡ false
    → p.overlap_tokens < p.max_tokens
    → (token_windows is_space text p ≡ done (all_windows is_space p text))
      × Climbs 0 (all_windows is_space p text)
token_windows_lem is_space text p [] e some_token ok = absurd (cc some_token)
token_windows_lem is_space text p (t ∷ ts) e some_token ok = (
  token_windows_some is_space text p t ts e,
  subst (λ x. Climbs 0 (map window_of (window_tokens p x))) (sym e)
      (windows-Climbs is_space text p t ts ok e),
)

followed_by-within :
    (p : ChunkPolicy) (n : ℕ) (cs ds : List KnowledgeChunk) (k : ℕ → Outcome (List KnowledgeChunk))
    → (n + length cs ≤ p.max_chunks → k (length cs) ≡ within p (n + length cs) ds)
    → followed_by (within p n cs) k ≡ within p n (cs ++ ds)
followed_by-within p n cs ds k h = elim (Bool-cases (leb (n + length cs) p.max_chunks)) [
  | inr over ↦
      let over' : leb (n + length (cs ++ ds)) p.max_chunks ≡ false =
        ground (arith, over, length-append cs ds) in
      rw (over, over') refl
  | inl fits ↦
      let next = h (ground (arith, fits)) in
      elim (Bool-cases (leb (n + length cs + length ds) p.max_chunks)) [
        | inl all ↦
            let all' : leb (n + length (cs ++ ds)) p.max_chunks ≡ true =
              ground (arith, all, length-append cs ds) in
            rw (fits, next, all, all') refl
        | inr over ↦
            let over' : leb (n + length (cs ++ ds)) p.max_chunks ≡ false =
              ground (arith, over, length-append cs ds) in
            rw (fits, next, over, over') refl
      ]
]

-- Where every group has a token, the chunks are those of the reference, if they are no more than
-- `max_chunks` in all, and else the limit's error: the start index that the loop keeps from window
-- to window loses no provenance, and the early stop refuses no content that fits.
pub chunk_groups_lem :
    (is_space : ℕ → Bool) (p : ChunkPolicy) (n : ℕ) (gs : List HeadingGroup)
    → p.overlap_tokens < p.max_tokens
    → n ≤ p.max_chunks
    → All (HasToken is_space) gs
    → chunk_groups is_space p n gs ≡ within p n (reference_groups is_space p n gs)
unfolding chunk_groups
chunk_groups_lem is_space p n [] ok few h =
    let fits : leb (n + 0) p.max_chunks ≡ true = ground (arith, few) in rw fits refl
chunk_groups_lem is_space p n (g ∷ gs) ok few h =
    let text = (materialize_group g.segments).0 in
    let spans = (materialize_group g.segments).1 in
    let cs = reference_windows g.heading_path text spans n (all_windows is_space p text) in
    let (windows, climb) = token_windows_lem is_space text p (tokens is_space text) refl h.0 ok in
    let first =
      chunk_windows_lem p g.heading_path text spans spans 0 n 0 (all_windows is_space p text)
        (place-Ascending [] 0 0 g.segments (omega arith)) (λ b _. refl) climb few in
    let onward : ℕ → Outcome (List KnowledgeChunk) = λ k. chunk_groups is_space p (n + k) gs in
    ap (λ x. followed_by (chunk_group p g.heading_path text spans n x) onward) windows
    ∙ ap (λ x. followed_by x onward) first
    ∙ followed_by-within p n cs (reference_groups is_space p (n + length cs) gs) onward
        (λ room. chunk_groups_lem is_space p (n + length cs) gs ok room h.1)
