-- ===== src/Worker/ChunkExamples.antt =====
-- A short text, its windows and its chunks under a policy of two tokens with an overlap of one.
use serviq.Common.{
  ℕ, ◌==◌, ◌||◌, ◌≡◌, refl, none, some, Bool, List, [], ◌∷◌, ◌++◌, arith, take, All,
}
use serviq.Worker.Chunking.{
  ChunkPolicy, Token, Segment, done, provenance_of, find_tokens, place, slide, window_tokens,
  chunk_groups, heading_groups, groups_after, group_from, validate_segments, validate_from,
  chunk_normalized_segments, materialize_group, token_windows, chunk_windows, skip_before,
  window_provenance,
}
use serviq.Worker.Chunking.Windows.{fresh, window_tokens_cover, IsChain, window_tokens-IsChain}
use serviq.Worker.Chunking.Spans.{ReadsIts, materialize_group-ReadsIts}
use serviq.Worker.Chunking.Groups.{all_segments, IsHeaded, heading_groups_lem}
use serviq.Worker.Chunking.Whole.{within, reference_groups}
use serviq.Worker.Chunking.Valid.{chunk_normalized_segments_lem}

abbrev policy : ChunkPolicy
policy = record { max_tokens = 2; overlap_tokens = 1; max_chunks = 3 }

abbrev is_blank : ℕ → Bool
is_blank x = x == 32 || x == 10

abbrev words : List Token
words =
    record { start = 0; end = 1 }
    ∷ record { start = 2; end = 3 }
    ∷ record { start = 4; end = 6 }
    ∷ []

words_windows :
    window_tokens policy words
    ≡ take 2 words ∷ (record { start = 2; end = 3 } ∷ record { start = 4; end = 6 } ∷ []) ∷ []
unfolding window_tokens slide
words_windows = refl

window_tokens_cover_example : take 1 words ++ fresh 1 (window_tokens policy words) ≡ words
window_tokens_cover_example = window_tokens_cover policy words (omega arith)

window_tokens-IsChain_example : IsChain policy (window_tokens policy words)
window_tokens-IsChain_example = window_tokens-IsChain policy words (omega arith)

abbrev paragraph : ℕ → List ℕ → Segment
paragraph n text = record {
  ordinal = n;
  text = text;
  page_number = none;
  heading_path = "Intro" ∷ [];
  start_line = some n;
  end_line = some n;
}

abbrev input : List Segment
input = paragraph 0 (97 ∷ 32 ∷ 98 ∷ []) ∷ paragraph 1 (99 ∷ []) ∷ []

input_valid : validate_segments is_blank input ≡ none
unfolding validate_segments validate_from find_tokens
input_valid = refl

chunk_normalized_segments_lem_example :
    chunk_normalized_segments is_blank input policy
    ≡ within policy 0 (reference_groups is_blank policy 0 (heading_groups input))
chunk_normalized_segments_lem_example =
    chunk_normalized_segments_lem is_blank input policy (omega arith) input_valid

-- The run makes two chunks, and the second has the provenance of both paragraphs.
chunks_run :
    chunk_normalized_segments is_blank input policy
    ≡ done (
        record {
          ordinal = 0;
          text = 97 ∷ 32 ∷ 98 ∷ [];
          token_count = 2;
          heading_path = "Intro" ∷ [];
          provenance = provenance_of (paragraph 0 []) ∷ [];
        }
        ∷ record {
          ordinal = 1;
          text = 98 ∷ 10 ∷ 10 ∷ 99 ∷ [];
          token_count = 2;
          heading_path = "Intro" ∷ [];
          provenance = provenance_of (paragraph 0 []) ∷ provenance_of (paragraph 1 []) ∷ [];
        }
        ∷ [])
unfolding chunk_normalized_segments validate_segments validate_from find_tokens groups_after
    group_from chunk_groups place token_windows window_tokens slide chunk_windows skip_before
    window_provenance
chunks_run = refl

materialize_group-ReadsIts_example :
    All (ReadsIts (materialize_group input).0) (materialize_group input).1
materialize_group-ReadsIts_example = materialize_group-ReadsIts input

heading_groups_lem_example :
    (all_segments (heading_groups input) ≡ input) × All IsHeaded (heading_groups input)
heading_groups_lem_example = heading_groups_lem input
