-- ===== src/Chunking/Examples.antt =====
-- The theorems on chunks, at a short text.
use backplaned_agents.Prelude.{
  nat_eq, list_eq, option_eq, Text, codes, strip_prefix, ◌+◌, ◌≤◌, ◌≡◌, refl, [], ◌∷◌, arith,
  length, All,
}
use backplaned_agents.Chunking.{concat, separators, split_recursive, chunk_markdown}
use backplaned_agents.Chunking.Spans.{split_recursive_spans}
use backplaned_agents.Chunking.Chunks.{AtMost, chunks_bounded}

program : Unit {0}
unfolding strip_prefix split_recursive chunk_markdown
program = tt

abbrev text : Text
text = codes "a bc def"

split_recursive_spans_example :
    (concat (split_recursive text separators 4) ≡ text)
    × All (λ s. length s ≤ 4) (split_recursive text separators 4)
split_recursive_spans_example = split_recursive_spans 4 (omega arith) text

chunks_bounded_example : AtMost (4 + 3) (chunk_markdown (λ s. s) text 4 3 1)
chunks_bounded_example = chunks_bounded (λ s. s) 4 3 1 (λ s. omega arith) (omega arith) text

spans_of_words : split_recursive text separators 4 ≡ codes "a" ∷ codes " bc" ∷ codes " def" ∷ []
unfolding program
spans_of_words = refl

-- the last chunk is longer than `max_len`
folded : chunk_markdown (λ s. s) (codes "abcd ef") 4 4 0 ≡ codes "abcd ef" ∷ []
unfolding program
folded = refl
