-- ===== src/Examples/Sorting.antt =====
-- Sorting and merging.
use parallel_string_sorting.Prelude.{[], ◌∷◌, ◌++◌, true, ◌≡◌, refl, arith, get_or}
use parallel_string_sorting.Strings.{lcp, lex_le}
use parallel_string_sorting.Insertion.{inssort}
use parallel_string_sorting.Insertion.Laws.{SortsRange, inssort-sorts}
use parallel_string_sorting.LcpInsertion.{lcp_insertion_sort}
use parallel_string_sorting.LcpInsertion.Laws.{SortsWithLcps, lcp_insertion_sort-sorts}
use parallel_string_sorting.Merge.{merge_loop, merge_opt_loop}
use parallel_string_sorting.Merge.Chain.{LcpChain}
use parallel_string_sorting.Merge.Laws.{merge_loop-Chain, merge_opt_loop-eq-merge_loop}
use parallel_string_sorting.Mergesort.{lcp_mergesort_binary}
use parallel_string_sorting.Mergesort.Laws.{IsLcpSortOf, lcp_mergesort_binary-sorts}
use parallel_string_sorting.Examples.Data.{
  word_ab, word_abc, word_ac, words, sorted_words, zeros, unsorted_array, scratch_array, stream1,
  stream2,
}

inssort-run : inssort words 5 0 ≡ sorted_words
unfolding inssort
inssort-run = refl

inssort-sorts_example : SortsRange 1 words (word_ab ∷ []) (inssort (words ++ word_ab ∷ []) 5 1)
inssort-sorts_example = inssort-sorts words (word_ab ∷ []) 1

lcp_insertion_sort-run :
    lcp_insertion_sort true
      (record { strings = words; lcps = 7 ∷ 0 ∷ 0 ∷ 0 ∷ 0 ∷ []; cache = zeros })
      5
      0
    ≡ record {
      strings = sorted_words;
      lcps = 7 ∷ 2 ∷ 3 ∷ 1 ∷ 0 ∷ [];
      cache = 0 ∷ b'c' ∷ 0 ∷ b'c' ∷ b'b' ∷ [];
    }
unfolding lcp_insertion_sort
lcp_insertion_sort-run = refl

lcp_insertion_sort-sorts_example : SortsWithLcps (word_ac ∷ word_abc ∷ word_ab ∷ []) 7 (
    lcp_insertion_sort true
      (record {
        strings = word_ac ∷ word_abc ∷ word_ab ∷ [];
        lcps = 7 ∷ 9 ∷ 9 ∷ [];
        cache = 0 ∷ 0 ∷ 0 ∷ [];
      })
      3
      1)
unfolding lcp
lcp_insertion_sort-sorts_example =
    lcp_insertion_sort-sorts true word_ab 1 7 word_ac (word_abc ∷ word_ab ∷ []) (9 ∷ 9 ∷ [])
      (0 ∷ 0 ∷ 0 ∷ []) refl (omega arith)

merge_loop-Chain_example :
    LcpChain []
      (merge_loop stream1.strings stream1.lcps 0 stream2.strings stream2.lcps 0).strings
      (merge_loop stream1.strings stream1.lcps 0 stream2.strings stream2.lcps 0).lcps
unfolding lcp lex_le
merge_loop-Chain_example =
    merge_loop-Chain [] stream1.strings stream1.lcps 0 stream2.strings stream2.lcps 0
      (refl, refl, (refl, refl, tt)) (refl, refl, (refl, refl, tt))

merge_opt_loop-eq-merge_loop_example :
    merge_opt_loop stream1.strings stream1.lcps 0 stream2.strings stream2.lcps 0
    ≡ merge_loop stream1.strings stream1.lcps 0 stream2.strings stream2.lcps 0
merge_opt_loop-eq-merge_loop_example =
    merge_opt_loop-eq-merge_loop stream1.strings stream1.lcps 0 stream2.strings stream2.lcps 0

lcp_mergesort_binary-run :
    lcp_mergesort_binary unsorted_array scratch_array 5
    ≡ record { strings = sorted_words; lcps = 42 ∷ 2 ∷ 3 ∷ 1 ∷ 0 ∷ [] }
unfolding lcp_mergesort_binary
lcp_mergesort_binary-run = refl

lcp_mergesort_binary-sorts_example :
    IsLcpSortOf words (lcp_mergesort_binary unsorted_array scratch_array 5)
    × (get_or (lcp_mergesort_binary unsorted_array scratch_array 5).lcps 0 42 ≡ 42)
lcp_mergesort_binary-sorts_example =
    lcp_mergesort_binary-sorts unsorted_array scratch_array 5 (omega arith)
      (record { strings = refl; lcps = refl }) (record { strings = refl; lcps = refl })
