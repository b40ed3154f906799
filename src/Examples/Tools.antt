-- ===== src/Examples/Tools.antt =====
-- The tools: comparison loops, orders of a tree, ranges, and the insertion sort near to pseudocode.
use parallel_string_sorting.Prelude.{ℕ, suc, ◌/◌, ◌<◌, ◌%◌, true, length, get_or, ◌≡◌, refl, arith}
use parallel_string_sorting.Strings.{lcp, lex_le}
use parallel_string_sorting.Strings.Scmp.{scmp, scmp_lcp, calc_lcp_strings, at_most_zero, scmp_lem}
use parallel_string_sorting.Tree.{level_to_preorder, pre_to_levelorder, calculate_ranges}
use parallel_string_sorting.Tree.Laws.{
  Covers, no_range, pre_to_levelorder-level_to_preorder, calculate_ranges-Covers,
}
use parallel_string_sorting.LcpInsertion.{LcpArrays, lcp_insertion_sort}
use parallel_string_sorting.LcpPseudocode.{lcp_insertion_sort_pseudocode}
use parallel_string_sorting.LcpPseudocode.Laws.{without_cache, lcp_insertion_sort_pseudocode-eq}
use parallel_string_sorting.Examples.Data.{word_abc, word_ac, words, zeros, sorted_words}

scmp_lem_example :
    (at_most_zero (scmp word_abc word_ac) ≡ lex_le word_abc word_ac)
    × (at_most_zero (scmp_lcp word_abc word_ac 1).order ≡ lex_le word_abc word_ac)
    × ((scmp_lcp word_abc word_ac 1).lcp ≡ lcp word_abc word_ac)
    × (calc_lcp_strings word_abc word_ac ≡ lcp word_abc word_ac % 4294967296)
unfolding lcp
scmp_lem_example = scmp_lem word_abc word_ac 1 (omega arith)

level_to_preorder-run : level_to_preorder 4 5 ≡ 6
unfolding level_to_preorder
level_to_preorder-run = refl

pre_to_levelorder-level_to_preorder_example : pre_to_levelorder 4 (level_to_preorder 4 5) ≡ 5
pre_to_levelorder-level_to_preorder_example =
    pre_to_levelorder-level_to_preorder 4 5 (omega arith) (omega arith) (omega arith)

calculate_ranges-Covers_example :
    Covers 0 10 (calculate_ranges 3 10)
    × (length (calculate_ranges 3 10) ≡ 3)
    × ((k : ℕ) → suc k < 3 → (get_or (calculate_ranges 3 10) k no_range).size ≡ 10 / 3)
calculate_ranges-Covers_example = calculate_ranges-Covers 3 10 (omega arith)

abbrev unsorted : LcpArrays
unsorted = record { strings = words; lcps = zeros; cache = zeros }

pseudocode-run : (lcp_insertion_sort_pseudocode (without_cache unsorted) 5 0).strings ≡ sorted_words
unfolding lcp_insertion_sort_pseudocode
pseudocode-run = refl

lcp_insertion_sort_pseudocode-eq_example :
    lcp_insertion_sort_pseudocode (without_cache unsorted) 5 0
    ≡ without_cache (lcp_insertion_sort true unsorted 5 0)
lcp_insertion_sort_pseudocode-eq_example =
    lcp_insertion_sort_pseudocode-eq true 5 0 unsorted (omega arith)
