-- ===== src/Examples/Compare.antt =====
-- Comparisons.
use parallel_string_sorting.Prelude.{◌%◌, [], ◌∷◌, true, false, ◌≡◌, refl, ◌⊎◌}
use parallel_string_sorting.Strings.{lcp, lex_le}
use parallel_string_sorting.StringSet.{check_order, calc_lcp}
use parallel_string_sorting.StringSet.Laws.{calc_lcp-eq-lcp}
use parallel_string_sorting.Merge.{lcp_compare}
use parallel_string_sorting.Merge.Laws.{IsOrdered, lcp_compare_lem}
use parallel_string_sorting.Examples.Data.{word_ab, word_abc, word_ac}

calc_lcp-run : calc_lcp word_ab word_abc ≡ 2
unfolding calc_lcp
calc_lcp-run = refl

-- check_order accepts strings in descending order: it compares an iterator with itself.
check_order-run : check_order (word_ac ∷ word_abc ∷ word_ab ∷ []) ≡ true
unfolding check_order
check_order-run = refl

calc_lcp-eq-lcp_example : calc_lcp word_ab word_abc ≡ lcp word_ab word_abc % 4294967296
calc_lcp-eq-lcp_example = calc_lcp-eq-lcp word_ab word_abc

lcp_compare-run :
    lcp_compare 0 word_ac 1 1 word_abc 2
    ≡ record { smaller = 1; lcp_smaller = 2; larger = 0; lcp_ab = 1 }
unfolding lcp_compare
lcp_compare-run = refl

lcp_compare_lem_example :
    IsOrdered 0 word_ac 1 1 word_abc (lcp_compare 0 word_ac 1 1 word_abc 2)
    ⊎ ((lex_le word_ac word_abc ≡ false)
        × IsOrdered 1 word_abc 2 0 word_ac (lcp_compare 0 word_ac 1 1 word_abc 2))
unfolding lex_le lcp
lcp_compare_lem_example = lcp_compare_lem 0 1 word_ab word_ac word_abc 1 2 refl refl refl refl
