-- ===== src/Examples/CacheSorts.antt =====
-- The mergesort with cached bytes, on more strings than the insertion sort takes.
use parallel_string_sorting.Prelude.{
  List, [], ◌∷◌, ◌++◌, ◌≡◌, refl, arith, get_or, replicate, true, some, Perm, IsSorted,
}
use parallel_string_sorting.Strings.{Str, LexLe}
use parallel_string_sorting.MergeCache.{LcpCacheStrings}
use parallel_string_sorting.MergesortCache.{lcp_mergesort_binary_cache_opt}
use parallel_string_sorting.LcpInsertion.{lcp_insertion_sort}
use parallel_string_sorting.LcpPseudocode.{lcp_insertion_sort_with_cache}
use parallel_string_sorting.MergesortCache.Laws.{
  IsCacheSortOf, lcp_mergesort_binary_cache_opt-sorts,
}
use parallel_string_sorting.Verify.{verify_lcp_cache, lcp_insertion_sort_cache_verify}
use parallel_string_sorting.Verify.Caches.{
  lcp_insertion_sort_cache_verify-sorts, lcp_mergesort_binary_cache_opt-verified,
}
use parallel_string_sorting.Examples.Data.{word_ab, word_abc, word_ac, word_b, words, sorted_words}

abbrev few_words : LcpCacheStrings
few_words = record { strings = words; lcps = replicate 5 9; cache = replicate 5 9 }

abbrev few_scratch : LcpCacheStrings
few_scratch = record { strings = replicate 5 []; lcps = replicate 5 7; cache = replicate 5 7 }

lcp_mergesort_binary_cache_opt-run :
    lcp_mergesort_binary_cache_opt few_words few_scratch 5 ≡ record {
      strings = sorted_words;
      lcps = 42 ∷ 2 ∷ 3 ∷ 1 ∷ 0 ∷ [];
      cache = 9 ∷ b'c' ∷ 0 ∷ b'c' ∷ b'b' ∷ [];
    }
unfolding lcp_mergesort_binary_cache_opt lcp_insertion_sort_with_cache lcp_insertion_sort
lcp_mergesort_binary_cache_opt-run = refl

abbrev many_strings : List Str
many_strings = replicate 20 word_b ++ replicate 20 word_ab

abbrev many_words : LcpCacheStrings
many_words = record { strings = many_strings; lcps = replicate 40 0; cache = replicate 40 0 }

abbrev many_scratch : LcpCacheStrings
many_scratch = record { strings = replicate 40 []; lcps = replicate 40 0; cache = replicate 40 0 }

lcp_mergesort_binary_cache_opt-sorts_example :
    let r = lcp_mergesort_binary_cache_opt many_words many_scratch 40 in
    IsCacheSortOf many_strings r × (get_or r.lcps 0 42 ≡ 42)
lcp_mergesort_binary_cache_opt-sorts_example =
    lcp_mergesort_binary_cache_opt-sorts many_words many_scratch 40 (omega arith)
      (record { strings = refl; lcps = refl; cache = refl })
      (record { strings = refl; lcps = refl; cache = refl })

lcp_mergesort_binary_cache_opt-verified_example :
    let r = lcp_mergesort_binary_cache_opt few_words few_scratch 5 in
    verify_lcp_cache true r.strings r.lcps r.cache 42 ≡ true
lcp_mergesort_binary_cache_opt-verified_example =
    lcp_mergesort_binary_cache_opt-verified few_words few_scratch 5 (omega arith)
      (record { strings = refl; lcps = refl; cache = refl })
      (record { strings = refl; lcps = refl; cache = refl })
      (omega arith, (omega arith, (omega arith, (omega arith, (omega arith, tt)))))

lcp_insertion_sort_cache_verify-sorts_example :
    (ys : List Str) × (lcp_insertion_sort_cache_verify words 0 ≡ some ys)
    × IsSorted LexLe ys
    × Perm ys words
lcp_insertion_sort_cache_verify-sorts_example =
    lcp_insertion_sort_cache_verify-sorts [] word_b (word_abc ∷ word_ac ∷ word_ab ∷ word_abc ∷ []) 0
      (omega arith, (omega arith, (omega arith, (omega arith, (omega arith, tt)))))
      (omega arith, (omega arith, (omega arith, (omega arith, (omega arith, tt)))))
