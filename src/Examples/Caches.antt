-- ===== src/Examples/Caches.antt =====
-- Merging with cached bytes, the check of lcp arrays, and the mergesort of annotated strings.
use parallel_string_sorting.Prelude.{
  [], ◌∷◌, ◌++◌, true, false, ◌≡◌, refl, inl, arith, take, Perm, IsSorted, some, List, ◌↔◌,
}
use parallel_string_sorting.Strings.{lcp, lex_le, LexLe}
use parallel_string_sorting.MergeCache.{LcpCacheStrings, Stream, lcp_merge_binary_cache_opt}
use parallel_string_sorting.MergeCache.Laws.{IsCacheSorted, lcp_merge_binary_cache_opt-sorts}
use parallel_string_sorting.NgMergesort.{Annotated, unset, lcpms}
use parallel_string_sorting.NgMergesort.Laws.{lcpms-sorts}
use parallel_string_sorting.LcpInsertion.{lcp_insertion_sort}
use parallel_string_sorting.LcpInsertion.CacheSorts.{lcp_insertion_sort-IsCacheSorted}
use parallel_string_sorting.Verify.{lcp_insertion_sort_cache_verify, verify_lcp_cache}
use parallel_string_sorting.Verify.Laws.{HasRightFirst, HasRightLcps, verify_lcp_cache_iff}
use parallel_string_sorting.Examples.Data.{word_ab, word_abc, word_ac, word_b, words, sorted_words}

abbrev cached1 : LcpCacheStrings
cached1 = record { strings = word_ab ∷ word_ac ∷ []; lcps = 0 ∷ 1 ∷ []; cache = b'a' ∷ b'c' ∷ [] }

abbrev cached2 : LcpCacheStrings
cached2 = record { strings = word_abc ∷ word_b ∷ []; lcps = 0 ∷ 0 ∷ []; cache = b'a' ∷ b'b' ∷ [] }

abbrev head1 : Stream
head1 = record { lcps = cached1.lcps; cache = cached1.cache; lcp = 0; ch = b'a' }

abbrev head2 : Stream
head2 = record { lcps = cached2.lcps; cache = cached2.cache; lcp = 0; ch = b'a' }

merge_cache-run : lcp_merge_binary_cache_opt true true cached1 cached2 0 ≡ record {
  strings = word_ab ∷ word_abc ∷ word_ac ∷ word_b ∷ [];
  lcps = 0 ∷ 2 ∷ 1 ∷ 0 ∷ [];
  cache = b'a' ∷ b'c' ∷ b'c' ∷ b'b' ∷ [];
}
unfolding lcp_merge_binary_cache_opt
merge_cache-run = refl

lcp_merge_binary_cache_opt-sorts_example :
    let r = lcp_merge_binary_cache_opt true true cached1 cached2 0 in
    IsCacheSorted r.strings r.lcps r.cache × Perm r.strings (cached1.strings ++ cached2.strings)
unfolding lcp lex_le
lcp_merge_binary_cache_opt-sorts_example =
    lcp_merge_binary_cache_opt-sorts cached1 cached2 (refl, refl, refl, tt) (refl, refl, refl, tt)

verify_lcp_cache_iff_example :
    (verify_lcp_cache true (word_ab ∷ word_ac ∷ []) (42 ∷ 1 ∷ []) (0 ∷ b'c' ∷ []) 42 ≡ true) ↔ (
      HasRightFirst true 42 word_ab 42 0
      × HasRightLcps true word_ab (word_ac ∷ []) (1 ∷ []) (b'c' ∷ []))
verify_lcp_cache_iff_example =
    verify_lcp_cache_iff true word_ab (word_ac ∷ []) 42 (1 ∷ []) 0 (b'c' ∷ []) 42
      (omega arith, (omega arith, tt))

cache_verify-run : lcp_insertion_sort_cache_verify words 0 ≡ some sorted_words
unfolding lcp_insertion_sort_cache_verify lcp_insertion_sort verify_lcp_cache
cache_verify-run = refl

lcp_insertion_sort-IsCacheSorted_example :
    let a =
      lcp_insertion_sort true
        (record {
          strings = word_ac ∷ word_abc ∷ word_ab ∷ [];
          lcps = 7 ∷ 9 ∷ 9 ∷ [];
          cache = 0 ∷ 0 ∷ 0 ∷ [];
        })
        3
        1 in
    IsCacheSorted a.strings a.lcps a.cache × Perm a.strings (word_ac ∷ word_abc ∷ word_ab ∷ [])
unfolding lcp
lcp_insertion_sort-IsCacheSorted_example =
    lcp_insertion_sort-IsCacheSorted word_ab 1 7 0 word_ac (word_abc ∷ word_ab ∷ []) (9 ∷ 9 ∷ [])
      (0 ∷ 0 ∷ []) refl refl (omega arith, (omega arith, (omega arith, tt)))

abbrev annotated1 : List Annotated
annotated1 = record { llcp = 0; str = word_ab } ∷ record { llcp = 1; str = word_ac } ∷ []

abbrev annotated2 : List Annotated
annotated2 = record { llcp = 0; str = word_abc } ∷ record { llcp = 0; str = word_b } ∷ []

lcpms-run : lcpms true (unset ∷ unset ∷ unset ∷ unset ∷ unset ∷ []) words 5 ≡ sorted_words
unfolding lcpms
lcpms-run = refl

lcpms-sorts_example :
    IsSorted LexLe (lcpms false (unset ∷ unset ∷ unset ∷ unset ∷ unset ∷ []) words 5)
    × Perm (lcpms false (unset ∷ unset ∷ unset ∷ unset ∷ unset ∷ []) words 5) (take 5 words)
lcpms-sorts_example =
    lcpms-sorts false (unset ∷ unset ∷ unset ∷ unset ∷ unset ∷ []) words 5 (omega arith) refl
      (omega arith)
      (
        (inl refl, omega arith),
        (
          (inl refl, omega arith),
          ((inl refl, omega arith), ((inl refl, omega arith), ((inl refl, omega arith), tt))),
        ),
      )
