-- ===== src/Verify/Caches.antt =====
-- The results of the sorters with cached bytes pass verify_lcp_cache.
use mathlib.Core.List.Perm
use native.Mathlib.Bridge.{le_prop}
use parallel_string_sorting.Prelude.{
  ℕ, suc, ◌<◌, List, [], ◌∷◌, true, get_or, length, replicate, length-replicate, All-perm,
  length-perm, some, All, Perm, IsSorted, ◌≡◌, refl, inl, inr, arith,
}
use parallel_string_sorting.Strings.{Str, LexLe}
use parallel_string_sorting.MergeCache.{LcpCacheStrings}
use parallel_string_sorting.MergeCache.Laws.{IsCacheSorted}
use parallel_string_sorting.LcpInsertion.{lcp_insertion_sort}
use parallel_string_sorting.LcpInsertion.Laws.{lcp_insertion_sort-sorts}
use parallel_string_sorting.LcpInsertion.Rounds.{Shares}
use parallel_string_sorting.LcpInsertion.CacheSorts.{lcp_insertion_sort-IsCacheSorted}
use parallel_string_sorting.MergesortCache.{lcp_mergesort_binary_cache_opt}
use parallel_string_sorting.MergesortCache.Laws.{HasCacheSize, lcp_mergesort_binary_cache_opt-sorts}
use parallel_string_sorting.Verify.{no_lcp, verify_lcp_cache, lcp_insertion_sort_cache_verify}
use parallel_string_sorting.Verify.Laws.{
  IsShort, IsLcpSorted-IsSorted, verify_lcp_cache_iff, verify_lcp_cache-true,
  CacheChain-HasRightLcps,
}

-- lcp_insertion_sort_cache_verify does not die on one or more strings, each shorter than 2^32, that
-- share their first `depth` bytes, and it sorts them.
pub lcp_insertion_sort_cache_verify-sorts :
    (r : Str) (x : Str) (xs : List Str) (depth : ℕ)
    → All IsShort (x ∷ xs)
    → Shares r depth (x ∷ xs)
    → (ys : List Str) × (lcp_insertion_sort_cache_verify (x ∷ xs) depth ≡ some ys)
      × IsSorted LexLe ys
      × Perm ys (x ∷ xs)
unfolding lcp_insertion_sort_cache_verify
lcp_insertion_sort_cache_verify-sorts r x xs depth short sh =
    let hs = replicate (length xs) no_lcp in
    let cs = replicate (length xs) 0 in
    let a =
      lcp_insertion_sort true (record { strings = x ∷ xs; lcps = no_lcp ∷ hs; cache = 0 ∷ cs })
        (suc (length xs)) depth in
    let size = length-replicate (length xs) no_lcp in
    let (sorted, perm, _) = lcp_insertion_sort-sorts true r depth no_lcp x xs hs (0 ∷ cs) size sh in
    let (cached, _) =
      lcp_insertion_sort-IsCacheSorted r depth no_lcp 0 x xs hs cs size
        (length-replicate (length xs) 0) sh in
    let short' = All-perm IsShort (λ s. le_prop) (Perm.symm perm) short in
    let passes =
      verify_lcp_cache-true a.strings a.lcps a.cache (omega (arith, length-perm perm)) short'
        cached in
    (a.strings, rw passes refl, IsLcpSorted-IsSorted a.strings a.lcps sorted, perm)

first_is_42 :
    (ss : List Str) (hs cs : List ℕ)
    → 0 < length ss
    → All IsShort ss
    → IsCacheSorted ss hs cs
    → get_or hs 0 42 ≡ 42
    → verify_lcp_cache true ss hs cs 42 ≡ true
first_is_42 [] hs cs n short s e = absurd (omega arith)
first_is_42 (x ∷ ss) [] cs n short s e = absurd s
first_is_42 (x ∷ ss) (h ∷ hs) [] n short s e = absurd s
first_is_42 (x ∷ ss) (h ∷ hs) (c ∷ cs) n short s e =
    (verify_lcp_cache_iff true x ss h hs c cs 42 short).1
      (inr (e, λ t. inl refl), CacheChain-HasRightLcps x ss hs cs s)

-- lcp_mergesort_binary_cache_opt, on one or more strings shorter than 2^32, writes arrays that pass
-- verify_lcp_cache with 42 as the expected first lcp.
pub lcp_mergesort_binary_cache_opt-verified :
    (output tmp : LcpCacheStrings) (n : ℕ)
    → 0 < n
    → HasCacheSize n output
    → HasCacheSize n tmp
    → All IsShort output.strings
    → let r = lcp_mergesort_binary_cache_opt output tmp n in
      verify_lcp_cache true r.strings r.lcps r.cache 42 ≡ true
lcp_mergesort_binary_cache_opt-verified output tmp n pos m t short =
    let r = lcp_mergesort_binary_cache_opt output tmp n in
    let ((s, p), first) = lcp_mergesort_binary_cache_opt-sorts output tmp n pos m t in
    first_is_42 r.strings r.lcps r.cache (omega (arith, length-perm p, m.strings))
      (All-perm IsShort (λ x. le_prop) (Perm.symm p) short) s first
