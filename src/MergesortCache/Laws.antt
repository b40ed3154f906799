-- ===== src/MergesortCache/Laws.antt =====
-- The mergesort with cached bytes sorts, with the right lcps and bytes, whatever the temporary
-- arrays hold.
use mathlib.Core.List.Perm
use parallel_string_sorting.Prelude.{
  ℕ, zero, suc, ◌-◌, ◌/◌, ◌≤◌, ◌<◌, List, [], ◌∷◌, Bool, true, false, Bool-cases, inl, inr, not,
  leb, length, set_head, get_or, ◌≡◌, refl, arith, Perm, length-take, length-drop, take-append-drop,
}
use parallel_string_sorting.Strings.{Str}
use parallel_string_sorting.MergeCache.{LcpCacheStrings}
use parallel_string_sorting.MergeCache.Laws.{IsCacheSorted, lcp_merge_binary_cache_opt-sorts}
use parallel_string_sorting.LcpInsertion.{lcp_insertion_sort}
use parallel_string_sorting.LcpInsertion.CacheSorts.{lcp_insertion_sort-IsCacheSorted}
use parallel_string_sorting.Mergesort.Laws.{Shares-zero}
use parallel_string_sorting.LcpPseudocode.{lcp_insertion_sort_cache, lcp_insertion_sort_with_cache}
use parallel_string_sorting.MergesortCache.{
  CacheBuffers, target, put_target, front_half, back_half, front, back, sort_cache_leaf,
  sort_cache_buffers, lcp_mergesort_binary_cache_opt,
}

-- `r` holds the strings `xs` in order, with the right lcps and bytes from the second on.
abbrev pub IsCacheSortOf : List Str → LcpCacheStrings → Type 0
IsCacheSortOf xs r = IsCacheSorted r.strings r.lcps r.cache × Perm r.strings xs

-- The arrays have n places for strings, lcps and bytes.
pub record HasCacheSize (n : ℕ) (p : LcpCacheStrings) : Type 0 where
  pub strings : length p.strings ≡ n
  pub lcps : length p.lcps ≡ n
  pub cache : length p.cache ≡ n

target-put_target :
    (to_tmp : Bool) (b : CacheBuffers) (r : LcpCacheStrings)
    → target to_tmp (put_target to_tmp r b) ≡ r
target-put_target true b r = refl
target-put_target false b r = refl

sort_cache_leaf-sorts :
    (to_tmp : Bool) (b : CacheBuffers) (n : ℕ)
    → 0 < n
    → length b.main.strings ≡ n
    → length (target to_tmp b).lcps ≡ n
    → length (target to_tmp b).cache ≡ n
    → IsCacheSortOf b.main.strings (target to_tmp (sort_cache_leaf to_tmp b n))
unfolding sort_cache_leaf lcp_insertion_sort_cache lcp_insertion_sort_with_cache
sort_cache_leaf-sorts to_tmp b n pos ss hs cs =
    let o = target to_tmp b in
    rw (target-put_target to_tmp b _) (leaf_arrays b.main.strings o.lcps o.cache n pos ss hs cs)
  where
    leaf_arrays :
        (xs : List Str) (hs cs : List ℕ) (n : ℕ)
        → 0 < n
        → length xs ≡ n
        → length hs ≡ n
        → length cs ≡ n
        → let r = lcp_insertion_sort true (record { strings = xs; lcps = hs; cache = cs }) n 0 in
          IsCacheSortOf xs (record { strings = r.strings; lcps = r.lcps; cache = r.cache })
    leaf_arrays [] hs cs n pos ss h c = absurd (omega arith)
    leaf_arrays (x ∷ xs) [] cs n pos ss h c = absurd (omega arith)
    leaf_arrays (x ∷ xs) (l0 ∷ hs) [] n pos ss h c = absurd (omega arith)
    leaf_arrays (x ∷ xs) (l0 ∷ hs) (b0 ∷ cs) n pos ss h c =
        let shared = Shares-zero [] (x ∷ xs) in
        let (s, p) =
          lcp_insertion_sort-IsCacheSorted [] 0 l0 b0 x xs hs cs (omega arith) (omega arith)
            shared in
        rw (← ss) (s, p)

HasCacheSize-front :
    (k n : ℕ) (p : LcpCacheStrings) → k ≤ n → HasCacheSize n p → HasCacheSize k (front k p)
HasCacheSize-front k n p h s =
    let a = length-take k p.strings in
    let b = length-take k p.lcps in
    let c = length-take k p.cache in
    record { strings = omega arith; lcps = omega arith; cache = omega arith }

HasCacheSize-back :
    (k n : ℕ) (p : LcpCacheStrings) → HasCacheSize n p → HasCacheSize (n - k) (back k p)
HasCacheSize-back k n p s =
    let a = length-drop k p.strings in
    let b = length-drop k p.lcps in
    let c = length-drop k p.cache in
    record { strings = omega arith; lcps = omega arith; cache = omega arith }

target-HasCacheSize :
    (to_tmp : Bool) (n : ℕ) (b : CacheBuffers)
    → HasCacheSize n b.main
    → HasCacheSize n b.tmp
    → HasCacheSize n (target to_tmp b)
target-HasCacheSize true n b m t = t
target-HasCacheSize false n b m t = m

-- With fuel for the length the recursion sorts the range into the array that it is told.
sort_cache_buffers-sorts :
    (fuel : ℕ) (to_tmp : Bool) (b : CacheBuffers) (n : ℕ)
    → n ≤ fuel
    → 0 < n
    → HasCacheSize n b.main
    → HasCacheSize n b.tmp
    → IsCacheSortOf b.main.strings (target to_tmp (sort_cache_buffers fuel to_tmp b n))
unfolding sort_cache_buffers
sort_cache_buffers-sorts zero to_tmp b n f pos m t = absurd (omega arith)
sort_cache_buffers-sorts (suc fuel) to_tmp b n f pos m t = elim (Bool-cases (leb n 32)) [
  | inl short ↦
      let o = target-HasCacheSize to_tmp n b m t in
      rw short (sort_cache_leaf-sorts to_tmp b n pos m.strings o.lcps o.cache)
  | inr long ↦
      let h : 32 < n = ground arith in
      let k = n / 2 in
      let low =
        sort_cache_buffers-sorts fuel (not to_tmp) (front_half k b) k (omega arith) (omega arith)
          (HasCacheSize-front k n b.main (omega arith) m)
          (HasCacheSize-front k n b.tmp (omega arith) t) in
      let high =
        sort_cache_buffers-sorts fuel (not to_tmp) (back_half k b) (n - k) (omega arith)
          (omega arith) (HasCacheSize-back k n b.main m) (HasCacheSize-back k n b.tmp t) in
      let (ordered, same) = lcp_merge_binary_cache_opt-sorts _ _ low.0 high.0 in
      rw (long, target-put_target to_tmp _ _)
        (ordered, rw take-append-drop at (Perm.trans same (Perm.append low.1 high.1)))
]

IsCacheSorted-set_head :
    (v : ℕ) (ss : List Str) (hs cs : List ℕ)
    → IsCacheSorted ss hs cs
    → IsCacheSorted ss (set_head v hs) cs
IsCacheSorted-set_head v [] [] cs s = s
IsCacheSorted-set_head v [] (h ∷ hs) cs s = absurd s
IsCacheSorted-set_head v (x ∷ ss) [] cs s = absurd s
IsCacheSorted-set_head v (x ∷ ss) (h ∷ hs) [] s = absurd s
IsCacheSorted-set_head v (x ∷ ss) (h ∷ hs) (c ∷ cs) s = s

get_or-set_head : (v : ℕ) (hs : List ℕ) → get_or (set_head v hs) 0 v ≡ v
get_or-set_head v [] = refl
get_or-set_head v (h ∷ hs) = refl

-- lcp_mergesort_binary_cache_opt sorts an array that is not empty, sets the lcps and cached bytes
-- from the second string on to those with the string before and the first lcp to 42, whatever the
-- lcp and byte arrays and the temporary arrays held.
pub lcp_mergesort_binary_cache_opt-sorts :
    (output tmp : LcpCacheStrings) (n : ℕ)
    → 0 < n
    → HasCacheSize n output
    → HasCacheSize n tmp
    → let r = lcp_mergesort_binary_cache_opt output tmp n in
      IsCacheSortOf output.strings r × (get_or r.lcps 0 42 ≡ 42)
unfolding lcp_mergesort_binary_cache_opt
lcp_mergesort_binary_cache_opt-sorts output tmp n pos m t =
    let r = (sort_cache_buffers n false (record { main = output; tmp = tmp }) n).main in
    let (s, p) =
      sort_cache_buffers-sorts n false (record { main = output; tmp = tmp }) n (omega arith) pos m
        t in
    ((IsCacheSorted-set_head 42 r.strings r.lcps r.cache s, p), get_or-set_head 42 r.lcps)
