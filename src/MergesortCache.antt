-- ===== src/MergesortCache.antt =====
-- src/sequential/bingmann-lcp_mergesort_binary.hpp: lcp_mergesort_binary_cache_opt, the mergesort
-- that keeps lcps and the bytes behind them. As in the other mergesorts the two arrays change roles
-- at each level, and the input strings stand in one of them.
pub mod Laws
use parallel_string_sorting.Prelude.{
  ℕ, zero, suc, ◌-◌, ◌/◌, List, [], ◌∷◌, ◌++◌, Bool, true, false, not, leb, if◌then◌else◌, take,
  drop, set_head,
}
use parallel_string_sorting.Strings.{Str}
use parallel_string_sorting.MergeCache.{LcpCacheStrings, lcp_merge_binary_cache_opt}
use parallel_string_sorting.LcpPseudocode.{lcp_insertion_sort_cache}

-- LcpCacheStringPtr.sub and its use at both halves of an array.
abbrev pub front : ℕ → LcpCacheStrings → LcpCacheStrings
front n p = record { strings = take n p.strings; lcps = take n p.lcps; cache = take n p.cache }

abbrev pub back : ℕ → LcpCacheStrings → LcpCacheStrings
back n p = record { strings = drop n p.strings; lcps = drop n p.lcps; cache = drop n p.cache }

-- The range of the input array that a call works on, and the same range of the other array.
pub record CacheBuffers : Type 0 where
  pub main : LcpCacheStrings
  pub tmp : LcpCacheStrings

-- The array that a call sorts into: the temporary one, or that of the input strings.
abbrev pub target : Bool → CacheBuffers → LcpCacheStrings
target to_tmp b = if to_tmp then b.tmp else b.main

abbrev pub put_target : Bool → LcpCacheStrings → CacheBuffers → CacheBuffers
put_target to_tmp r b = if to_tmp then record b { tmp = r } else record b { main = r }

abbrev pub front_half : ℕ → CacheBuffers → CacheBuffers
front_half n b = record { main = front n b.main; tmp = front n b.tmp }

abbrev pub back_half : ℕ → CacheBuffers → CacheBuffers
back_half n b = record { main = back n b.main; tmp = back n b.tmp }

abbrev pub glue : LcpCacheStrings → LcpCacheStrings → LcpCacheStrings
glue p q = record {
  strings = p.strings ++ q.strings;
  lcps = p.lcps ++ q.lcps;
  cache = p.cache ++ q.cache;
}

abbrev pub glue_halves : CacheBuffers → CacheBuffers → CacheBuffers
glue_halves b c = record { main = glue b.main c.main; tmp = glue b.tmp c.tmp }

-- std::copy of the input strings to the output, and the insertion sort with the cache there.
unfoldable pub sort_cache_leaf : Bool → CacheBuffers → ℕ → CacheBuffers
unfolding lcp_insertion_sort_cache
sort_cache_leaf to_tmp b length =
    let o = target to_tmp b in
    let r = lcp_insertion_sort_cache b.main.strings o.lcps o.cache length in
    put_target to_tmp (record { strings = r.strings; lcps = r.lcps; cache = r.cache }) b

-- The recursion, on fuel.
unfoldable pub sort_cache_buffers : ℕ → Bool → CacheBuffers → ℕ → CacheBuffers
unfolding sort_cache_leaf lcp_merge_binary_cache_opt
sort_cache_buffers zero to_tmp b length = b
sort_cache_buffers (suc fuel) to_tmp b length =
    let length1 = length / 2 in
    let length2 = length - length1 in
    let b1 = sort_cache_buffers fuel (not to_tmp) (front_half length1 b) length1 in
    let b2 = sort_cache_buffers fuel (not to_tmp) (back_half length1 b) length2 in
    let merged =
      lcp_merge_binary_cache_opt true true (target (not to_tmp) b1) (target (not to_tmp) b2) 0 in
    if leb length 32
    then sort_cache_leaf to_tmp b length
    else put_target to_tmp merged (glue_halves b1 b2)

-- The top call sorts into the array of the input strings, and overwrites the first lcp.
unfoldable pub lcp_mergesort_binary_cache_opt :
    LcpCacheStrings → LcpCacheStrings → ℕ → LcpCacheStrings
unfolding sort_cache_buffers
lcp_mergesort_binary_cache_opt output tmp n =
    let r = (sort_cache_buffers n false (record { main = output; tmp = tmp }) n).main in
    record r { lcps = set_head 42 r.lcps }
