-- ===== src/Mergesort.antt =====
-- src/sequential/bingmann-lcp_mergesort_binary.hpp: the binary lcp-mergesorts. The two arrays of a
-- sort change roles at each level: what one level writes is scratch space of the next one, and the
-- input strings stand in one of them.
pub mod Laws
use parallel_string_sorting.Prelude.{
  ℕ, zero, suc, ◌-◌, ◌/◌, List, [], ◌∷◌, ◌++◌, Bool, true, false, not, leb, if◌then◌else◌, take,
  drop, length, set_head, replicate,
}
use parallel_string_sorting.Strings.{Str}
use parallel_string_sorting.Merge.{LcpStrings, lcp_merge_binary, lcp_merge_binary_opt}
use parallel_string_sorting.LcpInsertion.{lcp_insertion_sort}

-- LcpStringPtr.sub and its use at both halves of an array.
abbrev pub prefix : ℕ → LcpStrings → LcpStrings
prefix n p = record { strings = take n p.strings; lcps = take n p.lcps }

abbrev pub suffix : ℕ → LcpStrings → LcpStrings
suffix n p = record { strings = drop n p.strings; lcps = drop n p.lcps }

-- The range of the input array that a call works on, and the same range of the other array.
pub record Buffers : Type 0 where
  pub main : LcpStrings
  pub tmp : LcpStrings

-- The array that a call sorts into: the temporary one, or that of the input strings.
abbrev pub out : Bool → Buffers → LcpStrings
out to_tmp b = if to_tmp then b.tmp else b.main

abbrev pub put : Bool → LcpStrings → Buffers → Buffers
put to_tmp r b = if to_tmp then record b { tmp = r } else record b { main = r }

abbrev pub lower : ℕ → Buffers → Buffers
lower n b = record { main = prefix n b.main; tmp = prefix n b.tmp }

abbrev pub upper : ℕ → Buffers → Buffers
upper n b = record { main = suffix n b.main; tmp = suffix n b.tmp }

abbrev pub join : LcpStrings → LcpStrings → LcpStrings
join p q = record { strings = p.strings ++ q.strings; lcps = p.lcps ++ q.lcps }

abbrev pub joined : Buffers → Buffers → Buffers
joined b c = record { main = join b.main c.main; tmp = join b.tmp c.tmp }

-- std::copy of the input strings to the output, and the insertion sort there.
unfoldable pub sort_leaf : Bool → Buffers → ℕ → Buffers
unfolding lcp_insertion_sort
sort_leaf to_tmp b length =
    let r =
      lcp_insertion_sort false
        (record { strings = b.main.strings; lcps = (out to_tmp b).lcps; cache = [] }) length 0 in
    put to_tmp (record { strings = r.strings; lcps = r.lcps }) b

-- The recursion, for a merge of two sorted arrays, on fuel.
unfoldable pub sort_buffers :
    (LcpStrings → LcpStrings → LcpStrings) → ℕ → Bool → Buffers → ℕ → Buffers
unfolding sort_leaf
sort_buffers merge zero to_tmp b length = b
sort_buffers merge (suc fuel) to_tmp b length =
    let length1 = length / 2 in
    let length2 = length - length1 in
    let b1 = sort_buffers merge fuel (not to_tmp) (lower length1 b) length1 in
    let b2 = sort_buffers merge fuel (not to_tmp) (upper length1 b) length2 in
    let merged = merge (out (not to_tmp) b1) (out (not to_tmp) b2) in
    if leb length 32 then sort_leaf to_tmp b length else put to_tmp merged (joined b1 b2)

-- The top call sorts into the array of the input strings, and overwrites the first lcp.
abbrev pub sort_top :
    (LcpStrings → LcpStrings → LcpStrings) → LcpStrings → LcpStrings → ℕ → LcpStrings
sort_top merge output tmp n =
    let r = (sort_buffers merge n false (record { main = output; tmp = tmp }) n).main in
    record r { lcps = set_head 42 r.lcps }

unfoldable pub lcp_mergesort_binary : LcpStrings → LcpStrings → ℕ → LcpStrings
unfolding sort_buffers lcp_merge_binary
lcp_mergesort_binary output tmp n = sort_top (λ p q. lcp_merge_binary p q 0) output tmp n

unfoldable pub lcp_mergesort_binary_opt : LcpStrings → LcpStrings → ℕ → LcpStrings
unfolding sort_buffers lcp_merge_binary_opt
lcp_mergesort_binary_opt output tmp n = sort_top (λ p q. lcp_merge_binary_opt p q 0) output tmp n
