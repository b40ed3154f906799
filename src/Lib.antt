-- ===== src/Lib.antt =====
-- Verification of string sorters of parallel-string-sorting.
--
-- The program is a collection of sorting algorithms for arrays of zero-terminated byte strings, with
-- tools that they share. A sorter gets an array of pointers, compares strings through the loops of
-- tools/stringtools.hpp or through a string set (tools/stringset.hpp), and writes the pointers back
-- in order. The sorters that this library covers also keep, for each string, the length of its
-- longest common prefix (lcp) with the string before, and some the byte behind that prefix.
--
-- Parts and files (paths are from the repository's root):
--   Strings            strings and the order and prefix that the program means: the specification;
--                      Strings/Scan the comparison loops of src/tools/stringtools.hpp, Strings/Scmp
--                      scmp and calc_lcp
--   StringSet          src/tools/stringset.hpp: comparisons, check_order; calc_lcp
--   Keys               get_uint8 to get_uint64, get_key (stringset.hpp) and get_char<...>
--                      (stringtools.hpp), byte by byte; Keys/Words the loads of whole words; Keys/Pack
--                      the number in base 256 that both are compared with
--   Insertion          src/sequential/inssort.hpp: inssort, insertion_sort, inssort_generic
--   LcpInsertion       src/sequential/bingmann-lcp_inssort.hpp: lcp_insertion_sort
--   LcpPseudocode      lcp_insertion_sort_pseudocode of the same file
--   Tree               TreeCalculations, the bit counts and calculateRanges (stringtools.hpp)
--   Merge, MergeCache  src/sequential/bingmann-lcp_mergesort_binary.hpp: lcp_compare, the merges
--   Mergesort          lcp_mergesort_binary and lcp_mergesort_binary_opt of the same file
--   MergesortCache     lcp_mergesort_binary_cache_opt of the same file
--   NgMergesort        src/sequential/ng-lcpmergesort.cpp
--   Verify             src/tools/stringptr.hpp: verify_lcp_cache, and the insertion sort that uses it
--   Mkqs               src/sequential/bs-mkqs.hpp and bingmann-mkqs.hpp: multikey quicksorts; Mkqs/Split
--                      the loops of the partition, Mkqs/Ranges what it leaves, Mkqs/Calls the recursion
--   Radix              src/sequential/bingmann-radix_sort.hpp: the out-of-place radix sorts; Radix/Order
--                      what they need of a key, which Radix/ByteKey and Radix/WordKey fill,
--                      Radix/Distribute the distribution, Radix/Recursion the recursion
--   Permute            the radix sorts of the same file that permute in place: Permute/Invariant what
--                      the cycles keep, Permute/Rounds and Permute/Loops that they do, Permute/Cached
--                      the permutation with cached characters
--   RadixStack         the radix sort of the same file with its own stack, bingmann_msd_CE0_sb
--   JobQueue           src/tools/jobqueue.hpp: the threads of a job queue as a step relation;
--                      JobQueue/Group the queues of NUMA nodes
--   Checker            src/tools/checker.hpp: the checks of a sorter's result
--   Prelude            tests on numbers, lists as arrays, predicates on lists, binary digits
--   Examples           runs of the definitions, and the theorems at concrete inputs
-- How they interact: lcp_mergesort_binary calls lcp_insertion_sort on ranges of up to 32 strings and
-- lcp_merge_binary above; Mergesort takes the merge as an argument with its law (Merges), which the
-- theorems of Merge fill. The merge of NgMergesort is proved equal to merge_opt_loop, and that to
-- merge_loop, so that one invariant (Merge/Chain) serves all three.
-- A radix sort is a pass over the strings and a recursion over their buckets: Radix/Pass proves the
-- recursion once, for any key that fills RadixKey and any scratch memory, and the passes of Radix and
-- of Permute bring the buckets in order for it. RadixStack meets the same order of buckets.
--
-- Representation. A string is the list of its bytes, each less one (a byte in front of the terminator
-- is not zero); a pointer into a string is a suffix, and reading at the end gives 0. Bytes are
-- bounded only where a theorem says so (IsBytes). An array is a list; the arrays that are written in
-- place are passed on (LcpArrays, Buffers), reading outside them gives a default and writing outside
-- them does nothing. A loop that runs over two output and two input pointers is a recursion that
-- returns what it writes. Numbers are natural numbers. These casts are written out: int
-- in insertion_sort and for the sizes of the ranges in ssort2 and mkqs_generic, unsigned int in
-- calc_lcp and for the lcps of NgMergesort, size_t in inssort_generic, shifts in w bits, signed char
-- in NgMergesort. Other narrowing conversions are taken as exact: the depth, which the radix sorts
-- keep in a size_t and inssort gets as an int, and the eighth of n, an int in ssort2.
-- A cache of 16-bit characters that is lent out as one of bytes is the same list: every place is
-- written before it is read.
--
-- Bounds. Loops over strings and arrays recurse on a list or on the rounds that are left. The
-- recursions of the mergesorts are on fuel; the number of strings is enough fuel, since both halves
-- of two or more strings are shorter, and the theorems are stated of runs with this fuel. The quicksorts
-- need fuel for the bytes behind the depth, with a terminator each: a range without the pivot has one
-- string less, and the strings with the pivot's byte are each one byte shorter from the next depth on.
-- So do the radix sorts; of the one with its own stack it is proved that some number of rounds is
-- enough.
--
-- The threads of a job queue are not scheduled by the model: an execution is any sequence of steps of
-- any of them. try_pop of the concurrent queue takes any job, and fails if there is none; that is what
-- is relied on of it. What a job does is left open: it may enqueue jobs and end at any time.
--
-- Not modelled. The parallel sorters, sample sorts, burstsorts, the other
-- radix sorts that keep a stack of their own,
-- the k-way mergesort and its loser tree, the sorters under src/rantala, the
-- program psstest with its input and its measurements. Of the parts that are: log lines and
-- assertions; that the scratch space of
-- ng_lcpmergesort lies over the part of the input array that has been read (it is a list of its
-- own); what malloc and new return, which the theorems quantify over.
pub mod Prelude
pub mod Strings
pub mod StringSet
pub mod Insertion
pub mod LcpInsertion
pub mod LcpPseudocode
pub mod Merge
pub mod MergeCache
pub mod Mergesort
pub mod MergesortCache
pub mod NgMergesort
pub mod Verify
pub mod Keys
pub mod Tree
mod Examples
pub mod JobQueue
pub mod Checker
pub mod Mkqs
pub mod Radix
pub mod Permute
pub mod RadixStack
