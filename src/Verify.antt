-- ===== src/Verify.antt =====
-- src/tools/stringptr.hpp: verify_lcp_cache and verify_lcp, which scan a sorted array for wrong lcps
-- and wrong cached bytes. src/sequential/bingmann-lcp_inssort.hpp: the insertion sort that checks
-- its own result.
pub mod Laws
pub mod Caches
use parallel_string_sorting.Prelude.{
  ℕ, zero, suc, ◌-◌, List, [], ◌∷◌, Bool, true, false, not, ◌&&◌, ◌==◌, if◌then◌else◌, drop, get_or,
  length, replicate, Option, some, none,
}
use parallel_string_sorting.Strings.{Str}
use parallel_string_sorting.StringSet.{calc_lcp, get_char}
use parallel_string_sorting.LcpInsertion.{lcp_insertion_sort}

-- `(lcp_t)-1`, which stands for no expected first lcp, or no lcp yet.
abbrev pub no_lcp : ℕ
no_lcp = 18446744073709551615

-- The loop from the second string on, with the string before and what is left of the arrays.
unfoldable pub verify_rows : Bool → Str → List Str → List ℕ → List ℕ → Bool → Bool
unfolding calc_lcp get_char
verify_rows check s1 [] lcps cache valid = valid
verify_rows check s1 (s2 ∷ ss) lcps cache valid =
    let h = calc_lcp s1 s2 in
    let stored = get_or lcps 0 0 in
    let valid1 = if not (h == stored) then false else valid in
    let valid2 = if check && not (get_or cache 0 0 == get_char s2 stored) then false else valid1 in
    verify_rows check s2 ss (drop 1 lcps) (drop 1 cache) valid2

unfoldable pub verify_lcp_cache : Bool → List Str → List ℕ → List ℕ → ℕ → Bool
unfolding verify_rows get_char
verify_lcp_cache check ss lcps cache expected =
    let l0 = get_or lcps 0 0 in
    let s0 = get_or ss 0 [] in
    let valid1 = not (not (expected == no_lcp) && not (l0 == expected)) in
    let wrong_cache = check && (not (expected == 42) && not (get_or cache 0 0 == get_char s0 l0)) in
    let valid2 = if not (expected == no_lcp) && wrong_cache then false else valid1 in
    verify_rows check s0 (drop 1 ss) (drop 1 lcps) (drop 1 cache) valid2

unfoldable pub verify_lcp : List Str → List ℕ → ℕ → Bool
unfolding verify_lcp_cache
verify_lcp ss lcps expected = verify_lcp_cache false ss lcps [] expected

-- The sort with lcps that are discarded. The array of lcps has what the stack holds.
unfoldable pub lcp_insertion_sort_nolcp : List ℕ → List Str → ℕ → List Str
unfolding lcp_insertion_sort
lcp_insertion_sort_nolcp tmp_lcp ss depth =
    (lcp_insertion_sort false (record { strings = ss; lcps = tmp_lcp; cache = [] }) (length ss)
      depth).strings

-- The sort that dies (`none`) unless its lcps are right.
unfoldable pub lcp_insertion_sort_verify : List Str → ℕ → Option (List Str)
lcp_insertion_sort_verify ss depth =
    let tmp_lcp = 42 ∷ replicate (length ss - 1) no_lcp in
    let a =
      lcp_insertion_sort false (record { strings = ss; lcps = tmp_lcp; cache = [] }) (length ss)
        depth in
    if verify_lcp a.strings a.lcps 42 then some a.strings else none

-- The sort with lcps and cached bytes that dies unless both are right.
unfoldable pub lcp_insertion_sort_cache_verify : List Str → ℕ → Option (List Str)
lcp_insertion_sort_cache_verify ss depth =
    let lcps = replicate (length ss) no_lcp in
    let a =
      lcp_insertion_sort true
        (record { strings = ss; lcps = lcps; cache = replicate (length ss) 0 }) (length ss) depth in
    if verify_lcp_cache true a.strings a.lcps a.cache no_lcp then some a.strings else none
