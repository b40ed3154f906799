-- ===== src/LcpPseudocode.antt =====
-- src/sequential/bingmann-lcp_inssort.hpp: lcp_insertion_sort_pseudocode, which tests the bounds of
-- the lcp array in every round, and the versions of the sort with plain arguments.
pub mod Laws
use parallel_string_sorting.Prelude.{
  ℕ, zero, suc, ◌+◌, List, [], ◌∷◌, Bool, true, false, not, ltb, ◌==◌, if◌then◌else◌, length,
  get_or, set,
}
use parallel_string_sorting.Strings.{Str}
use parallel_string_sorting.StringSet.{scan_equal, is_less, get_chars}
use parallel_string_sorting.Merge.{LcpStrings}
use parallel_string_sorting.LcpInsertion.{LcpArrays, lcp_insertion_sort}

-- `if (i + 1 < n) lcp[i + 1] = h;`
abbrev pub write_lcp : ℕ → ℕ → ℕ → List ℕ → List ℕ
write_lcp n i h lcps = if ltb (i + 1) n then set lcps (suc i) h else lcps

-- The writes behind the loop of a round.
unfoldable pub place : ℕ → ℕ → Str → ℕ → LcpStrings → LcpStrings
place n i snew h a = record { strings = set a.strings i snew; lcps = write_lcp n i h a.lcps }

-- The string at k moves up to k + 1, and its lcp with it.
unfoldable pub move_back : ℕ → ℕ → LcpStrings → LcpStrings
move_back n k a = record {
  strings = set a.strings (suc k) (get_or a.strings k []);
  lcps = write_lcp n (suc k) (get_or a.lcps (suc k) 0) a.lcps;
}

-- `while (i > 0)` of a round, at i = k + 1.
unfoldable pub find_place : ℕ → ℕ → Str → ℕ → LcpStrings → LcpStrings
unfolding scan_equal is_less get_chars place move_back
find_place n zero snew h a = place n 0 snew h a
find_place n (suc k) snew h a =
    let s2 = get_or a.strings k [] in
    let cur_lcp = get_or a.lcps (suc k) 0 in
    let c = scan_equal (get_chars snew h) (get_chars s2 h) h in
    let further = λ (g : ℕ). find_place n k snew g (move_back n k a) in
    if ltb cur_lcp h
    then place n (suc k) snew h a
    else if cur_lcp == h
    then (if not (is_less c.s1 c.s2)
        then place n (suc k) snew h (record a { lcps = set a.lcps (suc k) c.lcp })
        else further c.lcp)
    else further h

-- The rounds from round j on.
unfoldable pub pseudocode_rounds : ℕ → ℕ → ℕ → ℕ → LcpStrings → LcpStrings
unfolding find_place
pseudocode_rounds n depth zero j a = a
pseudocode_rounds n depth (suc rounds) j a =
    pseudocode_rounds n depth rounds (suc j) (find_place n j (get_or a.strings j []) depth a)

unfoldable pub lcp_insertion_sort_pseudocode : LcpStrings → ℕ → ℕ → LcpStrings
unfolding pseudocode_rounds
lcp_insertion_sort_pseudocode a n depth = pseudocode_rounds n depth n 0 a

-- The versions with plain arguments: without a cache, and with one.
unfoldable pub lcp_insertion_sort_plain : LcpStrings → ℕ → ℕ → LcpStrings
lcp_insertion_sort_plain a n depth =
    let r =
      lcp_insertion_sort false (record { strings = a.strings; lcps = a.lcps; cache = [] }) n
        depth in
    record { strings = r.strings; lcps = r.lcps }

unfoldable pub lcp_insertion_sort_with_cache : LcpArrays → ℕ → ℕ → LcpArrays
lcp_insertion_sort_with_cache a n depth = lcp_insertion_sort true a n depth

-- The sorters that the test program registers, from depth 0.
unfoldable pub test_lcp_insertion_sort : List Str → List ℕ → ℕ → LcpStrings
test_lcp_insertion_sort strings lcp n =
    lcp_insertion_sort_plain (record { strings = strings; lcps = lcp }) n 0

unfoldable pub test_lcp_insertion_sort_pseudocode : List Str → List ℕ → ℕ → LcpStrings
test_lcp_insertion_sort_pseudocode strings lcp n =
    lcp_insertion_sort_pseudocode (record { strings = strings; lcps = lcp }) n 0

unfoldable pub lcp_insertion_sort_cache : List Str → List ℕ → List ℕ → ℕ → LcpArrays
lcp_insertion_sort_cache strings lcp cache n =
    lcp_insertion_sort_with_cache (record { strings = strings; lcps = lcp; cache = cache }) n 0
