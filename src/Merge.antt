-- ===== src/Merge.antt =====
-- src/sequential/bingmann-lcp_mergesort_binary.hpp: lcp-aware comparison and binary merging.
-- The two streams move forward only, so a pointer into one is the list that is left, and an array
-- that is written from front to back is the list of what is written.
pub mod Chain
pub mod Laws
use parallel_string_sorting.Prelude.{
  ℕ, List, [], ◌∷◌, true, Bool, leb, ltb, ◌==◌, if◌then◌else◌, drop, take, length, get_or, set_head,
}
use parallel_string_sorting.Strings.{Str, deref}
use parallel_string_sorting.Strings.Scan.{scan}

-- The four reference parameters of lcp_compare.
pub record Comparison : Type 0 where
  pub smaller : ℕ
  pub lcp_smaller : ℕ
  pub larger : ℕ
  pub lcp_ab : ℕ

unfoldable pub lcp_compare : ℕ → Str → ℕ → ℕ → Str → ℕ → Comparison
unfolding scan
lcp_compare a input_a lcp_a b input_b lcp_b =
    if lcp_a == lcp_b
    then (let k = scan (drop lcp_a input_a) (drop lcp_a input_b) lcp_a in
        if leb (deref k.s1) (deref k.s2)
        then record { smaller = a; lcp_smaller = lcp_a; larger = b; lcp_ab = k.lcp }
        else record { smaller = b; lcp_smaller = lcp_b; larger = a; lcp_ab = k.lcp })
    else if ltb lcp_b lcp_a
    then record { smaller = a; lcp_smaller = lcp_a; larger = b; lcp_ab = lcp_b }
    else record { smaller = b; lcp_smaller = lcp_b; larger = a; lcp_ab = lcp_a }

-- LcpStringPtr: strings with, at each place, the lcp with the string before.
pub record LcpStrings : Type 0 where
  pub strings : List Str
  pub lcps : List ℕ

-- `*output++ = s; *output_lcp++ = h;`
abbrev pub emit : Str → ℕ → LcpStrings → LcpStrings
emit s h rest = record { strings = s ∷ rest.strings; lcps = h ∷ rest.lcps }

abbrev pub advance : List ℕ → List ℕ
advance lcps = drop 1 lcps

-- `lcp = input < end ? *lcps : 0;`
abbrev pub next_lcp : List Str → List ℕ → ℕ
next_lcp [] lcps = 0
next_lcp (s ∷ input) lcps = get_or lcps 0 0

-- The two std::copy of a stream that is left, and the write to the first lcp.
abbrev pub copy_rest : List Str → List ℕ → ℕ → LcpStrings
copy_rest input lcps h = record { strings = input; lcps = set_head h (take (length input) lcps) }

-- The loop, from the current lcps of the two streams with the last string that was written.
-- (With two empty streams the source also writes one lcp, which no array has room for.)
unfoldable pub merge_loop : List Str → List ℕ → ℕ → List Str → List ℕ → ℕ → LcpStrings
merge_loop [] lcps1 lcp1 input2 lcps2 lcp2 = copy_rest input2 lcps2 lcp2
merge_loop (x ∷ input1) lcps1 lcp1 [] lcps2 lcp2 = copy_rest (x ∷ input1) lcps1 lcp1
merge_loop (x ∷ input1) lcps1 lcp1 (y ∷ input2) lcps2 lcp2 =
    let c = lcp_compare 0 x lcp1 1 y lcp2 in
    elim (c.smaller == 0) [
      | true ↦ emit x lcp1 (
          merge_loop input1 (advance lcps1) (next_lcp input1 (advance lcps1)) (y ∷ input2) lcps2
            c.lcp_ab)
      | Bool.false ↦ emit y lcp2 (
          merge_loop (x ∷ input1) lcps1 c.lcp_ab input2 (advance lcps2)
            (next_lcp input2 (advance lcps2)))
    ]

unfoldable pub lcp_merge_binary : LcpStrings → LcpStrings → ℕ → LcpStrings
unfolding merge_loop lcp_compare
lcp_merge_binary input1 input2 depth =
    merge_loop input1.strings input1.lcps depth input2.strings input2.lcps depth

-- The loop of lcp_merge_binary_opt, where the comparison is written out.
unfoldable pub merge_opt_loop : List Str → List ℕ → ℕ → List Str → List ℕ → ℕ → LcpStrings
unfolding scan
merge_opt_loop [] lcps1 lcp1 input2 lcps2 lcp2 = copy_rest input2 lcps2 lcp2
merge_opt_loop (x ∷ input1) lcps1 lcp1 [] lcps2 lcp2 = copy_rest (x ∷ input1) lcps1 lcp1
merge_opt_loop (x ∷ input1) lcps1 lcp1 (y ∷ input2) lcps2 lcp2 =
    let k = scan (drop lcp1 x) (drop lcp1 y) lcp1 in
    let take1 = λ (h : ℕ). emit x lcp1 (
      merge_opt_loop input1 (advance lcps1) (next_lcp input1 (advance lcps1)) (y ∷ input2) lcps2
        h) in
    let take2 = λ (h : ℕ). emit y lcp2 (
      merge_opt_loop (x ∷ input1) lcps1 h input2 (advance lcps2)
        (next_lcp input2 (advance lcps2))) in
    if lcp1 == lcp2
    then (if leb (deref k.s1) (deref k.s2) then take1 k.lcp else take2 k.lcp)
    else if ltb lcp1 lcp2
    then take2 lcp1
    else take1 lcp2

unfoldable pub lcp_merge_binary_opt : LcpStrings → LcpStrings → ℕ → LcpStrings
unfolding merge_opt_loop
lcp_merge_binary_opt input1 input2 depth =
    merge_opt_loop input1.strings input1.lcps depth input2.strings input2.lcps depth
