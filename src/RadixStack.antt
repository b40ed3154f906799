-- ===== src/RadixStack.antt =====
-- src/sequential/bingmann-radix_sort.hpp: bingmann_msd_CE0_sb, the out-of-place radix sort that keeps
-- its own stack. The top of the stack is the head of a list, and pointers into the arrays are indices.
pub mod Runs
pub mod Laws
use parallel_string_sorting.Prelude.{
  ℕ, zero, suc, ◌+◌, List, [], ◌∷◌, ◌++◌, ltb, ◌==◌, if◌then◌else◌, length, drop, take, get_or,
}
use parallel_string_sorting.Strings.{Str}
use parallel_string_sorting.Insertion.{inssort}
use parallel_string_sorting.Mkqs.{char_at, on_range}
use parallel_string_sorting.Radix.{zeros, count_loop, prefix_sum, distribute}

-- RadixStep_CE0_sb
pub record RadixStep : Type 0 where
  pub str : ℕ
  pub idx : ℕ
  pub bkt_size : List ℕ

pub record State : Type 0 where
  pub strings : List Str
  pub sorted : List Str
  pub stack : List RadixStep

-- The constructor of RadixStep_CE0_sb, for the n strings from `str` on, and its place on the stack.
unfoldable pub emplace : ℕ → ℕ → ℕ → State → State
unfolding count_loop prefix_sum distribute
emplace str n depth s =
    let ss = take n (drop str s.strings) in
    let bkt_size = count_loop (char_at depth) ss (zeros 256) in
    let sorted' = distribute (char_at depth) ss (prefix_sum 0 bkt_size) s.sorted in
    record {
      strings = on_range str n (λ x. take n sorted') s.strings;
      sorted = sorted';
      stack = record { str = str + get_or bkt_size 0 0; idx = 0; bkt_size = bkt_size } ∷ s.stack;
    }

-- A round of the loops with `rs` on the top of the stack.
unfoldable pub round : RadixStep → List RadixStep → State → State
unfolding emplace
round rs rest s =
    let size = length (rs ∷ rest) in
    let n = get_or rs.bkt_size (rs.idx + 1) 0 in
    let rs' : RadixStep = record rs { idx = rs.idx + 1; str = rs.str + n } in
    if ltb rs.idx 255
    then (if n == 0
        then record s { stack = record rs { idx = rs.idx + 1 } ∷ rest }
        else if ltb n 32
        then record s {
          strings = on_range rs.str n (λ x. inssort x n size) s.strings;
          stack = rs' ∷ rest;
        }
        else emplace rs.str n size (record s { stack = rs' ∷ rest }))
    else record s { stack = rest }

-- `while (radixstack.size())`, for at most the rounds that are left.
unfoldable pub stack_loop : ℕ → State → State
unfolding round
stack_loop zero s = s
stack_loop (suc rounds) s = elim s.stack [
  | [] ↦ s
  | rs ∷ rest ↦ stack_loop rounds (round rs rest s)
]

unfoldable pub bingmann_msd_ce0_sb : ℕ → List Str → ℕ → List Str → List Str
unfolding stack_loop emplace
bingmann_msd_ce0_sb rounds strings n sorted =
    let sorted_by_stack =
      stack_loop rounds
        (emplace 0 n 0 (record { strings = strings; sorted = sorted; stack = [] })) in
    if ltb n 32 then inssort strings n 0 else sorted_by_stack.strings
