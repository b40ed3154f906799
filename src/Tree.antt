-- ===== src/Tree.antt =====
-- src/tools/stringtools.hpp: counting zero bits, the level order and the in-order of a perfect binary
-- tree of splitters (TreeCalculations), and calculateRanges.
pub mod Laws
use parallel_string_sorting.Prelude.{
  ℕ, zero, suc, ◌+◌, ◌-◌, ◌*◌, ◌/◌, ◌%◌, List, [], ◌∷◌, Bool, true, false, ◌==◌, ltb, if◌then◌else◌,
  ◌&&◌, bit_and, bit_or, pow2, shl,
}

-- The bits of a number, for a number of at most that many bits.
unfoldable pub bit_length : ℕ → ℕ → ℕ
bit_length zero t = 0
bit_length (suc bits) t = let more = bit_length bits (t / 2) in if t == 0 then 0 else suc more

-- The zeros below the lowest one, if there is one among that many bits.
unfoldable pub trailing_zeros : ℕ → ℕ → ℕ
trailing_zeros zero t = 0
trailing_zeros (suc bits) t =
    let more = trailing_zeros bits (t / 2) in if t % 2 == 1 then 0 else suc more

-- __builtin_clz and __builtin_ctz behind a test for 0, in w bits (32 or 64).
unfoldable pub count_high_zero_bits : ℕ → ℕ → ℕ
unfolding bit_length
count_high_zero_bits w t = if t == 0 then w else w - bit_length w t

unfoldable pub count_low_zero_bits : ℕ → ℕ → ℕ
unfolding trailing_zeros
count_low_zero_bits w t = if t == 0 then w else trailing_zeros w t

abbrev pub numnodes : ℕ → ℕ
numnodes treebits = pow2 treebits - 1

unfoldable pub level_to_preorder : ℕ → ℕ → ℕ
unfolding count_high_zero_bits
level_to_preorder treebits id =
    let bitmask = numnodes treebits in
    let hi = treebits + count_high_zero_bits 32 id - 32 in
    bit_or (bit_and (shl 32 id (hi + 1)) bitmask) (shl 32 1 hi)

unfoldable pub pre_to_levelorder : ℕ → ℕ → ℕ
unfolding count_low_zero_bits
pre_to_levelorder treebits id =
    let bitmask = numnodes treebits in
    let lo = count_low_zero_bits 32 id + 1 in
    bit_or (bit_and (id / pow2 lo) bitmask) (shl 32 1 (treebits - lo))

-- The assertions of self_verify, for the nodes from 1 to n.
unfoldable pub self_verify : ℕ → ℕ → Bool
self_verify treebits zero = true
self_verify treebits (suc n) =
    self_verify treebits n
    && (pre_to_levelorder treebits (level_to_preorder treebits (suc n)) == suc n)

-- A range: its start and its length.
pub record Range : Type 0 where
  pub start : ℕ
  pub size : ℕ

-- The loop for the ranges that are left, and the last range.
unfoldable pub split_ranges : ℕ → ℕ → ℕ → ℕ → List Range
split_ranges split length_to_split zero i =
    record { start = i * split; size = length_to_split - i * split } ∷ []
split_ranges split length_to_split (suc left) i =
    record { start = i * split; size = split } ∷ split_ranges split length_to_split left (suc i)

unfoldable pub calculate_ranges : ℕ → ℕ → List Range
unfolding split_ranges
calculate_ranges number_of_splits length_to_split =
    split_ranges (length_to_split / number_of_splits) length_to_split (number_of_splits - 1) 0
