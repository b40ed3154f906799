-- ===== src/Examples/Radixsorts.antt =====
-- Radix sorts.
use parallel_string_sorting.Prelude.{ℕ, ◌+◌, List, [], ◌++◌, ◌≡◌, refl, arith, replicate, drop}
use parallel_string_sorting.Strings.{Str}
use parallel_string_sorting.Insertion.{inssort}
use parallel_string_sorting.Insertion.Laws.{IsSortOf}
use parallel_string_sorting.Mkqs.{char_at}
use parallel_string_sorting.Radix.{
  zeros, count_loop, prefix_sum, distribute, bingmann_msd_ce0, msd_ce0, msd_ce3, Scratch,
}
use parallel_string_sorting.Permute.{permute, bingmann_msd_ci0, msd_ci0, msd_ci2, msd_ci3}
use parallel_string_sorting.Permute.Laws.{IsBucketed, permute-IsBucketed}
use parallel_string_sorting.Permute.Sorts.{msd_ci0-sorts}
use parallel_string_sorting.Permute.WordSorts.{msd_ci3-sorts}
use parallel_string_sorting.RadixStack.{bingmann_msd_ce0_sb}
use parallel_string_sorting.RadixStack.Laws.{bingmann_msd_ce0_sb-sorts}
use parallel_string_sorting.Radix.Arrays.{joined}
use parallel_string_sorting.Radix.Buckets.{bucket}
use parallel_string_sorting.Radix.Distribute.{distribute-bucket}
use parallel_string_sorting.Radix.Laws.{msd_ce0-sorts}
use parallel_string_sorting.Radix.CachedSorts.{msd_ce3-sorts}
use parallel_string_sorting.Examples.Data.{word_ab, word_b}

abbrev many : List Str
many = replicate 17 word_b ++ replicate 17 word_ab

abbrev scratch : Scratch
scratch = (replicate 40 [], replicate 40 7)

bingmann_msd_ce0-run :
    bingmann_msd_ce0 4 many 34 (replicate 40 []) ≡ replicate 17 word_ab ++ replicate 17 word_b
unfolding bingmann_msd_ce0 inssort zeros
bingmann_msd_ce0-run = refl

msd_ce0-sorts_example : IsSortOf 0 many (msd_ce0 100 many (replicate 40 []) 34 0).0
msd_ce0-sorts_example =
    msd_ce0-sorts 100 many (replicate 40 []) 34 0 refl (omega arith) (omega arith) (omega arith)

msd_ce3-sorts_example : IsSortOf 0 many (msd_ce3 100 many scratch 34 0).0
msd_ce3-sorts_example =
    msd_ce3-sorts 100 many scratch 34 0 refl (omega arith) (omega arith) (omega arith, omega arith)

distribute-bucket_example :
    distribute
      (char_at 0)
      many
      (prefix_sum 0 (count_loop (char_at 0) many (zeros 256)))
      (replicate 40 [])
    ≡ joined 256 0 (bucket (char_at 0) many) ++ drop 34 (replicate 40 [])
distribute-bucket_example =
    distribute-bucket (char_at 0) 256 many (replicate 40 []) (omega arith) (omega arith)

bingmann_msd_ci0-run : bingmann_msd_ci0 4 many 34 ≡ replicate 17 word_ab ++ replicate 17 word_b
unfolding bingmann_msd_ci0 inssort zeros
bingmann_msd_ci0-run = refl

msd_ci2-run : (msd_ci2 4 many (replicate 34 0) 34 0).0 ≡ replicate 17 word_ab ++ replicate 17 word_b
unfolding msd_ci2 inssort zeros
msd_ci2-run = refl

permute-IsBucketed_example :
    IsBucketed
      (char_at 0)
      256
      many
      (omega arith)
      (permute (char_at 0) 34 (count_loop (char_at 0) many (zeros 256)) many)
permute-IsBucketed_example = permute-IsBucketed (char_at 0) 256 many (omega arith) (omega arith)

msd_ci0-sorts_example : IsSortOf 0 many (msd_ci0 100 many 34 0)
msd_ci0-sorts_example = msd_ci0-sorts 100 many 34 0 refl (omega arith) (omega arith)

msd_ci3-sorts_example : IsSortOf 0 many (msd_ci3 100 many (replicate 40 7) 34 0).0
msd_ci3-sorts_example =
    msd_ci3-sorts 100 many (replicate 40 7) 34 0 refl (omega arith) (omega arith) (omega arith)

bingmann_msd_ce0_sb-run :
    bingmann_msd_ce0_sb 2000 many 34 (replicate 40 []) ≡ replicate 17 word_ab ++ replicate 17 word_b
unfolding bingmann_msd_ce0_sb inssort zeros
bingmann_msd_ce0_sb-run = refl

bingmann_msd_ce0_sb-sorts_example :
    (rounds : ℕ) × ((more : ℕ)
      → IsSortOf 0 many (bingmann_msd_ce0_sb (rounds + more) many 34 (replicate 40 [])))
bingmann_msd_ce0_sb-sorts_example =
    bingmann_msd_ce0_sb-sorts many (replicate 40 []) 34 refl (omega arith) (omega arith)
