-- ===== src/Examples/Quicksorts.antt =====
-- Multikey quicksorts.
use parallel_string_sorting.Prelude.{ℕ, ◌+◌, List, ◌++◌, ◌≡◌, refl, arith, replicate}
use parallel_string_sorting.Strings.{Str}
use parallel_string_sorting.Insertion.{inssort}
use parallel_string_sorting.Insertion.Laws.{IsSortOf}
use parallel_string_sorting.Mkqs.{
  int_count, char_of, split, multikey1, ssort1, ssort2, multikey2, mkqs_generic,
}
use parallel_string_sorting.Mkqs.Ranges.{Parted, split-Parted}
use parallel_string_sorting.Mkqs.Laws.{int_count-eq, ssort1-sorts, ssort2-sorts, mkqs_generic-sorts}
use parallel_string_sorting.Examples.Data.{word_ab, word_b, words, sorted_words}

abbrev rand : List Str → ℕ → ℕ → ℕ
rand x n depth = n + depth

multikey1-run : multikey1 rand 20 words 5 ≡ sorted_words
unfolding multikey1
multikey1-run = refl

abbrev many : List Str
many = replicate 17 word_b ++ replicate 17 word_ab

multikey2-run : multikey2 100 many 34 ≡ replicate 17 word_ab ++ replicate 17 word_b
unfolding multikey2 inssort int_count
multikey2-run = refl

ssort1-sorts_example : IsSortOf 0 words (ssort1 rand 20 words 5 0)
ssort1-sorts_example = ssort1-sorts rand 20 words 5 0 refl (omega arith)

ssort2-sorts_example : IsSortOf 0 many (ssort2 100 many 34 0)
ssort2-sorts_example = ssort2-sorts 100 many 34 0 refl (omega arith) (omega arith)

mkqs_generic-sorts_example : IsSortOf 0 many (mkqs_generic 100 many 34 0)
mkqs_generic-sorts_example =
    mkqs_generic-sorts 100 many 34 0 refl (omega arith) (omega arith, omega arith)

split-Parted_example :
    (parted : Parted 0 5 words (split 0 int_count words 5 2)) × (parted.v ≡ char_of 0 words 2)
split-Parted_example =
    split-Parted 0 int_count words 5 2 refl (omega arith) (int_count-eq 5 (omega arith))
