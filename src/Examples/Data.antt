-- ===== src/Examples/Data.antt =====
-- Test data: a few words, and sorted arrays of them with their lcps.
use parallel_string_sorting.Prelude.{ℕ, List, [], ◌∷◌}
use parallel_string_sorting.Strings.{Str, of_bytes}
use parallel_string_sorting.Merge.{LcpStrings}

abbrev pub word_ab : Str
word_ab = of_bytes (b'a' ∷ b'b' ∷ [])

abbrev pub word_abc : Str
word_abc = of_bytes (b'a' ∷ b'b' ∷ b'c' ∷ [])

abbrev pub word_b : Str
word_b = of_bytes (b'b' ∷ [])

abbrev pub word_ac : Str
word_ac = of_bytes (b'a' ∷ b'c' ∷ [])

abbrev pub words : List Str
words = word_b ∷ word_abc ∷ word_ac ∷ word_ab ∷ word_abc ∷ []

abbrev pub sorted_words : List Str
sorted_words = word_ab ∷ word_abc ∷ word_abc ∷ word_ac ∷ word_b ∷ []

abbrev pub zeros : List ℕ
zeros = 0 ∷ 0 ∷ 0 ∷ 0 ∷ 0 ∷ []

abbrev pub unsorted_array : LcpStrings
unsorted_array = record { strings = words; lcps = zeros }

abbrev pub scratch_array : LcpStrings
scratch_array = record { strings = sorted_words; lcps = zeros }

abbrev pub stream1 : LcpStrings
stream1 = record { strings = word_ab ∷ word_ac ∷ []; lcps = 0 ∷ 1 ∷ [] }

abbrev pub stream2 : LcpStrings
stream2 = record { strings = word_abc ∷ word_b ∷ []; lcps = 0 ∷ 0 ∷ [] }
