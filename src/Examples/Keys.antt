-- ===== src/Examples/Keys.antt =====
-- Packed keys.
use parallel_string_sorting.Prelude.{ℕ, List, [], ◌∷◌, ◌+◌, ◌<◌, ◌≤◌, ◌≡◌, ◌⊎◌, refl, arith}
use parallel_string_sorting.Strings.{lcp, LexLe}
use parallel_string_sorting.Keys.{uint16, uint32, uint64, get_key}
use parallel_string_sorting.Keys.Laws.{get_key-order}
use parallel_string_sorting.Keys.Words.{get_char_uint64_bswap64, get_char_uint64}
use parallel_string_sorting.Keys.Words.Laws.{get_char_uint64_bswap64-eq-get_key}
use parallel_string_sorting.Examples.Data.{word_abc, word_ac}

-- "abc", its terminator, and other bytes.
abbrev memory_abc : List ℕ
memory_abc = b'a' ∷ b'b' ∷ b'c' ∷ 0 ∷ 255 ∷ 17 ∷ 3 ∷ 255 ∷ 8 ∷ []

get_key-run : get_key uint32 word_abc 0 ≡ 0x61626300
unfolding get_key
get_key-run = refl

bswap-run : get_char_uint64_bswap64 memory_abc 1 ≡ 0x6263000000000000
unfolding get_char_uint64_bswap64
bswap-run = refl

get_key-order_example :
    (get_key uint16 word_abc 1 < get_key uint16 word_ac 1 → LexLe word_abc word_ac)
    × (get_key uint16 word_abc 1 ≡ get_key uint16 word_ac 1
        → (word_abc ≡ word_ac) ⊎ (2 + 1 ≤ lcp word_abc word_ac))
unfolding lcp
get_key-order_example =
    get_key-order uint16 word_abc word_ac 1 (omega arith, (omega arith, (omega arith, tt)))
      (omega arith, (omega arith, tt)) (omega arith)

get_char_uint64_bswap64-eq-get_key_example :
    (get_char_uint64_bswap64 memory_abc 1 ≡ get_key uint64 word_abc 1)
    × (get_char_uint64 memory_abc 1 ≡ get_key uint64 word_abc 1)
get_char_uint64_bswap64-eq-get_key_example =
    get_char_uint64_bswap64-eq-get_key memory_abc word_abc 1
      (
        omega arith,
        (
          omega arith,
          (
            omega arith,
            (
              omega arith,
              (omega arith, (omega arith, (omega arith, (omega arith, (omega arith, tt))))),
            ),
          ),
        ),
      )
      (omega arith, (omega arith, (omega arith, tt))) (refl, (refl, refl))
