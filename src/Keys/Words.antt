-- ===== src/Keys/Words.antt =====
-- The keys that are loaded as one word: get_char_uint32_bswap32 and get_char_uint64_bswap64 of
-- src/tools/stringset.hpp, and get_char<uint32_t> and get_char<uint64_t> of
-- src/tools/stringtools.hpp, which have the same bodies. They read bytes behind the terminator, so
-- memory is a list of bytes of its own.
pub mod Masks
pub mod Laws
use parallel_string_sorting.Prelude.{
  ℕ, zero, suc, ◌+◌, ◌*◌, ◌/◌, ◌%◌, List, Bool, true, false, ◌==◌, if◌then◌else◌, drop, get_or,
  bit_and,
}
use parallel_string_sorting.Keys.Pack.{pow256}

-- A little-endian load of n bytes.
unfoldable pub load_word : ℕ → List ℕ → ℕ
load_word zero memory = 0
load_word (suc n) memory = get_or memory 0 0 + load_word n (drop 1 memory) * 256

-- __builtin_bswap32 and __builtin_bswap64 (n = 4 and n = 8): the bytes in reverse order.
unfoldable pub bswap : ℕ → ℕ → ℕ
bswap zero v = 0
bswap (suc n) v = v % 256 * pow256 n + bswap n (v / 256)

unfoldable pub get_char_uint32_bswap32 : List ℕ → ℕ → ℕ
unfolding load_word bswap
get_char_uint32_bswap32 str depth =
    let v = bswap 4 (load_word 4 (drop depth str)) in
    if bit_and v 0xFF000000 == 0
    then 0
    else if bit_and v 0x00FF0000 == 0
    then bit_and v 0xFFFF0000
    else if bit_and v 0x0000FF00 == 0
    then bit_and v 0xFFFFFF00
    else v

unfoldable pub get_char_uint64_bswap64 : List ℕ → ℕ → ℕ
unfolding load_word bswap
get_char_uint64_bswap64 str depth =
    let v = bswap 8 (load_word 8 (drop depth str)) in
    if bit_and v 0xFF00000000000000 == 0
    then 0
    else if bit_and v 0x00FF000000000000 == 0
    then bit_and v 0xFFFF000000000000
    else if bit_and v 0x0000FF0000000000 == 0
    then bit_and v 0xFFFFFF0000000000
    else if bit_and v 0x000000FF00000000 == 0
    then bit_and v 0xFFFFFFFF00000000
    else if bit_and v 0x00000000FF000000 == 0
    then bit_and v 0xFFFFFFFFFF000000
    else if bit_and v 0x0000000000FF0000 == 0
    then bit_and v 0xFFFFFFFFFFFF0000
    else if bit_and v 0x000000000000FF00 == 0
    then bit_and v 0xFFFFFFFFFFFFFF00
    else v

-- get_char<uint32_t> and get_char<uint64_t> of stringtools.hpp.
unfoldable pub get_char_uint32 : List ℕ → ℕ → ℕ
unfolding get_char_uint32_bswap32
get_char_uint32 str depth = get_char_uint32_bswap32 str depth

unfoldable pub get_char_uint64 : List ℕ → ℕ → ℕ
unfolding get_char_uint64_bswap64
get_char_uint64 str depth = get_char_uint64_bswap64 str depth
