-- ===== src/Keys.antt =====
-- Several bytes of a string packed into one integer: src/tools/stringset.hpp (the character
-- extractors, get_key) and src/tools/stringtools.hpp (get_char).
pub mod Pack
pub mod Laws
pub mod Words
use parallel_string_sorting.Prelude.{
  ℕ, zero, suc, ◌+◌, ◌*◌, ◌/◌, ◌%◌, List, Bool, true, false, ◌==◌, if◌then◌else◌, drop, get_or,
  bit_and, bit_or, shl,
}
use parallel_string_sorting.Strings.{Str, deref}
use parallel_string_sorting.StringSet.{is_end, get_chars}

-- `if (ss.is_end(s, i)) return v; v |= (uintW_t(*i) << 8n); ++i;` from the byte n - 1 down. The
-- source writes the n steps out.
unfoldable pub append_chars : ℕ → ℕ → Str → ℕ → ℕ
unfolding is_end
append_chars w zero i v = v
append_chars w (suc n) i v =
    let more = append_chars w n (drop 1 i) (bit_or v (shl w (deref i) (n * 8))) in
    if is_end i then v else more

unfoldable pub get_char_uint8_simple : Str → ℕ
unfolding is_end
get_char_uint8_simple i = if is_end i then 0 else deref i % 256

unfoldable pub get_char_uint16_simple : Str → ℕ
unfolding append_chars
get_char_uint16_simple i = append_chars 16 2 i 0

unfoldable pub get_char_uint32_simple : Str → ℕ
unfolding append_chars
get_char_uint32_simple i = append_chars 32 4 i 0

unfoldable pub get_char_uint64_simple : Str → ℕ
unfolding append_chars
get_char_uint64_simple i = append_chars 64 8 i 0

unfoldable pub get_uint8 : Str → ℕ → ℕ
unfolding get_char_uint8_simple get_chars
get_uint8 s depth = get_char_uint8_simple (get_chars s depth)

unfoldable pub get_uint16 : Str → ℕ → ℕ
unfolding get_char_uint16_simple get_chars
get_uint16 s depth = get_char_uint16_simple (get_chars s depth)

unfoldable pub get_uint32 : Str → ℕ → ℕ
unfolding get_char_uint32_simple get_chars
get_uint32 s depth = get_char_uint32_simple (get_chars s depth)

unfoldable pub get_uint64 : Str → ℕ → ℕ
unfolding get_char_uint64_simple get_chars
get_uint64 s depth = get_char_uint64_simple (get_chars s depth)

-- The types that a key may have.
pub data KeyType : Type 0 where
  uint8 : KeyType
  uint16 : KeyType
  uint32 : KeyType
  uint64 : KeyType

unfoldable pub get_key : KeyType → Str → ℕ → ℕ
unfolding get_uint8 get_uint16 get_uint32 get_uint64
get_key uint8 s depth = get_uint8 s depth
get_key uint16 s depth = get_uint16 s depth
get_key uint32 s depth = get_uint32 s depth
get_key uint64 s depth = get_uint64 s depth

-- get_char of stringtools.hpp, on a pointer to the n-th byte from the last: the last byte is read
-- without a test.
unfoldable pub load_chars : ℕ → ℕ → Str → ℕ → ℕ
load_chars w zero p v = v
load_chars w (suc zero) p v = bit_or v (shl w (deref p) 0)
load_chars w (suc (suc n)) p v =
    let more = load_chars w (suc n) (drop 1 p) (bit_or v (shl w (deref p) (suc n * 8))) in
    if deref p == 0 then v else more

unfoldable pub get_char_uint8 : Str → ℕ → ℕ
get_char_uint8 str depth = deref (drop depth str) % 256

unfoldable pub get_char_uint16 : Str → ℕ → ℕ
unfolding load_chars
get_char_uint16 str depth = load_chars 16 2 (drop depth str) 0

unfoldable pub get_char_uint128 : Str → ℕ → ℕ
unfolding load_chars
get_char_uint128 str depth = load_chars 128 16 (drop depth str) 0
