-- ===== src/Keys/Words/Laws.antt =====
-- The words that are loaded are the keys that the other extractors build byte by byte.
use native.Mathlib.Nat.{add-mul-div_right, div-eq_of_lt}
use parallel_string_sorting.Prelude.{
  ap, ℕ, zero, suc, ◌+◌, ◌-◌, ◌*◌, ◌/◌, ◌%◌, ◌<◌, List, [], ◌∷◌, ◌==◌, if◌then◌else◌, drop, get_or,
  All, All-drop, ◌≡◌, refl, sym, ◌∙◌, arith, pow2, bit_and,
}
use parallel_string_sorting.Strings.{Str}
use parallel_string_sorting.Keys.{uint32, uint64, get_key}
use parallel_string_sorting.Keys.Laws.{get_key-pack, pow2-bytes}
use parallel_string_sorting.Keys.Pack.{IsBytes, pow256, pow256-pos, mul-lt, pack, pack-nil}
use parallel_string_sorting.Keys.Words.{
  load_word, bswap, get_char_uint32_bswap32, get_char_uint64_bswap64, get_char_uint32,
  get_char_uint64,
}
use parallel_string_sorting.Keys.Words.Masks.{pow2-pos, bit_and-byte, bit_and-high}

abbrev pub IsByte : ℕ → Type 0
IsByte b = b < 256

-- The bytes from here on are those of the string, a zero, and whatever follows.
abbrev pub HoldsString : List ℕ → Str → Type 0
HoldsString memory [] = get_or memory 0 1 ≡ 0
HoldsString [] (c ∷ s) = ⊥
HoldsString (b ∷ memory) (c ∷ s) = (b ≡ suc c) × HoldsString memory s

-- The number of the first n bytes, and of those in front of a zero.
abbrev big_endian : ℕ → List ℕ → ℕ
big_endian zero memory = 0
big_endian (suc n) memory = get_or memory 0 0 * pow256 n + big_endian n (drop 1 memory)

abbrev until_zero : ℕ → List ℕ → ℕ
until_zero zero memory = 0
until_zero (suc n) memory =
    let more = until_zero n (drop 1 memory) in
    if get_or memory 0 0 == 0 then 0 else get_or memory 0 0 * pow256 n + more

bswap-load_word :
    (n : ℕ) (memory : List ℕ)
    → All IsByte memory
    → bswap n (load_word n memory) ≡ big_endian n memory
unfolding bswap load_word
bswap-load_word zero memory b = refl
bswap-load_word (suc n) [] b =
    let low : (0 + load_word n [] * 256) % 256 ≡ 0 = omega arith in
    let high : (0 + load_word n [] * 256) / 256 ≡ load_word n [] = omega arith in
    rw (low, high) (omega (arith, bswap-load_word n [] tt))
bswap-load_word (suc n) (x ∷ memory) b =
    let low : (x + load_word n memory * 256) % 256 ≡ x = omega arith in
    let high : (x + load_word n memory * 256) / 256 ≡ load_word n memory = omega arith in
    rw (low, high) (omega (arith, bswap-load_word n memory b.1))

until_zero-pack :
    (n : ℕ) (memory : List ℕ) (s : Str) → HoldsString memory s → until_zero n memory ≡ pack n s
until_zero-pack zero memory s h = refl
until_zero-pack (suc n) [] [] h = omega (arith, pack-nil n)
until_zero-pack (suc n) (b ∷ memory) [] h = ground (arith, pack-nil n)
until_zero-pack (suc n) [] (c ∷ s) h = absurd h
until_zero-pack (suc n) (b ∷ memory) (c ∷ s) h = ground (arith, until_zero-pack n memory s h.1)

first-lt : (memory : List ℕ) → All IsByte memory → get_or memory 0 0 < 256
first-lt [] b = omega arith
first-lt (x ∷ memory) b = b.0

All-tail : (memory : List ℕ) → All IsByte memory → All IsByte (drop 1 memory)
All-tail [] b = tt
All-tail (x ∷ memory) b = b.1

big_endian-lt : (n : ℕ) (memory : List ℕ) → All IsByte memory → big_endian n memory < pow256 n
big_endian-lt zero memory bytes = omega arith
big_endian-lt (suc n) memory bytes = omega (
  arith,
  first-lt memory bytes,
  mul-lt (pow256 n) (get_or memory 0 0) 256 (first-lt memory bytes),
  big_endian-lt n (drop 1 memory) (All-tail memory bytes),
)

-- The test of one byte.
zero_test : (k v b : ℕ) → v / pow2 k % 256 ≡ b → (bit_and v (255 * pow2 k) == 0) ≡ (b == 0)
zero_test k v b e = rw (bit_and-byte k v, e) (times b (pow2 k) (pow2-pos k))
  where
    times : (b p : ℕ) → 0 < p → (b * p == 0) ≡ (b == 0)
    times zero p h = grind arith
    times (suc b) (suc p) h = grind arith
    times (suc b) zero h = absurd (omega arith)

-- One test: the sum of the bytes in front stays, or the byte is added to it.
next :
    (b acc p more kept rest : ℕ)
    → (b ≡ 0 → kept ≡ acc)
    → rest ≡ acc + b * p + more
    → (if b == 0 then kept else rest) ≡ acc + (if b == 0 then 0 else b * p + more)
next zero acc p more kept rest h e = h refl ∙ omega arith
next (suc b) acc p more kept rest h e = ground arith

zero_add : (m : ℕ) → 0 + m ≡ m
zero_add m = omega arith

-- The tests of the bytes from byte k down to byte 1, where the first one that holds keeps j bytes.
abbrev clear : ℕ → ℕ → ℕ → ℕ
clear zero j v = v
clear (suc k) j v =
    if bit_and v (255 * pow2 (suc k * 8)) == 0
    then bit_and v ((pow2 (j * 8) - 1) * pow2 (suc k * 8))
    else clear k (suc j) v

-- A byte between the bytes `high` and the n bytes `low`.
middle_byte :
    (n high b low : ℕ)
    → low < pow256 n
    → ((high * 256 + b) * pow256 n + low) / pow2 (n * 8) ≡ high * 256 + b
middle_byte n high b low h =
    let p = pow256 n in
    let divided : ((high * 256 + b) * p + low) / p ≡ low / p + (high * 256 + b) =
      ap (λ (v : ℕ). v / p) (omega arith) ∙ add-mul-div_right low (high * 256 + b) (pow256-pos n) in
    ap (λ (q : ℕ). ((high * 256 + b) * p + low) / q) (pow2-bytes n)
    ∙ omega (arith, divided, div-eq_of_lt h)

clear-until_zero :
    (k j high : ℕ) (memory : List ℕ)
    → All IsByte memory
    → high < pow256 j
    → clear k (suc j) (high * pow256 (suc k) + big_endian (suc k) memory)
      ≡ high * pow256 (suc k) + until_zero (suc k) memory
clear-until_zero zero j high memory bytes h = ground arith
clear-until_zero (suc k) j high memory bytes h =
    let p = pow256 (suc k) in
    let b = get_or memory 0 0 in
    let low = big_endian (suc k) (drop 1 memory) in
    let v = high * pow256 (suc (suc k)) + big_endian (suc (suc k)) memory in
    let small = first-lt memory bytes in
    let grouped : v ≡ (high * 256 + b) * p + low = grind arith in
    let top : v / pow2 (suc k * 8) ≡ high * 256 + b =
      ap (λ (u : ℕ). u / pow2 (suc k * 8)) grouped
      ∙ middle_byte (suc k) high b low
          (big_endian-lt (suc k) (drop 1 memory) (All-tail memory bytes)) in
    let fits : v / pow2 (suc k * 8) < pow2 (suc j * 8) = omega (arith, top, pow2-bytes (suc j)) in
    let kept : bit_and v ((pow2 (suc j * 8) - 1) * pow2 (suc k * 8)) ≡ (high * 256 + b) * p =
      bit_and-high (suc k * 8) (suc j * 8) v fits
      ∙ (ap (λ (u : ℕ). u * pow2 (suc k * 8)) top
          ∙ ap (λ (u : ℕ). (high * 256 + b) * u) (pow2-bytes (suc k))) in
    let further =
      clear-until_zero k (suc j) (high * 256 + b) (drop 1 memory) (All-tail memory bytes)
        (omega arith) in
    let expanded : (high * 256 + b) * p ≡ high * (p * 256) + b * p = grind arith in
    rw (zero_test (suc k * 8) v b (omega (arith, top)), kept)
      (next b (high * (p * 256)) p (until_zero (suc k) (drop 1 memory)) _ _
        (λ none. rw none (grind arith))
        (ap (clear k (suc (suc j))) grouped ∙ (further ∙ omega (arith, expanded))))

-- All tests of a word of k + 2 bytes.
word-until_zero :
    (k : ℕ) (memory : List ℕ)
    → All IsByte memory
    → let v = big_endian (suc (suc k)) memory in
      (if bit_and v (255 * pow2 (suc k * 8)) == 0 then 0 else clear k 2 v)
      ≡ until_zero (suc (suc k)) memory
word-until_zero k memory bytes =
    let p = pow256 (suc k) in
    let b = get_or memory 0 0 in
    let low = big_endian (suc k) (drop 1 memory) in
    let v = big_endian (suc (suc k)) memory in
    let small = first-lt memory bytes in
    let grouped : v ≡ (0 * 256 + b) * p + low = grind arith in
    let top : v / pow2 (suc k * 8) ≡ b =
      ap (λ (u : ℕ). u / pow2 (suc k * 8)) grouped
      ∙ (middle_byte (suc k) 0 b low (big_endian-lt (suc k) (drop 1 memory) (All-tail memory bytes))
          ∙ omega arith) in
    rw (zero_test (suc k * 8) v b (omega (arith, top))) (
      next b 0 p (until_zero (suc k) (drop 1 memory)) _ _ (λ none. refl)
        (clear-until_zero k 1 b (drop 1 memory) (All-tail memory bytes) (omega arith) ∙ omega arith)
      ∙ zero_add _)

clear32 :
    (memory : List ℕ) (depth : ℕ)
    → All IsByte memory
    → get_char_uint32_bswap32 memory depth ≡ until_zero 4 (drop depth memory)
unfolding get_char_uint32_bswap32
clear32 memory depth bytes =
    let below = All-drop IsByte depth memory bytes in
    rw (bswap-load_word 4 (drop depth memory) below) (word-until_zero 2 (drop depth memory) below)

clear64 :
    (memory : List ℕ) (depth : ℕ)
    → All IsByte memory
    → get_char_uint64_bswap64 memory depth ≡ until_zero 8 (drop depth memory)
unfolding get_char_uint64_bswap64
clear64 memory depth bytes =
    let below = All-drop IsByte depth memory bytes in
    rw (bswap-load_word 8 (drop depth memory) below) (word-until_zero 6 (drop depth memory) below)

-- get_char_uint32_bswap32 and get_char<uint32_t>, on memory that holds a string from depth on and
-- then any bytes, return the key of 32 bits that is built byte by byte.
pub get_char_uint32_bswap32-eq-get_key :
    (memory : List ℕ) (s : Str) (depth : ℕ)
    → All IsByte memory
    → IsBytes s
    → HoldsString (drop depth memory) (drop depth s)
    → (get_char_uint32_bswap32 memory depth ≡ get_key uint32 s depth)
      × (get_char_uint32 memory depth ≡ get_key uint32 s depth)
unfolding get_char_uint32
get_char_uint32_bswap32-eq-get_key memory s depth bytes b h =
    let key =
      clear32 memory depth bytes
      ∙ (until_zero-pack 4 (drop depth memory) (drop depth s) h
          ∙ sym (get_key-pack uint32 s depth b)) in
    (key, key)

-- get_char_uint64_bswap64 and get_char<uint64_t>, on memory that holds a string from depth on and
-- then any bytes, return the key of 64 bits that is built byte by byte.
pub get_char_uint64_bswap64-eq-get_key :
    (memory : List ℕ) (s : Str) (depth : ℕ)
    → All IsByte memory
    → IsBytes s
    → HoldsString (drop depth memory) (drop depth s)
    → (get_char_uint64_bswap64 memory depth ≡ get_key uint64 s depth)
      × (get_char_uint64 memory depth ≡ get_key uint64 s depth)
unfolding get_char_uint64
get_char_uint64_bswap64-eq-get_key memory s depth bytes b h =
    let key =
      clear64 memory depth bytes
      ∙ (until_zero-pack 8 (drop depth memory) (drop depth s) h
          ∙ sym (get_key-pack uint64 s depth b)) in
    (key, key)
