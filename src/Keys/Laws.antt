-- ===== src/Keys/Laws.antt =====
-- Packed keys are the first bytes of a string as a number, and order strings by these bytes.
use native.Mathlib.Nat.{mod-eq_of_lt}
use parallel_string_sorting.Prelude.{
  ℕ, zero, suc, ◌+◌, ◌*◌, ◌<◌, ◌≤◌, [], ◌∷◌, false, ◌==◌, drop, All-drop, ◌≡◌, refl, sym, ◌∙◌, ◌⊎◌,
  inl, inr, arith, pow2, shl, bit_or, bit_or-add,
}
use parallel_string_sorting.Strings.{Str, deref, lcp, LexLe}
use parallel_string_sorting.Strings.Lcp.{lcp-drop, lex_le-drop}
use parallel_string_sorting.StringSet.{is_end, get_chars}
use parallel_string_sorting.Keys.{
  append_chars, load_chars, KeyType, uint8, uint16, uint32, uint64, get_key, get_char_uint8_simple,
  get_char_uint16_simple, get_char_uint32_simple, get_char_uint64_simple, get_uint8, get_uint16,
  get_uint32, get_uint64, get_char_uint8, get_char_uint16, get_char_uint128,
}
use parallel_string_sorting.Keys.Pack.{
  IsBytes, pow256, pow256-pos, mul-lt, pack, pack-nil, pack-LexLe, pack-eq,
}

pub pow2-bytes : (n : ℕ) → pow2 (n * 8) ≡ pow256 n
pow2-bytes zero = refl
pow2-bytes (suc n) = rw (times n) (omega (arith, pow2-bytes n))
  where
    times : (n : ℕ) → suc n * 8 ≡ suc (suc (suc (suc (suc (suc (suc (suc (n * 8))))))))
    times n = omega arith

byte-lt : (n c : ℕ) → c < 256 → c * pow256 n < pow256 (suc n)
byte-lt n c b = omega (arith, mul-lt (pow256 n) c 256 b, pow256-pos n)

-- A byte that is shifted to its place, and one that is or'ed to the bytes before.
shl-byte : (w n c : ℕ) → c < 256 → pow256 (suc n) ≤ pow2 w → shl w c (n * 8) ≡ c * pow256 n
shl-byte w n c b h = rw (pow2-bytes n) (mod-eq_of_lt (omega (arith, byte-lt n c b)))

or-byte :
    (n a c : ℕ) → c < 256 → bit_or (a * pow256 (suc n)) (c * pow256 n) ≡ (a * 256 + c) * pow256 n
or-byte n a c b =
    let place : pow2 (suc n * 8) ≡ pow256 (suc n) = pow2-bytes (suc n) in
    let below : c * pow256 n < pow2 (suc n * 8) = omega (arith, place, byte-lt n c b) in
    rw place at (bit_or-add (suc n * 8) a (c * pow256 n) below) ∙ regroup (pow256 n)
  where
    regroup : (p : ℕ) → a * (p * 256) + c * p ≡ (a * 256 + c) * p
    regroup p = grind arith

suc-ne : (c : ℕ) → (suc c == 0) ≡ false
suc-ne c = ground arith

deref-lt : (s : Str) → IsBytes s → deref s < 256
deref-lt [] b = omega arith
deref-lt (c ∷ s) b = omega arith

append_chars-eq :
    (w n : ℕ) (s : Str) (a : ℕ)
    → IsBytes s
    → pow256 n ≤ pow2 w
    → append_chars w n s (a * pow256 n) ≡ a * pow256 n + pack n s
unfolding append_chars is_end
append_chars-eq w zero s a b h = omega arith
append_chars-eq w (suc n) [] a b h = omega (arith, pack-nil n)
append_chars-eq w (suc n) (c ∷ s) a b h =
    rw (shl-byte w n (suc c) (omega arith) h, or-byte n a (suc c) (omega arith), suc-ne c)
      (append_chars-eq w n s (a * 256 + suc c) b.1 (omega arith) ∙ regroup (pow256 n) (pack n s))
  where
    regroup : (p k : ℕ) → (a * 256 + suc c) * p + k ≡ a * (p * 256) + (suc c * p + k)
    regroup p k = grind arith

zero_add : (m : ℕ) → 0 + m ≡ m
zero_add m = omega arith

-- The last byte needs no test: a terminator adds nothing.
load_chars-eq-append_chars :
    (w n : ℕ) (s : Str) (a : ℕ)
    → IsBytes s
    → pow256 n ≤ pow2 w
    → load_chars w n s (a * pow256 n) ≡ append_chars w n s (a * pow256 n)
unfolding load_chars append_chars is_end
load_chars-eq-append_chars w zero s a b h = refl
load_chars-eq-append_chars w (suc zero) [] a b h =
    rw (shl-byte w 0 0 (omega arith) h, or-byte 0 a 0 (omega arith)) (omega arith)
load_chars-eq-append_chars w (suc zero) (c ∷ s) a b h = rw (suc-ne c) refl
load_chars-eq-append_chars w (suc (suc n)) [] a b h = refl
load_chars-eq-append_chars w (suc (suc n)) (c ∷ s) a b h =
    rw
      (
        shl-byte w (suc n) (suc c) (omega arith) h,
        or-byte (suc n) a (suc c) (omega arith),
        suc-ne c,
      )
      (load_chars-eq-append_chars w (suc n) s (a * 256 + suc c) b.1 (omega arith))

-- The bytes of a key.
abbrev pub key_size : KeyType → ℕ
key_size uint8 = 1
key_size uint16 = 2
key_size uint32 = 4
key_size uint64 = 8

-- A key is the number of the bytes from depth on.
pub get_key-pack :
    (ty : KeyType) (s : Str) (depth : ℕ)
    → IsBytes s
    → get_key ty s depth ≡ pack (key_size ty) (drop depth s)
unfolding get_key get_uint8 get_uint16 get_uint32 get_uint64 get_char_uint8_simple
    get_char_uint16_simple get_char_uint32_simple get_char_uint64_simple get_chars is_end
get_key-pack uint8 s depth b =
    ground (arith, deref-lt (drop depth s) (All-drop (λ c. c < 255) depth s b))
get_key-pack uint16 s depth b =
    append_chars-eq 16 2 (drop depth s) 0 (All-drop (λ c. c < 255) depth s b) (omega arith)
    ∙ zero_add _
get_key-pack uint32 s depth b =
    append_chars-eq 32 4 (drop depth s) 0 (All-drop (λ c. c < 255) depth s b) (omega arith)
    ∙ zero_add _
get_key-pack uint64 s depth b =
    append_chars-eq 64 8 (drop depth s) 0 (All-drop (λ c. c < 255) depth s b) (omega arith)
    ∙ zero_add _

-- Strings are equal if they are equal from a common prefix on.
drop-injective : (d : ℕ) (s t : Str) → d ≤ lcp s t → drop d s ≡ drop d t → s ≡ t
unfolding lcp
drop-injective zero s t h e = e
drop-injective (suc d) [] [] h e = refl
drop-injective (suc d) [] (y ∷ t) h e = absurd (omega arith)
drop-injective (suc d) (x ∷ s) [] h e = absurd (omega arith)
drop-injective (suc d) (x ∷ s) (y ∷ t) h e = ground (arith, drop-injective d s t)

-- Of two strings that share the bytes in front of depth, the one with the smaller key at depth is not
-- the greater one; strings with equal keys are equal, or share the bytes of the key as well.
pub get_key-order :
    (ty : KeyType) (s t : Str) (depth : ℕ)
    → IsBytes s
    → IsBytes t
    → depth ≤ lcp s t
    → (get_key ty s depth < get_key ty t depth → LexLe s t)
      × (get_key ty s depth ≡ get_key ty t depth → (s ≡ t) ⊎ (key_size ty + depth ≤ lcp s t))
get_key-order ty s t depth bs bt h =
    let n = key_size ty in
    let s' = drop depth s in
    let t' = drop depth t in
    let bs' = All-drop (λ c. c < 255) depth s bs in
    let bt' = All-drop (λ c. c < 255) depth t bt in
    rw (get_key-pack ty s depth bs, get_key-pack ty t depth bt)
      (
        λ lt. sym (lex_le-drop depth s t h) ∙ pack-LexLe n s' t' bs' bt' lt,
        λ e. elim (pack-eq n s' t' bs' bt' e) [
          | inl same ↦ inl (drop-injective depth s t h same)
          | inr shared ↦ inr (omega (arith, lcp-drop depth s t h))
        ],
      )

-- get_char of stringtools.hpp reads the keys of 8 and of 16 bits that the string set reads.
pub get_char_uint16-eq-get_uint16 :
    (s : Str) (depth : ℕ)
    → IsBytes s
    → (get_char_uint8 s depth ≡ get_uint8 s depth) × (get_char_uint16 s depth ≡ get_uint16 s depth)
unfolding get_char_uint8 get_char_uint16 get_uint8 get_uint16 get_char_uint8_simple
    get_char_uint16_simple get_chars is_end
get_char_uint16-eq-get_uint16 s depth b = (
  ground arith,
  load_chars-eq-append_chars 16 2 (drop depth s) 0 (All-drop (λ c. c < 255) depth s b)
      (omega arith),
)

-- The key of 128 bits is the number of the 16 bytes from depth on, zeros behind the end.
pub get_char_uint128-pack :
    (s : Str) (depth : ℕ) → IsBytes s → get_char_uint128 s depth ≡ pack 16 (drop depth s)
unfolding get_char_uint128
get_char_uint128-pack s depth b =
    let bs = All-drop (λ c. c < 255) depth s b in
    load_chars-eq-append_chars 128 16 (drop depth s) 0 bs (omega arith)
    ∙ (append_chars-eq 128 16 (drop depth s) 0 bs (omega arith) ∙ zero_add _)
