-- ===== src/Radix/ByteKey.antt =====
-- The keys of one byte fill the interface of the radix sorts.
use parallel_string_sorting.Prelude.{
  ℕ, suc, ◌+◌, ◌<◌, [], ◌∷◌, Bool, true, false, length, drop, All-drop, ◌≡◌, ◌≢◌, ◌⊎◌, inl, inr,
  refl, arith,
}
use parallel_string_sorting.Strings.{Str, deref}
use parallel_string_sorting.Insertion.Laws.{SuffixLe}
use parallel_string_sorting.Keys.Pack.{IsBytes}
use parallel_string_sorting.Mkqs.{char_at}
use parallel_string_sorting.Mkqs.Order.{SuffixLe-of_lt, SuffixLe-suc, SuffixLe-ended, drop-suc}
use parallel_string_sorting.Radix.Order.{RadixKey}

pub char_at-lt : (d : ℕ) (s : Str) → IsBytes s → char_at d s < 256
char_at-lt d s b = one (drop d s) (All-drop _ d s b)
  where
    one : (t : Str) → IsBytes t → deref t < 256
    one [] b = omega arith
    one (c ∷ t) b = omega (arith, b.0)

pub byte_radix_pos : 0 < 256
byte_radix_pos = omega arith

pub byte_equal :
    (d : ℕ) (s t : Str) → char_at d s ≡ char_at d t → SuffixLe (d + 1) s t → SuffixLe d s t
byte_equal d s t e h = let one : d + 1 ≡ suc d = omega arith in SuffixLe-suc d s t e (rw one at h)

pub byte_ended :
    (d : ℕ) (s t : Str)
    → char_at d s ≡ char_at d t
    → (char_at d s ≡ 0) ⊎ (◌≡◌ {A = Bool} true false)
    → SuffixLe d s t
byte_ended d s t e (inl z) = SuffixLe-ended d s t z
byte_ended d s t e (inr n) = cc

-- A string that has not ended loses a byte.
pub length-drop_one :
    (d : ℕ) (s : Str) → char_at d s ≢ 0 → length (drop (d + 1) s) < length (drop d s)
length-drop_one d s n =
    let one : d + 1 ≡ suc d = omega arith in rw (one, drop-suc d s) (shorter (drop d s) n)
  where
    shorter : (t : Str) → deref t ≢ 0 → length (drop 1 t) < length t
    shorter [] h = absurd (h refl)
    shorter (c ∷ t) h = omega arith

-- The keys of one byte.
abbrev pub byte_key : (d : ℕ) → RadixKey d
byte_key d = record {
  key = char_at d;
  radix = 256;
  step = 1;
  deeper = λ i. true;
  radix_pos = byte_radix_pos;
  key_small = char_at-lt d;
  key_lt = λ s t p q. SuffixLe-of_lt d s t;
  key_equal = λ s t p q. byte_equal d s t;
  key_ended = λ s t p q. byte_ended d s t;
  key_shorter = λ s p n e. length-drop_one d s n;
}
