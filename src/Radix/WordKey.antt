-- ===== src/Radix/WordKey.antt =====
-- The keys of two bytes fill the interface of the radix sorts.
use parallel_string_sorting.Prelude.{
  ℕ, suc, ◌+◌, ◌*◌, ◌%◌, ◌≤◌, ◌<◌, [], ◌∷◌, false, not, ◌==◌, length, drop, All-drop, ◌≡◌, ◌≢◌, ◌⊎◌,
  inl, inr, refl, sym, ap, ◌∙◌, arith,
}
use parallel_string_sorting.Strings.{Str, deref}
use parallel_string_sorting.Insertion.Laws.{SuffixLe}
use parallel_string_sorting.Keys.{get_key, uint16, get_uint16}
use parallel_string_sorting.Keys.Laws.{get_key-pack, get_char_uint16-eq-get_uint16}
use parallel_string_sorting.Keys.Pack.{IsBytes, pack, pack-LexLe}
use parallel_string_sorting.Keys.Words.Masks.{bit_and-byte}
use parallel_string_sorting.Mkqs.{char_at}
use parallel_string_sorting.Mkqs.Order.{SuffixLe-suc, SuffixLe-ended, drop-suc}
use parallel_string_sorting.Radix.{chars_at, goes_on}
use parallel_string_sorting.Radix.ByteKey.{char_at-lt, length-drop_one}
use parallel_string_sorting.Radix.Order.{RadixKey}

get_uint16-pack : (d : ℕ) (s : Str) → IsBytes s → get_uint16 s d ≡ pack 2 (drop d s)
unfolding get_key
get_uint16-pack d s b = get_key-pack uint16 s d b

chars_at-pack : (d : ℕ) (s : Str) → IsBytes s → chars_at d s ≡ pack 2 (drop d s)
chars_at-pack d s b = (get_char_uint16-eq-get_uint16 s d b).1 ∙ get_uint16-pack d s b

-- The two bytes.
chars_at-eq : (d : ℕ) (s : Str) → IsBytes s → chars_at d s ≡ char_at d s * 256 + char_at (suc d) s
chars_at-eq d s b = chars_at-pack d s b ∙ (rw (drop-suc d s) (omega arith))

goes_on-eq : (i : ℕ) → goes_on i ≡ not (i % 256 == 0)
unfolding goes_on
goes_on-eq i = ap (λ (v : ℕ). not (v == 0)) (bit_and-byte 0 i ∙ omega arith)

pub chars_at-lt : (d : ℕ) (s : Str) → IsBytes s → chars_at d s < 65536
chars_at-lt d s b = omega (arith, chars_at-eq d s b, char_at-lt d s b, char_at-lt (suc d) s b)

pub chars_lt :
    (d : ℕ) (s t : Str) → IsBytes s → IsBytes t → chars_at d s < chars_at d t → SuffixLe d s t
chars_lt d s t bs bt h =
    pack-LexLe 2 (drop d s) (drop d t) (All-drop _ d s bs) (All-drop _ d t bt)
      (omega (arith, chars_at-pack d s bs, chars_at-pack d t bt))

-- Equal keys are made of equal bytes.
same_chars :
    (d : ℕ) (s t : Str)
    → IsBytes s
    → IsBytes t
    → chars_at d s ≡ chars_at d t
    → (char_at d s ≡ char_at d t) × (char_at (suc d) s ≡ char_at (suc d) t)
same_chars d s t bs bt e =
    let a = chars_at-eq d s bs in
    let b = chars_at-eq d t bt in
    let c = char_at-lt (suc d) s bs in
    let c' = char_at-lt (suc d) t bt in (omega arith, omega arith)

pub chars_equal :
    (d : ℕ) (s t : Str)
    → IsBytes s
    → IsBytes t
    → chars_at d s ≡ chars_at d t
    → SuffixLe (d + 2) s t
    → SuffixLe d s t
chars_equal d s t bs bt e h =
    let (first, second) = same_chars d s t bs bt e in
    let two : d + 2 ≡ suc (suc d) = omega arith in
    SuffixLe-suc d s t first (SuffixLe-suc (suc d) s t second (rw two at h))

pub chars_ended :
    (d : ℕ) (s t : Str)
    → IsBytes s
    → IsBytes t
    → chars_at d s ≡ chars_at d t
    → (chars_at d s ≡ 0) ⊎ (goes_on (chars_at d s) ≡ false)
    → SuffixLe d s t
chars_ended d s t bs bt e over =
    let (first, second) = same_chars d s t bs bt e in
    let eq = chars_at-eq d s bs in
    let low = char_at-lt (suc d) s bs in
    let end : char_at (suc d) s ≡ 0 = elim over [
      | inl z ↦ omega arith
      | inr n ↦
          let test = sym (goes_on-eq (chars_at d s)) ∙ n in
          let zero_byte : chars_at d s % 256 ≡ 0 = ground (arith, test) in omega arith
    ] in
    SuffixLe-suc d s t first (SuffixLe-ended (suc d) s t end)

length-drop_two : (d : ℕ) (s : Str) → length (drop (d + 2) s) ≤ length (drop (d + 1) s)
length-drop_two d s =
    let two : d + 2 ≡ suc (suc d) = omega arith in
    let one : d + 1 ≡ suc d = omega arith in
    rw (two, one, drop-suc (suc d) s) (no_longer (drop (suc d) s))
  where
    no_longer : (t : Str) → length (drop 1 t) ≤ length t
    no_longer [] = omega arith
    no_longer (c ∷ t) = omega arith

-- Behind a terminator no byte follows.
ended_stays : (d : ℕ) (s : Str) → char_at d s ≡ 0 → char_at (suc d) s ≡ 0
ended_stays d s e = ap deref (drop-suc d s) ∙ behind (drop d s) e
  where
    behind : (t : Str) → deref t ≡ 0 → deref (drop 1 t) ≡ 0
    behind [] e = refl
    behind (c ∷ t) e = absurd (omega arith)

pub chars_shorter :
    (d : ℕ) (s : Str) → IsBytes s → chars_at d s ≢ 0 → length (drop (d + 2) s) < length (drop d s)
chars_shorter d s b n =
    let on : char_at d s ≢ 0 = λ z. n (omega (arith, chars_at-eq d s b, ended_stays d s z)) in
    omega (arith, length-drop_one d s on, length-drop_two d s)

pub word_radix_pos : 0 < 65536
word_radix_pos = omega arith

-- The keys of two bytes.
abbrev pub word_key : (d : ℕ) → RadixKey d
word_key d = record {
  key = chars_at d;
  radix = 65536;
  step = 2;
  deeper = goes_on;
  radix_pos = word_radix_pos;
  key_small = chars_at-lt d;
  key_lt = chars_lt d;
  key_equal = chars_equal d;
  key_ended = chars_ended d;
  key_shorter = λ s b n e. chars_shorter d s b n;
}
