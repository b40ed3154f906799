-- ===== src/Keys/Words/Masks.antt =====
-- "And" with the masks of one byte and of all bytes from one on.
use native.Mathlib.Nat.{mod-lt, div-add-mod'}
use parallel_string_sorting.Prelude.{
  ℕ, zero, suc, ◌+◌, ◌-◌, ◌*◌, ◌/◌, ◌%◌, ◌<◌, ◌≤◌, ◌≡◌, refl, sym, ap, ◌∙◌, arith, pow2, bit_and,
  bit_and-split,
}

pub pow2-pos : (k : ℕ) → 0 < pow2 k
pow2-pos zero = omega arith
pow2-pos (suc k) = omega (arith, pow2-pos k)

digit-and-zero : (b : ℕ) → b < 2 → bit_and b 0 ≡ 0
digit-and-zero zero h = refl
digit-and-zero (suc zero) h = refl
digit-and-zero (suc (suc b)) h = absurd (omega arith)

digit-and-one : (b : ℕ) → b < 2 → bit_and b 1 ≡ b
digit-and-one zero h = refl
digit-and-one (suc zero) h = refl
digit-and-one (suc (suc b)) h = absurd (omega arith)

halves : (a : ℕ) → a ≡ a / 2 * 2 + a % 2
halves a = omega arith

bit_and-zero_fuel : (n a : ℕ) → a ≤ n → bit_and a 0 ≡ 0
bit_and-zero_fuel zero zero h = refl
bit_and-zero_fuel zero (suc a) h = absurd (omega arith)
bit_and-zero_fuel (suc n) a h =
    ap (λ (v : ℕ). bit_and v 0) (halves a)
    ∙ (bit_and-split 1 (a / 2) (a % 2) 0 0 (omega arith) (omega arith)
        ∙ omega (
          arith,
          bit_and-zero_fuel n (a / 2) (omega arith),
          digit-and-zero (a % 2) (omega arith),
        ))

pub bit_and-zero : (a : ℕ) → bit_and a 0 ≡ 0
bit_and-zero a = bit_and-zero_fuel a a (omega arith)

-- Ones keep the digits.
pub bit_and-ones : (k a : ℕ) → a < pow2 k → bit_and a (pow2 k - 1) ≡ a
bit_and-ones zero zero h = refl
bit_and-ones zero (suc a) h = absurd (omega arith)
bit_and-ones (suc k) a h =
    let mask : pow2 k * 2 - 1 ≡ (pow2 k - 1) * 2 + 1 = omega (arith, pow2-pos k) in
    ap (λ (v : ℕ). bit_and v (pow2 k * 2 - 1)) (halves a)
    ∙ (ap (λ (m : ℕ). bit_and (a / 2 * 2 + a % 2) m) mask
        ∙ (bit_and-split 1 (a / 2) (a % 2) (pow2 k - 1) 1 (omega arith) (omega arith)
            ∙ omega
                (arith, bit_and-ones k (a / 2) (omega arith), digit-and-one (a % 2) (omega arith))))

-- A mask that ends in k zeros keeps what it keeps of the digits in front.
bit_and-shifted : (k v m : ℕ) → bit_and v (m * pow2 k) ≡ bit_and (v / pow2 k) m * pow2 k
bit_and-shifted k v m =
    let p = pow2 k in
    let below : v % p < p = mod-lt v (pow2-pos k) in
    let padded : m * p ≡ m * p + 0 = omega arith in
    ap (λ (u : ℕ). bit_and u (m * p)) (sym (div-add-mod' v p))
    ∙ (ap (λ (u : ℕ). bit_and (v / p * p + v % p) u) padded
        ∙ (bit_and-split k (v / p) (v % p) m 0 below (pow2-pos k)
            ∙ omega (arith, bit_and-zero (v % p))))

-- The mask of the byte that starts at digit k.
pub bit_and-byte : (k v : ℕ) → bit_and v (255 * pow2 k) ≡ v / pow2 k % 256 * pow2 k
bit_and-byte k v =
    let w = v / pow2 k in
    let bytes : w ≡ w / 256 * 256 + w % 256 = omega arith in
    let low : bit_and w 255 ≡ w % 256 =
      ap (λ (u : ℕ). bit_and u 255) bytes
      ∙ (bit_and-split 8 (w / 256) (w % 256) 0 255 (omega arith) (omega arith)
          ∙ omega (arith, bit_and-zero (w / 256), bit_and-ones 8 (w % 256) (omega arith))) in
    bit_and-shifted k v 255 ∙ ap (λ (u : ℕ). u * pow2 k) low

-- The mask of the j digits from digit k on.
pub bit_and-high :
    (k j v : ℕ) → v / pow2 k < pow2 j → bit_and v ((pow2 j - 1) * pow2 k) ≡ v / pow2 k * pow2 k
bit_and-high k j v h =
    bit_and-shifted k v (pow2 j - 1) ∙ ap (λ (u : ℕ). u * pow2 k) (bit_and-ones j (v / pow2 k) h)
