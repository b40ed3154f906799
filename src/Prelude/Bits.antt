-- ===== src/Prelude/Bits.antt =====
-- The native operations on binary digits, on numbers that are split at a digit.
use Prim.Native.Nat.{
  ℕ, zero, suc, ◌+◌, ◌-◌, ◌*◌, ◌/◌, ◌%◌, ◌≤◌, ◌<◌, min, max, digits, bitwise, bit_and, bit_or,
  bit_and-bitwise, bit_or-bitwise,
}
use mathlib.Core.Path.{◌≡◌, refl, ap, ◌∙◌}
use native.Mathlib.Omega.{arith}

-- 2^k
abbrev pub pow2 : ℕ → ℕ
pow2 zero = 1
pow2 (suc k) = pow2 k * 2

-- `c << k` in w bits.
abbrev pub shl : ℕ → ℕ → ℕ → ℕ
shl w c k = (c * pow2 k) % pow2 w

module _ (z : ℕ → ℕ) (f : ℕ → ℕ → ℕ) (step : (b : ℕ) → z b ≡ z (b / 2) * 2 + f 0 (b % 2)) where
  -- A count of digits that is enough may be raised by one, and so by any number.
  one_more : (a count b : ℕ) → a ≤ count → digits z f (suc count) a b ≡ digits z f count a b
  one_more zero zero b h = refl
  one_more zero (suc count) b h = refl
  one_more (suc a) zero b h = absurd (omega arith)
  one_more (suc a) (suc count) b h =
      ap (λ (v : ℕ). v * 2 + f (suc a % 2) (b % 2))
        (one_more (suc a / 2) count (b / 2) (omega arith))

  raise : (extra a count b : ℕ) → count ≡ extra + a → digits z f count a b ≡ bitwise z f a b
  raise zero a count b e = ap (λ (m : ℕ). digits z f m a b) (omega arith)
  raise (suc extra) a zero b e = absurd (omega arith)
  raise (suc extra) a (suc count) b e =
      one_more a count b (omega arith) ∙ raise extra a count b (omega arith)

  -- The lowest digit.
  bitwise_step : (a b : ℕ) → bitwise z f a b ≡ bitwise z f (a / 2) (b / 2) * 2 + f (a % 2) (b % 2)
  bitwise_step zero b = step b
  bitwise_step (suc a) b =
      let half = suc a / 2 in
      ap (λ (v : ℕ). v * 2 + f (suc a % 2) (b % 2)) (raise (a - half) half a (b / 2) (omega arith))

  -- The k lowest digits.
  bitwise_split :
      z 0 ≡ 0
      → (k a b c d : ℕ) → b < pow2 k
      → d < pow2 k
      → bitwise z f (a * pow2 k + b) (c * pow2 k + d) ≡ bitwise z f a c * pow2 k + bitwise z f b d
  bitwise_split e zero a b c d p q =
      let b0 : b ≡ 0 = omega arith in
      let d0 : d ≡ 0 = omega arith in
      let a1 : a * 1 + 0 ≡ a = omega arith in
      let c1 : c * 1 + 0 ≡ c = omega arith in rw (b0, d0, a1, c1, e) (omega arith)
  bitwise_split e (suc k) a b c d p q =
      let m = pow2 k in
      let ma : a * (m * 2) ≡ (a * m) * 2 = grind arith in
      let mc : c * (m * 2) ≡ (c * m) * 2 = grind arith in
      let xa : (a * (m * 2) + b) / 2 ≡ a * m + b / 2 = omega arith in
      let xc : (c * (m * 2) + d) / 2 ≡ c * m + d / 2 = omega arith in
      let ya : (a * (m * 2) + b) % 2 ≡ b % 2 = omega arith in
      let yc : (c * (m * 2) + d) % 2 ≡ d % 2 = omega arith in
      let halves = bitwise_split e k a (b / 2) c (d / 2) (omega arith) (omega arith) in
      bitwise_step (a * (m * 2) + b) (c * (m * 2) + d)
      ∙ rw (xa, xc, ya, yc, halves) (combine (bitwise z f a c) m _ _ _ (bitwise_step b d))
    where
      combine : (v m w r t : ℕ) → t ≡ w * 2 + r → (v * m + w) * 2 + r ≡ v * (m * 2) + t
      combine v m w r t e = grind arith

max-zero : (b : ℕ) → b ≡ b / 2 * 2 + max 0 (b % 2)
max-zero b = grind arith

-- Both are computed apart on the digits in front of the k lowest and on these.
pub bit_and-split :
    (k a b c d : ℕ)
    → b < pow2 k
    → d < pow2 k
    → bit_and (a * pow2 k + b) (c * pow2 k + d) ≡ bit_and a c * pow2 k + bit_and b d
bit_and-split k a b c d p q =
    rw (bit_and-bitwise (a * pow2 k + b) (c * pow2 k + d), bit_and-bitwise a c, bit_and-bitwise b d)
      (bitwise_split (λ b. zero) min (λ b. omega arith) refl k a b c d p q)

or-zero : (n a : ℕ) → a ≤ n → digits (λ b. b) max n a 0 ≡ a
or-zero zero zero p = refl
or-zero zero (suc a) p = absurd (omega arith)
or-zero (suc n) zero p = refl
or-zero (suc n) (suc a) p = grind (arith, or-zero n (suc a / 2) (omega arith))

-- Where the first number ends in zeros, "or" is a sum.
pub bit_or-add : (k a b : ℕ) → b < pow2 k → bit_or (a * pow2 k) b ≡ a * pow2 k + b
bit_or-add k a b p =
    let split = bitwise_split (λ b. b) max max-zero refl k a 0 0 b (omega arith) p in
    let e1 : a * pow2 k + 0 ≡ a * pow2 k = omega arith in
    let e2 : 0 * pow2 k + b ≡ b = omega arith in
    bit_or-bitwise (a * pow2 k) b
    ∙ (rw (e1, e2) at split ∙ ap (λ (v : ℕ). v * pow2 k + b) (or-zero a a (omega arith)))

-- A power above all bits of a number.
pub bit_or-add_high : (k b : ℕ) → b < pow2 k → bit_or b (pow2 k) ≡ pow2 k + b
bit_or-add_high k b p =
    let split = bitwise_split (λ b. b) max max-zero refl k 0 b 1 0 p (omega arith) in
    let e1 : 0 * pow2 k + b ≡ b = omega arith in
    let e2 : 1 * pow2 k + 0 ≡ pow2 k = omega arith in
    bit_or-bitwise b (pow2 k) ∙ (rw (e1, e2) at split ∙ omega (arith, or-zero b b (omega arith)))
