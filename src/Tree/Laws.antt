-- ===== src/Tree/Laws.antt =====
-- The two orders of the nodes of a tree are inverse, and the ranges cover what they split.
use parallel_string_sorting.Prelude.{
  ℕ, zero, suc, ◌+◌, ◌-◌, ◌*◌, ◌/◌, ◌%◌, ◌<◌, ◌≤◌, List, [], ◌∷◌, true, ◌==◌, ltb, bit_and, bit_or,
  pow2, shl, length, get_or, Bool-cases, inl, inr, ltb→lt, ◌≡◌, refl, ap, ◌∙◌, arith, bit_or-add,
  bit_or-add_high, bit_and-split,
}
use native.Mathlib.Nat.{div-add-mod', mul_comm, mod-eq_of_lt, add-mul-div_right, div-eq_of_lt}
use parallel_string_sorting.Keys.Pack.{mul-le, mul-lt}
use parallel_string_sorting.Keys.Words.Masks.{pow2-pos, bit_and-ones, bit_and-zero}
use parallel_string_sorting.Tree.{
  bit_length, trailing_zeros, count_high_zero_bits, count_low_zero_bits, numnodes,
  level_to_preorder, pre_to_levelorder, self_verify, Range, split_ranges, calculate_ranges,
}

bit_length-pow2 : (m bits r : ℕ) → r < pow2 m → m < bits → bit_length bits (pow2 m + r) ≡ suc m
unfolding bit_length
bit_length-pow2 m zero r h k = absurd (omega arith)
bit_length-pow2 zero (suc zero) r h k = ground arith
bit_length-pow2 zero (suc (suc bits)) r h k = ground arith
bit_length-pow2 (suc m) (suc bits) r h k =
    let half : (pow2 m * 2 + r) / 2 ≡ pow2 m + r / 2 = omega arith in
    rw half (ground (arith, pow2-pos m, bit_length-pow2 m bits (r / 2) (omega arith) (omega arith)))

trailing_zeros-pow2 :
    (h bits r : ℕ) → h < bits → trailing_zeros bits (r * (pow2 h * 2) + pow2 h) ≡ h
unfolding trailing_zeros
trailing_zeros-pow2 h zero r k = absurd (omega arith)
trailing_zeros-pow2 zero (suc bits) r k = ground arith
trailing_zeros-pow2 (suc h) (suc bits) r k =
    let p = pow2 h in
    let double : r * (p * 2 * 2) + p * 2 ≡ (r * (p * 2) + p) * 2 = grind arith in
    let half : (r * (p * 2) + p) * 2 / 2 ≡ r * (p * 2) + p = omega arith in
    let even : (r * (p * 2) + p) * 2 % 2 ≡ 0 = omega arith in
    rw (double, half, even) (ap suc (trailing_zeros-pow2 h bits r (omega arith)))

pow2-add : (h m : ℕ) → pow2 (h + m) ≡ pow2 h * pow2 m
pow2-add zero m = let e : 0 + m ≡ m = omega arith in rw e (omega arith)
pow2-add (suc h) m =
    let e : suc h + m ≡ suc (h + m) = omega arith in rw (e, pow2-add h m) (grind arith)

pow2-le : (extra m : ℕ) → pow2 m ≤ pow2 (extra + m)
pow2-le zero m = let e : 0 + m ≡ m = omega arith in rw e (omega arith)
pow2-le (suc extra) m =
    let e : suc extra + m ≡ suc (extra + m) = omega arith in rw e (omega (arith, pow2-le extra m))

pow2_mono : (m n : ℕ) → m ≤ n → pow2 m ≤ pow2 n
pow2_mono m n h = let e : n - m + m ≡ n = omega arith in rw e at (pow2-le (n - m) m)

shl-small : (c k : ℕ) → c * pow2 k < pow2 32 → shl 32 c k ≡ c * pow2 k
shl-small c k h = mod-eq_of_lt h

-- The bits below the k-th one.
low_bits : (k a b : ℕ) → b < pow2 k → bit_and (a * pow2 k + b) (numnodes k) ≡ b
low_bits k a b h =
    let mask : numnodes k ≡ 0 * pow2 k + (pow2 k - 1) = omega arith in
    ap (λ (v : ℕ). bit_and (a * pow2 k + b) v) mask
    ∙ (bit_and-split k a b 0 (pow2 k - 1) h (omega (arith, pow2-pos k))
        ∙ rw (bit_and-zero a, bit_and-ones k b h) (omega arith))

-- A product of powers that are within 32 bits.
word_lt : (c k n : ℕ) → c < pow2 n → n + k ≤ 32 → c * pow2 k < pow2 32
word_lt c k n h fits =
    omega (arith, mul-lt (pow2 k) c (pow2 n) h, pow2-pos k, pow2-add n k, pow2_mono (n + k) 32 fits)

-- The node r of level m of a tree of h + 1 + m levels, in both orders.
level_to_preorder-eq :
    (h m r : ℕ)
    → r < pow2 m
    → suc h + m ≤ 30
    → level_to_preorder (suc h + m) (pow2 m + r) ≡ r * pow2 (suc h) + pow2 h
unfolding level_to_preorder count_high_zero_bits
level_to_preorder-eq h m r below small =
    let k = suc h + m in
    let id = pow2 m + r in
    let p = pow2 (suc h) in
    let hi : k + count_high_zero_bits 32 id - 32 ≡ h =
      ground (arith, pow2-pos m, bit_length-pow2 m 32 r below (omega arith)) in
    let next : h + 1 ≡ suc h = omega arith in
    let node : id * p ≡ 1 * pow2 k + r * p = grind (arith, pow2-add (suc h) m) in
    let below_root : r * p < pow2 k =
      omega (arith, mul-lt p r (pow2 m) below, pow2-pos (suc h), pow2-add m (suc h), pow2-comm) in
    let shifted : shl 32 id (suc h) ≡ 1 * pow2 k + r * p =
      shl-small id (suc h) (word_lt id (suc h) (suc m) (omega arith) (omega arith)) ∙ node in
    let one : shl 32 1 h ≡ pow2 h =
      shl-small 1 h (word_lt 1 h 1 (omega arith) (omega arith)) ∙ omega arith in
    ap (λ (v : ℕ). bit_or (bit_and (shl 32 id (v + 1)) (numnodes k)) (shl 32 1 v)) hi
    ∙ (ap (λ (v : ℕ). bit_or (bit_and (shl 32 id v) (numnodes k)) (shl 32 1 h)) next
        ∙ (ap (λ (v : ℕ). bit_or (bit_and v (numnodes k)) (shl 32 1 h)) shifted
            ∙ (ap (λ (v : ℕ). bit_or v (shl 32 1 h)) (low_bits k 1 (r * p) below_root)
                ∙ (ap (λ (v : ℕ). bit_or (r * p) v) one
                    ∙ bit_or-add (suc h) r (pow2 h) (omega (arith, pow2-pos h))))))
  where
    pow2-comm : pow2 (m + suc h) ≡ pow2 (suc h + m)
    pow2-comm = ap pow2 (omega arith)

count_low_zero_bits-pos : (w t : ℕ) → 0 < t → count_low_zero_bits w t ≡ trailing_zeros w t
unfolding count_low_zero_bits
count_low_zero_bits-pos w t h = ground arith

pre_to_levelorder-eq :
    (h m r : ℕ)
    → r < pow2 m
    → suc h + m ≤ 30
    → pre_to_levelorder (suc h + m) (r * pow2 (suc h) + pow2 h) ≡ pow2 m + r
unfolding pre_to_levelorder
pre_to_levelorder-eq h m r below small =
    let k = suc h + m in
    let p = pow2 (suc h) in
    let id = r * p + pow2 h in
    let lo : count_low_zero_bits 32 id + 1 ≡ suc h = omega (
      arith,
      count_low_zero_bits-pos 32 id (omega (arith, pow2-pos h)),
      trailing_zeros-pow2 h 32 r (omega arith),
    ) in
    let quotient : (pow2 h + r * p) / p ≡ pow2 h / p + r =
      add-mul-div_right (pow2 h) r (pow2-pos (suc h)) in
    let none : pow2 h / p ≡ 0 = div-eq_of_lt (omega (arith, pow2-pos h)) in
    let swap : id ≡ pow2 h + r * p = omega arith in
    let node : id / p ≡ r = ap (λ (v : ℕ). v / p) swap ∙ omega (arith, quotient, none) in
    let rest : k - suc h ≡ m = omega arith in
    let one : shl 32 1 m ≡ pow2 m =
      shl-small 1 m (word_lt 1 m 1 (omega arith) (omega arith)) ∙ omega arith in
    let low : bit_and r (numnodes k) ≡ r =
      bit_and-ones k r (omega (arith, pow2_mono m k (omega arith))) in
    ap (λ (v : ℕ). bit_or (bit_and (id / pow2 v) (numnodes k)) (shl 32 1 (k - v))) lo
    ∙ (ap (λ (v : ℕ). bit_or (bit_and v (numnodes k)) (shl 32 1 (k - suc h))) node
        ∙ (ap (λ (v : ℕ). bit_or v (shl 32 1 (k - suc h))) low
            ∙ (ap (λ (v : ℕ). bit_or r (shl 32 1 v)) rest
                ∙ (ap (λ (v : ℕ). bit_or r v) one ∙ bit_or-add_high m r below))))

-- Every node but none is on a level.
node_level :
    (bits id : ℕ)
    → 0 < id
    → id < pow2 bits
    → (h : ℕ) × (m : ℕ) × (r : ℕ) × (bits ≡ suc h + m) × (id ≡ pow2 m + r) × (r < pow2 m)
node_level zero id pos small = absurd (omega arith)
node_level (suc bits) id pos small = elim (Bool-cases (ltb id (pow2 bits))) [
  | inl lower ↦
      let (h, m, r, levels, node, below) = node_level bits id pos (ltb→lt id (pow2 bits) lower) in
      (suc h, m, r, omega arith, node, below)
  | inr last ↦
      let above : pow2 bits ≤ id = ground arith in
      (0, bits, id - pow2 bits, omega arith, omega arith, omega arith)
]

-- In a tree of up to 30 levels, a node from 1 on that is put in in-order and back is itself again.
pub pre_to_levelorder-level_to_preorder :
    (treebits id : ℕ)
    → treebits ≤ 30
    → 0 < id
    → id ≤ numnodes treebits
    → pre_to_levelorder treebits (level_to_preorder treebits id) ≡ id
pre_to_levelorder-level_to_preorder treebits id small pos le =
    let (h, m, r, levels, node, below) =
      node_level treebits id pos (omega (arith, pow2-pos treebits)) in
    rw (levels, node)
      (ap (pre_to_levelorder (suc h + m)) (level_to_preorder-eq h m r below (omega arith))
        ∙ pre_to_levelorder-eq h m r below (omega arith))

-- The ranges that are left from index i on start where the ranges before end, follow each other, and
-- end at the length.
abbrev pub Covers : ℕ → ℕ → List Range → Type 0
Covers from upto [] = from ≡ upto
Covers from upto (r ∷ rs) = (r.start ≡ from) × Covers (from + r.size) upto rs

split_ranges-Covers :
    (split n left i : ℕ)
    → (i + left) * split ≤ n
    → Covers (i * split) n (split_ranges split n left i)
unfolding split_ranges
split_ranges-Covers split n zero i h =
    let zero_add : i + 0 ≡ i = omega arith in
    let fits : i * split ≤ n = rw zero_add at h in (refl, omega arith)
split_ranges-Covers split n (suc left) i h =
    let next : suc i * split ≡ i * split + split = grind arith in
    let shifted : suc i + left ≡ i + suc left = omega arith in
    let rest = split_ranges-Covers split n left (suc i) (rw shifted h) in (refl, rw next at rest)

length-split_ranges : (split n left i : ℕ) → length (split_ranges split n left i) ≡ suc left
unfolding split_ranges
length-split_ranges split n zero i = refl
length-split_ranges split n (suc left) i = ap suc (length-split_ranges split n left (suc i))

abbrev pub no_range : Range
no_range = record { start = 0; size = 0 }

abbrev range_at : ℕ → ℕ → Range
range_at start size = record { start = start; size = size }

get_or-split_ranges :
    (split n left i k : ℕ)
    → k < left
    → get_or (split_ranges split n left i) k no_range
      ≡ record { start = (i + k) * split; size = split }
unfolding split_ranges
get_or-split_ranges split n zero i k h = absurd (omega arith)
get_or-split_ranges split n (suc left) i zero h =
    let e : i ≡ i + 0 = omega arith in ap (λ (m : ℕ). range_at (m * split) split) e
get_or-split_ranges split n (suc left) i (suc k) h =
    let e : suc i + k ≡ i + suc k = omega arith in
    rw e at (get_or-split_ranges split n left (suc i) k (omega arith))

-- calculateRanges splits a length, into n parts for n from 1 on, into n ranges that follow each
-- other from 0 to the length; all but the last have the length divided by n as their size.
pub calculate_ranges-Covers :
    (number_of_splits length_to_split : ℕ)
    → 0 < number_of_splits
    → let ranges = calculate_ranges number_of_splits length_to_split in
      Covers 0 length_to_split ranges
      × (length ranges ≡ number_of_splits)
      × ((k : ℕ)
          → suc k < number_of_splits
          → (get_or ranges k no_range).size ≡ length_to_split / number_of_splits)
unfolding calculate_ranges
calculate_ranges-Covers number_of_splits n p =
    let all : 0 + (number_of_splits - 1) ≡ number_of_splits - 1 = omega arith in
    let parts =
      mul-le (n / number_of_splits) (number_of_splits - 1) number_of_splits (omega arith) in
    let whole = div-add-mod' n number_of_splits in
    let fits : (0 + (number_of_splits - 1)) * (n / number_of_splits) ≤ n =
      rw all (omega (arith, parts, whole, mul_comm number_of_splits (n / number_of_splits))) in
    let start : 0 * (n / number_of_splits) ≡ 0 = omega arith in
    let split = n / number_of_splits in
    let left = number_of_splits - 1 in
    (
      rw start at (split_ranges-Covers split n left 0 fits),
      omega (arith, length-split_ranges split n left 0),
      λ k l. ap (λ (r : Range). r.size) (get_or-split_ranges split n left 0 k (omega arith)),
    )

-- The assertions of self_verify hold in trees of up to 30 levels.
pub self_verify-true :
    (treebits n : ℕ) → treebits ≤ 30 → n ≤ numnodes treebits → self_verify treebits n ≡ true
unfolding self_verify
self_verify-true treebits zero small le = refl
self_verify-true treebits (suc n) small le =
    rw
      (
        self_verify-true treebits n small (omega arith),
        pre_to_levelorder-level_to_preorder treebits (suc n) small (omega arith) le,
      )
      (same (suc n))
  where
    same : (m : ℕ) → (m == m) ≡ true
    same m = ground arith
