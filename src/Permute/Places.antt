-- ===== src/Permute/Places.antt =====
-- The places of the buckets in an array, and how many strings have a key.
use native.Mathlib.Nat.{ℕ_set}
use mathlib.Core.Logic.{∥∥₁_elim}
use mathlib.Core.List.{Permᴰ}
use parallel_string_sorting.Prelude.{
  ℕ, zero, suc, ◌+◌, ◌-◌, ◌≤◌, ◌<◌, List, [], ◌∷◌, ◌==◌, ==_iff, Bool-cases, inl, inr, ◌⊎◌, length,
  get_or, set, Perm, ◌≡◌, ◌≢◌, refl, sym, ap, ◌∙◌, arith,
}
use parallel_string_sorting.Strings.{Str}
use parallel_string_sorting.Permute.{last_size, inclusive_sum}
use parallel_string_sorting.Radix.Arrays.{tabulate, base, base_mono}
use parallel_string_sorting.Radix.Buckets.{bucket}

pub set-set : (a : List Str) (i : ℕ) (v w : Str) → set (set a i v) i w ≡ set a i w
set-set [] i v w = refl
set-set (x ∷ a) zero v w = refl
set-set (x ∷ a) (suc i) v w = ap (◌∷◌ x) (set-set a i v w)

pub set_comm :
    (a : List Str) (i j : ℕ) (v w : Str) → i ≢ j → set (set a i v) j w ≡ set (set a j w) i v
set_comm [] i j v w n = refl
set_comm (x ∷ a) zero zero v w n = absurd (n refl)
set_comm (x ∷ a) zero (suc j) v w n = refl
set_comm (x ∷ a) (suc i) zero v w n = refl
set_comm (x ∷ a) (suc i) (suc j) v w n = ap (◌∷◌ x) (set_comm a i j v w (λ e. n (ap suc e)))

module _ (size : ℕ → ℕ) where
  pub before : (c d : ℕ) → c < d → base size c + size c ≤ base size d
  before c d h = base_mono size (suc c) (d - suc c) d (omega arith)

  -- Buckets do not overlap.
  pub apart :
      (c d p : ℕ)
      → base size c ≤ p
      → p < base size c + size c
      → base size d ≤ p
      → p < base size d + size d
      → c ≡ d
  apart c d p a b e f = ground (arith, before c d, before d c)

  -- The bucket that begins at a place in front of the end.
  pub next_used :
      (r b R i : ℕ)
      → b + r ≡ R
      → base size b ≡ i
      → i < base size R
      → (b' : ℕ) × (b ≤ b') × (b' < R) × (base size b' ≡ i) × (0 < size b')
  next_used zero b R i e s h =
      let same : b ≡ R = omega arith in absurd (omega (arith, ap (base size) same))
  next_used (suc r) b R i e s h = elim (Bool-cases (size b == 0)) [
    | inl z ↦
        let none_here : size b ≡ 0 = ground (arith, z) in
        let (b', l, m, k, u) = next_used r (suc b) R i (omega arith) (omega arith) h in
        (b', omega arith, m, k, u)
    | inr n ↦ (b, omega arith, omega arith, s, ground (arith, n))
  ]

  -- last_size is the size of a bucket behind which all are empty.
  pub last_size_lem :
      (r i last l : ℕ)
      → l < i
      → last ≡ size l
      → ((d : ℕ) → l < d → d < i → size d ≡ 0)
      → (l' : ℕ) × (last_size last (tabulate r i size) ≡ size l')
        × (l' < i + r)
        × ((d : ℕ) → l' < d → d < i + r → size d ≡ 0)
  unfolding last_size
  last_size_lem zero i last l h e behind = (l, e, omega arith, λ d p q. behind d p (omega arith))
  last_size_lem (suc r) i last l h e behind = elim (Bool-cases (size i == 0)) [
    | inl z ↦
        let none_here : size i ≡ 0 = ground (arith, z) in
        let (l', e', q, b') = last_size_lem r (suc i) last l (omega arith) e (λ d p q.
          elim (Bool-cases (d == i)) [
            | inl same ↦ ap size ((==_iff d i).0 same) ∙ none_here
            | inr other ↦ behind d p (ground (arith, other))
          ]) in
        rw (z, last_size) (l', e', omega arith, λ d p q. b' d p (omega arith))
    | inr n ↦
        let (l', e', q, b') =
          last_size_lem r (suc i) (size i) i (omega arith) refl (λ d p q. absurd (omega arith)) in
        rw (n, last_size) (l', e', omega arith, λ d p q. b' d p (omega arith))
  ]

  pub inclusive_sum-tabulate :
      (r i : ℕ)
      → inclusive_sum (base size i) (tabulate r i size) ≡ tabulate r i (λ c. base size c + size c)
  unfolding inclusive_sum
  inclusive_sum-tabulate zero i = refl
  inclusive_sum-tabulate (suc r) i =
      ap (◌∷◌ (base size i + size i)) (inclusive_sum-tabulate r (suc i))

-- Sums of smaller values, and of values of which one is less by one.
pub base_le : (f g : ℕ → ℕ) (r : ℕ) → ((k : ℕ) → k < r → f k ≤ g k) → base f r ≤ base g r
base_le f g zero h = omega arith
base_le f g (suc r) h = omega (arith, base_le f g r (λ k l. h k (omega arith)), h r (omega arith))

pub base_same : (f g : ℕ → ℕ) (r : ℕ) → ((k : ℕ) → k < r → f k ≡ g k) → base f r ≡ base g r
base_same f g zero h = refl
base_same f g (suc r) h =
    omega (arith, base_same f g r (λ k l. h k (omega arith)), h r (omega arith))

pub base_less :
    (f g : ℕ → ℕ) (r c : ℕ)
    → c < r
    → g c + 1 ≡ f c
    → ((k : ℕ) → k ≢ c → g k ≡ f k)
    → base g r + 1 ≡ base f r
base_less f g zero c h e others = absurd (omega arith)
base_less f g (suc r) c h e others = elim (Bool-cases (r == c)) [
  | inl s ↦
      let same : c ≡ r = sym ((==_iff r c).0 s) in
      let fr : f c ≡ f r = ap f same in
      let gr : g c ≡ g r = ap g same in
      omega (arith, base_same g f r (λ k l. others k (λ z. omega arith)))
  | inr n ↦
      let other : r ≢ c = λ z. ground (arith, n, z) in
      omega (arith, others r other, base_less f g r c (omega arith) e others)
]

module _ (key : Str → ℕ) (c : ℕ) where
  abbrev pub count : List Str → ℕ
  count a = length (bucket key a c)

  count-Permᴰ : {xs ys : List Str} → Permᴰ xs ys → count xs ≡ count ys
  count-Permᴰ Permᴰ.nil = refl
  count-Permᴰ (Permᴰ.cons e p) = ground (arith, count-Permᴰ p, ap key e)
  count-Permᴰ (Permᴰ.swap e f) = ground (arith, ap key e, ap key f)
  count-Permᴰ (Permᴰ.trans p q) = count-Permᴰ p ∙ count-Permᴰ q

  pub count_perm : {xs ys : List Str} → Perm xs ys → count xs ≡ count ys
  count_perm p = ∥∥₁_elim p (ℕ_set _ _) count-Permᴰ

  -- A range of strings with the key.
  pub count_range :
      (a : List Str) (s k : ℕ)
      → s + k ≤ length a
      → ((q : ℕ) → s ≤ q → q < s + k → key (get_or a q []) ≡ c)
      → k ≤ count a
  count_range [] s k h all = omega arith
  count_range (x ∷ a) zero zero h all = omega arith
  count_range (x ∷ a) zero (suc k) h all = ground (
    arith,
    all 0 (omega arith) (omega arith),
    count_range a zero k (omega arith) (λ q l m. all (suc q) (omega arith) (omega arith)),
  )
  count_range (x ∷ a) (suc s) k h all =
      ground
        (arith, count_range a s k (omega arith) (λ q l m. all (suc q) (omega arith) (omega arith)))

  -- A range and one string more with the key.
  pub count_more :
      (a : List Str) (s k p : ℕ)
      → s + k ≤ length a
      → p < length a
      → ((q : ℕ) → s ≤ q → q < s + k → key (get_or a q []) ≡ c)
      → key (get_or a p []) ≡ c
      → (p < s) ⊎ (s + k ≤ p)
      → k < count a
  count_more [] s k p h g all one out = absurd (omega arith)
  count_more (x ∷ a) (suc s) k zero h g all one out = ground (
    arith,
    one,
    count_range a s k (omega arith) (λ q l m. all (suc q) (omega arith) (omega arith)),
  )
  count_more (x ∷ a) (suc s) k (suc p) h g all one out = ground (
    arith,
    count_more a s k p (omega arith) (omega arith)
        (λ q l m. all (suc q) (omega arith) (omega arith)) one (pred out),
  )
    where
      pred : (suc p < suc s) ⊎ (suc s + k ≤ suc p) → (p < s) ⊎ (s + k ≤ p)
      pred (inl l) = inl (omega arith)
      pred (inr l) = inr (omega arith)
  count_more (x ∷ a) zero zero p h g all one out = count_range (x ∷ a) p 1 (omega arith) (λ q l m.
      let same : q ≡ p = omega arith in ap (λ (z : ℕ). key (get_or (x ∷ a) z [])) same ∙ one)
  count_more (x ∷ a) zero (suc k) zero h g all one out =
      absurd (elim out [ inl l ↦ omega arith | inr l ↦ omega arith ])
  count_more (x ∷ a) zero (suc k) (suc p) h g all one out = ground (
    arith,
    all 0 (omega arith) (omega arith),
    count_more a zero k p (omega arith) (omega arith)
        (λ q l m. all (suc q) (omega arith) (omega arith)) one (pred out),
  )
    where
      pred : (suc p < 0) ⊎ (0 + suc k ≤ suc p) → (p < 0) ⊎ (0 + k ≤ p)
      pred (inl l) = absurd (omega arith)
      pred (inr l) = inr (omega arith)
