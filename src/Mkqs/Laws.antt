-- ===== src/Mkqs/Laws.antt =====
-- The three multikey quicksorts sort from a depth on, with fuel for the bytes that are left.
use native.Mathlib.Nat.{mod-lt, mod-eq_of_lt}
use mathlib.Core.List.{append-nil}
use parallel_string_sorting.Prelude.{
  ℕ, zero, suc, ◌+◌, ◌-◌, ◌≤◌, ◌<◌, ◌*◌, ◌/◌, ◌%◌, ◌^◌, List, [], true, some, refl, ltb, leb,
  length, ◌≡◌, ◌∙◌, arith, Bool-cases, inl, inr,
}
use parallel_string_sorting.Strings.{Str}
use parallel_string_sorting.Insertion.Laws.{
  IsSortOf, SortsRange, inssort-sorts, inssort_generic-sorts,
}
use parallel_string_sorting.Mkqs.{int_count, ssort1, ssort2, mkqs_generic, pivot_index, med3func}
use parallel_string_sorting.Mkqs.Ranges.{split-Parted}
use parallel_string_sorting.Mkqs.Order.{remaining, length-le-remaining}
use parallel_string_sorting.Mkqs.Calls.{Inherits, sort_parts-IsSortOf}
use parallel_string_sorting.Mkqs.Parts.{short-IsSortOf}

-- ssort1 sorts n strings from a depth on, whatever rand() returns, with fuel for the bytes that are
-- left in them and a terminator each.
pub ssort1-sorts :
    (rand : List Str → ℕ → ℕ → ℕ) (fuel : ℕ) (x : List Str) (n depth : ℕ)
    → length x ≡ n
    → remaining depth x ≤ fuel
    → IsSortOf depth x (ssort1 rand fuel x n depth)
unfolding ssort1
ssort1-sorts rand zero x n depth e f =
    short-IsSortOf depth x (omega (arith, length-le-remaining depth x))
ssort1-sorts rand (suc fuel) x n depth e f = elim (Bool-cases (leb n 1)) [
  | inl short ↦ rw short (short-IsSortOf depth x (ground arith))
  | inr long ↦
      let h : 1 < n = ground arith in
      let pos : 0 < n = omega arith in
      let (parted, _) =
        split-Parted depth some x n (rand x n depth % n) e (mod-lt (rand x n depth) pos)
          (λ m l. refl) in
      rw long (
        sort_parts-IsSortOf some (λ m. Unit {0}) (ssort1 rand fuel) fuel
          (λ y m d e f t. ssort1-sorts rand fuel y m d e f) 0 (omega arith) (λ m k u l c. tt) depth
          n x _ parted f tt (λ m l. refl))
]

pub int_count-eq : (n : ℕ) → n < 2 ^ 31 → (m : ℕ) → m ≤ n → int_count m ≡ some m
unfolding int_count
int_count-eq n h m l =
    let e : m % 2 ^ 32 ≡ m = mod-eq_of_lt (omega arith) in
    let small : ltb m (2 ^ 31) ≡ true = ground arith in rw e (rw small refl)

-- A median is one of the three.
med3func-lt :
    (depth : ℕ) (x : List Str) (a b c n : ℕ) → a < n → b < n → c < n → med3func depth x a b c < n
unfolding med3func
med3func-lt depth x a b c n p q r = ground arith

pivot_index-lt : (depth : ℕ) (a : List Str) (n : ℕ) → 31 < n → pivot_index depth a n < n
unfolding pivot_index
pivot_index-lt depth a n h =
    let m = med3func-lt depth a in
    let big : ltb 30 n ≡ true = ground arith in
    rw big (
      m _ _ _ n (m 0 (n / 8) (2 * (n / 8)) n (omega arith) (omega arith) (omega arith))
        (m (n / 2 - n / 8) (n / 2) (n / 2 + n / 8) n (omega arith) (omega arith) (omega arith))
        (m (n - 1 - 2 * (n / 8)) (n - 1 - n / 8) (n - 1) n (omega arith) (omega arith)
          (omega arith)))

-- A result of an insertion sort of a whole array.
pub whole_range : (depth : ℕ) (a out : List Str) → SortsRange depth a [] out → IsSortOf depth a out
whole_range depth a out (ys, e, sorted) = rw (e ∙ append-nil ys) sorted

-- ssort2 sorts n strings from a depth on, for n below 2^31, with fuel for the bytes that are left in
-- them and a terminator each.
pub ssort2-sorts :
    (fuel : ℕ) (a : List Str) (n depth : ℕ)
    → length a ≡ n
    → remaining depth a ≤ fuel
    → n < 2 ^ 31
    → IsSortOf depth a (ssort2 fuel a n depth)
unfolding ssort2
ssort2-sorts zero a n depth e f fits =
    short-IsSortOf depth a (omega (arith, length-le-remaining depth a))
ssort2-sorts (suc fuel) a n depth e f fits = elim (Bool-cases (ltb n 32)) [
  | inl short ↦
      rw (short, ← e) (whole_range depth a _ (rw append-nil at (inssort-sorts a [] depth)))
  | inr long ↦
      let h : 31 < n = ground arith in
      let exact = int_count-eq n fits in
      let (parted, _) =
        split-Parted depth int_count a n (pivot_index depth a n) e (pivot_index-lt depth a n h)
          exact in
      rw long (
        sort_parts-IsSortOf int_count (λ m. m < 2 ^ 31) (ssort2 fuel) fuel (ssort2-sorts fuel) 2
          (omega arith) (λ m k u l c. omega arith) depth n a _ parted f fits exact)
]

-- mkqs_generic sorts a set of n strings from a depth on, for n from 1 on and below 2^31, with fuel for
-- the bytes that are left in them and a terminator each.
pub mkqs_generic-sorts :
    (fuel : ℕ) (ss : List Str) (n depth : ℕ)
    → length ss ≡ n
    → remaining depth ss ≤ fuel
    → (0 < n) × (n < 2 ^ 31)
    → IsSortOf depth ss (mkqs_generic fuel ss n depth)
unfolding mkqs_generic
mkqs_generic-sorts zero ss n depth e f fits =
    short-IsSortOf depth ss (omega (arith, length-le-remaining depth ss))
mkqs_generic-sorts (suc fuel) ss n depth e f fits = elim (Bool-cases (ltb n 32)) [
  | inl short ↦
      rw (short, ← e)
        (whole_range depth ss _
          (rw append-nil at (inssort_generic-sorts ss [] depth (omega arith) (omega arith))))
  | inr long ↦
      let h : 31 < n = ground arith in
      let exact = int_count-eq n fits.1 in
      let (parted, _) =
        split-Parted depth int_count ss n (pivot_index depth ss n) e (pivot_index-lt depth ss n h)
          exact in
      rw long (
        sort_parts-IsSortOf int_count (λ m. (0 < m) × (m < 2 ^ 31)) (mkqs_generic fuel) fuel
          (mkqs_generic-sorts fuel) 2 (omega arith) fit_parts depth n ss _ parted f fits exact)
]
  where
    fit_parts : Inherits (λ m. (0 < m) × (m < 2 ^ 31)) 2
    fit_parts n m u l c = (ground arith, omega arith)
