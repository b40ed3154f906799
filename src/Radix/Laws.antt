-- ===== src/Radix/Laws.antt =====
-- The out-of-place radix sorts sort from a depth on, with fuel for the bytes that are left.
use mathlib.Core.List.{append-nil}
use parallel_string_sorting.Prelude.{
  ℕ, zero, suc, ◌+◌, ◌≤◌, ◌<◌, ◌^◌, List, [], ltb, length, All, ◌≡◌, arith, Bool-cases, inl, inr,
}
use parallel_string_sorting.Strings.{Str}
use parallel_string_sorting.Insertion.{inssort, inssort_generic}
use parallel_string_sorting.Insertion.Laws.{IsSortOf, inssort-sorts, inssort_generic-sorts}
use parallel_string_sorting.Keys.Pack.{IsBytes}
use parallel_string_sorting.Mkqs.{char_at}
use parallel_string_sorting.Mkqs.Laws.{whole_range}
use parallel_string_sorting.Mkqs.Order.{remaining, length-le-remaining}
use parallel_string_sorting.Mkqs.Parts.{short-IsSortOf}
use parallel_string_sorting.Radix.{
  msd_ce0, msd_ce0_generic, zeros, count_loop, prefix_sum, distribute,
}
use parallel_string_sorting.Radix.ByteKey.{byte_key}
use parallel_string_sorting.Radix.Cached.{length-distribute}
use parallel_string_sorting.Radix.Pass.{pass-sorts}

-- Fewer than 32 strings are sorted by insertion.
pub leaf-IsSortOf :
    (depth n : ℕ) (ss : List Str) → length ss ≡ n → IsSortOf depth ss (inssort ss n depth)
leaf-IsSortOf depth n ss e =
    rw (← e) (whole_range depth ss _ (rw append-nil at (inssort-sorts ss [] depth)))

-- Arrays with room for m strings.
abbrev Room : ℕ → List Str → Type 0
Room m t = m ≤ length t

msd_ce0-run :
    (fuel : ℕ) (strings sorted : List Str) (n depth : ℕ)
    → length strings ≡ n
    → All IsBytes strings
    → remaining depth strings ≤ fuel
    → n ≤ length sorted
    → IsSortOf depth strings (msd_ce0 fuel strings sorted n depth).0
      × ((m : ℕ) → Room m sorted → Room m (msd_ce0 fuel strings sorted n depth).1)
unfolding msd_ce0
msd_ce0-run zero strings sorted n depth e b f fits =
    (short-IsSortOf depth strings (omega (arith, length-le-remaining depth strings)), λ m p. p)
msd_ce0-run (suc fuel) strings sorted n depth e b f fits = elim (Bool-cases (ltb n 32)) [
  | inl short ↦ rw short (leaf-IsSortOf depth n strings e, λ m p. p)
  | inr long ↦
      let sorted' =
        distribute (char_at depth) strings
          (prefix_sum 0 (count_loop (char_at depth) strings (zeros 256))) sorted in
      let same : length sorted' ≡ length sorted =
        length-distribute (char_at depth) strings _ sorted in
      let room : (m : ℕ) → Room m sorted → Room m sorted' = λ m p. omega (arith, same) in
      let (sorts, keeps) =
        pass-sorts depth (byte_key depth) Room (λ x t m. msd_ce0 fuel x t m (depth + 1)) fuel n
          (λ x t m e l b f r. msd_ce0-run fuel x t m (depth + 1) e b f r) (λ m t l r. omega arith)
          strings e b f sorted sorted' fits (room n fits) in
      rw long (sorts, λ m p. keeps m (room m p))
]

-- msd_CE0 sorts n strings of bytes from a depth on, if the array `sorted` has room for them, with
-- fuel for the bytes that are left in them and a terminator each.
pub msd_ce0-sorts :
    (fuel : ℕ) (strings sorted : List Str) (n depth : ℕ)
    → length strings ≡ n
    → All IsBytes strings
    → remaining depth strings ≤ fuel
    → n ≤ length sorted
    → IsSortOf depth strings (msd_ce0 fuel strings sorted n depth).0
msd_ce0-sorts fuel strings sorted n depth e b f fits =
    (msd_ce0-run fuel strings sorted n depth e b f fits).0

-- A set with room for m strings, whose number is a size_t.
abbrev SetRoom : ℕ → List Str → Type 0
SetRoom m t = (m ≤ length t) × (m < 2 ^ 64)

msd_ce0_generic-run :
    (fuel : ℕ) (ss sorted : List Str) (n depth : ℕ)
    → length ss ≡ n
    → 0 < n
    → All IsBytes ss
    → remaining depth ss ≤ fuel
    → SetRoom n sorted
    → IsSortOf depth ss (msd_ce0_generic fuel ss sorted n depth).0
      × ((m : ℕ) → SetRoom m sorted → SetRoom m (msd_ce0_generic fuel ss sorted n depth).1)
unfolding msd_ce0_generic
msd_ce0_generic-run zero ss sorted n depth e pos b f fits =
    (short-IsSortOf depth ss (omega (arith, length-le-remaining depth ss)), λ m p. p)
msd_ce0_generic-run (suc fuel) ss sorted n depth e pos b f fits = elim (Bool-cases (ltb n 32)) [
  | inl short ↦
      let leaf =
        whole_range depth ss _
          (rw append-nil at (inssort_generic-sorts ss [] depth (omega arith) (omega arith))) in
      let sorts : IsSortOf depth ss (inssort_generic ss n depth) = rw (← e) leaf in
      rw short (sorts, λ m p. p)
  | inr long ↦
      let sorted' =
        distribute (char_at depth) ss (prefix_sum 0 (count_loop (char_at depth) ss (zeros 256)))
          sorted in
      let same : length sorted' ≡ length sorted = length-distribute (char_at depth) ss _ sorted in
      let room : (m : ℕ) → SetRoom m sorted → SetRoom m sorted' =
        λ m p. (omega (arith, same, p.0), p.1) in
      let (sorts, keeps) =
        pass-sorts depth (byte_key depth) SetRoom (λ x t m. msd_ce0_generic fuel x t m (depth + 1))
          fuel n
          (λ x t m e l b f r. msd_ce0_generic-run fuel x t m (depth + 1) e (omega arith) b f r)
          (λ m t l r. omega arith) ss e b f sorted sorted' fits.0 (room n fits) in
      rw long (sorts, λ m p. keeps m (room m p))
]

-- msd_CE0_generic sorts a set of n strings of bytes from a depth on, if it is not empty, n is a
-- size_t and the set `sorted` has room for them, with fuel for the bytes that are left in them and a
-- terminator each.
pub msd_ce0_generic-sorts :
    (fuel : ℕ) (ss sorted : List Str) (n depth : ℕ)
    → length ss ≡ n
    → (0 < n) × (n < 2 ^ 64)
    → All IsBytes ss
    → remaining depth ss ≤ fuel
    → n ≤ length sorted
    → IsSortOf depth ss (msd_ce0_generic fuel ss sorted n depth).0
msd_ce0_generic-sorts fuel ss sorted n depth e size b f fits =
    (msd_ce0_generic-run fuel ss sorted n depth e size.0 b f (fits, size.1)).0
