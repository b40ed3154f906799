-- ===== src/Permute/WordSorts.antt =====
-- The radix sorts in place by two bytes, and on string sets, sort from a depth on.
use mathlib.Core.List.{append-nil}
use parallel_string_sorting.Prelude.{
  ℕ, zero, suc, ◌+◌, ◌≤◌, ◌<◌, ◌^◌, List, [], ltb, Bool-cases, inl, inr, length, All, All-map, ◌≡◌,
  arith,
}
use parallel_string_sorting.Strings.{Str}
use parallel_string_sorting.Insertion.{inssort_generic}
use parallel_string_sorting.Insertion.Laws.{IsSortOf, inssort_generic-sorts}
use parallel_string_sorting.Keys.Pack.{IsBytes}
use parallel_string_sorting.Mkqs.{char_at}
use parallel_string_sorting.Mkqs.Laws.{whole_range}
use parallel_string_sorting.Mkqs.Order.{remaining, length-le-remaining}
use parallel_string_sorting.Mkqs.Parts.{short-IsSortOf}
use parallel_string_sorting.Permute.{
  cached_permute, msd_ci2_run, msd_ci2_generic, msd_ci3, msd_ci3_run,
}
use parallel_string_sorting.Permute.CachedSorts.{Room, cached_permute-plain, msd_ci2-sorts_keeps}
use parallel_string_sorting.Permute.Laws.{permute-IsBucketed}
use parallel_string_sorting.Permute.Sorts.{bucketed-sorts}
use parallel_string_sorting.Radix.{zeros, count_loop, read_chars, chars_at}
use parallel_string_sorting.Radix.Buckets.{Small}
use parallel_string_sorting.Radix.ByteKey.{byte_key}
use parallel_string_sorting.Radix.WordKey.{word_key}
use parallel_string_sorting.Radix.Cached.{count_cached-eq}

msd_ci3-sorts_keeps :
    (fuel : ℕ) (strings : List Str) (charcache : List ℕ) (n depth : ℕ)
    → length strings ≡ n
    → All IsBytes strings
    → remaining depth strings ≤ fuel
    → n ≤ length charcache
    → IsSortOf depth strings (msd_ci3 fuel strings charcache n depth).0
      × ((m : ℕ) → Room m charcache → Room m (msd_ci3 fuel strings charcache n depth).1)
unfolding msd_ci3 msd_ci3_run
msd_ci3-sorts_keeps zero strings cache n depth e b f fits =
    (short-IsSortOf depth strings (omega (arith, length-le-remaining depth strings)), λ m p. p)
msd_ci3-sorts_keeps (suc fuel) strings cache n depth e b f fits =
    elim (Bool-cases (ltb n 0x10000)) [
      | inl few ↦ rw few (msd_ci2-sorts_keeps (suc fuel) strings cache n depth e b f fits)
      | inr long ↦
          let key = chars_at depth in
          let k = word_key depth in
          let small : Small key 0x10000 strings = All-map _ _ strings k.key_small b in
          let sizes = count_loop key strings (zeros 0x10000) in
          let out = cached_permute n sizes strings (read_chars key strings cache) in
          let (p, l) =
            rw e at (cached_permute-plain key 0x10000 strings small cache (omega arith)) in
          let permuted = rw e at (permute-IsBucketed key 0x10000 strings small (omega arith)) in
          let room : (m : ℕ) → Room m cache → Room m out.1 = λ m q. omega (arith, l) in
          let (sorts, keeps) =
            bucketed-sorts depth k Room (λ x t m. msd_ci3 fuel x t m (depth + 2)) fuel n
              (λ x t m e l b f r. msd_ci3-sorts_keeps fuel x t m (depth + 2) e b f r)
              (λ m t l r. omega arith) strings e b f small out.0 out.1 (rw p permuted)
              (room n fits) in
          rw (long, count_cached-eq key strings n cache (zeros 0x10000) e fits)
            (sorts, λ m q. keeps m (room m q))
    ]

-- msd_CI3 sorts n strings of bytes from a depth on, if the cache has room for their characters, with fuel
-- for the bytes that are left in them and a terminator each.
pub msd_ci3-sorts :
    (fuel : ℕ) (strings : List Str) (charcache : List ℕ) (n depth : ℕ)
    → length strings ≡ n
    → All IsBytes strings
    → remaining depth strings ≤ fuel
    → n ≤ length charcache
    → IsSortOf depth strings (msd_ci3 fuel strings charcache n depth).0
msd_ci3-sorts fuel strings charcache n depth e b f fits =
    (msd_ci3-sorts_keeps fuel strings charcache n depth e b f fits).0

-- A cache with room for m characters, whose number is a size_t.
abbrev SetRoom : ℕ → List ℕ → Type 0
SetRoom m t = (m ≤ length t) × (m < 2 ^ 64)

msd_ci2_generic-sorts_keeps :
    (fuel : ℕ) (strings : List Str) (charcache : List ℕ) (n depth : ℕ)
    → length strings ≡ n
    → 0 < n
    → All IsBytes strings
    → remaining depth strings ≤ fuel
    → SetRoom n charcache
    → IsSortOf depth strings (msd_ci2_generic fuel strings charcache n depth).0
      × ((m : ℕ)
          → SetRoom m charcache
          → SetRoom m (msd_ci2_generic fuel strings charcache n depth).1)
unfolding msd_ci2_generic msd_ci2_run
msd_ci2_generic-sorts_keeps zero strings cache n depth e pos b f fits =
    (short-IsSortOf depth strings (omega (arith, length-le-remaining depth strings)), λ m p. p)
msd_ci2_generic-sorts_keeps (suc fuel) strings cache n depth e pos b f fits =
    elim (Bool-cases (ltb n 32)) [
      | inl short ↦
          let leaf = whole_range depth strings _ (
            rw append-nil at
              (inssort_generic-sorts strings [] depth (omega arith) (omega arith))) in
          let sorts : IsSortOf depth strings (inssort_generic strings n depth) = rw (← e) leaf in
          rw short (sorts, λ m p. p)
      | inr long ↦
          let key = char_at depth in
          let k = byte_key depth in
          let small : Small key 256 strings = All-map _ _ strings k.key_small b in
          let sizes = count_loop key strings (zeros 256) in
          let out = cached_permute n sizes strings (read_chars key strings cache) in
          let (p, l) = rw e at (cached_permute-plain key 256 strings small cache (omega arith)) in
          let permuted = rw e at (permute-IsBucketed key 256 strings small (omega arith)) in
          let room : (m : ℕ) → SetRoom m cache → SetRoom m out.1 =
            λ m q. (omega (arith, l, q.0), q.1) in
          let (sorts, keeps) =
            bucketed-sorts depth k SetRoom (λ x t m. msd_ci2_generic fuel x t m (depth + 1)) fuel n
              (λ x t m e l b f r.
                msd_ci2_generic-sorts_keeps fuel x t m (depth + 1) e (omega arith) b f r)
              (λ m t l r. omega arith) strings e b f small out.0 out.1 (rw p permuted)
              (room n fits) in
          rw (long, count_cached-eq key strings n cache (zeros 256) e fits.0)
            (sorts, λ m q. keeps m (room m q))
    ]

-- msd_CI2_generic sorts a set of n strings of bytes from a depth on, if it is not empty, n is a size_t
-- and the cache has room for their characters, with fuel for the bytes that are left in them and a
-- terminator each.
pub msd_ci2_generic-sorts :
    (fuel : ℕ) (strings : List Str) (charcache : List ℕ) (n depth : ℕ)
    → length strings ≡ n
    → (0 < n) × (n < 2 ^ 64)
    → All IsBytes strings
    → remaining depth strings ≤ fuel
    → n ≤ length charcache
    → IsSortOf depth strings (msd_ci2_generic fuel strings charcache n depth).0
msd_ci2_generic-sorts fuel strings charcache n depth e size b f fits =
    (msd_ci2_generic-sorts_keeps fuel strings charcache n depth e size.0 b f (fits, size.1)).0
