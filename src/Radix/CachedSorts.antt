-- ===== src/Radix/CachedSorts.antt =====
-- The radix sorts that cache the characters sort like the others.
use parallel_string_sorting.Prelude.{
  ℕ, zero, suc, ◌+◌, ◌≤◌, List, ltb, length, All, ◌≡◌, arith, Bool-cases, inl, inr,
}
use parallel_string_sorting.Strings.{Str}
use parallel_string_sorting.Insertion.Laws.{IsSortOf}
use parallel_string_sorting.Keys.Pack.{IsBytes}
use parallel_string_sorting.Mkqs.{char_at}
use parallel_string_sorting.Mkqs.Order.{remaining, length-le-remaining}
use parallel_string_sorting.Mkqs.Parts.{short-IsSortOf}
use parallel_string_sorting.Radix.{
  Scratch, chars_at, msd_ce1, msd_ce2, msd_ce3, zeros, count_loop, prefix_sum, distribute,
  read_chars,
}
use parallel_string_sorting.Radix.ByteKey.{byte_key}
use parallel_string_sorting.Radix.WordKey.{word_key}
use parallel_string_sorting.Radix.Cached.{
  length-distribute, length-read_chars, count_cached-eq, read_and_count-eq, distribute_cached-eq,
}
use parallel_string_sorting.Radix.Pass.{pass-sorts}
use parallel_string_sorting.Radix.Laws.{leaf-IsSortOf}

-- Scratch arrays with room for m strings and their characters.
abbrev pub Room : ℕ → Scratch → Type 0
Room m t = (m ≤ length t.0) × (m ≤ length t.1)

module _ (key : Str → ℕ) (radix : ℕ) (ss sorted : List Str) (cache : List ℕ) where
  -- The scratch arrays behind a pass.
  abbrev pub passed : Scratch
  passed = (
    distribute key ss (prefix_sum 0 (count_loop key ss (zeros radix))) sorted,
    read_chars key ss cache,
  )

  pub Room-passed : (m : ℕ) → Room m (sorted, cache) → Room m passed
  Room-passed m p =
      let array : length (distribute key ss (prefix_sum 0 (count_loop key ss (zeros radix))) sorted)
          ≡ length sorted =
        length-distribute key ss (prefix_sum 0 (count_loop key ss (zeros radix))) sorted in
      let chars : length (read_chars key ss cache) ≡ length cache =
        length-read_chars key ss cache in
      (omega (arith, array, p.0), omega (arith, chars, p.1))

msd_ce1-run :
    (fuel : ℕ) (strings : List Str) (t : Scratch) (n depth : ℕ)
    → length strings ≡ n
    → All IsBytes strings
    → remaining depth strings ≤ fuel
    → Room n t
    → IsSortOf depth strings (msd_ce1 fuel strings t n depth).0
      × ((m : ℕ) → Room m t → Room m (msd_ce1 fuel strings t n depth).1)
unfolding msd_ce1
msd_ce1-run zero strings t n depth e b f fits =
    (short-IsSortOf depth strings (omega (arith, length-le-remaining depth strings)), λ m p. p)
msd_ce1-run (suc fuel) strings (sorted, cache) n depth e b f fits = elim (Bool-cases (ltb n 32)) [
  | inl short ↦ rw short (leaf-IsSortOf depth n strings e, λ m p. p)
  | inr long ↦
      let key = char_at depth in
      let room = Room-passed key 256 strings sorted cache in
      let (sorts, keeps) =
        pass-sorts depth (byte_key depth) Room (λ x t m. msd_ce1 fuel x t m (depth + 1)) fuel n
          (λ x t m e l b f r. msd_ce1-run fuel x t m (depth + 1) e b f r)
          (λ m t l r. (omega (arith, r.0), omega (arith, r.1))) strings e b f sorted
          (passed key 256 strings sorted cache) fits.0 (room n fits) in
      rw
        (
          long,
          read_and_count-eq key strings cache (zeros 256) (omega (arith, fits.1)),
          distribute_cached-eq key strings cache (prefix_sum 0 (count_loop key strings (zeros 256)))
              sorted (omega (arith, fits.1)),
        )
        (sorts, λ m p. keeps m (room m p))
]

-- msd_CE1 sorts n strings of bytes from a depth on, if `sorted` and `charcache` have room for them, with
-- fuel for the bytes that are left in them and a terminator each.
pub msd_ce1-sorts :
    (fuel : ℕ) (strings : List Str) (t : Scratch) (n depth : ℕ)
    → length strings ≡ n
    → All IsBytes strings
    → remaining depth strings ≤ fuel
    → Room n t
    → IsSortOf depth strings (msd_ce1 fuel strings t n depth).0
msd_ce1-sorts fuel strings t n depth e b f fits = (msd_ce1-run fuel strings t n depth e b f fits).0

msd_ce2-run :
    (fuel : ℕ) (strings : List Str) (t : Scratch) (n depth : ℕ)
    → length strings ≡ n
    → All IsBytes strings
    → remaining depth strings ≤ fuel
    → Room n t
    → IsSortOf depth strings (msd_ce2 fuel strings t n depth).0
      × ((m : ℕ) → Room m t → Room m (msd_ce2 fuel strings t n depth).1)
unfolding msd_ce2
msd_ce2-run zero strings t n depth e b f fits =
    (short-IsSortOf depth strings (omega (arith, length-le-remaining depth strings)), λ m p. p)
msd_ce2-run (suc fuel) strings (sorted, cache) n depth e b f fits = elim (Bool-cases (ltb n 32)) [
  | inl short ↦ rw short (leaf-IsSortOf depth n strings e, λ m p. p)
  | inr long ↦
      let key = char_at depth in
      let room = Room-passed key 256 strings sorted cache in
      let (sorts, keeps) =
        pass-sorts depth (byte_key depth) Room (λ x t m. msd_ce2 fuel x t m (depth + 1)) fuel n
          (λ x t m e l b f r. msd_ce2-run fuel x t m (depth + 1) e b f r)
          (λ m t l r. (omega (arith, r.0), omega (arith, r.1))) strings e b f sorted
          (passed key 256 strings sorted cache) fits.0 (room n fits) in
      rw
        (
          long,
          count_cached-eq key strings n cache (zeros 256) e fits.1,
          distribute_cached-eq key strings cache (prefix_sum 0 (count_loop key strings (zeros 256)))
              sorted (omega (arith, fits.1)),
        )
        (sorts, λ m p. keeps m (room m p))
]

-- msd_CE2 sorts n strings of bytes from a depth on, if `sorted` and `charcache` have room for them, with
-- fuel for the bytes that are left in them and a terminator each.
pub msd_ce2-sorts :
    (fuel : ℕ) (strings : List Str) (t : Scratch) (n depth : ℕ)
    → length strings ≡ n
    → All IsBytes strings
    → remaining depth strings ≤ fuel
    → Room n t
    → IsSortOf depth strings (msd_ce2 fuel strings t n depth).0
msd_ce2-sorts fuel strings t n depth e b f fits = (msd_ce2-run fuel strings t n depth e b f fits).0

msd_ce3-run :
    (fuel : ℕ) (strings : List Str) (t : Scratch) (n depth : ℕ)
    → length strings ≡ n
    → All IsBytes strings
    → remaining depth strings ≤ fuel
    → Room n t
    → IsSortOf depth strings (msd_ce3 fuel strings t n depth).0
      × ((m : ℕ) → Room m t → Room m (msd_ce3 fuel strings t n depth).1)
unfolding msd_ce3
msd_ce3-run zero strings t n depth e b f fits =
    (short-IsSortOf depth strings (omega (arith, length-le-remaining depth strings)), λ m p. p)
msd_ce3-run (suc fuel) strings (sorted, cache) n depth e b f fits =
    elim (Bool-cases (ltb n 0x10000)) [
      | inl few ↦ rw few (msd_ce2-run (suc fuel) strings (sorted, cache) n depth e b f fits)
      | inr many ↦
          let key = chars_at depth in
          let room = Room-passed key 0x10000 strings sorted cache in
          let (sorts, keeps) =
            pass-sorts depth (word_key depth) Room (λ x t m. msd_ce3 fuel x t m (depth + 2)) fuel n
              (λ x t m e l b f r. msd_ce3-run fuel x t m (depth + 2) e b f r)
              (λ m t l r. (omega (arith, r.0), omega (arith, r.1))) strings e b f sorted
              (passed key 0x10000 strings sorted cache) fits.0 (room n fits) in
          rw
            (
              many,
              count_cached-eq key strings n cache (zeros 0x10000) e fits.1,
              distribute_cached-eq key strings cache
                  (prefix_sum 0 (count_loop key strings (zeros 0x10000))) sorted
                  (omega (arith, fits.1)),
            )
            (sorts, λ m p. keeps m (room m p))
    ]

-- msd_CE3 sorts n strings of bytes from a depth on, if `sorted` and `charcache` have room for them, with
-- fuel for the bytes that are left in them and a terminator each.
pub msd_ce3-sorts :
    (fuel : ℕ) (strings : List Str) (t : Scratch) (n depth : ℕ)
    → length strings ≡ n
    → All IsBytes strings
    → remaining depth strings ≤ fuel
    → Room n t
    → IsSortOf depth strings (msd_ce3 fuel strings t n depth).0
msd_ce3-sorts fuel strings t n depth e b f fits = (msd_ce3-run fuel strings t n depth e b f fits).0
