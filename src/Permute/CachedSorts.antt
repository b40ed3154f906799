-- ===== src/Permute/CachedSorts.antt =====
-- The radix sorts in place with cached characters sort from a depth on.
use parallel_string_sorting.Prelude.{
  ℕ, zero, suc, ◌+◌, ◌≤◌, ◌<◌, List, [], ◌∷◌, ltb, Bool-cases, inl, inr, length, get_or, drop, All,
  All-map, ◌≡◌, refl, ap, ◌∙◌, arith,
}
use parallel_string_sorting.Strings.{Str}
use parallel_string_sorting.Insertion.Laws.{IsSortOf}
use parallel_string_sorting.Keys.Pack.{IsBytes}
use parallel_string_sorting.Mkqs.{char_at}
use parallel_string_sorting.Mkqs.Order.{remaining, length-le-remaining}
use parallel_string_sorting.Mkqs.Parts.{short-IsSortOf}
use parallel_string_sorting.Permute.{
  permute, cached_permute, inclusive_sum, last_size, msd_ci1, msd_ci2, msd_ci1_make_bkt_size,
  msd_ci2_run,
}
use parallel_string_sorting.Permute.Cached.{Mirrors, cached_permute_loop-plain}
use parallel_string_sorting.Permute.Invariant.{total}
use parallel_string_sorting.Permute.Laws.{permute-IsBucketed}
use parallel_string_sorting.Permute.Places.{before, count_range, inclusive_sum-tabulate}
use parallel_string_sorting.Permute.Rounds.{count_of, at_start}
use parallel_string_sorting.Permute.Sorts.{bucketed-sorts}
use parallel_string_sorting.Radix.{zeros, count_loop, read_chars}
use parallel_string_sorting.Radix.Arrays.{tabulate, get_or-tabulate}
use parallel_string_sorting.Radix.Buckets.{Small}
use parallel_string_sorting.Radix.ByteKey.{byte_key}
use parallel_string_sorting.Radix.Cached.{length-read_chars, count_cached-eq, read_and_count-eq}
use parallel_string_sorting.Radix.Distribute.{counts-eq}
use parallel_string_sorting.Radix.Laws.{leaf-IsSortOf}

get_or-read_chars :
    (key : Str → ℕ) (ss : List Str) (cache : List ℕ) (p : ℕ)
    → length ss ≤ length cache
    → p < length ss
    → get_or (read_chars key ss cache) p 0 ≡ key (get_or ss p [])
unfolding read_chars
get_or-read_chars key [] cache p h l = absurd (omega arith)
get_or-read_chars key (s ∷ ss) [] p h l = absurd (omega arith)
get_or-read_chars key (s ∷ ss) (c ∷ cache) zero h l = refl
get_or-read_chars key (s ∷ ss) (c ∷ cache) (suc p) h l =
    get_or-read_chars key ss cache p (omega arith) (omega arith)

All-tabulate :
    (n r i : ℕ) (f : ℕ → ℕ)
    → ((k : ℕ) → i ≤ k → k < i + r → f k ≤ n)
    → All (λ e. e ≤ n) (tabulate r i f)
All-tabulate n zero i f h = tt
All-tabulate n (suc r) i f h = (
  h i (omega arith) (omega arith),
  All-tabulate n r (suc i) f (λ k l m. h k (omega arith) (omega arith)),
)

Small-get :
    (key : Str → ℕ) (R : ℕ) (ss : List Str) (p : ℕ)
    → Small key R ss
    → p < length ss
    → key (get_or ss p []) < R
Small-get key R [] p h l = absurd (omega arith)
Small-get key R (s ∷ ss) zero h l = h.0
Small-get key R (s ∷ ss) (suc p) h l = Small-get key R ss p h.1 (omega arith)

module _ (key : Str → ℕ) (R : ℕ) (ss : List Str) (small : Small key R ss) (cache : List ℕ)
    (room : length ss ≤ length cache) where
  abbrev sizes : List ℕ
  sizes = count_loop key ss (zeros R)

  Mirrors-read_chars : Mirrors key (length ss) sizes 0 ss (read_chars key ss cache)
  Mirrors-read_chars = record {
    size = refl;
    room = omega (arith, length-read_chars key ss cache);
    same = λ p fp lp. get_or-read_chars key ss cache p room lp;
    used = λ p lp.
        let k = key (get_or ss p []) in
        let one =
          count_range key k ss p 1 (omega arith) (λ q l m.
            let same : q ≡ p = omega arith in ap (λ (z : ℕ). key (get_or ss z [])) same) in
        let entry =
          get_or-tabulate R 0 k k (count_of key R ss small) 0 (omega arith)
            (Small-get key R ss p small lp) in
        rw (counts-eq key R ss small, entry) one;
  }

  ends-bound : All (λ e. e ≤ length ss) (inclusive_sum 0 sizes)
  ends-bound =
      let size = count_of key R ss small in
      let start = at_start key R ss small in
      rw (counts-eq key R ss small, inclusive_sum-tabulate size R 0)
        (All-tabulate (length ss) R 0 (λ c. start c + size c)
          (λ k l m. omega (arith, before size k R (omega arith), total key R ss small)))

  -- The strings are permuted as without a cache.
  pub cached_permute-plain :
      ((cached_permute (length ss) sizes ss (read_chars key ss cache)).0
        ≡ permute key (length ss) sizes ss)
      × (length (cached_permute (length ss) sizes ss (read_chars key ss cache)).1 ≡ length cache)
  unfolding cached_permute permute
  cached_permute-plain =
      let (p, l) =
        cached_permute_loop-plain key (length ss) sizes
          (last_size (get_or sizes 0 0) (drop 1 sizes)) (length ss) 0 ss (read_chars key ss cache)
          (inclusive_sum 0 sizes) Mirrors-read_chars ends-bound in
      (p, l ∙ length-read_chars key ss cache)

-- A cache with room for m characters.
abbrev pub Room : ℕ → List ℕ → Type 0
Room m t = m ≤ length t

msd_ci1-sorts_keeps :
    (fuel : ℕ) (strings : List Str) (charcache : List ℕ) (n depth : ℕ)
    → length strings ≡ n
    → All IsBytes strings
    → remaining depth strings ≤ fuel
    → n ≤ length charcache
    → IsSortOf depth strings (msd_ci1 fuel strings charcache n depth).0
      × ((m : ℕ) → Room m charcache → Room m (msd_ci1 fuel strings charcache n depth).1)
unfolding msd_ci1 msd_ci1_make_bkt_size
msd_ci1-sorts_keeps zero strings cache n depth e b f fits =
    (short-IsSortOf depth strings (omega (arith, length-le-remaining depth strings)), λ m p. p)
msd_ci1-sorts_keeps (suc fuel) strings cache n depth e b f fits = elim (Bool-cases (ltb n 32)) [
  | inl short ↦ rw short (leaf-IsSortOf depth n strings e, λ m p. p)
  | inr long ↦
      let key = char_at depth in
      let k = byte_key depth in
      let small : Small key 256 strings = All-map _ _ strings k.key_small b in
      let sizes = count_loop key strings (zeros 256) in
      let out = cached_permute n sizes strings (read_chars key strings cache) in
      let (p, l) = rw e at (cached_permute-plain key 256 strings small cache (omega arith)) in
      let permuted = rw e at (permute-IsBucketed key 256 strings small (omega arith)) in
      let room : (m : ℕ) → Room m cache → Room m out.1 = λ m q. omega (arith, l) in
      let (sorts, keeps) =
        bucketed-sorts depth k Room (λ x t m. msd_ci1 fuel x t m (depth + 1)) fuel n
          (λ x t m e l b f r. msd_ci1-sorts_keeps fuel x t m (depth + 1) e b f r)
          (λ m t l r. omega arith) strings e b f small out.0 out.1 (rw p permuted) (room n fits) in
      rw (long, read_and_count-eq key strings cache (zeros 256) (omega arith))
        (sorts, λ m q. keeps m (room m q))
]

-- msd_CI1 sorts n strings of bytes from a depth on, if the cache has room for their characters, with fuel
-- for the bytes that are left in them and a terminator each.
pub msd_ci1-sorts :
    (fuel : ℕ) (strings : List Str) (charcache : List ℕ) (n depth : ℕ)
    → length strings ≡ n
    → All IsBytes strings
    → remaining depth strings ≤ fuel
    → n ≤ length charcache
    → IsSortOf depth strings (msd_ci1 fuel strings charcache n depth).0
msd_ci1-sorts fuel strings charcache n depth e b f fits =
    (msd_ci1-sorts_keeps fuel strings charcache n depth e b f fits).0

pub msd_ci2-sorts_keeps :
    (fuel : ℕ) (strings : List Str) (charcache : List ℕ) (n depth : ℕ)
    → length strings ≡ n
    → All IsBytes strings
    → remaining depth strings ≤ fuel
    → n ≤ length charcache
    → IsSortOf depth strings (msd_ci2 fuel strings charcache n depth).0
      × ((m : ℕ) → Room m charcache → Room m (msd_ci2 fuel strings charcache n depth).1)
unfolding msd_ci2 msd_ci2_run
msd_ci2-sorts_keeps zero strings cache n depth e b f fits =
    (short-IsSortOf depth strings (omega (arith, length-le-remaining depth strings)), λ m p. p)
msd_ci2-sorts_keeps (suc fuel) strings cache n depth e b f fits = elim (Bool-cases (ltb n 32)) [
  | inl short ↦ rw short (leaf-IsSortOf depth n strings e, λ m p. p)
  | inr long ↦
      let key = char_at depth in
      let k = byte_key depth in
      let small : Small key 256 strings = All-map _ _ strings k.key_small b in
      let sizes = count_loop key strings (zeros 256) in
      let out = cached_permute n sizes strings (read_chars key strings cache) in
      let (p, l) = rw e at (cached_permute-plain key 256 strings small cache (omega arith)) in
      let permuted = rw e at (permute-IsBucketed key 256 strings small (omega arith)) in
      let room : (m : ℕ) → Room m cache → Room m out.1 = λ m q. omega (arith, l) in
      let (sorts, keeps) =
        bucketed-sorts depth k Room (λ x t m. msd_ci2 fuel x t m (depth + 1)) fuel n
          (λ x t m e l b f r. msd_ci2-sorts_keeps fuel x t m (depth + 1) e b f r)
          (λ m t l r. omega arith) strings e b f small out.0 out.1 (rw p permuted) (room n fits) in
      rw (long, count_cached-eq key strings n cache (zeros 256) e fits)
        (sorts, λ m q. keeps m (room m q))
]

-- msd_CI2 sorts n strings of bytes from a depth on, if the cache has room for their characters, with fuel
-- for the bytes that are left in them and a terminator each.
pub msd_ci2-sorts :
    (fuel : ℕ) (strings : List Str) (charcache : List ℕ) (n depth : ℕ)
    → length strings ≡ n
    → All IsBytes strings
    → remaining depth strings ≤ fuel
    → n ≤ length charcache
    → IsSortOf depth strings (msd_ci2 fuel strings charcache n depth).0
msd_ci2-sorts fuel strings charcache n depth e b f fits =
    (msd_ci2-sorts_keeps fuel strings charcache n depth e b f fits).0
