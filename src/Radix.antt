-- ===== src/Radix.antt =====
-- src/sequential/bingmann-radix_sort.hpp: the out-of-place radix sorts msd_CE0, msd_CE0_generic,
-- msd_CE1, msd_CE2 and msd_CE3. Pointers into an array are indices, and a call returns the strings of its
-- range with the scratch arrays as it leaves them.
pub mod Arrays
pub mod Buckets
pub mod Distribute
pub mod Cached
pub mod Order
pub mod ByteKey
pub mod WordKey
pub mod Pass
pub mod Recursion
pub mod Laws
pub mod CachedSorts
use parallel_string_sorting.Prelude.{
  ℕ, zero, suc, ◌+◌, List, [], ◌∷◌, ◌++◌, Bool, true, not, ◌&&◌, ◌==◌, bit_and, ltb, if◌then◌else◌,
  drop, take, get_or, set,
}
use parallel_string_sorting.Strings.{Str}
use parallel_string_sorting.Insertion.{inssort, inssort_generic}
use parallel_string_sorting.Keys.{get_char_uint16}
use parallel_string_sorting.Mkqs.{char_at}

-- `size_t bkt_size[R] = { 0 };`
unfoldable pub zeros : ℕ → List ℕ
zeros zero = []
zeros (suc r) = 0 ∷ zeros r

-- `++bkt_size[i]`
abbrev pub count_one : List ℕ → ℕ → List ℕ
count_one sizes i = set sizes i (get_or sizes i 0 + 1)

-- Count the characters of the strings.
unfoldable pub count_loop : (Str → ℕ) → List Str → List ℕ → List ℕ
count_loop key [] sizes = sizes
count_loop key (s ∷ ss) sizes = count_loop key ss (count_one sizes (key s))

-- `bkt[i] = bkt[i - 1] + bkt_size[i - 1]`, with the first bucket at `start`.
unfoldable pub prefix_sum : ℕ → List ℕ → List ℕ
prefix_sum start [] = []
prefix_sum start (n ∷ ns) = start ∷ prefix_sum (start + n) ns

-- `*(bkt[key]++) = s` for each string.
unfoldable pub distribute : (Str → ℕ) → List Str → List ℕ → List Str → List Str
distribute key [] bkt sorted = sorted
distribute key (s ∷ ss) bkt sorted =
    distribute key ss (count_one bkt (key s)) (set sorted (get_or bkt (key s) 0) s)

-- The recursion: the buckets stand one behind the other from `bsum` on, and `sort` is the recursive
-- call on the strings of one, with the scratch memory and their number.
module _ {S : Type 0} where
  abbrev pub sort_bucket : (List Str → S → ℕ → List Str × S) → ℕ → ℕ → List Str → S → List Str × S
  sort_bucket sort bsum n strings t =
      let (bucket, u) = sort (take n (drop bsum strings)) t n in
      (take bsum strings ++ (bucket ++ drop n (drop bsum strings)), u)

  -- From the i-th bucket on; `deeper` says whether the strings of a bucket go on.
  unfoldable pub buckets_loop :
      (ℕ → Bool) → (List Str → S → ℕ → List Str × S) → ℕ → List ℕ → ℕ → List Str → S → List Str × S
  buckets_loop deeper sort i [] bsum strings t = (strings, t)
  buckets_loop deeper sort i (n ∷ ns) bsum strings t =
      let next = if deeper i && ltb 1 n then sort_bucket sort bsum n strings t else (strings, t) in
      buckets_loop deeper sort (suc i) ns (bsum + n) next.0 next.1

-- msd_CE0; the scratch memory is the array `sorted`.
unfoldable pub msd_ce0 : ℕ → List Str → List Str → ℕ → ℕ → List Str × List Str
unfolding count_loop prefix_sum distribute buckets_loop
msd_ce0 zero strings sorted n depth = (strings, sorted)
msd_ce0 (suc fuel) strings sorted n depth =
    let bkt_size = count_loop (char_at depth) strings (zeros 256) in
    let sorted' = distribute (char_at depth) strings (prefix_sum 0 bkt_size) sorted in
    let deeper =
      buckets_loop (λ i. true) (λ x t m. msd_ce0 fuel x t m (depth + 1)) 1 (drop 1 bkt_size)
        (get_or bkt_size 0 0) (take n sorted') sorted' in
    if ltb n 32 then (inssort strings n depth, sorted) else deeper

unfoldable pub bingmann_msd_ce0 : ℕ → List Str → ℕ → List Str → List Str
unfolding msd_ce0
bingmann_msd_ce0 fuel strings n sorted = (msd_ce0 fuel strings sorted n 0).0

-- msd_CE0_generic on a string set.
unfoldable pub msd_ce0_generic : ℕ → List Str → List Str → ℕ → ℕ → List Str × List Str
unfolding count_loop prefix_sum distribute buckets_loop
msd_ce0_generic zero ss sorted n depth = (ss, sorted)
msd_ce0_generic (suc fuel) ss sorted n depth =
    let bkt_size = count_loop (char_at depth) ss (zeros 256) in
    let sorted' = distribute (char_at depth) ss (prefix_sum 0 bkt_size) sorted in
    let deeper =
      buckets_loop (λ i. true) (λ x t m. msd_ce0_generic fuel x t m (depth + 1)) 1 (drop 1 bkt_size)
        (get_or bkt_size 0 0) (take n sorted') sorted' in
    if ltb n 32 then (inssort_generic ss n depth, sorted) else deeper

-- `*cc = key(*s)` for each string.
unfoldable pub read_chars : (Str → ℕ) → List Str → List ℕ → List ℕ
read_chars key [] cache = cache
read_chars key (s ∷ ss) [] = []
read_chars key (s ∷ ss) (c ∷ cache) = key s ∷ read_chars key ss cache

-- `++bkt_size[*cc]` for the first n characters of the cache.
unfoldable pub count_cached : ℕ → List ℕ → List ℕ → List ℕ
count_cached zero cache sizes = sizes
count_cached (suc n) [] sizes = sizes
count_cached (suc n) (c ∷ cache) sizes = count_cached n cache (count_one sizes c)

-- `++bkt_size[*cc = key(*s)]` for each string.
unfoldable pub read_and_count : (Str → ℕ) → List Str → List ℕ → List ℕ → List ℕ × List ℕ
read_and_count key [] cache sizes = (cache, sizes)
read_and_count key (s ∷ ss) [] sizes = ([], sizes)
read_and_count key (s ∷ ss) (c ∷ cache) sizes =
    let (cache', sizes') = read_and_count key ss cache (count_one sizes (key s)) in
    (key s ∷ cache', sizes')

-- `*(bkt[*cc]++) = *s` for each string.
unfoldable pub distribute_cached : List Str → List ℕ → List ℕ → List Str → List Str
distribute_cached [] cache bkt sorted = sorted
distribute_cached (s ∷ ss) [] bkt sorted = sorted
distribute_cached (s ∷ ss) (c ∷ cache) bkt sorted =
    distribute_cached ss cache (count_one bkt c) (set sorted (get_or bkt c 0) s)

-- The scratch arrays `sorted` and `charcache`.
abbrev pub Scratch : Type 0
Scratch = List Str × List ℕ

-- msd_CE1: the characters are read and counted in one loop.
unfoldable pub msd_ce1 : ℕ → List Str → Scratch → ℕ → ℕ → List Str × Scratch
unfolding read_and_count prefix_sum distribute_cached buckets_loop
msd_ce1 zero strings t n depth = (strings, t)
msd_ce1 (suc fuel) strings (sorted, charcache) n depth =
    let (cc, bkt_size) = read_and_count (char_at depth) strings charcache (zeros 256) in
    let sorted' = distribute_cached strings cc (prefix_sum 0 bkt_size) sorted in
    let deeper =
      buckets_loop (λ i. true) (λ x t m. msd_ce1 fuel x t m (depth + 1)) 1 (drop 1 bkt_size)
        (get_or bkt_size 0 0) (take n sorted') (sorted', cc) in
    if ltb n 32 then (inssort strings n depth, (sorted, charcache)) else deeper

-- msd_CE2: two loops.
unfoldable pub msd_ce2 : ℕ → List Str → Scratch → ℕ → ℕ → List Str × Scratch
unfolding read_chars count_cached prefix_sum distribute_cached buckets_loop
msd_ce2 zero strings t n depth = (strings, t)
msd_ce2 (suc fuel) strings (sorted, charcache) n depth =
    let cc = read_chars (char_at depth) strings charcache in
    let bkt_size = count_cached n cc (zeros 256) in
    let sorted' = distribute_cached strings cc (prefix_sum 0 bkt_size) sorted in
    let deeper =
      buckets_loop (λ i. true) (λ x t m. msd_ce2 fuel x t m (depth + 1)) 1 (drop 1 bkt_size)
        (get_or bkt_size 0 0) (take n sorted') (sorted', cc) in
    if ltb n 32 then (inssort strings n depth, (sorted, charcache)) else deeper

-- get_char<uint16_t>, and the test that the second of the two bytes is not the terminator.
abbrev pub chars_at : ℕ → Str → ℕ
chars_at depth s = get_char_uint16 s depth

unfoldable pub goes_on : ℕ → Bool
goes_on i = not (bit_and i 0xFF == 0)

-- msd_CE3: two bytes at once, until there are fewer strings than characters. The places of the
-- cache are also those of the bytes, which are written before they are read.
unfoldable pub msd_ce3 : ℕ → List Str → Scratch → ℕ → ℕ → List Str × Scratch
unfolding read_chars count_cached prefix_sum distribute_cached buckets_loop msd_ce2
msd_ce3 zero strings t n depth = (strings, t)
msd_ce3 (suc fuel) strings (sorted, charcache) n depth =
    let cc = read_chars (chars_at depth) strings charcache in
    let bkt_size = count_cached n cc (zeros 0x10000) in
    let sorted' = distribute_cached strings cc (prefix_sum 0 bkt_size) sorted in
    let deeper =
      buckets_loop goes_on (λ x t m. msd_ce3 fuel x t m (depth + 2)) 1 (drop 1 bkt_size)
        (get_or bkt_size 0 0) (take n sorted') (sorted', cc) in
    let few = msd_ce2 (suc fuel) strings (sorted, charcache) n depth in
    if ltb n 0x10000 then few else deeper
