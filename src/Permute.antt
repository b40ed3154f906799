-- ===== src/Permute.antt =====
-- src/sequential/bingmann-radix_sort.hpp: the radix sorts that permute in place, msd_CI0 to
-- msd_CI3. Pointers into an array are indices.
pub mod Places
pub mod Invariant
pub mod Rounds
pub mod Loops
pub mod Laws
pub mod Sorts
pub mod Cached
pub mod CachedSorts
pub mod WordSorts
use parallel_string_sorting.Prelude.{
  ℕ, zero, suc, ◌+◌, ◌-◌, List, [], ◌∷◌, Bool, true, ltb, ◌==◌, if◌then◌else◌, drop, get_or, set,
}
use parallel_string_sorting.Strings.{Str}
use parallel_string_sorting.Insertion.{inssort, inssort_generic}
use parallel_string_sorting.Mkqs.{char_at}
use parallel_string_sorting.Radix.{
  zeros, count_loop, buckets_loop, read_and_count, read_chars, count_cached, chars_at, goes_on,
}

-- `bkt[i] = bkt[i - 1] + bkt_size[i]`: the ends of the buckets, behind `before` strings.
unfoldable pub inclusive_sum : ℕ → List ℕ → List ℕ
inclusive_sum before [] = []
inclusive_sum before (n ∷ ns) = (before + n) ∷ inclusive_sum (before + n) ns

-- `if (bkt_size[i]) last_bkt_size = bkt_size[i];`
unfoldable pub last_size : ℕ → List ℕ → ℕ
last_size last [] = last
last_size last (n ∷ ns) = last_size (if n == 0 then last else n) ns

-- The string that is moved, the array and the ends of the buckets.
pub record Cycle : Type 0 where
  pub perm : Str
  pub strings : List Str
  pub bkt : List ℕ

module _ (key : Str → ℕ) where
  -- `while ((j = --bkt[key(perm)]) > i) std::swap(perm, *j);`, for at most the rounds that are left.
  unfoldable pub cycle_loop : ℕ → ℕ → Cycle → Cycle
  cycle_loop zero i s = s
  cycle_loop (suc rounds) i s =
      let c = key s.perm in
      let j = get_or s.bkt c 0 - 1 in
      let bkt' = set s.bkt c j in
      let rest =
        cycle_loop rounds i
          (record { perm = get_or s.strings j []; strings = set s.strings j s.perm; bkt = bkt' }) in
      if ltb i j then rest else record s { bkt = bkt' }

  -- The loop over the cycles; a cycle has at most as many rounds as there are strings, and one.
  unfoldable pub permute_loop : ℕ → ℕ → List ℕ → ℕ → ℕ → List Str → List ℕ → List Str
  unfolding cycle_loop
  permute_loop n last sizes zero i strings bkt = strings
  permute_loop n last sizes (suc rounds) i strings bkt =
      let s =
        cycle_loop (suc n) i
          (record { perm = get_or strings i []; strings = strings; bkt = bkt }) in
      let rest =
        permute_loop n last sizes rounds (i + get_or sizes (key s.perm) 0) (set s.strings i s.perm)
          s.bkt in
      if ltb i (n - last) then rest else strings

  -- Permute the strings in place into their buckets.
  unfoldable pub permute : ℕ → List ℕ → List Str → List Str
  unfolding inclusive_sum last_size permute_loop
  permute n bkt_size strings =
      permute_loop n (last_size (get_or bkt_size 0 0) (drop 1 bkt_size)) bkt_size n 0 strings
        (inclusive_sum 0 bkt_size)

-- msd_CI0; there is no scratch memory.
unfoldable pub msd_ci0 : ℕ → List Str → ℕ → ℕ → List Str
unfolding count_loop permute buckets_loop
msd_ci0 zero strings n depth = strings
msd_ci0 (suc fuel) strings n depth =
    let bkt_size = count_loop (char_at depth) strings (zeros 256) in
    let deeper =
      buckets_loop (λ i. true) (λ x t m. (msd_ci0 fuel x m (depth + 1), t)) 1 (drop 1 bkt_size)
        (get_or bkt_size 0 0) (permute (char_at depth) n bkt_size strings) tt in
    if ltb n 32 then inssort strings n depth else deeper.0

unfoldable pub bingmann_msd_ci0 : ℕ → List Str → ℕ → List Str
unfolding msd_ci0
bingmann_msd_ci0 fuel strings n = msd_ci0 fuel strings n 0

-- The same with the characters in a cache, which are permuted along.
pub record CachedCycle : Type 0 where
  pub perm : Str
  pub permch : ℕ
  pub strings : List Str
  pub charcache : List ℕ
  pub bkt : List ℕ

unfoldable pub cached_cycle_loop : ℕ → ℕ → CachedCycle → CachedCycle
cached_cycle_loop zero i s = s
cached_cycle_loop (suc rounds) i s =
    let j = get_or s.bkt s.permch 0 - 1 in
    let bkt' = set s.bkt s.permch j in
    let rest = cached_cycle_loop rounds i (record {
      perm = get_or s.strings j [];
      permch = get_or s.charcache j 0;
      strings = set s.strings j s.perm;
      charcache = set s.charcache j s.permch;
      bkt = bkt';
    }) in
    if ltb i j then rest else record s { bkt = bkt' }

unfoldable pub cached_permute_loop :
    ℕ → ℕ → List ℕ → ℕ → ℕ → List Str → List ℕ → List ℕ → List Str × List ℕ
unfolding cached_cycle_loop
cached_permute_loop n last sizes zero i strings charcache bkt = (strings, charcache)
cached_permute_loop n last sizes (suc rounds) i strings charcache bkt =
    let s = cached_cycle_loop (suc n) i (record {
      perm = get_or strings i [];
      permch = get_or charcache i 0;
      strings = strings;
      charcache = charcache;
      bkt = bkt;
    }) in
    let rest =
      cached_permute_loop n last sizes rounds (i + get_or sizes s.permch 0) (set s.strings i s.perm)
        s.charcache s.bkt in
    if ltb i (n - last) then rest else (strings, charcache)

unfoldable pub cached_permute : ℕ → List ℕ → List Str → List ℕ → List Str × List ℕ
unfolding inclusive_sum last_size cached_permute_loop
cached_permute n bkt_size strings charcache =
    cached_permute_loop n (last_size (get_or bkt_size 0 0) (drop 1 bkt_size)) bkt_size n 0 strings
      charcache (inclusive_sum 0 bkt_size)

-- msd_CI1_make_bkt_size: the sizes of the buckets, and the arrays behind it.
unfoldable pub msd_ci1_make_bkt_size : List Str → List ℕ → ℕ → ℕ → List ℕ × (List Str × List ℕ)
unfolding read_and_count cached_permute
msd_ci1_make_bkt_size strings charcache n depth =
    let (cc, bkt_size) = read_and_count (char_at depth) strings charcache (zeros 256) in
    (bkt_size, cached_permute n bkt_size strings cc)

unfoldable pub msd_ci1 : ℕ → List Str → List ℕ → ℕ → ℕ → List Str × List ℕ
unfolding msd_ci1_make_bkt_size buckets_loop
msd_ci1 zero strings charcache n depth = (strings, charcache)
msd_ci1 (suc fuel) strings charcache n depth =
    let (bkt_size, (strings', charcache')) = msd_ci1_make_bkt_size strings charcache n depth in
    let deeper =
      buckets_loop (λ i. true) (λ x t m. msd_ci1 fuel x t m (depth + 1)) 1 (drop 1 bkt_size)
        (get_or bkt_size 0 0) strings' charcache' in
    if ltb n 32 then (inssort strings n depth, charcache) else deeper

-- msd_CI2_run: the characters are cached in one loop and counted in another.
unfoldable pub msd_ci2_run : List Str → List ℕ → ℕ → ℕ → List ℕ × (List Str × List ℕ)
unfolding read_chars count_cached cached_permute
msd_ci2_run strings charcache n depth =
    let cc = read_chars (char_at depth) strings charcache in
    let bkt_size = count_cached n cc (zeros 256) in (bkt_size, cached_permute n bkt_size strings cc)

unfoldable pub msd_ci2 : ℕ → List Str → List ℕ → ℕ → ℕ → List Str × List ℕ
unfolding msd_ci2_run buckets_loop
msd_ci2 zero strings charcache n depth = (strings, charcache)
msd_ci2 (suc fuel) strings charcache n depth =
    let (bkt_size, (strings', charcache')) = msd_ci2_run strings charcache n depth in
    let deeper =
      buckets_loop (λ i. true) (λ x t m. msd_ci2 fuel x t m (depth + 1)) 1 (drop 1 bkt_size)
        (get_or bkt_size 0 0) strings' charcache' in
    if ltb n 32 then (inssort strings n depth, charcache) else deeper

-- msd_CI2_generic on a string set.
unfoldable pub msd_ci2_generic : ℕ → List Str → List ℕ → ℕ → ℕ → List Str × List ℕ
unfolding msd_ci2_run buckets_loop
msd_ci2_generic zero ss charcache n depth = (ss, charcache)
msd_ci2_generic (suc fuel) ss charcache n depth =
    let (bkt_size, (ss', charcache')) = msd_ci2_run ss charcache n depth in
    let deeper =
      buckets_loop (λ i. true) (λ x t m. msd_ci2_generic fuel x t m (depth + 1)) 1 (drop 1 bkt_size)
        (get_or bkt_size 0 0) ss' charcache' in
    if ltb n 32 then (inssort_generic ss n depth, charcache) else deeper

-- msd_CI3_run: two bytes at once.
unfoldable pub msd_ci3_run : List Str → List ℕ → ℕ → ℕ → List ℕ × (List Str × List ℕ)
unfolding read_chars count_cached cached_permute
msd_ci3_run strings charcache n depth =
    let cc = read_chars (chars_at depth) strings charcache in
    let bkt_size = count_cached n cc (zeros 0x10000) in
    (bkt_size, cached_permute n bkt_size strings cc)

-- msd_CI3; the places of the cache are also those of the bytes, as in msd_CE3.
unfoldable pub msd_ci3 : ℕ → List Str → List ℕ → ℕ → ℕ → List Str × List ℕ
unfolding msd_ci3_run buckets_loop msd_ci2
msd_ci3 zero strings charcache n depth = (strings, charcache)
msd_ci3 (suc fuel) strings charcache n depth =
    let (bkt_size, (strings', charcache')) = msd_ci3_run strings charcache n depth in
    let deeper =
      buckets_loop goes_on (λ x t m. msd_ci3 fuel x t m (depth + 2)) 1 (drop 1 bkt_size)
        (get_or bkt_size 0 0) strings' charcache' in
    let few = msd_ci2 (suc fuel) strings charcache n depth in if ltb n 0x10000 then few else deeper
