-- ===== src/Mkqs.antt =====
-- src/sequential/bs-mkqs.hpp and src/sequential/bingmann-mkqs.hpp: multikey quicksort. An array is
-- split in place into the strings whose byte at a depth is below, equal to and above that of a pivot;
-- pointers into it are indices. The sizes of the ranges are cut to `int r`, and a negative one of them
-- points in front of the array, where nothing is modelled. (The eighth of n in pivot_index, which
-- ssort2 keeps in int as well, is exact for arrays of fewer than 2^34 strings.)
pub mod Arrays
pub mod Split
pub mod Ranges
pub mod Order
pub mod Parts
pub mod Calls
pub mod Laws
use parallel_string_sorting.Prelude.{
  ℕ, zero, suc, ◌+◌, ◌-◌, ◌*◌, ◌/◌, ◌%◌, ◌^◌, Option, none, some, List, [], ◌∷◌, ◌++◌, Bool, true,
  false, not, ◌&&◌, ◌||◌, ltb, leb, ◌==◌, if◌then◌else◌, drop, take, get_or, set, min,
}
use parallel_string_sorting.Strings.{Str, deref}
use parallel_string_sorting.Insertion.{inssort, inssort_generic}

-- `ptr2char`, `i2c`, get_char: the byte of a string at a depth.
abbrev pub char_at : ℕ → Str → ℕ
char_at depth s = deref (drop depth s)

-- std::swap of two entries.
unfoldable pub swap : List Str → ℕ → ℕ → List Str
swap a i j = set (set a i (get_or a j [])) j (get_or a i [])

-- `while (n-- > 0) std::swap(x[i++], x[j++]);`
unfoldable pub vecswap : ℕ → ℕ → ℕ → List Str → List Str
unfolding swap
vecswap zero i j a = a
vecswap (suc n) i j a = vecswap n (i + 1) (j + 1) (swap a i j)

-- What `int r` holds of the size of a range, if it is not negative.
unfoldable pub int_count : ℕ → Option ℕ
int_count n = let r = n % 2 ^ 32 in if ltb r (2 ^ 31) then some r else none

-- A count as the number of rounds of a loop, which is left at once if the count is negative.
abbrev pub rounds_of : Option ℕ → ℕ
rounds_of none = 0
rounds_of (some r) = r

abbrev pub is_nonneg : Option ℕ → Bool
is_nonneg none = false
is_nonneg (some r) = true

-- The four positions of the partition.
pub record Positions : Type 0 where
  pub a : List Str
  pub pa : ℕ
  pub pb : ℕ
  pub pc : ℕ
  pub pd : ℕ

module _ (depth : ℕ) where
  abbrev pub char_of : List Str → ℕ → ℕ
  char_of a i = char_at depth (get_or a i [])

  -- The index of the median of three strings' bytes.
  unfoldable pub med3func : List Str → ℕ → ℕ → ℕ → ℕ
  med3func x a b c =
      let va = char_of x a in
      let vb = char_of x b in
      let vc = char_of x c in
      if va == vb
      then a
      else if (vc == va) || (vc == vb)
      then c
      else if ltb va vb
      then (if ltb vb vc then b else if ltb va vc then c else a)
      else if ltb vc vb
      then b
      else if ltb va vc
      then a
      else c

  -- The pseudomedian of nine.
  unfoldable pub pivot_index : List Str → ℕ → ℕ
  unfolding med3func
  pivot_index a n =
      let pm = n / 2 in
      let pn = n - 1 in
      let d = n / 8 in
      let pl' = if ltb 30 n then med3func a 0 d (2 * d) else 0 in
      let pm' = if ltb 30 n then med3func a (pm - d) pm (pm + d) else pm in
      let pn' = if ltb 30 n then med3func a (pn - 2 * d) (pn - d) pn else pn in
      med3func a pl' pm' pn'

  module _ (v : ℕ) where
    -- `while (pb <= pc && (r = ptr2char(pb)-partval) <= 0)`, for at most the rounds that are left.
    pub up_loop : ℕ → Positions → Positions
    unfolding swap
    up_loop zero p = p
    up_loop (suc rounds) p =
        let r = char_of p.a p.pb in
        let equal =
          up_loop rounds (record p { a = swap p.a p.pa p.pb; pa = p.pa + 1; pb = p.pb + 1 }) in
        let below = up_loop rounds (record p { pb = p.pb + 1 }) in
        if leb p.pb p.pc && leb r v then (if r == v then equal else below) else p

    -- `while (pb <= pc && (r = ptr2char(pc)-partval) >= 0)`
    pub down_loop : ℕ → Positions → Positions
    unfolding swap
    down_loop zero p = p
    down_loop (suc rounds) p =
        let r = char_of p.a p.pc in
        let equal =
          down_loop rounds (record p { a = swap p.a p.pc p.pd; pc = p.pc - 1; pd = p.pd - 1 }) in
        let above = down_loop rounds (record p { pc = p.pc - 1 }) in
        if leb p.pb p.pc && leb v r then (if r == v then equal else above) else p

    -- `for (;;)`, for at most the rounds that are left; each loop inside it can run over n strings.
    pub partition_loop : ℕ → ℕ → Positions → Positions
    unfolding up_loop down_loop
    partition_loop n zero p = p
    partition_loop n (suc rounds) p =
        let q = down_loop n (up_loop n p) in
        let rest =
          partition_loop n rounds
            (record q { a = swap q.a q.pb q.pc; pb = q.pb + 1; pc = q.pc - 1 }) in
        if ltb q.pc q.pb then q else rest

  -- The pivot goes to the front, the strings with its byte gather at both ends and are then swapped
  -- into the middle. `count` is what the type of r holds of a size.
  pub split : (ℕ → Option ℕ) → List Str → ℕ → ℕ → Positions
  unfolding partition_loop vecswap
  split count a n pivot =
      let start = swap a 0 pivot in
      let p =
        partition_loop (char_of start 0) n n
          (record { a = start; pa = 1; pb = 1; pc = n - 1; pd = n - 1 }) in
      let r = rounds_of (count (min p.pa (p.pb - p.pa))) in
      let left = vecswap r 0 (p.pb - r) p.a in
      let r' = rounds_of (count (min (p.pd - p.pc) (n - p.pd - 1))) in
      record p { a = vecswap r' p.pb (n - r') left }

-- A sorter of `len` strings, on the strings from `lo` on.
abbrev pub on_range : ℕ → ℕ → (List Str → List Str) → List Str → List Str
on_range lo len f a = take lo a ++ (f (take len (drop lo a)) ++ drop len (drop lo a))

-- The three recursive calls behind a split; `sort` is the recursive call on the strings of a range,
-- with their number and the depth, `least` the number of strings below which it is not made for the
-- strings below and above, and `count` what the type of r holds of a size. If r is negative, the byte
-- that is tested is in front of the array, and the call behind the test is not made here.
pub sort_parts : (ℕ → Option ℕ) → (List Str → ℕ → ℕ → List Str) → ℕ → Positions → ℕ → ℕ → List Str
sort_parts count sort least p n depth =
    let c = count (p.pb - p.pa) in
    let r = rounds_of c in
    let low = if leb least r then on_range 0 r (λ x. sort x r depth) p.a else p.a in
    let same = p.pa + n - p.pd - 1 in
    let mid =
      if is_nonneg c && not (char_of depth low r == 0)
      then on_range r same (λ x. sort x same (depth + 1)) low
      else low in
    let r' = rounds_of (count (p.pd - p.pc)) in
    if leb least r' then on_range (n - r') r' (λ x. sort x r' depth) mid else mid

-- ssort1, where n and all sizes are ints. The numbers that rand() returns are those of a function of the call's arguments.
unfoldable pub ssort1 : (List Str → ℕ → ℕ → ℕ) → ℕ → List Str → ℕ → ℕ → List Str
unfolding split sort_parts
ssort1 rand zero x n depth = x
ssort1 rand (suc fuel) x n depth =
    let p = split depth some x n (rand x n depth % n) in
    let sorted = sort_parts some (ssort1 rand fuel) 0 p n depth in if leb n 1 then x else sorted

unfoldable pub multikey1 : (List Str → ℕ → ℕ → ℕ) → ℕ → List Str → ℕ → List Str
unfolding ssort1
multikey1 rand fuel x n = ssort1 rand fuel x n 0

unfoldable pub ssort2 : ℕ → List Str → ℕ → ℕ → List Str
unfolding split sort_parts pivot_index
ssort2 zero a n depth = a
ssort2 (suc fuel) a n depth =
    let p = split depth int_count a n (pivot_index depth a n) in
    let sorted = sort_parts int_count (ssort2 fuel) 2 p n depth in
    if ltb n 32 then inssort a n depth else sorted

unfoldable pub multikey2 : ℕ → List Str → ℕ → List Str
unfolding ssort2
multikey2 fuel a n = ssort2 fuel a n 0

unfoldable pub mkqs_generic : ℕ → List Str → ℕ → ℕ → List Str
unfolding split sort_parts pivot_index
mkqs_generic zero ss n depth = ss
mkqs_generic (suc fuel) ss n depth =
    let p = split depth int_count ss n (pivot_index depth ss n) in
    let sorted = sort_parts int_count (mkqs_generic fuel) 2 p n depth in
    if ltb n 32 then inssort_generic ss n depth else sorted
