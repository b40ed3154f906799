-- ===== src/LcpInsertion.antt =====
-- src/sequential/bingmann-lcp_inssort.hpp: lcp-aware insertion sort. The strings, the lcps of each
-- string with the string before, and, if SaveCache is set, the byte behind that lcp are three
-- arrays, written in place.
pub mod Entries
pub mod Zipper
pub mod Rounds
pub mod Laws
pub mod Cache
pub mod CacheLaws
pub mod CacheSorts
use parallel_string_sorting.Prelude.{
  ℕ, zero, suc, ◌+◌, ◌-◌, List, [], ◌∷◌, Bool, true, false, not, ltb, leb, ◌==◌, if◌then◌else◌,
  get_or, set,
}
use parallel_string_sorting.Strings.{Str, deref}
use parallel_string_sorting.StringSet.{scan_equal, is_less, is_end, get_chars, get_char}

pub record LcpArrays : Type 0 where
  pub strings : List Str
  pub lcps : List ℕ
  pub cache : List ℕ

-- How a round goes on at a position: it ends there, or the string before moves up.
pub data Probe : Type 0 where
  stop : LcpArrays → ℕ → Probe
  shift : ℕ → Probe

-- `if (i + 1 < n)`, which only the copy of the loop for the last round tests.
abbrev pub has_room : Bool → ℕ → ℕ → Bool
has_room false n i = true
has_room true n i = ltb (i + 1) n

-- The three cases at position i = k + 1, with the lcp that the string goes on with.
unfoldable pub probe : Bool → Str → ℕ → ℕ → LcpArrays → Probe
unfolding scan_equal is_less is_end get_chars
probe save new_str new_lcp k a =
    let cur_str = get_or a.strings k [] in
    let cur_lcp = get_or a.lcps (suc k) 0 in
    let c = scan_equal (get_chars new_str new_lcp) (get_chars cur_str new_lcp) new_lcp in
    let char : ℕ = if is_end c.s1 then 0 else deref c.s1 in
    let kept = record a {
      lcps = set a.lcps (suc k) c.lcp;
      cache = if save then set a.cache (suc k) char else a.cache;
    } in
    if ltb cur_lcp new_lcp
    then stop a new_lcp
    else if cur_lcp == new_lcp
    then (if not (is_less c.s1 c.s2) then stop kept new_lcp else shift c.lcp)
    else shift new_lcp

-- The string at k moves up to k + 1, and its lcp with the next string with it.
unfoldable pub move_up : Bool → Bool → ℕ → ℕ → LcpArrays → LcpArrays
move_up save checked n k a = record {
  strings = set a.strings (suc k) (get_or a.strings k []);
  lcps =
      if has_room checked n (suc k)
      then set a.lcps (suc (suc k)) (get_or a.lcps (suc k) 0)
      else a.lcps;
  cache = if save then set a.cache (suc k) (get_or a.cache k 0) else a.cache;
}

-- The string is written at position i, and its lcp with the next string behind it.
unfoldable pub write_new : Bool → Bool → ℕ → ℕ → Str → ℕ → LcpArrays → LcpArrays
unfolding get_char
write_new save checked n i new_str new_lcp a =
    let strings = set a.strings i new_str in
    let next = get_char (get_or strings (suc i) []) new_lcp in
    if has_room checked n i
    then record {
      strings = strings;
      lcps = set a.lcps (suc i) new_lcp;
      cache = if save then set a.cache (suc i) next else a.cache;
    }
    else record a { strings = strings }

-- The `while (i > 0)` of a round and the writes behind it.
unfoldable pub insert_string : Bool → Bool → ℕ → ℕ → Str → ℕ → LcpArrays → LcpArrays
unfolding probe move_up write_new
insert_string save checked n zero new_str new_lcp a = write_new save checked n 0 new_str new_lcp a
insert_string save checked n (suc k) new_str new_lcp a = elim (probe save new_str new_lcp k a) [
  | stop a' h ↦ write_new save checked n (suc k) new_str h a'
  | shift h ↦ insert_string save checked n k new_str h (move_up save checked n k a)
]

-- The rounds without the check, from round j on.
unfoldable pub insert_rounds : Bool → ℕ → ℕ → ℕ → ℕ → LcpArrays → LcpArrays
unfolding insert_string
insert_rounds save n depth zero j a = a
insert_rounds save n depth (suc rounds) j a =
    insert_rounds save n depth rounds (suc j)
      (insert_string save false n j (get_or a.strings j []) depth a)

unfoldable pub lcp_insertion_sort : Bool → LcpArrays → ℕ → ℕ → LcpArrays
unfolding insert_rounds
lcp_insertion_sort save a n depth =
    if leb n 1
    then a
    else (let b = insert_rounds save n depth (n - 1) 0 a in
        insert_string save true n (n - 1) (get_or b.strings (n - 1) []) depth b)
