-- ===== src/Insertion.antt =====
-- src/sequential/inssort.hpp: insertion sort of strings from a depth on, in an array.
pub mod Zipper
pub mod Laws
use parallel_string_sorting.Prelude.{
  ℕ, zero, suc, ◌+◌, ◌-◌, ◌%◌, ◌^◌, List, [], ◌∷◌, Bool, true, ltb, leb, if◌then◌else◌, drop,
  get_or, set,
}
use parallel_string_sorting.Strings.{Str, deref}
use parallel_string_sorting.Strings.Scan.{scan}
use parallel_string_sorting.StringSet.{scan_equal, is_leq, get_chars}

-- `*s <= *t` behind the loop over equal bytes.
pub leq_from : ℕ → Str → Str → Bool
unfolding scan
leq_from d a tmp = let k = scan (drop d a) (drop d tmp) 0 in leb (deref k.s1) (deref k.s2)

-- The same through the string set.
pub leq_generic : ℕ → Str → Str → Bool
unfolding scan_equal is_leq get_chars
leq_generic d a tmp = let k = scan_equal (get_chars a d) (get_chars tmp d) 0 in is_leq k.s1 k.s2

-- The loop over `pj`, which is at the index that is counted down: strings above `tmp` move up by
-- one place, and `tmp` is written below them.
pub shift_loop : (Str → Str → Bool) → ℕ → Str → List Str → List Str
shift_loop leq zero tmp a = set a 0 tmp
shift_loop leq (suc j) tmp a = elim (leq (get_or a j []) tmp) [
  | true ↦ set a (suc j) tmp
  | Bool.false ↦ shift_loop leq j tmp (set a (suc j) (get_or a j []))
]

-- The loop over `pi`, which is at index i, for the rounds that are left.
pub insert_loop : (Str → Str → Bool) → ℕ → ℕ → List Str → List Str
insert_loop leq zero i a = a
insert_loop leq (suc rounds) i a =
    insert_loop leq rounds (suc i) (shift_loop leq i (get_or a i []) a)

-- An `int n`; `--n > 0` lets n - 1 rounds run, and none for n below 2.
unfoldable pub inssort : List Str → ℕ → ℕ → List Str
unfolding insert_loop shift_loop leq_from
inssort str n d = insert_loop (leq_from d) (n - 1) 1 str

-- The conversion of size_t to int; a negative result, for which no round runs, is 0.
abbrev pub int_of_size : ℕ → ℕ
int_of_size n = let r = n % 2 ^ 32 in if ltb r (2 ^ 31) then r else 0

unfoldable pub insertion_sort : List Str → ℕ → List Str
unfolding inssort
insertion_sort a n = inssort a (int_of_size n) 0

-- Here `--n != 0` is tested in size_t, where an empty set wraps around.
unfoldable pub inssort_generic : List Str → ℕ → ℕ → List Str
unfolding insert_loop shift_loop leq_generic
inssort_generic ss n depth = insert_loop (leq_generic depth) ((n + 2 ^ 64 - 1) % 2 ^ 64) 1 ss
