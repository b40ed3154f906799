-- ===== src/StringSet.antt =====
-- src/tools/stringset.hpp: the string set of zero-terminated byte strings (UCharStringSet, the
-- class GenericCharStringSet over the base class StringSetBase). A set is the list of its strings,
-- and a char iterator is the suffix that it points at.
pub mod Laws
use parallel_string_sorting.Prelude.{
  ℕ, zero, suc, ◌+◌, ◌%◌, List, [], ◌∷◌, Bool, true, false, not, ◌&&◌, ◌==◌, ltb, leb,
  if◌then◌else◌, drop,
}
use parallel_string_sorting.Strings.{Str, deref}
use parallel_string_sorting.Strings.Scan.{Cursor}

-- `s + depth`
unfoldable pub get_chars : Str → ℕ → Str
get_chars s depth = drop depth s

unfoldable pub is_end : Str → Bool
is_end i = deref i == 0

unfoldable pub is_equal : Str → Str → Bool
is_equal ai bi = (deref ai == deref bi) && not (deref ai == 0)

unfoldable pub is_less : Str → Str → Bool
is_less ai bi = ltb (deref ai) (deref bi)

unfoldable pub is_leq : Str → Str → Bool
is_leq ai bi = leb (deref ai) (deref bi)

unfoldable pub get_char : Str → ℕ → ℕ
unfolding get_chars
get_char s depth = deref (get_chars s depth)

-- `while (ss.is_equal(s1, c1, s2, c2)) ++c1, ++c2, ++h;`
unfoldable pub scan_equal : Str → Str → ℕ → Cursor
unfolding is_equal
scan_equal [] c2 h = record { s1 = []; s2 = c2; lcp = h }
scan_equal (c ∷ c1) [] h = record { s1 = c ∷ c1; s2 = []; lcp = h }
scan_equal (c ∷ c1) (e ∷ c2) h =
    if is_equal (c ∷ c1) (e ∷ c2)
    then scan_equal c1 c2 (suc h)
    else record { s1 = c ∷ c1; s2 = e ∷ c2; lcp = h }

-- The comparison of two strings, with the iterators that the source passes to is_leq.
unfoldable pub check_order_pair : Str → Str → Bool
unfolding scan_equal is_leq get_chars
check_order_pair s1 s2 =
    let k = scan_equal (get_chars s1 0) (get_chars s2 0) 0 in
    if not (is_leq k.s2 k.s2) then false else true

-- The loop over the neighbours of a set. (On an empty set the source runs past the end.)
unfoldable pub check_order : List Str → Bool
unfolding check_order_pair
check_order (s1 ∷ s2 ∷ rest) =
    let others = check_order (s2 ∷ rest) in if not (check_order_pair s1 s2) then false else others
check_order _ = true

-- calc_lcp over a string set (src/tools/stringtools.hpp), which counts in a size_t and returns an
-- unsigned int.
unfoldable pub calc_lcp : Str → Str → ℕ
unfolding scan_equal get_chars
calc_lcp s1 s2 = (scan_equal (get_chars s1 0) (get_chars s2 0) 0).lcp % 4294967296
