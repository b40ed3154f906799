-- ===== src/Strings/Scmp.antt =====
-- src/tools/stringtools.hpp: scmp, from the start and from a known lcp on, and calc_lcp of two
-- pointers.
use parallel_string_sorting.Prelude.{
  ℕ, ◌-◌, ◌%◌, ◌≤◌, ◌≡◌, ap, ◌∙◌, arith, drop, leb, ltb, if◌then◌else◌, Bool, true,
}
use parallel_string_sorting.Strings.{Str, deref, lcp, lex_le}
use parallel_string_sorting.Strings.Scan.{scan, scan_from}

-- The difference of two bytes, an int.
pub data ℤ : Type 0 where
  pos : ℕ → ℤ
  negsuc : ℕ → ℤ

abbrev pub difference : ℕ → ℕ → ℤ
difference a b = if ltb a b then negsuc (b - a - 1) else pos (a - b)

unfoldable pub scmp : Str → Str → ℤ
unfolding scan
scmp s1 s2 = let k = scan s1 s2 0 in difference (deref k.s1) (deref k.s2)

-- The result and the lcp that the reference parameter has at the end.
pub record Scmp : Type 0 where
  pub order : ℤ
  pub lcp : ℕ

unfoldable pub scmp_lcp : Str → Str → ℕ → Scmp
unfolding scan
scmp_lcp s1 s2 h =
    let k = scan (drop h s1) (drop h s2) h in
    record { order = difference (deref k.s1) (deref k.s2); lcp = k.lcp }

unfoldable pub calc_lcp_strings : Str → Str → ℕ
unfolding scan
calc_lcp_strings s1 s2 = (scan s1 s2 0).lcp % 4294967296

-- `r <= 0`
abbrev pub at_most_zero : ℤ → Bool
at_most_zero (pos n) = leb n 0
at_most_zero (negsuc n) = true

at_most_zero-difference : (a b : ℕ) → at_most_zero (difference a b) ≡ leb a b
at_most_zero-difference a b = ground arith

-- scmp from a common prefix on is not positive if, and only if, the first string is not the greater
-- one, and it sets the lcp to that of the strings; so is scmp from the start, and calc_lcp returns
-- that lcp modulo 2^32.
pub scmp_lem :
    (s1 s2 : Str) (h : ℕ)
    → h ≤ lcp s1 s2
    → (at_most_zero (scmp s1 s2) ≡ lex_le s1 s2)
      × (at_most_zero (scmp_lcp s1 s2 h).order ≡ lex_le s1 s2)
      × ((scmp_lcp s1 s2 h).lcp ≡ lcp s1 s2)
      × (calc_lcp_strings s1 s2 ≡ lcp s1 s2 % 4294967296)
unfolding scmp scmp_lcp calc_lcp_strings
scmp_lem s1 s2 h p =
    let (full, order) = scan_from 0 s1 s2 (omega arith) in
    let (rest, later) = scan_from h s1 s2 p in
    (
      at_most_zero-difference _ _ ∙ order,
      at_most_zero-difference _ _ ∙ later,
      rest,
      ap (λ (n : ℕ). n % 4294967296) full,
    )
