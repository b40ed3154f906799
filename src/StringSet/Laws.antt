-- ===== src/StringSet/Laws.antt =====
-- What the comparisons of a string set decide.
use parallel_string_sorting.Prelude.{ℕ, suc, ◌%◌, [], ◌∷◌, ◌≡◌, refl, ap, arith}
use parallel_string_sorting.Strings.{Str, lcp}
use parallel_string_sorting.Strings.Scan.{scan, scan_lem}
use parallel_string_sorting.StringSet.{get_chars, scan_equal, calc_lcp}

pub scan_equal-eq-scan : (c1 c2 : Str) (h : ℕ) → scan_equal c1 c2 h ≡ scan c1 c2 h
unfolding scan_equal scan
scan_equal-eq-scan [] c2 h = refl
scan_equal-eq-scan (c ∷ c1) [] h = refl
scan_equal-eq-scan (c ∷ c1) (e ∷ c2) h = ground (arith, scan_equal-eq-scan c1 c2 (suc h))

-- calc_lcp returns the length of the longest common prefix, modulo 2^32.
pub calc_lcp-eq-lcp : (s1 s2 : Str) → calc_lcp s1 s2 ≡ lcp s1 s2 % 4294967296
unfolding calc_lcp get_chars
calc_lcp-eq-lcp s1 s2 =
    let counted : (scan_equal s1 s2 0).lcp ≡ lcp s1 s2 =
      ground (arith, scan_equal-eq-scan s1 s2 0, scan_lem s1 s2 0) in
    ap (λ (h : ℕ). h % 4294967296) counted
