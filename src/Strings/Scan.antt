-- ===== src/Strings/Scan.antt =====
-- The comparison loops of src/tools/stringtools.hpp, and what they compute.
use parallel_string_sorting.Prelude.{
  ℕ, suc, ◌+◌, ◌≤◌, [], ◌∷◌, ◌≡◌, sym, ◌∙◌, arith, drop, drop-drop, not, ◌&&◌, ◌==◌, if◌then◌else◌,
  leb, ltb,
}
use parallel_string_sorting.Strings.{Str, deref, lcp, lex_le}
use parallel_string_sorting.Strings.Lcp.{lcp_comm, lcp-drop, lex_le-drop, lex_le-lcp}

-- Two pointers and the number of bytes that they have passed.
pub record Cursor : Type 0 where
  pub s1 : Str
  pub s2 : Str
  pub lcp : ℕ

-- `while (*s1 != 0 && *s1 == *s2) s1++, s2++, lcp++;` where a pointer at the terminator stops
-- the loop by the first test, or by the second.
unfoldable pub scan : Str → Str → ℕ → Cursor
scan [] t h = record { s1 = []; s2 = t; lcp = h }
scan (c ∷ s) [] h = record { s1 = c ∷ s; s2 = []; lcp = h }
scan (c ∷ s) (e ∷ t) h =
    if not (suc c == 0) && (suc c == suc e)
    then scan s t (suc h)
    else record { s1 = c ∷ s; s2 = e ∷ t; lcp = h }

pub scan_lem :
    (s t : Str) (h : ℕ)
    → scan s t h ≡ record { s1 = drop (lcp s t) s; s2 = drop (lcp s t) t; lcp = lcp s t + h }
unfolding scan lcp
scan_lem [] [] h = ground arith
scan_lem [] (e ∷ t) h = ground arith
scan_lem (c ∷ s) [] h = ground arith
scan_lem (c ∷ s) (e ∷ t) h = ground (arith, scan_lem s t (suc h))

-- The comparison loop from a common prefix on finds the lcp and decides the order.
pub scan_from :
    (h : ℕ) (a b : Str)
    → h ≤ lcp a b
    → ((scan (drop h a) (drop h b) h).lcp ≡ lcp a b)
      × (leb (deref (scan (drop h a) (drop h b) h).s1) (deref (scan (drop h a) (drop h b) h).s2)
          ≡ lex_le a b)
scan_from h a b p =
    let k = scan_lem (drop h a) (drop h b) h in
    rw k (lcp-drop h a b p, sym (lex_le-lcp (drop h a) (drop h b)) ∙ lex_le-drop h a b p)

-- What the comparison with the string before says, from a common prefix on.
pub scan_entry :
    (h : ℕ) (new cur : Str)
    → h ≤ lcp new cur
    → let k = scan (drop h new) (drop h cur) h in
      (k.lcp ≡ lcp new cur) × (not (ltb (deref k.s1) (deref k.s2)) ≡ lex_le cur new)
scan_entry h new cur p = ground (
  arith,
  scan_lem (drop h new) (drop h cur) h,
  lcp-drop h new cur,
  lex_le-drop h cur new,
  lcp_comm new cur,
  lcp_comm (drop h new) (drop h cur),
  lex_le-lcp (drop h cur) (drop h new),
)

-- Where the two pointers stop.
pub scan_ends :
    (h : ℕ) (a b : Str)
    → h ≤ lcp a b
    → let k = scan (drop h a) (drop h b) h in (k.s1 ≡ drop (lcp a b) a) × (k.s2 ≡ drop (lcp a b) b)
scan_ends h a b p =
    let e = lcp-drop h a b p in
    rw (scan_lem (drop h a) (drop h b) h) (
      drop-drop (lcp (drop h a) (drop h b)) h (lcp a b) a e,
      drop-drop (lcp (drop h a) (drop h b)) h (lcp a b) b e,
    )
