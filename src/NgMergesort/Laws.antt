-- ===== src/NgMergesort/Laws.antt =====
-- The mergesort of annotated strings sorts.
use mathlib.Core.List.Perm
use parallel_string_sorting.Prelude.{
  ℕ, zero, suc, ◌+◌, ◌-◌, ◌/◌, ◌≤◌, ◌<◌, List, [], ◌∷◌, ◌++◌, Bool, Bool-cases, inl, inr, ltb, drop,
  take, get_or, set, length, set_head, All, ◌≡◌, refl, sym, ap, ◌∙◌, arith, Perm, length-take,
  length-drop, take-append-take, All-drop, IsSorted,
}
use parallel_string_sorting.Strings.{Str, lex_le, LexLe, lcp}
use parallel_string_sorting.Strings.Lcp.{lcp-le-length, lcp_comm}
use parallel_string_sorting.Strings.Scan.{scan}
use parallel_string_sorting.Merge.{LcpStrings}
use parallel_string_sorting.Merge.Chain.{LcpChain, LcpChain-IsSorted}
use parallel_string_sorting.Merge.Laws.{
  merge_loop-Chain, merge_loop-perm, merge_opt_loop-eq-merge_loop,
}
use parallel_string_sorting.NgMergesort.{uint, Annotated, head_llcp, lcpm, lcpms_i, lcpm_f, lcpms}
use parallel_string_sorting.NgMergesort.Streams.{
  strs, llcps, PlainString, AreSmall, head_llcp-small, merge_annotated, lcpm_loop-eq,
  merge_annotated-eq, merge_annotated-All, length-merge_annotated,
}

-- Ascending annotated strings, each with its lcp with the string before, the first with 0.
abbrev pub IsAnnotatedSort : List Annotated → Type 0
IsAnnotatedSort xs = LcpChain [] (strs xs) (llcps xs)

IsAnnotatedSort-head :
    (xs : List Annotated)
    → IsAnnotatedSort xs
    → LcpChain [] (strs xs) (set_head (head_llcp xs) (llcps xs))
IsAnnotatedSort-head [] s = s
IsAnnotatedSort-head (x ∷ xs) s = s

-- The lcps of short strings fit into a UINT.
LcpChain-AreSmall :
    (signed : Bool) (p : Str) (ss : List Str) (hs : List ℕ)
    → LcpChain p ss hs
    → All (PlainString signed) ss
    → AreSmall hs
LcpChain-AreSmall signed p [] [] c a = tt
LcpChain-AreSmall signed p [] (h ∷ hs) c a = absurd c
LcpChain-AreSmall signed p (s ∷ ss) [] c a = absurd c
LcpChain-AreSmall signed p (s ∷ ss) (h ∷ hs) c a = (
  omega (arith, c.1, lcp_comm p s, lcp-le-length s p, a.0.1),
  LcpChain-AreSmall signed s ss hs c.2 a.1,
)

-- The merge of separate streams, whose current lcps are those in the arrays.
merge_annotated-sorts :
    (signed : Bool) (px ys : List Annotated)
    → All (PlainString signed) (strs px)
    → All (PlainString signed) (strs ys)
    → IsAnnotatedSort px
    → IsAnnotatedSort ys
    → let r = merge_annotated signed (head_llcp px) px ys in
      IsAnnotatedSort r
      × Perm (strs r) (strs px ++ strs ys)
      × All (PlainString signed) (strs r)
      × (length r ≡ length px + length ys)
merge_annotated-sorts signed px ys plain_x plain_y sx sy =
    let hx = head_llcp px in
    let small = LcpChain-AreSmall signed [] (strs px) (llcps px) sx plain_x in
    let e =
      merge_annotated-eq signed hx px ys (head_llcp-small px small) small plain_x plain_y
      ∙ merge_opt_loop-eq-merge_loop (strs px) (llcps px) hx (strs ys) (llcps ys) (head_llcp ys) in
    let sorted =
      merge_loop-Chain [] (strs px) (llcps px) hx (strs ys) (llcps ys) (head_llcp ys)
        (IsAnnotatedSort-head px sx) (IsAnnotatedSort-head ys sy) in
    let perm = merge_loop-perm (strs px) (llcps px) hx (strs ys) (llcps ys) (head_llcp ys) in
    let strings = ap (λ (r : LcpStrings). r.strings) e in
    let lcps = ap (λ (r : LcpStrings). r.lcps) e in
    (
      rw (strings, lcps) sorted,
      rw strings perm,
      merge_annotated-All (PlainString signed) signed hx px ys plain_x plain_y,
      length-merge_annotated signed hx px ys,
    )

-- lcpm merges the sorted scratch array `px` into the array that holds the sorted strings `ys` behind
-- as many free places: it writes the strings of both in ascending order with the right lcps, if
-- `char` is unsigned or no byte is above 127, and all strings are shorter than 2^32.
pub lcpm-sorts :
    (signed : Bool) (px gap ys : List Annotated) (l n : ℕ)
    → l ≡ length px
    → n ≡ length px + length ys
    → length gap ≡ length px
    → All (PlainString signed) (strs px)
    → All (PlainString signed) (strs ys)
    → IsAnnotatedSort px
    → IsAnnotatedSort ys
    → let r = lcpm signed px (gap ++ ys) l n in
      IsAnnotatedSort r
      × Perm (strs r) (strs px ++ strs ys)
      × All (PlainString signed) (strs r)
      × (length r ≡ n)
unfolding lcpm
lcpm-sorts signed px gap ys l n at_l at_n size plain_x plain_y sx sy =
    let left : n - l ≡ length ys = omega arith in
    let in_place = lcpm_loop-eq signed (head_llcp px) px ys [] gap l size (omega arith) in
    rw (left, in_place, at_n) (merge_annotated-sorts signed px ys plain_x plain_y sx sy)

-- With fuel for the number of strings lcpms_i sorts the first n strings of `str` into its array.
pub lcpms_i-sorts :
    (signed : Bool) (fuel : ℕ) (px : List Annotated) (n : ℕ) (str : List Str)
    → 0 < n
    → n ≤ fuel
    → length px ≡ n
    → n ≤ length str
    → All (PlainString signed) str
    → let r = lcpms_i signed fuel px n str in
      IsAnnotatedSort r
      × Perm (strs r) (take n str)
      × All (PlainString signed) (strs r)
      × (length r ≡ n)
unfolding lcpms_i lex_le lcp
lcpms_i-sorts signed zero px n str pos f size enough plain = absurd (omega arith)
lcpms_i-sorts signed (suc fuel) px n str pos f size enough plain = elim (Bool-cases (ltb 1 n)) [
  | inl many ↦
      let h : 1 < n = ground arith in
      let l = n / 2 in
      let low = lcpms_i signed fuel (take l px) l str in
      let high = lcpms_i signed fuel (drop l px) (n - l) (drop l str) in
      let (s1, p1, a1, n1) =
        lcpms_i-sorts signed fuel (take l px) l str (omega arith) (omega arith)
          (omega (arith, length-take l px)) (omega arith) plain in
      let (s2, p2, a2, n2) =
        lcpms_i-sorts signed fuel (drop l px) (n - l) (drop l str) (omega arith) (omega arith)
          (omega (arith, length-drop l px)) (omega (arith, length-drop l str))
          (All-drop (PlainString signed) l str plain) in
      let (s, p, a, size') =
        lcpm-sorts signed low low high l n (sym n1) (omega arith) refl a1 a2 s1 s2 in
      let perm =
        rw (take-append-take l n str (omega arith)) at (Perm.trans p (Perm.append p1 p2)) in
      rw many (s, perm, a, size')
  | inr one ↦ rw one (single px str (ground arith) size enough plain)
]
  where
    single :
        (px : List Annotated) (str : List Str)
        → n ≡ 1
        → length px ≡ n
        → n ≤ length str
        → All (PlainString signed) str
        → let r = set px 0 (record { llcp = 0; str = get_or str 0 [] }) in
          IsAnnotatedSort r
          × Perm (strs r) (take n str)
          × All (PlainString signed) (strs r)
          × (length r ≡ n)
    single [] str one size enough plain = absurd (omega arith)
    single (p ∷ q ∷ px) str one size enough plain = absurd (omega arith)
    single (p ∷ []) [] one size enough plain = absurd (omega arith)
    single (p ∷ []) (s ∷ str) one size enough plain =
        rw one ((refl, refl, tt), Perm.refl (s ∷ []), (plain.0, tt), refl)

unfoldable set_llcp : ℕ → List Annotated → List Annotated
set_llcp h [] = []
set_llcp h (y ∷ ys) = record y { llcp = h } ∷ ys

set_llcp-head_llcp : (ys : List Annotated) → set_llcp (head_llcp ys) ys ≡ ys
unfolding set_llcp
set_llcp-head_llcp [] = refl
set_llcp-head_llcp (y ∷ ys) = refl

-- The last merge writes the strings of the merge of annotated strings.
lcpm_f-eq :
    (signed : Bool) (hx : ℕ) (xs : List Annotated) (hy : ℕ) (ys : List Annotated)
    → lcpm_f signed hx xs hy ys ≡ strs (merge_annotated signed hx xs (set_llcp hy ys))
unfolding lcpm_f merge_annotated set_llcp
lcpm_f-eq signed hx [] hy [] = refl
lcpm_f-eq signed hx [] hy (y ∷ ys) = refl
lcpm_f-eq signed hx (x ∷ xs) hy [] = refl
lcpm_f-eq signed hx (x ∷ xs) hy (y ∷ ys) =
    let k = scan (drop hx x.str) (drop hx y.str) hx in
    let ih_x = λ (h : ℕ). lcpm_f-eq signed (head_llcp xs) xs h (y ∷ ys) in
    let ih_y = λ (h : ℕ). lcpm_f-eq signed h (x ∷ xs) (head_llcp ys) ys in
    ground (arith, set_llcp-head_llcp ys, ih_x hy, ih_x (uint k.lcp), ih_y hx, ih_y (uint k.lcp))

-- The sort of the first n strings of an array, for two or more: the result is in ascending order and
-- holds these strings, if `char` is unsigned or no byte is above 127, and all strings are shorter
-- than 2^32.
pub lcpms-sorts :
    (signed : Bool) (px : List Annotated) (str : List Str) (n : ℕ)
    → 1 < n
    → length px ≡ n
    → n ≤ length str
    → All (PlainString signed) str
    → IsSorted LexLe (lcpms signed px str n) × Perm (lcpms signed px str n) (take n str)
unfolding lcpms
lcpms-sorts signed px str n many size enough plain =
    let l = n / 2 in
    let low = lcpms_i signed l (take l px) l str in
    let high = lcpms_i signed (n - l) (drop l px) (n - l) (drop l str) in
    let hx = head_llcp low in
    let (s1, p1, a1, n1) =
      lcpms_i-sorts signed l (take l px) l str (omega arith) (omega arith)
        (omega (arith, length-take l px)) (omega arith) plain in
    let (s2, p2, a2, n2) =
      lcpms_i-sorts signed (n - l) (drop l px) (n - l) (drop l str) (omega arith) (omega arith)
        (omega (arith, length-drop l px)) (omega (arith, length-drop l str))
        (All-drop (PlainString signed) l str plain) in
    let (s, p, a, size') = merge_annotated-sorts signed low high a1 a2 s1 s2 in
    let e =
      lcpm_f-eq signed hx low (head_llcp high) high
      ∙ ap (λ (ys : List Annotated). strs (merge_annotated signed hx low ys))
          (set_llcp-head_llcp high) in
    let perm = rw (take-append-take l n str (omega arith)) at (Perm.trans p (Perm.append p1 p2)) in
    rw e (LcpChain-IsSorted [] _ _ s, perm)
