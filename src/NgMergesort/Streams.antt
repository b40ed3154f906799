-- ===== src/NgMergesort/Streams.antt =====
-- The in-place merge writes what the merge of two separate streams would write, which is the merge
-- of bingmann-lcp_mergesort_binary.hpp.
use native.Mathlib.Nat.{mod-eq_of_lt}
use mathlib.Core.List.{append_assoc, append-nil}
use parallel_string_sorting.Prelude.{
  ℕ, zero, suc, ◌+◌, ◌^◌, ◌<◌, length-drop, List, [], ◌∷◌, ◌++◌, Bool, true, false, inl, inr, ◌⊎◌,
  leb, ltb, ◌==◌, not, if◌then◌else◌, if_both, drop, take, length, map, rev_append, All, ◌≡◌, refl,
  ap, ◌∙◌, arith, get_or-rev_append_add, set-rev_append_add, length-append, drop-drop,
  get_or-append, set-append,
}
use parallel_string_sorting.Strings.{Str, deref, lcp}
use parallel_string_sorting.Strings.Lcp.{lcp-le-length}
use parallel_string_sorting.Strings.Scan.{scan, scan_lem}
use parallel_string_sorting.Merge.{LcpStrings, advance, next_lcp, merge_opt_loop}
use parallel_string_sorting.NgMergesort.{
  uint, Annotated, unset, copy_to, char_gt, head_llcp, lcpm_loop,
}

abbrev pub strs : List Annotated → List Str
strs = map (λ (x : Annotated). x.str)

abbrev pub llcps : List Annotated → List ℕ
llcps = map (λ (x : Annotated). x.llcp)

-- The bytes of a string for which the order of `char` is that of unsigned bytes: all of them, or
-- those below 128.
abbrev pub PlainChars : Bool → Str → Type 0
PlainChars signed s = (signed ≡ false) ⊎ All (λ c. c < 127) s

deref_ascii : (n : ℕ) (s : Str) → All (λ c. c < 127) s → deref (drop n s) < 128
deref_ascii zero [] a = omega arith
deref_ascii zero (c ∷ s) a = omega arith
deref_ascii (suc n) [] a = omega arith
deref_ascii (suc n) (c ∷ s) a = deref_ascii n s a.1

char_gt-eq :
    (signed : Bool) (n m : ℕ) (s t : Str)
    → PlainChars signed s
    → PlainChars signed t
    → char_gt signed (deref (drop n s)) (deref (drop m t))
      ≡ not (leb (deref (drop n s)) (deref (drop m t)))
unfolding char_gt
char_gt-eq false n m s t a b = ground arith
char_gt-eq true n m s t (inl e) b = cc
char_gt-eq true n m s t (inr a) (inl e) = cc
char_gt-eq true n m s t (inr a) (inr b) = ground (arith, deref_ascii n s a, deref_ascii m t b)

-- The strings for which it is, and whose lcps fit into a UINT.
abbrev pub PlainString : Bool → Str → Type 0
PlainString signed s = PlainChars signed s × (length s < 2 ^ 32)

abbrev pub AreSmall : List ℕ → Type 0
AreSmall = All (λ (h : ℕ). h < 2 ^ 32)

-- The merge of two separate streams, the first with the lcp of its first string in a variable.
unfoldable pub merge_annotated : Bool → ℕ → List Annotated → List Annotated → List Annotated
merge_annotated signed hx [] ys = ys
merge_annotated signed hx (x ∷ xs) [] = record x { llcp = hx } ∷ xs
merge_annotated signed hx (x ∷ xs) (y ∷ ys) =
    let k = scan (drop hx x.str) (drop hx y.str) hx in
    let take_x = λ (h : ℕ).
      record x { llcp = hx }
      ∷ merge_annotated signed (head_llcp xs) xs (record y { llcp = h } ∷ ys) in
    let take_y = λ (h : ℕ). y ∷ merge_annotated signed h (x ∷ xs) ys in
    if not (hx == y.llcp)
    then (if ltb y.llcp hx then take_x y.llcp else take_y hx)
    else if char_gt signed (deref k.s1) (deref k.s2)
    then take_y (uint k.lcp)
    else take_x (uint k.lcp)

copy_to-rev_append :
    (xs d gap : List Annotated)
    → length gap ≡ length xs
    → copy_to xs (length d) (rev_append d gap) ≡ rev_append d xs
unfolding copy_to
copy_to-rev_append [] d [] e = refl
copy_to-rev_append [] d (g ∷ gap) e = absurd (omega arith)
copy_to-rev_append (x ∷ xs) d [] e = absurd (omega arith)
copy_to-rev_append (x ∷ xs) d (g ∷ gap) e =
    rw (set-rev_append_add d (g ∷ gap) 0 (length d) x (omega arith))
      (copy_to-rev_append xs (x ∷ d) gap (omega arith))

-- The array is what has been written, `gap` that may be overwritten, and the rest of the second
-- stream; the gap is as long as the first stream.
pub lcpm_loop-eq :
    (signed : Bool) (hx : ℕ) (xs ys d gap : List Annotated) (y : ℕ)
    → length gap ≡ length xs
    → y ≡ length d + length gap
    → lcpm_loop signed hx xs (length ys) (rev_append d (gap ++ ys)) y (length d)
      ≡ rev_append d (merge_annotated signed hx xs ys)
unfolding lcpm_loop merge_annotated
lcpm_loop-eq signed hx [] ys d [] y e f = refl
lcpm_loop-eq signed hx [] ys d (g ∷ gap) y e f = absurd (omega arith)
lcpm_loop-eq signed hx (x ∷ xs) ys d [] y e f = absurd (omega arith)
lcpm_loop-eq signed hx (x ∷ xs) [] d (g ∷ gap) y e f =
    rw (append-nil gap) (copy_to-rev_append (record x { llcp = hx } ∷ xs) d (g ∷ gap) e)
lcpm_loop-eq signed hx (x ∷ xs) (py ∷ ys) d (g ∷ gap) y e f =
    let k = scan (drop hx x.str) (drop hx py.str) hx in
    let all = g ∷ (gap ++ py ∷ ys) in
    let read =
      get_or-rev_append_add d all (suc (length gap)) y unset (omega arith)
      ∙ get_or-append gap (py ∷ ys) 0 (length gap) unset (omega arith) in
    let changed = record py { llcp = uint k.lcp } in
    let mark =
      set-rev_append_add d all (suc (length gap)) y changed (omega arith)
      ∙ ap (λ (r : List Annotated). rev_append d (g ∷ r))
          (set-append gap (py ∷ ys) 0 (length gap) changed (omega arith)) in
    let write = λ (v : Annotated) (r : List Annotated).
      set-rev_append_add d (g ∷ r) 0 (length d) v (omega arith) in
    let ih_x = λ (p : Annotated).
      lcpm_loop-eq signed (head_llcp xs) xs (p ∷ ys) (record x { llcp = hx } ∷ d) gap y
        (omega arith) (omega arith) in
    let ih_y = λ (h : ℕ).
      lcpm_loop-eq signed h (x ∷ xs) ys (py ∷ d) (gap ++ py ∷ []) (suc y)
        (omega (arith, length-append gap (py ∷ []))) (omega (arith, length-append gap (py ∷ []))) in
    ground (
      arith,
      read,
      mark,
      write (record x { llcp = hx }) (gap ++ py ∷ ys),
      write (record x { llcp = hx }) (gap ++ changed ∷ ys),
      write py (gap ++ py ∷ ys),
      ih_x py,
      ih_x changed,
      ih_y hx,
      ih_y (uint k.lcp),
      append_assoc gap (py ∷ []) ys,
    )

next_lcp-head : (xs : List Annotated) → next_lcp (strs xs) (llcps xs) ≡ head_llcp xs
next_lcp-head [] = refl
next_lcp-head (x ∷ xs) = refl

take-llcps : (xs : List Annotated) → take (length (strs xs)) (llcps xs) ≡ llcps xs
take-llcps [] = refl
take-llcps (x ∷ xs) = ap (◌∷◌ x.llcp) (take-llcps xs)

-- The comparison of the bytes behind the common prefix, in type `char`.
char_gt-scan :
    (signed : Bool) (h : ℕ) (s t : Str)
    → PlainChars signed s
    → PlainChars signed t
    → let k = scan (drop h s) (drop h t) h in
      char_gt signed (deref k.s1) (deref k.s2) ≡ not (leb (deref k.s1) (deref k.s2))
char_gt-scan signed h s t ps pt =
    let n = lcp (drop h s) (drop h t) in
    rw
      (scan_lem (drop h s) (drop h t) h, drop-drop n h (n + h) s refl, drop-drop n h (n + h) t refl)
      (char_gt-eq signed (n + h) (n + h) s t ps pt)

-- The loop never reads the first lcp of a stream from its array.
merge_opt_loop-head :
    (a b : ℕ) (input1 : List Str) (lcps1 : List ℕ) (lcp1 : ℕ) (y : Str) (input2 : List Str)
    (lcps2 : List ℕ) (lcp2 : ℕ)
    → merge_opt_loop input1 lcps1 lcp1 (y ∷ input2) (a ∷ lcps2) lcp2
      ≡ merge_opt_loop input1 lcps1 lcp1 (y ∷ input2) (b ∷ lcps2) lcp2
unfolding merge_opt_loop
merge_opt_loop-head a b [] lcps1 lcp1 y input2 lcps2 lcp2 = refl
merge_opt_loop-head a b (x ∷ input1) lcps1 lcp1 y input2 lcps2 lcp2 =
    let k = scan (drop lcp1 x) (drop lcp1 y) lcp1 in
    let ih = λ (h : ℕ).
      merge_opt_loop-head a b input1 (advance lcps1) (next_lcp input1 (advance lcps1)) y input2
        lcps2 h in
    ground (arith, ih lcp2, ih k.lcp)

-- The comparison goes no further than the end of the first string.
scan-uint :
    (h : ℕ) (s t : Str)
    → h < 2 ^ 32
    → length s < 2 ^ 32
    → uint (scan (drop h s) (drop h t) h).lcp ≡ (scan (drop h s) (drop h t) h).lcp
scan-uint h s t a b = mod-eq_of_lt (
    ground (
      arith,
      scan_lem (drop h s) (drop h t) h,
      lcp-le-length (drop h s) (drop h t),
      length-drop h s,
    ))

pub head_llcp-small : (xs : List Annotated) → AreSmall (llcps xs) → head_llcp xs < 2 ^ 32
head_llcp-small [] a = omega arith
head_llcp-small (x ∷ xs) a = a.0

-- The merge of separate streams is the merge of bingmann-lcp_mergesort_binary.hpp.
pub merge_annotated-eq :
    (signed : Bool) (hx : ℕ) (xs ys : List Annotated)
    → hx < 2 ^ 32
    → AreSmall (llcps xs)
    → All (PlainString signed) (strs xs)
    → All (PlainString signed) (strs ys)
    → let r = merge_annotated signed hx xs ys in
      ◌≡◌ {A = LcpStrings}
        (record { strings = strs r; lcps = llcps r })
        (merge_opt_loop (strs xs) (llcps xs) hx (strs ys) (llcps ys) (head_llcp ys))
unfolding merge_annotated merge_opt_loop
merge_annotated-eq signed hx [] [] small sx px py = refl
merge_annotated-eq signed hx [] (y ∷ ys) small sx px py = rw (take-llcps ys)
merge_annotated-eq signed hx (x ∷ xs) [] small sx px py = rw (take-llcps xs)
merge_annotated-eq signed hx (x ∷ xs) (y ∷ ys) small sx px py =
    let k = scan (drop hx x.str) (drop hx y.str) hx in
    let ih_x = λ (h : ℕ).
      merge_annotated-eq signed (head_llcp xs) xs (record y { llcp = h } ∷ ys)
        (head_llcp-small xs sx.1) sx.1 px.1 py in
    let irrelevant = λ (h : ℕ).
      merge_opt_loop-head h y.llcp (strs xs) (llcps xs) (head_llcp xs) y.str (strs ys) (llcps ys)
        h in
    let ih_y = λ (h : ℕ) (l : h < 2 ^ 32). merge_annotated-eq signed h (x ∷ xs) ys l sx px py.1 in
    let exact = scan-uint hx x.str y.str small px.0.1 in
    let small' : k.lcp < 2 ^ 32 = omega (arith, exact) in
    rw exact (
      ground (
        arith,
        char_gt-scan signed hx x.str y.str px.0.0 py.0.0,
        next_lcp-head xs,
        next_lcp-head ys,
        irrelevant k.lcp,
        ih_x y.llcp,
        ih_x k.lcp,
        ih_y hx small,
        ih_y k.lcp small',
      ))

pub merge_annotated-All :
    (P : Str → Type 0) (signed : Bool) (hx : ℕ) (xs ys : List Annotated)
    → All P (strs xs)
    → All P (strs ys)
    → All P (strs (merge_annotated signed hx xs ys))
unfolding merge_annotated
merge_annotated-All P signed hx [] ys px py = py
merge_annotated-All P signed hx (x ∷ xs) [] px py = px
merge_annotated-All P signed hx (x ∷ xs) (y ∷ ys) px py =
    let k = scan (drop hx x.str) (drop hx y.str) hx in
    let holds : List Annotated → Type 0 = λ r. All P (strs r) in
    let take_x : (h : ℕ)
        → All P (
            strs (
              record x { llcp = hx }
              ∷ merge_annotated signed (head_llcp xs) xs (record y { llcp = h } ∷ ys))) =
      λ h. (
        px.0,
        merge_annotated-All P signed (head_llcp xs) xs (record y { llcp = h } ∷ ys) px.1 py,
      ) in
    let take_y : (h : ℕ) → All P (strs (y ∷ merge_annotated signed h (x ∷ xs) ys)) =
      λ h. (py.0, merge_annotated-All P signed h (x ∷ xs) ys px py.1) in
    if_both holds (not (hx == y.llcp)) _ _
      (if_both holds (ltb y.llcp hx) _ _ (take_x y.llcp) (take_y hx))
      (if_both holds (char_gt signed (deref k.s1) (deref k.s2)) _ _ (take_y (uint k.lcp))
        (take_x (uint k.lcp)))

pub length-merge_annotated :
    (signed : Bool) (hx : ℕ) (xs ys : List Annotated)
    → length (merge_annotated signed hx xs ys) ≡ length xs + length ys
unfolding merge_annotated
length-merge_annotated signed hx [] ys = omega arith
length-merge_annotated signed hx (x ∷ xs) [] = omega arith
length-merge_annotated signed hx (x ∷ xs) (y ∷ ys) =
    let k = scan (drop hx x.str) (drop hx y.str) hx in
    let size : List Annotated → Type 0 = λ r. length r ≡ suc (length xs) + suc (length ys) in
    let take_x : (h : ℕ)
        → size (
            record x { llcp = hx }
            ∷ merge_annotated signed (head_llcp xs) xs (record y { llcp = h } ∷ ys)) =
      λ h.
        omega
          (arith, length-merge_annotated signed (head_llcp xs) xs (record y { llcp = h } ∷ ys)) in
    let take_y : (h : ℕ) → size (y ∷ merge_annotated signed h (x ∷ xs) ys) =
      λ h. omega (arith, length-merge_annotated signed h (x ∷ xs) ys) in
    if_both size (not (hx == y.llcp)) _ _
      (if_both size (ltb y.llcp hx) _ _ (take_x y.llcp) (take_y hx))
      (if_both size (char_gt signed (deref k.s1) (deref k.s2)) _ _ (take_y (uint k.lcp))
        (take_x (uint k.lcp)))
