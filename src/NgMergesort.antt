-- ===== src/NgMergesort.antt =====
-- src/sequential/ng-lcpmergesort.cpp: the lcp-mergesort of annotated strings. The merge reads one
-- stream from scratch space, and the other one from the end of the array that it writes. An lcp is kept
-- in 32 bits. The number of strings is one too; ng_lcpmergesort passes on a size_t for it, which is
-- exact below 2^32 strings.
pub mod Streams
pub mod Laws
use parallel_string_sorting.Prelude.{
  ℕ, zero, suc, ◌+◌, ◌-◌, ◌/◌, ◌%◌, ◌^◌, List, [], ◌∷◌, ◌++◌, Bool, true, false, leb, ltb, ◌==◌,
  not, if◌then◌else◌, drop, take, get_or, set, map,
}
use parallel_string_sorting.Strings.{Str, deref}
use parallel_string_sorting.Strings.Scan.{scan}

-- What a UINT holds of a difference of two pointers.
abbrev pub uint : ℕ → ℕ
uint n = n % 2 ^ 32

-- AS: a string and its lcp with the string before, a UINT; what is written to it is cut to 32 bits.
pub record Annotated : Type 0 where
  pub llcp : ℕ
  pub str : Str

abbrev pub unset : Annotated
unset = record { llcp = 0; str = [] }

-- memcpy of what is left of the first stream to the place z.
unfoldable pub copy_to : List Annotated → ℕ → List Annotated → List Annotated
copy_to [] z a = a
copy_to (x ∷ xs) z a = copy_to xs (suc z) (set a z x)

-- `*x > *y` in type `char`, which may be signed: then the bytes from 128 on are negative.
unfoldable pub char_gt : Bool → ℕ → ℕ → Bool
char_gt signed x y = if signed then ltb ((y + 128) % 256) ((x + 128) % 256) else ltb y x

-- `pX->llcp` of a stream; the loop changes it in place, and the model keeps it in a variable.
abbrev pub head_llcp : List Annotated → ℕ
head_llcp [] = 0
head_llcp (x ∷ xs) = x.llcp

-- The loop: the first stream, with the current lcp of its first string; the number of strings that
-- are left of the second stream, which stands in the array `a` from index y on; and the index z
-- that is written next.
unfoldable pub lcpm_loop : Bool → ℕ → List Annotated → ℕ → List Annotated → ℕ → ℕ → List Annotated
unfolding copy_to scan char_gt
lcpm_loop signed hx [] left a y z = a
lcpm_loop signed hx (x ∷ xs) zero a y z = copy_to (record x { llcp = hx } ∷ xs) z a
lcpm_loop signed hx (x ∷ xs) (suc left) a y z =
    let py = get_or a y unset in
    let k = scan (drop hx x.str) (drop hx py.str) hx in
    let take_x = λ (b : List Annotated).
      lcpm_loop signed (head_llcp xs) xs (suc left) (set b z (record x { llcp = hx })) y (suc z) in
    let take_y = λ (h : ℕ). lcpm_loop signed h (x ∷ xs) left (set a z py) (suc y) (suc z) in
    if not (hx == py.llcp)
    then (if ltb py.llcp hx then take_x a else take_y hx)
    else if char_gt signed (deref k.s1) (deref k.s2)
    then take_y (uint k.lcp)
    else take_x (set a y (record py { llcp = uint k.lcp }))

unfoldable pub lcpm : Bool → List Annotated → List Annotated → ℕ → ℕ → List Annotated
unfolding lcpm_loop
lcpm signed px px_array y n = lcpm_loop signed (head_llcp px) px (n - y) px_array y 0

-- The recursion on the first n entries of pX, on fuel. The scratch space holds nothing that a call
-- reads before it writes it.
unfoldable pub lcpms_i : Bool → ℕ → List Annotated → ℕ → List Str → List Annotated
unfolding lcpm
lcpms_i signed zero px n str = px
lcpms_i signed (suc fuel) px n str =
    let l = n / 2 in
    let low = lcpms_i signed fuel (take l px) l str in
    let high = lcpms_i signed fuel (drop l px) (n - l) (drop l str) in
    if ltb 1 n
    then lcpm signed low (low ++ high) l n
    else set px 0 (record { llcp = 0; str = get_or str 0 [] })

-- The last merge, which writes only the strings. Both streams keep the lcp of their first string in
-- a variable.
unfoldable pub lcpm_f : Bool → ℕ → List Annotated → ℕ → List Annotated → List Str
unfolding scan char_gt
lcpm_f signed hx [] hy ys = map (λ (y : Annotated). y.str) ys
lcpm_f signed hx (x ∷ xs) hy [] = map (λ (x : Annotated). x.str) (x ∷ xs)
lcpm_f signed hx (x ∷ xs) hy (y ∷ ys) =
    let k = scan (drop hx x.str) (drop hx y.str) hx in
    let take_x = λ (h : ℕ). x.str ∷ lcpm_f signed (head_llcp xs) xs h (y ∷ ys) in
    let take_y = λ (h : ℕ). y.str ∷ lcpm_f signed h (x ∷ xs) (head_llcp ys) ys in
    if not (hx == hy)
    then (if ltb hy hx then take_x hy else take_y hx)
    else if char_gt signed (deref k.s1) (deref k.s2)
    then take_y (uint k.lcp)
    else take_x (uint k.lcp)

-- The whole sort of the first n strings of `str`, with `px` the array that malloc returns. (The
-- scratch space of the recursive calls lies over the part of `str` that they have read.)
unfoldable pub lcpms : Bool → List Annotated → List Str → ℕ → List Str
unfolding lcpms_i lcpm_f
lcpms signed px str n =
    let l = n / 2 in
    let low = lcpms_i signed l (take l px) l str in
    let high = lcpms_i signed (n - l) (drop l px) (n - l) (drop l str) in
    lcpm_f signed (head_llcp low) low (head_llcp high) high
