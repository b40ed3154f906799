-- ===== src/Mergesort/Laws.antt =====
-- Both mergesorts sort, with the right lcps, whatever the temporary array holds.
use mathlib.Core.List.Perm
use parallel_string_sorting.Prelude.{
  ℕ, zero, suc, ◌-◌, ◌/◌, ◌≤◌, ◌<◌, List, [], ◌∷◌, ◌++◌, Bool, true, false, Bool-cases, inl, inr,
  not, leb, length, set_head, get_or, ◌≡◌, refl, arith, Perm, length-take, length-drop,
  take-append-drop,
}
use parallel_string_sorting.Strings.{Str, lcp, lex_le}
use parallel_string_sorting.Merge.{LcpStrings, lcp_merge_binary, lcp_merge_binary_opt}
use parallel_string_sorting.Merge.Chain.{LcpChain}
use parallel_string_sorting.Merge.Laws.{
  merge_loop-Chain, merge_loop-perm, merge_opt_loop-eq-merge_loop,
}
use parallel_string_sorting.LcpInsertion.{lcp_insertion_sort}
use parallel_string_sorting.LcpInsertion.Laws.{IsLcpSorted, lcp_insertion_sort-sorts}
use parallel_string_sorting.LcpInsertion.Rounds.{Shares}
use parallel_string_sorting.Mergesort.{
  Buffers, out, put, lower, upper, prefix, suffix, sort_top, sort_leaf, sort_buffers,
  lcp_mergesort_binary, lcp_mergesort_binary_opt,
}

-- `r` holds the strings `xs` in order, with the right lcps from the second on.
abbrev pub IsLcpSortOf : List Str → LcpStrings → Type 0
IsLcpSortOf xs r = IsLcpSorted r.strings r.lcps × Perm r.strings xs

-- The arrays have n places for strings and lcps.
pub record HasSize (n : ℕ) (p : LcpStrings) : Type 0 where
  pub strings : length p.strings ≡ n
  pub lcps : length p.lcps ≡ n

-- The empty string comes before all strings and shares nothing with them.
IsLcpSorted-Chain :
    (ss : List Str) (hs : List ℕ) → IsLcpSorted ss hs → LcpChain [] ss (set_head 0 hs)
unfolding lcp lex_le
IsLcpSorted-Chain [] [] s = tt
IsLcpSorted-Chain [] (h ∷ hs) s = absurd s
IsLcpSorted-Chain (x ∷ ss) [] s = absurd s
IsLcpSorted-Chain (x ∷ ss) (h ∷ hs) s = (refl, refl, s)

Chain-IsLcpSorted : (p : Str) (ss : List Str) (hs : List ℕ) → LcpChain p ss hs → IsLcpSorted ss hs
Chain-IsLcpSorted p [] [] c = tt
Chain-IsLcpSorted p [] (h ∷ hs) c = absurd c
Chain-IsLcpSorted p (x ∷ ss) [] c = absurd c
Chain-IsLcpSorted p (x ∷ ss) (h ∷ hs) c = c.2

-- What a merge has to do for the sort.
abbrev pub Merges : (LcpStrings → LcpStrings → LcpStrings) → Type 0
Merges merge =
    (p q : LcpStrings)
    → IsLcpSorted p.strings p.lcps
    → IsLcpSorted q.strings q.lcps
    → IsLcpSortOf (p.strings ++ q.strings) (merge p q)

-- lcp_merge_binary merges two sorted arrays into one, with the right lcps, from depth 0.
pub lcp_merge_binary-Merges : Merges (λ p q. lcp_merge_binary p q 0)
unfolding lcp_merge_binary
lcp_merge_binary-Merges p q sp sq = (
  Chain-IsLcpSorted [] _ _ (
      merge_loop-Chain [] p.strings p.lcps 0 q.strings q.lcps 0
        (IsLcpSorted-Chain p.strings p.lcps sp) (IsLcpSorted-Chain q.strings q.lcps sq)),
  merge_loop-perm p.strings p.lcps 0 q.strings q.lcps 0,
)

pub lcp_merge_binary_opt-eq :
    (p q : LcpStrings) (depth : ℕ) → lcp_merge_binary_opt p q depth ≡ lcp_merge_binary p q depth
unfolding lcp_merge_binary lcp_merge_binary_opt
lcp_merge_binary_opt-eq p q depth =
    merge_opt_loop-eq-merge_loop p.strings p.lcps depth q.strings q.lcps depth

pub lcp_merge_binary_opt-Merges : Merges (λ p q. lcp_merge_binary_opt p q 0)
lcp_merge_binary_opt-Merges p q sp sq =
    rw (lcp_merge_binary_opt-eq p q 0) (lcp_merge_binary-Merges p q sp sq)

pub Shares-zero : (r : Str) (xs : List Str) → Shares r 0 xs
Shares-zero r [] = tt
Shares-zero r (x ∷ xs) = (omega arith, Shares-zero r xs)

pub out-put : (to_tmp : Bool) (b : Buffers) (r : LcpStrings) → out to_tmp (put to_tmp r b) ≡ r
out-put true b r = refl
out-put false b r = refl

sort_leaf-sorts :
    (to_tmp : Bool) (b : Buffers) (n : ℕ)
    → 0 < n
    → length b.main.strings ≡ n
    → length (out to_tmp b).lcps ≡ n
    → IsLcpSortOf b.main.strings (out to_tmp (sort_leaf to_tmp b n))
unfolding sort_leaf
sort_leaf-sorts to_tmp b n pos ss hs =
    rw (out-put to_tmp b _) (leaf_arrays b.main.strings (out to_tmp b).lcps n pos ss hs)
  where
    leaf_arrays :
        (xs : List Str) (hs : List ℕ) (n : ℕ)
        → 0 < n
        → length xs ≡ n
        → length hs ≡ n
        → let r = lcp_insertion_sort false (record { strings = xs; lcps = hs; cache = [] }) n 0 in
          IsLcpSortOf xs (record { strings = r.strings; lcps = r.lcps })
    leaf_arrays [] hs n pos ss h = absurd (omega arith)
    leaf_arrays (x ∷ xs) [] n pos ss h = absurd (omega arith)
    leaf_arrays (x ∷ xs) (l0 ∷ hs) n pos ss h =
        let (s, p, _) =
          lcp_insertion_sort-sorts false [] 0 l0 x xs hs [] (omega arith)
            (Shares-zero [] (x ∷ xs)) in
        rw (← ss) (s, p)

HasSize-prefix : (k n : ℕ) (p : LcpStrings) → k ≤ n → HasSize n p → HasSize k (prefix k p)
HasSize-prefix k n p h s =
    let a = length-take k p.strings in
    let b = length-take k p.lcps in record { strings = omega arith; lcps = omega arith }

HasSize-suffix : (k n : ℕ) (p : LcpStrings) → HasSize n p → HasSize (n - k) (suffix k p)
HasSize-suffix k n p s =
    let a = length-drop k p.strings in
    let b = length-drop k p.lcps in record { strings = omega arith; lcps = omega arith }

out-HasSize :
    (to_tmp : Bool) (n : ℕ) (b : Buffers)
    → HasSize n b.main
    → HasSize n b.tmp
    → HasSize n (out to_tmp b)
out-HasSize true n b m t = t
out-HasSize false n b m t = m

module _ (merge : LcpStrings → LcpStrings → LcpStrings) (merges : Merges merge) where
  -- With fuel for the length the recursion sorts the range into the array that it is told.
  pub sort_buffers-sorts :
      (fuel : ℕ) (to_tmp : Bool) (b : Buffers) (n : ℕ)
      → n ≤ fuel
      → 0 < n
      → HasSize n b.main
      → HasSize n b.tmp
      → IsLcpSortOf b.main.strings (out to_tmp (sort_buffers merge fuel to_tmp b n))
  unfolding sort_buffers
  sort_buffers-sorts zero to_tmp b n f pos m t = absurd (omega arith)
  sort_buffers-sorts (suc fuel) to_tmp b n f pos m t = elim (Bool-cases (leb n 32)) [
    | inl short ↦
        rw short (sort_leaf-sorts to_tmp b n pos m.strings (out-HasSize to_tmp n b m t).lcps)
    | inr long ↦
        let h : 32 < n = ground arith in
        let k = n / 2 in
        let low =
          sort_buffers-sorts fuel (not to_tmp) (lower k b) k (omega arith) (omega arith)
            (HasSize-prefix k n b.main (omega arith) m)
            (HasSize-prefix k n b.tmp (omega arith) t) in
        let high =
          sort_buffers-sorts fuel (not to_tmp) (upper k b) (n - k) (omega arith) (omega arith)
            (HasSize-suffix k n b.main m) (HasSize-suffix k n b.tmp t) in
        let (ordered, same) = merges _ _ low.0 high.0 in
        rw (long, out-put to_tmp _ _)
          (ordered, rw take-append-drop at (Perm.trans same (Perm.append low.1 high.1)))
  ]

  sort_top-sorts :
      (output tmp : LcpStrings) (n : ℕ)
      → 0 < n
      → HasSize n output
      → HasSize n tmp
      → IsLcpSortOf output.strings (sort_top merge output tmp n)
        × (get_or (sort_top merge output tmp n).lcps 0 42 ≡ 42)
  sort_top-sorts output tmp n pos m t =
      let r = (sort_buffers merge n false (record { main = output; tmp = tmp }) n).main in
      let (s, p) =
        sort_buffers-sorts n false (record { main = output; tmp = tmp }) n (omega arith) pos m t in
      ((first_free r.strings r.lcps s, p), first r.lcps)
    where
      first_free :
          (ss : List Str) (hs : List ℕ) → IsLcpSorted ss hs → IsLcpSorted ss (set_head 42 hs)
      first_free [] [] s = s
      first_free [] (h ∷ hs) s = absurd s
      first_free (x ∷ ss) [] s = absurd s
      first_free (x ∷ ss) (h ∷ hs) s = s

      first : (hs : List ℕ) → get_or (set_head 42 hs) 0 42 ≡ 42
      first [] = refl
      first (h ∷ hs) = refl

-- lcp_mergesort_binary sorts an array that is not empty, sets the lcps from the second on to those
-- with the string before and the first one to 42, whatever the lcp array and the temporary arrays
-- held.
pub lcp_mergesort_binary-sorts :
    (output tmp : LcpStrings) (n : ℕ)
    → 0 < n
    → HasSize n output
    → HasSize n tmp
    → IsLcpSortOf output.strings (lcp_mergesort_binary output tmp n)
      × (get_or (lcp_mergesort_binary output tmp n).lcps 0 42 ≡ 42)
unfolding lcp_mergesort_binary
lcp_mergesort_binary-sorts = sort_top-sorts (λ p q. lcp_merge_binary p q 0) lcp_merge_binary-Merges

-- lcp_mergesort_binary_opt does the same.
pub lcp_mergesort_binary_opt-sorts :
    (output tmp : LcpStrings) (n : ℕ)
    → 0 < n
    → HasSize n output
    → HasSize n tmp
    → IsLcpSortOf output.strings (lcp_mergesort_binary_opt output tmp n)
      × (get_or (lcp_mergesort_binary_opt output tmp n).lcps 0 42 ≡ 42)
unfolding lcp_mergesort_binary_opt
lcp_mergesort_binary_opt-sorts =
    sort_top-sorts (λ p q. lcp_merge_binary_opt p q 0) lcp_merge_binary_opt-Merges
