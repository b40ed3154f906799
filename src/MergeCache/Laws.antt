-- ===== src/MergeCache/Laws.antt =====
-- The merge with cached bytes keeps the order, the lcps, the bytes and the strings.
use mathlib.Core.List.{perm_middle, append-nil}
use mathlib.Core.List.Perm
use parallel_string_sorting.Prelude.{
  ℕ, suc, ◌≤◌, List, [], ◌∷◌, ◌++◌, Bool, true, not, ltb, ◌==◌, if_split, if_both, drop, set_head,
  ◌≡◌, refl, sym, ap, ◌∙◌, arith, Perm,
}
use parallel_string_sorting.Strings.{Str, deref, lex_le, LexLe, lcp}
use parallel_string_sorting.Strings.Order.{LexLe-of_not}
use parallel_string_sorting.Strings.Lcp.{lcp_comm, lcp_trans, lcp-lt}
use parallel_string_sorting.Strings.Scan.{scan, scan_entry, scan_ends}
use parallel_string_sorting.MergeCache.{
  LcpCacheStrings, scan_cached, Stream, step, merge_cache_loop, lcp_merge_binary_cache_opt,
  first_char,
}
use parallel_string_sorting.MergeCache.Chain.{
  CacheChain, IsStream, CacheChain-copy_rest, chain_head, chain_step, chain_after,
}

-- With the right bytes to start from the loop ends where the loop over pointers ends.
scan_cached-eq-scan :
    (s t : Str) (h : ℕ)
    → let k = scan s t h in
      scan_cached s t (deref s) (deref t) h
      ≡ record { ch1 = deref k.s1; ch2 = deref k.s2; lcp = k.lcp }
unfolding scan_cached scan
scan_cached-eq-scan [] t h = refl
scan_cached-eq-scan (c ∷ s) [] h = ground arith
scan_cached-eq-scan (c ∷ s) (e ∷ t) h = ground (arith, scan_cached-eq-scan s t (suc h))

-- The end of the loop over equal bytes, from a common prefix and the bytes behind it on.
scan_cached_from :
    (h h' c c' : ℕ) (x y : Str)
    → h ≤ lcp x y
    → h ≡ h'
    → c ≡ deref (drop h x)
    → c' ≡ deref (drop h' y)
    → let k = scan_cached (drop h x) (drop h' y) c c' h in
      (k.lcp ≡ lcp x y)
      × (k.ch1 ≡ deref (drop k.lcp x))
      × (k.ch2 ≡ deref (drop k.lcp y))
      × (not (ltb k.ch1 k.ch2) ≡ lex_le y x)
scan_cached_from h h' c c' x y p same e e' =
    let s = scan_cached-eq-scan (drop h x) (drop h y) h in
    let (found, order) = scan_entry h x y p in
    let (end1, end2) = scan_ends h x y p in
    rw (← same, e, rw (← same) at e', s)
      (
        found,
        ap deref (end1 ∙ ap (λ (n : ℕ). drop n x) (sym found)),
        ap deref (end2 ∙ ap (λ (n : ℕ). drop n y) (sym found)),
        order,
      )

-- From two streams that ascend after a common string, with the right lcps and bytes, the loop
-- writes a sequence that ascends after it, with the right lcps and bytes.
pub merge_cache_loop-Chain :
    (p : Str) (input1 : List Str) (st1 : Stream) (input2 : List Str) (st2 : Stream)
    → IsStream p input1 st1
    → IsStream p input2 st2
    → let r = merge_cache_loop true true input1 st1 input2 st2 in
      CacheChain p r.strings r.lcps r.cache
unfolding merge_cache_loop
merge_cache_loop-Chain p [] st1 input2 st2 s1 s2 = CacheChain-copy_rest p input2 st2 s2
merge_cache_loop-Chain p (x ∷ input1) st1 [] st2 s1 s2 = CacheChain-copy_rest p (x ∷ input1) st1 s1
merge_cache_loop-Chain p (x ∷ input1) st1 (y ∷ input2) st2 s1 s2 =
    let (le1, e1, c1, rest1) = chain_head p x input1 st1.lcps st1.cache st1.lcp st1.ch s1 in
    let (le2, e2, c2, rest2) = chain_head p y input2 st2.lcps st2.cache st2.lcp st2.ch s2 in
    let k = scan_cached (drop st1.lcp x) (drop st2.lcp y) st1.ch st2.ch st1.lcp in
    let ascends : LcpCacheStrings → Type 0 = λ r. CacheChain p r.strings r.lcps r.cache in
    let after1 = λ (h c : ℕ). chain_after p y x input1 st1.lcps st1.cache st1.lcp st1.ch h c s1 in
    let after2 = λ (h c : ℕ). chain_after p x y input2 st2.lcps st2.cache st2.lcp st2.ch h c s2 in
    if_split ascends (st1.lcp == st2.lcp) _ _
      (λ eq.
        let same : st1.lcp ≡ st2.lcp = ground arith in
        let shared = lcp_trans st1.lcp p x y (omega arith) (omega arith) in
        let (found, ch1, ch2, order) =
          scan_cached_from st1.lcp st2.lcp st1.ch st2.ch x y shared same c1 c2 in
        if_split ascends (ltb k.ch1 k.ch2) _ _
          (λ lt.
            let le = LexLe-of_not y x (sym order ∙ ap not lt) in
            (
              le1,
              e1,
              c1,
              merge_cache_loop-Chain x input1 _ (y ∷ input2) _ (chain_step x input1 st1 k.ch1 rest1)
                  (after2 k.lcp k.ch2 le found ch2),
            ))
          (λ ge.
            let le : LexLe y x = sym order ∙ ap not ge in
            (
              le2,
              e2,
              c2,
              merge_cache_loop-Chain y (x ∷ input1) _ input2 _
                  (after1 k.lcp k.ch1 le (found ∙ lcp_comm x y) ch1)
                  (chain_step y input2 st2 k.ch2 rest2),
            )))
      (λ ne.
        if_split ascends (ltb st1.lcp st2.lcp) _ _
          (λ lt.
            let (le, _, e) = lcp-lt p y x le2 le1 (ground arith) in
            (
              le2,
              e2,
              c2,
              merge_cache_loop-Chain y (x ∷ input1) _ input2 _
                  (after1 st1.lcp st1.ch le (e1 ∙ sym e) c1) (chain_step y input2 st2 st2.ch rest2),
            ))
          (λ ge.
            let (le, _, e) = lcp-lt p x y le1 le2 (ground arith) in
            (
              le1,
              e1,
              c1,
              merge_cache_loop-Chain x input1 _ (y ∷ input2) _
                  (chain_step x input1 st1 st1.ch rest1) (after2 st2.lcp st2.ch le (e2 ∙ sym e) c2),
            )))

-- The loop writes exactly the strings of its streams, whatever the lcps and bytes say.
pub merge_cache_loop-perm :
    (with_lcp with_cache : Bool) (input1 : List Str) (st1 : Stream) (input2 : List Str)
    (st2 : Stream)
    → Perm (merge_cache_loop with_lcp with_cache input1 st1 input2 st2).strings (input1 ++ input2)
unfolding merge_cache_loop
merge_cache_loop-perm o c [] st1 input2 st2 = Perm.refl input2
merge_cache_loop-perm o c (x ∷ input1) st1 [] st2 = rw (append-nil input1) (Perm.refl (x ∷ input1))
merge_cache_loop-perm o c (x ∷ input1) st1 (y ∷ input2) st2 =
    let keeps : LcpCacheStrings → Type 0 = λ r. Perm r.strings (x ∷ input1 ++ y ∷ input2) in
    let take1 = λ (own other : Stream).
      Perm.cons x (merge_cache_loop-perm o c input1 (step input1 own) (y ∷ input2) other) in
    let take2 = λ (other own : Stream).
      Perm.trans
        (Perm.cons y (merge_cache_loop-perm o c (x ∷ input1) other input2 (step input2 own)))
        (Perm.symm (perm_middle (x ∷ input1) input2)) in
    if_both keeps (st1.lcp == st2.lcp) _ _ (if_both keeps _ _ _ (take1 _ _) (take2 _ _))
      (if_both keeps (ltb st1.lcp st2.lcp) _ _ (take2 st1 st2) (take1 st1 st2))

-- Which arrays are written does not change the order of the strings.
pub merge_cache_loop-strings :
    (with_lcp with_cache : Bool) (input1 : List Str) (st1 : Stream) (input2 : List Str)
    (st2 : Stream)
    → (merge_cache_loop with_lcp with_cache input1 st1 input2 st2).strings
      ≡ (merge_cache_loop true true input1 st1 input2 st2).strings
unfolding merge_cache_loop
merge_cache_loop-strings o c [] st1 input2 st2 = refl
merge_cache_loop-strings o c (x ∷ input1) st1 [] st2 = refl
merge_cache_loop-strings o c (x ∷ input1) st1 (y ∷ input2) st2 =
    let k = scan_cached (drop st1.lcp x) (drop st2.lcp y) st1.ch st2.ch st1.lcp in
    let ih1 = λ (own other : Stream).
      merge_cache_loop-strings o c input1 (step input1 own) (y ∷ input2) other in
    let ih2 = λ (other own : Stream).
      merge_cache_loop-strings o c (x ∷ input1) other input2 (step input2 own) in
    ground (
      arith,
      ih1 (record st1 { ch = k.ch1 }) (record st2 { lcp = k.lcp; ch = k.ch2 }),
      ih2 (record st1 { lcp = k.lcp; ch = k.ch1 }) (record st2 { ch = k.ch2 }),
      ih2 st1 st2,
      ih1 st1 st2,
    )

-- Ascending strings with the right lcps and bytes from the second on.
abbrev pub IsCacheSorted : List Str → List ℕ → List ℕ → Type 0
IsCacheSorted [] [] [] = Unit
IsCacheSorted [] [] (c ∷ cs) = ⊥
IsCacheSorted [] (h ∷ hs) cs = ⊥
IsCacheSorted (x ∷ ss) [] cs = ⊥
IsCacheSorted (x ∷ ss) (h ∷ hs) [] = ⊥
IsCacheSorted (x ∷ ss) (h ∷ hs) (c ∷ cs) = CacheChain x ss hs cs

IsCacheSorted-CacheChain :
    (ss : List Str) (hs cs : List ℕ)
    → IsCacheSorted ss hs cs
    → CacheChain [] ss (set_head 0 hs) (set_head (first_char ss 0) cs)
unfolding lcp lex_le
IsCacheSorted-CacheChain [] [] [] s = tt
IsCacheSorted-CacheChain [] [] (c ∷ cs) s = absurd s
IsCacheSorted-CacheChain [] (h ∷ hs) cs s = absurd s
IsCacheSorted-CacheChain (x ∷ ss) [] cs s = absurd s
IsCacheSorted-CacheChain (x ∷ ss) (h ∷ hs) [] s = absurd s
IsCacheSorted-CacheChain (x ∷ ss) (h ∷ hs) (c ∷ cs) s = (refl, refl, refl, s)

CacheChain-IsCacheSorted :
    (p : Str) (ss : List Str) (hs cs : List ℕ) → CacheChain p ss hs cs → IsCacheSorted ss hs cs
CacheChain-IsCacheSorted p [] [] [] s = tt
CacheChain-IsCacheSorted p [] [] (c ∷ cs) s = absurd s
CacheChain-IsCacheSorted p [] (h ∷ hs) cs s = absurd s
CacheChain-IsCacheSorted p (x ∷ ss) [] cs s = absurd s
CacheChain-IsCacheSorted p (x ∷ ss) (h ∷ hs) [] s = absurd s
CacheChain-IsCacheSorted p (x ∷ ss) (h ∷ hs) (c ∷ cs) s = s.3

-- lcp_merge_binary_cache_opt, with both outputs and from depth 0, merges two sorted arrays with
-- lcps and bytes into one, with the right lcps and bytes from the second string on.
pub lcp_merge_binary_cache_opt-sorts :
    (p q : LcpCacheStrings)
    → IsCacheSorted p.strings p.lcps p.cache
    → IsCacheSorted q.strings q.lcps q.cache
    → let r = lcp_merge_binary_cache_opt true true p q 0 in
      IsCacheSorted r.strings r.lcps r.cache × Perm r.strings (p.strings ++ q.strings)
unfolding lcp_merge_binary_cache_opt
lcp_merge_binary_cache_opt-sorts p q sp sq = (
  CacheChain-IsCacheSorted [] _ _ _ (
      merge_cache_loop-Chain [] p.strings _ q.strings _
        (IsCacheSorted-CacheChain p.strings p.lcps p.cache sp)
        (IsCacheSorted-CacheChain q.strings q.lcps q.cache sq)),
  merge_cache_loop-perm true true p.strings _ q.strings _,
)
