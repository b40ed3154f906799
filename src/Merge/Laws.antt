-- ===== src/Merge/Laws.antt =====
-- The merges keep the order, the lcps and the strings.
use mathlib.Core.List.{perm_middle, append-nil}
use mathlib.Core.List.Perm
use parallel_string_sorting.Prelude.{
  ℕ, List, [], ◌∷◌, ◌++◌, false, Bool-cases, ◌==◌, ◌≡◌, refl, inl, inr, ◌⊎◌, arith, drop, set_head,
  Perm, ap,
}
use parallel_string_sorting.Strings.{Str, lex_le, LexLe, lcp}
use parallel_string_sorting.Strings.Order.{LexLe-of_not}
use parallel_string_sorting.Strings.Lcp.{lcp_comm, lcp_trans, lcp-lt}
use parallel_string_sorting.Strings.Scan.{scan, scan_from}
use parallel_string_sorting.Merge.{
  Comparison, lcp_compare, advance, next_lcp, copy_rest, merge_loop, merge_opt_loop,
}
use parallel_string_sorting.Merge.Chain.{LcpChain, LcpChain-take}

-- What lcp_compare reports: which string is the smaller, its lcp, and the lcp of the two.
abbrev pub IsOrdered : ℕ → Str → ℕ → ℕ → Str → Comparison → Type 0
IsOrdered a x lcp_x b y r =
    LexLe x y × (r ≡ record { smaller = a; lcp_smaller = lcp_x; larger = b; lcp_ab = lcp x y })

-- lcp_compare, given the lcps of two strings with one that comes before both, orders the two and
-- finds their lcp; of equal strings the first counts as the smaller.
pub lcp_compare_lem :
    (a b : ℕ) (p x y : Str) (lcp_x lcp_y : ℕ)
    → LexLe p x
    → LexLe p y
    → lcp_x ≡ lcp p x
    → lcp_y ≡ lcp p y
    → IsOrdered a x lcp_x b y (lcp_compare a x lcp_x b y lcp_y)
      ⊎ ((lex_le x y ≡ false) × IsOrdered b y lcp_y a x (lcp_compare a x lcp_x b y lcp_y))
unfolding lcp_compare
lcp_compare_lem a b p x y lcp_x lcp_y lx ly ex ey = ground (
  arith,
  lcp_comm x y,
  lcp_trans lcp_x p x y,
  scan_from lcp_x x y,
  LexLe-of_not x y,
  lcp-lt p x y,
  lcp-lt p y x,
)

-- A stream after `p`, its first lcp kept in a variable of its own.
abbrev pub Stream : Str → List Str → List ℕ → ℕ → Type 0
Stream p input lcps h = LcpChain p input (set_head h lcps)

-- Moving a stream on makes its first string the one that came before.
Stream-next :
    (x : Str) (input : List Str) (ls : List ℕ)
    → LcpChain x input ls
    → Stream x input ls (next_lcp input ls)
Stream-next x [] [] c = tt
Stream-next x [] (l ∷ ls) c = absurd c
Stream-next x (s ∷ input) [] c = absurd c
Stream-next x (s ∷ input) (l ∷ ls) c = c

-- The other stream follows the string that was written as well.
Stream-after :
    (p x y : Str) (input : List Str) (lcps : List ℕ) (h h' : ℕ)
    → Stream p (y ∷ input) lcps h
    → LexLe x y
    → h' ≡ lcp x y
    → Stream x (y ∷ input) lcps h'
Stream-after p x y input [] h h' s l e = absurd s
Stream-after p x y input (l ∷ ls) h h' s le e = (le, e, s.2)

Chain-copy_rest :
    (p : Str) (input : List Str) (lcps : List ℕ) (h : ℕ)
    → Stream p input lcps h
    → LcpChain p (copy_rest input lcps h).strings (copy_rest input lcps h).lcps
Chain-copy_rest p [] [] h s = tt
Chain-copy_rest p [] (l ∷ ls) h s = absurd s
Chain-copy_rest p (x ∷ input) [] h s = absurd s
Chain-copy_rest p (x ∷ input) (l ∷ ls) h s = (s.0, s.1, rw (LcpChain-take x input ls s.2) s.2)

-- From two ascending streams with the right lcps the loop writes an ascending sequence with the
-- right lcps.
pub merge_loop-Chain :
    (p : Str) (input1 : List Str) (lcps1 : List ℕ) (lcp1 : ℕ) (input2 : List Str) (lcps2 : List ℕ)
    (lcp2 : ℕ)
    → Stream p input1 lcps1 lcp1
    → Stream p input2 lcps2 lcp2
    → LcpChain p
        (merge_loop input1 lcps1 lcp1 input2 lcps2 lcp2).strings
        (merge_loop input1 lcps1 lcp1 input2 lcps2 lcp2).lcps
unfolding merge_loop
merge_loop-Chain p [] lcps1 lcp1 input2 lcps2 lcp2 s1 s2 = Chain-copy_rest p input2 lcps2 lcp2 s2
merge_loop-Chain p (x ∷ input1) lcps1 lcp1 [] lcps2 lcp2 s1 s2 =
    Chain-copy_rest p (x ∷ input1) lcps1 lcp1 s1
merge_loop-Chain p (x ∷ input1) [] lcp1 (y ∷ input2) lcps2 lcp2 s1 s2 = absurd s1
merge_loop-Chain p (x ∷ input1) (l ∷ ls) lcp1 (y ∷ input2) [] lcp2 s1 s2 = absurd s2
merge_loop-Chain p (x ∷ input1) (l ∷ ls) lcp1 (y ∷ input2) (m ∷ ms) lcp2 s1 s2 =
    let c = lcp_compare 0 x lcp1 1 y lcp2 in
    elim (lcp_compare_lem 0 1 p x y lcp1 lcp2 s1.0 s2.0 s1.1 s2.1) [
      | inl (le, r) ↦
          rw (ap (λ (c : Comparison). c.smaller) r, merge_loop)
            (
              s1.0,
              s1.1,
              merge_loop-Chain x input1 ls (next_lcp input1 ls) (y ∷ input2) (m ∷ ms) c.lcp_ab
                  (Stream-next x input1 ls s1.2)
                  (Stream-after p x y input2 (m ∷ ms) lcp2 c.lcp_ab s2 le
                    (ap (λ (c : Comparison). c.lcp_ab) r)),
            )
      | inr (_, (le, r)) ↦
          rw (ap (λ (c : Comparison). c.smaller) r, merge_loop)
            (
              s2.0,
              s2.1,
              merge_loop-Chain y (x ∷ input1) (l ∷ ls) c.lcp_ab input2 ms (next_lcp input2 ms)
                  (Stream-after p y x input1 (l ∷ ls) lcp1 c.lcp_ab s1 le
                    (ap (λ (c : Comparison). c.lcp_ab) r))
                  (Stream-next y input2 ms s2.2),
            )
    ]

-- The loop loses and invents no string, whatever the lcps say.
pub merge_loop-perm :
    (input1 : List Str) (lcps1 : List ℕ) (lcp1 : ℕ) (input2 : List Str) (lcps2 : List ℕ) (lcp2 : ℕ)
    → Perm (merge_loop input1 lcps1 lcp1 input2 lcps2 lcp2).strings (input1 ++ input2)
unfolding merge_loop
merge_loop-perm [] lcps1 lcp1 input2 lcps2 lcp2 = Perm.refl input2
merge_loop-perm (x ∷ input1) lcps1 lcp1 [] lcps2 lcp2 =
    rw (append-nil input1) (Perm.refl (x ∷ input1))
merge_loop-perm (x ∷ input1) lcps1 lcp1 (y ∷ input2) lcps2 lcp2 =
    let c = lcp_compare 0 x lcp1 1 y lcp2 in
    elim (Bool-cases (c.smaller == 0)) [
      | inl e ↦
          rw (e, merge_loop)
            (Perm.cons x (merge_loop-perm input1 (advance lcps1) _ (y ∷ input2) lcps2 c.lcp_ab))
      | inr e ↦
          rw (e, merge_loop)
            (Perm.trans
              (Perm.cons y (merge_loop-perm (x ∷ input1) lcps1 c.lcp_ab input2 (advance lcps2) _))
              (Perm.symm (perm_middle (x ∷ input1) input2)))
    ]

-- Writing the comparison out changes nothing: both loops write the same, whatever the lcps say.
pub merge_opt_loop-eq-merge_loop :
    (input1 : List Str) (lcps1 : List ℕ) (lcp1 : ℕ) (input2 : List Str) (lcps2 : List ℕ) (lcp2 : ℕ)
    → merge_opt_loop input1 lcps1 lcp1 input2 lcps2 lcp2
      ≡ merge_loop input1 lcps1 lcp1 input2 lcps2 lcp2
unfolding merge_opt_loop merge_loop lcp_compare
merge_opt_loop-eq-merge_loop [] lcps1 lcp1 input2 lcps2 lcp2 = refl
merge_opt_loop-eq-merge_loop (x ∷ input1) lcps1 lcp1 [] lcps2 lcp2 = refl
merge_opt_loop-eq-merge_loop (x ∷ input1) lcps1 lcp1 (y ∷ input2) lcps2 lcp2 =
    let k = scan (drop lcp1 x) (drop lcp1 y) lcp1 in
    let ih1 = λ (h : ℕ).
      merge_opt_loop-eq-merge_loop input1 (advance lcps1) (next_lcp input1 (advance lcps1))
        (y ∷ input2) lcps2 h in
    let ih2 = λ (h : ℕ).
      merge_opt_loop-eq-merge_loop (x ∷ input1) lcps1 h input2 (advance lcps2)
        (next_lcp input2 (advance lcps2)) in
    ground (arith, ih1 k.lcp, ih1 lcp2, ih2 k.lcp, ih2 lcp1)
