-- ===== src/Checker/Prefix.antt =====
-- The distinguishing prefix of a sorted array, against its definition over all pairs of strings.
use Prim.Native.Nat.{max}
use parallel_string_sorting.Prelude.{
  ℕ, suc, ◌+◌, ◌-◌, ◌≤◌, List, [], ◌∷◌, ltb, if◌then◌else◌, All, IsSorted, ◌≡◌, refl, arith,
}
use parallel_string_sorting.Strings.{Str, lcp, LexLe, lex_le}
use parallel_string_sorting.Strings.Order.{LexLe-trans}
use parallel_string_sorting.Strings.Lcp.{lcp_comm}
use parallel_string_sorting.Checker.{Prefixes, depth_loop, prefix_loop, calc_distinguishing_prefix}

-- The bytes by which `s` differs from each of the strings: one more than it shares with any.
abbrev pub needed : Str → List Str → ℕ
needed s [] = 0
needed s (t ∷ ts) = max (lcp s t + 1) (needed s ts)

-- The sum of these over an array, each string against all others: those before it, the last one
-- first, and those after it.
abbrev pub all_needed : List Str → List Str → ℕ
all_needed before [] = 0
all_needed before (s ∷ ss) = max (needed s before) (needed s ss) + all_needed (s ∷ before) ss

-- The lcps of neighbours.
abbrev pub lcp_sum : Str → List Str → ℕ
lcp_sum s [] = 0
lcp_sum s (t ∷ ss) = lcp s t + lcp_sum t ss

depth_loop_lem : (s t : Str) (h : ℕ) → depth_loop s t h ≡ lcp s t + h
unfolding depth_loop lcp
depth_loop_lem [] t h = ground arith
depth_loop_lem (c ∷ s) [] h = ground arith
depth_loop_lem (c ∷ s) (e ∷ t) h = ground (arith, depth_loop_lem s t (suc h))

lcp-between : (a b c : Str) → LexLe a b → LexLe b c → lcp a c ≤ lcp a b
unfolding lcp lex_le
lcp-between [] b c p q = omega arith
lcp-between (x ∷ a) [] c p q = absurd (ground arith)
lcp-between (x ∷ a) (y ∷ b) [] p q = absurd (ground arith)
lcp-between (x ∷ a) (y ∷ b) (z ∷ c) p q = ground (arith, lcp-between a b c)

lcp-between_last : (a b c : Str) → LexLe a b → LexLe b c → lcp c a ≤ lcp c b
unfolding lcp lex_le
lcp-between_last [] b [] p q = omega arith
lcp-between_last [] b (z ∷ c) p q = omega arith
lcp-between_last (x ∷ a) [] c p q = absurd (ground arith)
lcp-between_last (x ∷ a) (y ∷ b) [] p q = absurd (ground arith)
lcp-between_last (x ∷ a) (y ∷ b) (z ∷ c) p q = ground (arith, lcp-between_last a b c)

-- A neighbour shares the most.
needed-after :
    (s t : Str) (ss : List Str) → LexLe s t → All (LexLe t) ss → needed s (t ∷ ss) ≡ lcp s t + 1
needed-after s t [] p h = omega arith
needed-after s t (u ∷ ss) p h = omega (arith, needed-after s t ss p h.1, lcp-between s t u p h.0)

needed-before :
    (s t : Str) (ss : List Str)
    → LexLe t s
    → All (λ u. LexLe u t) ss
    → needed s (t ∷ ss) ≡ lcp s t + 1
needed-before s t [] p h = omega arith
needed-before s t (u ∷ ss) p h =
    omega (arith, needed-before s t ss p h.1, lcp-between_last u t s h.0 p)

prefix_loop_lem :
    (before : List Str) (s : Str) (ss : List Str) (r : Prefixes) (pdepth : ℕ)
    → pdepth ≡ needed s before
    → IsSorted LexLe (s ∷ ss)
    → IsSorted (λ x y. LexLe y x) (s ∷ before)
    → ((prefix_loop pdepth s ss r).distinguishing + pdepth
        ≡ r.distinguishing + all_needed before (s ∷ ss))
      × ((prefix_loop pdepth s ss r).lcpsum ≡ r.lcpsum + lcp_sum s ss)
unfolding prefix_loop
prefix_loop_lem before s [] r pdepth e up down = (omega arith, omega arith)
prefix_loop_lem before s (t ∷ ss) r pdepth e up down =
    let h = depth_loop s t 0 in
    let shared : h ≡ lcp s t = omega (arith, depth_loop_lem s t 0) in
    let same : h + 1 ≡ needed t (s ∷ before) =
      omega (arith, shared, needed-before t s before up.0.0 down.0, lcp_comm s t) in
    let d =
      (if ltb pdepth (h + 1) then r.distinguishing + (h + 1 - pdepth) else r.distinguishing)
      + (h + 1) in
    let step : d + pdepth ≡ r.distinguishing + max pdepth (h + 1) + (h + 1) = ground arith in
    let ih =
      prefix_loop_lem (s ∷ before) t ss (record { distinguishing = d; lcpsum = r.lcpsum + h })
        (h + 1) same up.1 ((up.0.0, all_below t s before up.0.0 down.0), down) in
    (
      omega (arith, ih.0, step, e, shared, needed-after s t ss up.0.0 up.1.0),
      omega (arith, ih.1, shared),
    )
  where
    all_below :
        (t s : Str) (before : List Str)
        → LexLe s t
        → All (λ u. LexLe u s) before
        → All (λ u. LexLe u t) before
    all_below t s [] p h = tt
    all_below t s (u ∷ before) p h = (LexLe-trans u s t h.0 p, all_below t s before p h.1)

-- calc_distinguishing_prefix, on a sorted array, returns the sum over its strings of the bytes that
-- tell a string from all the others, and adds the lcps of neighbours to lcpsum.
pub calc_distinguishing_prefix_lem :
    (s : Str) (ss : List Str) (lcpsum : ℕ)
    → IsSorted LexLe (s ∷ ss)
    → calc_distinguishing_prefix (s ∷ ss) lcpsum
      ≡ record { distinguishing = all_needed [] (s ∷ ss); lcpsum = lcpsum + lcp_sum s ss }
unfolding calc_distinguishing_prefix
calc_distinguishing_prefix_lem s ss lcpsum up =
    let (d, l) =
      prefix_loop_lem [] s ss (record { distinguishing = 0; lcpsum = lcpsum }) 0 refl up (tt, tt) in
    ground (arith, d, l)
