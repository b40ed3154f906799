-- ===== src/Permute/Loops.antt =====
-- A cycle completes a bucket, and the loop over the cycles all of them.
use parallel_string_sorting.Prelude.{
  ℕ, zero, suc, ◌+◌, ◌-◌, ◌≤◌, ◌<◌, List, [], ltb, Bool-cases, inl, inr, length, length-set, get_or,
  set, ◌≡◌, sym, ap, subst, ◌∙◌, arith,
}
use parallel_string_sorting.Strings.{Str}
use parallel_string_sorting.Mkqs.{swap}
use parallel_string_sorting.Mkqs.Arrays.{get_or-set}
use parallel_string_sorting.Permute.{Cycle, cycle_loop}
use parallel_string_sorting.Permute.Places.{base_less, set-set, set_comm}
use parallel_string_sorting.Permute.Rounds.{
  IsPlaced, at_start, count_of, i, c, j, i-lt, c-lt, j-le, j-bound, swap-Placed, last_own,
  last-Placed,
}
use parallel_string_sorting.Radix.Arrays.{
  tabulate, base, update, update-same, get_or-tabulate, set-tabulate,
}
use parallel_string_sorting.Radix.Buckets.{Small}

-- The swap with the string in hand is a swap of the array where it has been put back.
hand-swap :
    (a : List Str) (i j : ℕ) (s : Str)
    → i < j
    → j < length a
    → set (set a j s) i (get_or a j []) ≡ swap (set a i s) i j
unfolding swap
hand-swap a i j s h l =
    let n = length-set a i s in
    let far : get_or (set a i s) j [] ≡ get_or a j [] =
      ground (arith, get_or-set a i j s (omega arith)) in
    let near : get_or (set a i s) i [] ≡ s = ground (arith, get_or-set a i i s (omega arith)) in
    rw (far, near, set-set a i s (get_or a j []))
      (sym (set_comm a i j (get_or a j []) s (λ e. omega arith)))

module _ (key : Str → ℕ) (R : ℕ) (orig : List Str) (small : Small key R orig) where
  -- The free places of all the buckets.
  abbrev pub free : (ℕ → ℕ) → ℕ
  free ptr = base (λ k. ptr k - at_start key R orig small k) R

  -- The array with the string in hand put back at the place of the cycle.
  abbrev back : ℕ → Cycle → List Str
  back at s = set s.strings at s.perm

  abbrev pub Completes : ℕ → Cycle → Type 0
  Completes b s =
      (ptr : ℕ → ℕ) × (s.bkt ≡ tabulate R 0 ptr)
      × IsPlaced key R orig small (suc b) ptr (back (at_start key R orig small b) s)
      × (key s.perm ≡ b)
      × (length s.strings ≡ length orig)

  module _ (b : ℕ) (lb : b < R) (used : 0 < count_of key R orig small b) where
    pub cycle_loop-Completes :
        (rounds : ℕ) (s : Cycle) (ptr : ℕ → ℕ)
        → s.bkt ≡ tabulate R 0 ptr
        → IsPlaced key R orig small b ptr (back (at_start key R orig small b) s)
        → length s.strings ≡ length orig
        → free ptr < rounds
        → Completes b (cycle_loop key rounds (at_start key R orig small b) s)
    unfolding cycle_loop
    cycle_loop-Completes zero s ptr e h n m = absurd (omega arith)
    cycle_loop-Completes (suc rounds) s ptr e h n m =
        let at = at_start key R orig small b in
        let a = back at s in
        let inside = i-lt key R orig small b ptr a h lb used in
        let inside' : at < length s.strings = omega (arith, length-set s.strings at s.perm) in
        let hand : get_or a at [] ≡ s.perm =
          ground (arith, get_or-set s.strings at at s.perm inside') in
        let same : c key R orig small b ptr a h lb used ≡ key s.perm = ap key hand in
        let lc : key s.perm < R =
          subst (λ (k : ℕ). k < R) same (c-lt key R orig small b ptr a h lb used) in
        let entry : get_or s.bkt (key s.perm) 0 - 1 ≡ ptr (key s.perm) - 1 =
          ap (λ (k : ℕ). k - 1)
            (ap (λ (t : List ℕ). get_or t (key s.perm) 0) e
              ∙ get_or-tabulate R 0 (key s.perm) (key s.perm) ptr 0 (omega arith) lc) in
        let ptr' = update ptr (key s.perm) (ptr (key s.perm) - 1) in
        let bkt' : set s.bkt (key s.perm) (ptr (key s.perm) - 1) ≡ tabulate R 0 ptr' =
          ap (λ (t : List ℕ). set t (key s.perm) (ptr (key s.perm) - 1)) e
          ∙ set-tabulate R 0 (key s.perm) (key s.perm) ptr (ptr (key s.perm) - 1) (omega arith) in
        elim (Bool-cases (ltb at (ptr (key s.perm) - 1))) [
          | inl on ↦
              let k = key s.perm in
              let lt : at < ptr k - 1 = ground (arith, on) in
              let lt' = subst (λ (k : ℕ). at < ptr k - 1) (sym same) lt in
              let begin =
                subst (λ (k : ℕ). at_start key R orig small k ≤ ptr k - 1) same
                  (j-le key R orig small b ptr a h lb used lt') in
              let bound =
                subst (λ (k : ℕ). ptr k - 1 < length a) same
                  (j-bound key R orig small b ptr a h lb used lt') in
              let swapped =
                subst
                  (λ (k : ℕ).
                    IsPlaced key R orig small b (update ptr k (ptr k - 1)) (swap a at (ptr k - 1)))
                  same (swap-Placed key R orig small b ptr a h lb used lt') in
              let inside_j : ptr k - 1 < length s.strings =
                omega (arith, length-set s.strings at s.perm) in
              let next =
                subst (λ (x : List Str). IsPlaced key R orig small b ptr' x)
                  (sym (hand-swap s.strings at (ptr k - 1) s.perm lt inside_j)) swapped in
              let fewer : free ptr' + 1 ≡ free ptr =
                base_less (λ x. ptr x - at_start key R orig small x)
                  (λ x. ptr' x - at_start key R orig small x) R k lc
                  (rw (update-same ptr k (ptr k - 1)) (omega arith)) (λ x ne. ground (arith, ne)) in
              rw (entry, on)
                (cycle_loop-Completes rounds
                  (record {
                    perm = get_or s.strings (ptr k - 1) [];
                    strings = set s.strings (ptr k - 1) s.perm;
                    bkt = set s.bkt k (ptr k - 1);
                  })
                  ptr' bkt' next (length-set s.strings (ptr k - 1) s.perm ∙ n) (omega arith))
          | inr off ↦
              let k = key s.perm in
              let le : ptr k - 1 ≤ at = ground (arith, off) in
              let le' = subst (λ (k : ℕ). ptr k - 1 ≤ at) (sym same) le in
              let ended =
                subst (λ (k : ℕ). IsPlaced key R orig small (suc b) (update ptr k (ptr k - 1)) a)
                  same (last-Placed key R orig small b ptr a h lb used le') in
              rw (entry, off)
                (ptr', bkt', ended, sym same ∙ last_own key R orig small b ptr a h lb used le', n)
        ]
