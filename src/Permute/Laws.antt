-- ===== src/Permute/Laws.antt =====
-- The permutation in place leaves every string in the bucket of its key.
use mathlib.Core.List.Perm
use parallel_string_sorting.Prelude.{
  ℕ, zero, suc, ◌+◌, ◌-◌, ◌≤◌, ◌<◌, List, [], ◌∷◌, ◌==◌, ==_iff, ltb, Bool-cases, inl, inr, length,
  length-perm, get_or, set, Perm, ◌≡◌, ◌≢◌, refl, sym, ap, subst, ◌∙◌, arith,
}
use parallel_string_sorting.Strings.{Str}
use parallel_string_sorting.Permute.{Cycle, cycle_loop, permute_loop, permute, inclusive_sum}
use parallel_string_sorting.Radix.{zeros, count_loop}
use parallel_string_sorting.Radix.Distribute.{counts-eq}
use parallel_string_sorting.Permute.Places.{
  before, base_le, next_used, last_size_lem, inclusive_sum-tabulate,
}
use parallel_string_sorting.Permute.Invariant.{IsFull, total, in_bounds, key_at-lt, own_bucket}
use parallel_string_sorting.Permute.Rounds.{IsPlaced, at_start, count_of}
use parallel_string_sorting.Permute.Loops.{free, cycle_loop-Completes}
use parallel_string_sorting.Radix.Arrays.{tabulate, base_mono, get_or-tabulate}
use parallel_string_sorting.Radix.Buckets.{Small}

set-get : (a : List Str) (i : ℕ) → set a i (get_or a i []) ≡ a
set-get [] i = refl
set-get (x ∷ a) zero = refl
set-get (x ∷ a) (suc i) = ap (◌∷◌ x) (set-get a i)

module _ (key : Str → ℕ) (R : ℕ) (orig : List Str) (small : Small key R orig) where
  abbrev start : ℕ → ℕ
  start = at_start key R orig small

  abbrev size : ℕ → ℕ
  size = count_of key R orig small

  -- Every string stands in the bucket of its key.
  abbrev pub IsBucketed : List Str → Type 0
  IsBucketed a = Perm a orig × ((c : ℕ) → c < R → IsFull key R orig small a c)

  module _ (l : ℕ) (ll : l < R) (behind : (d : ℕ) → l < d → d < R → size d ≡ 0) where
    -- Of the buckets from the place on at which the loop ends, one is not empty.
    unique_rest : (b c : ℕ) → length orig - size l ≤ start b → b ≤ c → c < R → 0 < size c → c ≡ l
    unique_rest b c e bc lc used =
        let mono = base_mono size b (c - b) c (omega arith) in
        let inside = before size l R ll in
        ground (arith, behind c, before size c l, total key R orig small)

    ended :
        (b : ℕ) (ptr : ℕ → ℕ) (a : List Str)
        → IsPlaced key R orig small b ptr a
        → length orig - size l ≤ start b
        → IsBucketed a
    ended b ptr a h e = (
      h.perm,
      λ c lc p lo hi. elim (Bool-cases (ltb c b)) [
        | inl s ↦ h.full c (ground (arith, s)) p lo hi
        | inr n ↦
            let bc : b ≤ c = ground (arith, n) in
            let is_last = unique_rest b c e bc lc (omega arith) in
            let k = key (get_or a p []) in
            let lk =
              key_at-lt key R orig small a p h.perm
                (in_bounds key R orig small a c p h.perm lc hi) in
            let complete : k ≢ c → IsFull key R orig small a k = λ other q lo' hi'.
              elim (Bool-cases (ltb k b)) [
                | inl s' ↦ h.full k (ground (arith, s')) q lo' hi'
                | inr n' ↦
                    absurd (
                      other (unique_rest b k e (ground (arith, n')) lk (omega arith) ∙ sym is_last))
              ] in
            elim (Bool-cases (k == c)) [
              | inl s'' ↦ (==_iff k c).0 s''
              | inr n'' ↦
                  own_bucket key R orig small a k c p h.perm lk lc
                    (complete (λ z. ground (arith, n'', z))) lo hi refl
            ]
      ],
    )

    -- Empty buckets are complete.
    skip_empty :
        (b b' : ℕ) (ptr : ℕ → ℕ) (a : List Str)
        → b ≤ b'
        → start b' ≡ start b
        → IsPlaced key R orig small b ptr a
        → IsPlaced key R orig small b' ptr a
    skip_empty b b' ptr a le e h = record {
      perm = h.perm;
      high = h.high;
      low = λ c bc lc. h.low c (omega arith) lc;
      full = λ c cb p lo hi. elim (Bool-cases (ltb c b)) [
        | inl s ↦ h.full c (ground (arith, s)) p lo hi
        | inr n ↦
            let bc : b ≤ c = ground (arith, n) in
            absurd (omega (arith, before size c b' cb, base_mono size b (c - b) c (omega arith)))
      ];
      placed = λ c p bc lc lo hi. h.placed c p (omega arith) lc lo hi;
    }

    free-le :
        (b : ℕ) (ptr : ℕ → ℕ) (a : List Str)
        → IsPlaced key R orig small b ptr a
        → free key R orig small ptr ≤ length orig
    free-le b ptr a h = omega (
      arith,
      base_le (λ k. ptr k - start k) size R (λ k lk. omega (arith, h.high k lk)),
      total key R orig small,
    )

    permute_loop-IsBucketed :
        (rounds b : ℕ) (ptr : ℕ → ℕ) (a : List Str) (bkt : List ℕ)
        → b ≤ R
        → length orig ≤ start b + rounds
        → bkt ≡ tabulate R 0 ptr
        → IsPlaced key R orig small b ptr a
        → IsBucketed
            (permute_loop key (length orig) (size l) (tabulate R 0 size) rounds (start b) a bkt)
    unfolding permute_loop
    permute_loop-IsBucketed zero b ptr a bkt br m e h = ended b ptr a h (omega arith)
    permute_loop-IsBucketed (suc rounds) b ptr a bkt br m e h =
        elim (Bool-cases (ltb (start b) (length orig - size l))) [
          | inr off ↦ rw off (ended b ptr a h (ground (arith, off)))
          | inl on ↦
              let lt : start b < length orig - size l = ground (arith, on) in
              let (b', le, lb', at, used) =
                next_used size (R - b) b R (start b) (omega arith) refl
                  (omega (arith, total key R orig small)) in
              let h' = skip_empty b b' ptr a le at h in
              let s0 : Cycle = record { perm = get_or a (start b') []; strings = a; bkt = bkt } in
              let (ptr1, e1, h1, own, n1) =
                cycle_loop-Completes key R orig small b' lb' used (suc (length orig)) s0 ptr e
                  (subst (IsPlaced key R orig small b' ptr) (sym (set-get a (start b'))) h')
                  (length-perm h.perm) (omega (arith, free-le b ptr a h)) in
              let s1 = cycle_loop key (suc (length orig)) (start b') s0 in
              let step : start b' + get_or (tabulate R 0 size) (key s1.perm) 0 ≡ start (suc b') =
                rw (own, get_or-tabulate R 0 b' b' size 0 (omega arith) lb') refl in
              let rest =
                permute_loop-IsBucketed rounds (suc b') ptr1 (set s1.strings (start b') s1.perm)
                  s1.bkt lb' (omega arith) e1 h1 in
              rw (on, ← at, step) rest
        ]

-- The permutation in place of strings with keys below a radix, by their counts, keeps the strings and
-- leaves every one in the places of its key: those behind the strings with smaller keys.
pub permute-IsBucketed :
    (key : Str → ℕ) (R : ℕ) (ss : List Str) (small : Small key R ss)
    → 0 < R
    → IsBucketed key R ss small (permute key (length ss) (count_loop key ss (zeros R)) ss)
unfolding permute
permute-IsBucketed key zero ss small h = absurd (omega arith)
permute-IsBucketed key (suc above) ss small h =
    let R = suc above in
    let size = count_of key R ss small in
    let start = at_start key R ss small in
    let counts : count_loop key ss (zeros R) ≡ tabulate R 0 size = counts-eq key R ss small in
    let ends = λ (c : ℕ). start c + size c in
    let (l, last, ll, behind) =
      last_size_lem size above 1 (size 0) 0 (omega arith) refl (λ d p q. absurd (omega arith)) in
    let placed : IsPlaced key R ss small 0 ends ss = record {
      perm = Perm.refl ss;
      high = λ c lc. omega arith;
      low = λ c bc lc. omega arith;
      full = λ c cb p lo hi. absurd (omega arith);
      placed = λ c p bc lc lo hi. absurd (omega arith);
    } in
    let sums : inclusive_sum 0 (tabulate R 0 size) ≡ tabulate R 0 ends =
      inclusive_sum-tabulate size R 0 in
    rw (counts, last)
      (permute_loop-IsBucketed key R ss small l (omega arith) (λ d p q. behind d p (omega arith))
        (length ss) 0 ends ss (inclusive_sum 0 (tabulate R 0 size)) (omega arith) (omega arith) sums
        placed)
