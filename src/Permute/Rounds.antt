-- ===== src/Permute/Rounds.antt =====
-- The rounds of a cycle of the permutation in place keep what it has reached, and the last one
-- completes the bucket that the cycle begins at.
use mathlib.Core.List.Perm
use parallel_string_sorting.Prelude.{
  ℕ, suc, ◌+◌, ◌-◌, ◌≤◌, ◌<◌, List, [], false, ◌==◌, ==_iff, ltb, Bool-cases, inl, inr, length,
  get_or, ◌≡◌, ◌≢◌, refl, sym, ap, ◌∙◌, arith,
}
use parallel_string_sorting.Strings.{Str}
use parallel_string_sorting.Mkqs.{swap}
use parallel_string_sorting.Mkqs.Arrays.{get_or-swap, swap-perm}
use parallel_string_sorting.Permute.Places.{apart, before}
use parallel_string_sorting.Permute.Invariant.{
  size, start, IsFull, Placed, in_bounds, key_at-lt, own_bucket,
}
use parallel_string_sorting.Radix.Arrays.{update}
use parallel_string_sorting.Radix.Buckets.{Small}

module _ (key : Str → ℕ) (R : ℕ) (orig : List Str) (small : Small key R orig) where
  abbrev pub IsPlaced : ℕ → (ℕ → ℕ) → List Str → Type 0
  IsPlaced = Placed key R orig small

  abbrev pub at_start : ℕ → ℕ
  at_start = start key R orig small

  abbrev pub count_of : ℕ → ℕ
  count_of = size key R orig small

  abbrev IsComplete : List Str → ℕ → Type 0
  IsComplete = IsFull key R orig small

  module _ (b : ℕ) (ptr : ℕ → ℕ) (a : List Str) (h : IsPlaced b ptr a) (lb : b < R)
      (used : 0 < count_of b) where
    abbrev pub i : ℕ
    i = at_start b

    abbrev pub c : ℕ
    c = key (get_or a i [])

    pub i-lt : i < length a
    i-lt = in_bounds key R orig small a b i h.perm lb (omega arith)

    pub c-lt : c < R
    c-lt = key_at-lt key R orig small a i h.perm i-lt

    own : IsComplete a c → c ≡ b
    own all =
        own_bucket key R orig small a c b i h.perm c-lt lb all (omega arith) (omega arith) refl

    not_before : b ≤ c
    not_before = elim (Bool-cases (ltb c b)) [
      | inl l ↦ let lt : c < b = ground (arith, l) in let same = own (h.full c lt) in omega arith
      | inr l ↦ ground (arith, l)
    ]

    free_place : c ≢ b → at_start c < ptr c
    free_place n = elim (Bool-cases (ltb (at_start c) (ptr c))) [
      | inl l ↦ ground (arith, l)
      | inr l ↦
          let le : ptr c ≤ at_start c = ground (arith, l) in
          absurd (n (own (λ p lo hi. h.placed c p not_before c-lt (omega arith) hi)))
    ]

    abbrev pub j : ℕ
    j = ptr c - 1

    pub j-le : i < j → at_start c ≤ j
    j-le l = elim (Bool-cases (c == b)) [
      | inl s ↦ let same = ap at_start ((==_iff c b).0 s) in omega arith
      | inr n ↦ omega (arith, free_place (λ z. ground (arith, n, z)))
    ]

    pub j-lt : i < j → j < at_start c + count_of c
    j-lt l = omega (arith, h.high c c-lt)

    abbrev pub moved : List Str
    moved = swap a i j

    pub j-bound : i < j → j < length a
    j-bound l = in_bounds key R orig small a c j h.perm c-lt (j-lt l)

    entry : (l : i < j) → (p : ℕ) → p ≢ i → p ≢ j → get_or moved p [] ≡ get_or a p []
    entry l p ni nj = ground (arith, get_or-swap a i j p i-lt (j-bound l), ni, nj)

    -- A round that goes on.
    pub swap-Placed : i < j → IsPlaced b (update ptr c j) moved
    swap-Placed l = record {
      perm = Perm.trans (swap-perm a i j i-lt (j-bound l)) h.perm;
      high = λ d ld. ground (arith, h.high d ld, h.high c c-lt);
      low = λ d bd ld. elim (Bool-cases (d == c)) [
        | inl s ↦ let same = ap at_start ((==_iff d c).0 s) in rw s (omega (arith, j-le l))
        | inr n ↦ rw n (h.low d bd ld)
      ];
      full = λ d bd p lo hi.
          let ni : p ≢ i = λ e.
            absurd
              (let same = apart count_of d b p lo hi (omega arith) (omega arith) in omega arith) in
          let nj : p ≢ j = λ e. absurd (
            let same = apart count_of d c p lo hi (omega (arith, j-le l)) (omega (arith, j-lt l)) in
            omega (arith, not_before)) in
          ap key (entry l p ni nj) ∙ h.full d bd p lo hi;
      placed = λ d p bd ld lo hi. elim (Bool-cases (d == c)) [
        | inl s ↦
            let same : d ≡ c = (==_iff d c).0 s in
            let from : j ≤ p = rw s at lo in
            let base_same = ap at_start same in
            let size_same = ap count_of same in
            elim (Bool-cases (p == j)) [
              | inl t ↦
                  let here : p ≡ j = (==_iff p j).0 t in
                  let moved_here : get_or moved p [] ≡ get_or a i [] =
                    ground (arith, get_or-swap a i j p i-lt (j-bound l), t) in
                  ap key moved_here ∙ sym same
              | inr t ↦
                  let nj : p ≢ j = λ z. ground (arith, t, z) in
                  let behind : ptr c ≤ p = omega arith in
                  let ptr_same = ap ptr same in
                  ap key (entry l p (λ z. omega arith) nj) ∙ h.placed d p bd ld (omega arith) hi
            ]
        | inr n ↦
            let other : d ≢ c = λ z. ground (arith, n, z) in
            let from : ptr d ≤ p = rw n at lo in
            let begin = h.low d bd ld in
            let there = h.placed d p bd ld from hi in
            let nj : p ≢ j = λ e. other (
              apart count_of d c p (omega arith) hi (omega (arith, j-le l))
                (omega (arith, j-lt l))) in
            let ni : p ≢ i = λ e. other (sym there ∙ ap (λ (q : ℕ). key (get_or a q [])) e) in
            ap key (entry l p ni nj) ∙ there
      ];
    }

    -- The round that ends a cycle.
    pub last_own : j ≤ i → c ≡ b
    last_own l = elim (Bool-cases (c == b)) [
      | inl s ↦ (==_iff c b).0 s
      | inr n ↦
          let other : c ≢ b = λ z. ground (arith, n, z) in
          let behind : b < c = omega (arith, not_before) in
          absurd (omega (arith, free_place other, before count_of b c behind))
    ]

    pub last-Placed : j ≤ i → IsPlaced (suc b) (update ptr c j) a
    last-Placed l =
        let same = last_own l in
        let at_end = ap ptr same in
        record {
          perm = h.perm;
          high = λ d ld. ground (arith, h.high d ld, h.high c c-lt);
          low = λ d bd ld.
              let n : (d == c) ≡ false = ground (arith, same, bd) in
              rw n (h.low d (omega arith) ld);
          full = λ d bd p lo hi. elim (Bool-cases (d == b)) [
            | inl s ↦
                let here : d ≡ b = (==_iff d b).0 s in
                let base_here = ap at_start here in
                let size_here = ap count_of here in
                elim (Bool-cases (p == i)) [
                  | inl t ↦ ap (λ (q : ℕ). key (get_or a q [])) ((==_iff p i).0 t) ∙ same ∙ sym here
                  | inr t ↦
                      let ni : p ≢ i = λ z. ground (arith, t, z) in
                      h.placed b p (omega arith) lb (omega arith) (omega arith) ∙ sym here
                ]
            | inr n ↦
                let other : d ≢ b = λ z. ground (arith, n, z) in h.full d (omega arith) p lo hi
          ];
          placed = λ d p bd ld lo hi.
              let n : (d == c) ≡ false = ground (arith, same, bd) in
              h.placed d p (omega arith) ld (rw n at lo) hi;
        }
