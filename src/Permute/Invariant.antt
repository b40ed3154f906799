-- ===== src/Permute/Invariant.antt =====
-- What the permutation in place keeps: from the end of a bucket's free places on, its strings stand
-- there, and the buckets in front of the current one are complete.
use parallel_string_sorting.Prelude.{
  ℕ, zero, suc, ◌+◌, ◌≤◌, ◌<◌, List, [], ◌∷◌, ◌==◌, ==_iff, ltb, Bool-cases, inl, inr, length,
  length-perm, get_or, All, All-perm, Perm, ◌≡◌, arith,
}
use mathlib.Core.List.Perm
use native.Mathlib.Bridge.{le_prop}
use parallel_string_sorting.Strings.{Str}
use parallel_string_sorting.Radix.Arrays.{base}
use parallel_string_sorting.Radix.Buckets.{bucket, Small}
use parallel_string_sorting.Radix.Distribute.{sizes_sum}
use parallel_string_sorting.Permute.Places.{before, count_perm, count_more}

All-get {ℓ} : (P : Str → Type ℓ) (a : List Str) (p : ℕ) → All P a → p < length a → P (get_or a p [])
All-get P [] p h l = absurd (omega arith)
All-get P (x ∷ a) zero h l = h.0
All-get P (x ∷ a) (suc p) h l = All-get P a p h.1 (omega arith)

module _ (key : Str → ℕ) (R : ℕ) (orig : List Str) (small : Small key R orig) where
  abbrev pub size : ℕ → ℕ
  size c = length (bucket key orig c)

  abbrev pub start : ℕ → ℕ
  start = base size

  abbrev pub key_at : List Str → ℕ → ℕ
  key_at a p = key (get_or a p [])

  -- The places of the bucket hold strings with its key.
  abbrev pub IsFull : List Str → ℕ → Type 0
  IsFull a c = (p : ℕ) → start c ≤ p → p < start c + size c → key_at a p ≡ c

  -- The buckets in front of b are complete; of the others, the places from `ptr` on.
  pub record Placed (b : ℕ) (ptr : ℕ → ℕ) (a : List Str) : Type 0 where
    pub perm : Perm a orig
    pub high : (c : ℕ) → c < R → ptr c ≤ start c + size c
    pub low : (c : ℕ) → b ≤ c → c < R → start c ≤ ptr c
    pub full : (c : ℕ) → c < b → IsFull a c
    pub placed : (c p : ℕ) → b ≤ c → c < R → ptr c ≤ p → p < start c + size c → key_at a p ≡ c

  pub total : start R ≡ length orig
  total = sizes_sum key R orig small

  pub in_bounds :
      (a : List Str) (c p : ℕ) → Perm a orig → c < R → p < start c + size c → p < length a
  in_bounds a c p perm l h = omega (arith, before size c R l, total, length-perm perm)

  pub key_at-lt : (a : List Str) (p : ℕ) → Perm a orig → p < length a → key_at a p < R
  key_at-lt a p perm h =
      All-get (λ s. key s < R) a p (All-perm (λ s. key s < R) (λ s. le_prop) (Perm.symm perm) small)
        h

  -- A string with the key of a complete bucket stands in that bucket.
  pub own_bucket :
      (a : List Str) (c d p : ℕ)
      → Perm a orig
      → c < R
      → d < R
      → IsFull a c
      → start d ≤ p
      → p < start d + size d
      → key_at a p ≡ c
      → c ≡ d
  own_bucket a c d p perm lc ld all lo hi e = elim (Bool-cases (c == d)) [
    | inl s ↦ (==_iff c d).0 s
    | inr n ↦
        let one = length-perm perm in
        let inside = before size c R lc in
        let inside' = before size d R ld in
        let more =
          count_more key c a (start c) (size c) p (omega (arith, total)) (omega (arith, total)) all
            e
            (elim (Bool-cases (ltb c d)) [
              | inl l ↦ inr (omega (arith, before size c d (ground (arith, l))))
              | inr l ↦ inl (omega (arith, before size d c (ground (arith, l, n))))
            ]) in
        absurd (omega (arith, count_perm key c perm))
  ]
