-- ===== src/Radix/Pass.antt =====
-- One pass of a radix sort: the strings are counted, distributed and copied back, and their buckets
-- are sorted.
use mathlib.Core.List.Perm
use parallel_string_sorting.Prelude.{
  ℕ, suc, ◌+◌, ◌-◌, ◌≤◌, List, [], ◌∷◌, Bool-cases, inl, inr, ◌==◌, ==_iff, length, drop, take,
  get_or, All, All-map, Perm, length-perm, ◌≡◌, refl, sym, ap, subst, ◌∙◌, arith,
}
use parallel_string_sorting.Strings.{Str}
use parallel_string_sorting.Insertion.Laws.{IsSortOf}
use parallel_string_sorting.Keys.Pack.{IsBytes}
use parallel_string_sorting.Mkqs.Order.{remaining}
use parallel_string_sorting.Mkqs.Parts.{take-append}
use parallel_string_sorting.Radix.{zeros, count_loop, prefix_sum, distribute, buckets_loop}
use parallel_string_sorting.Radix.Arrays.{tabulate, joined}
use parallel_string_sorting.Radix.Buckets.{bucket, bucket-perm, Small}
use parallel_string_sorting.Radix.Distribute.{counts-eq, distribute-bucket}
use parallel_string_sorting.Radix.Order.{In, RadixKey, buckets-IsSortOf, bucket_ended-IsSortOf}
use parallel_string_sorting.Radix.Recursion.{Sorts, Keeps, buckets_loop-sorts, later}

-- The strings of one bucket are some of the strings.
module _ (key : Str → ℕ) where
  bucket-All_of : (P : Str → Type 0) (ss : List Str) (k : ℕ) → All P ss → All P (bucket key ss k)
  bucket-All_of P [] k h = tt
  bucket-All_of P (s ∷ ss) k h = elim (Bool-cases (k == key s)) [
    | inl e ↦ rw e (h.0, bucket-All_of P ss k h.1)
    | inr e ↦ rw e (bucket-All_of P ss k h.1)
  ]

  pub remaining-bucket :
      (d : ℕ) (ss : List Str) (k : ℕ) → remaining d (bucket key ss k) ≤ remaining d ss
  remaining-bucket d [] k = omega arith
  remaining-bucket d (s ∷ ss) k = ground (arith, remaining-bucket d ss k)

  pub length-bucket : (ss : List Str) (k : ℕ) → length (bucket key ss k) ≤ length ss
  length-bucket [] k = omega arith
  length-bucket (s ∷ ss) k = ground (arith, length-bucket ss k)

  pub bucket-In :
      (P : Str → Type 0) (ss : List Str) (k : ℕ)
      → All P ss
      → All (λ s. P s × (key s ≡ k)) (bucket key ss k)
  bucket-In P [] k h = tt
  bucket-In P (s ∷ ss) k h = elim (Bool-cases (k == key s)) [
    | inl e ↦ rw e ((h.0, sym ((==_iff k (key s)).0 e)), bucket-In P ss k h.1)
    | inr e ↦ rw e (bucket-In P ss k h.1)
  ]

module _ (d : ℕ) (k : RadixKey d) {S : Type 0} (Room : ℕ → S → Type 0)
    (sort : List Str → S → ℕ → List Str × S) (fuel n : ℕ)
    (ok : Sorts d k Room sort (d + k.step) fuel)
    (less : (m : ℕ) (t : S) → m ≤ n → Room n t → Room m t) where
  -- The recursion on an array that holds the buckets one behind the other.
  pub recursion-sorts :
      (ss array : List Str) (sizes : List ℕ) (f : ℕ → List Str) (t : S)
      → ((i : ℕ) → All (In d k i) (f i))
      → ((i : ℕ) → remaining d (f i) ≤ suc fuel)
      → ((i : ℕ) → length (f i) ≤ n)
      → sizes ≡ tabulate k.radix 0 (λ i. length (f i))
      → array ≡ joined k.radix 0 f
      → Perm (joined k.radix 0 f) ss
      → Room n t
      → let out = buckets_loop k.deeper sort 1 (drop 1 sizes) (get_or sizes 0 0) array t in
        IsSortOf d ss out.0 × Keeps d k Room sort t out.1
  recursion-sorts ss array sizes f t own left lengths es ea perm rm =
      let above = k.radix - 1 in
      let radix-eq : k.radix ≡ suc above = omega (arith, k.radix_pos) in
      let (ys, e', s, keeps) =
        buckets_loop-sorts d k Room sort fuel n ok less f own left lengths above 1 (f 0) t
          (omega arith) rm in
      let run =
        ap (λ (c : List ℕ). buckets_loop k.deeper sort 1 (drop 1 c) (get_or c 0 0) array t)
          (es ∙ ap (λ (r : ℕ). tabulate r 0 (λ i. length (f i))) radix-eq)
        ∙ ap
            (λ (a : List Str).
              buckets_loop k.deeper sort 1 (tabulate above 1 (λ i. length (f i))) (length (f 0)) a
                t)
            (ea ∙ ap (λ (r : ℕ). joined r 0 f) radix-eq) in
      let behind = later d k Room sort fuel n ok less f own left lengths above 0 1 (omega arith) in
      let first = bucket_ended-IsSortOf d k 0 (f 0) (own 0) (inl refl) in
      let (sorted', perm') =
        buckets-IsSortOf d k 0 (f 0) (joined above 1 f) (f 0) ys (own 0) behind first s in
      let whole = subst (λ (r : ℕ). Perm (joined r 0 f) ss) radix-eq perm in
      subst (λ (out : List Str × S). IsSortOf d ss out.0 × Keeps d k Room sort t out.1) (sym run)
        ((rw e' (sorted', Perm.trans perm' whole), keeps))

  module _ (ss : List Str) (e : length ss ≡ n) (bytes : All IsBytes ss)
      (enough : remaining d ss ≤ suc fuel) where
    -- The counting, the distribution and the recursion sort the strings.
    pub pass-sorts :
        (sorted : List Str) (t : S)
        → n ≤ length sorted
        → Room n t
        → let sizes = count_loop k.key ss (zeros k.radix) in
          let out =
            buckets_loop k.deeper sort 1
              (drop 1 sizes)
              (get_or sizes 0 0)
              (take n (distribute k.key ss (prefix_sum 0 sizes) sorted))
              t in
          IsSortOf d ss out.0 × Keeps d k Room sort t out.1
    pass-sorts sorted t fits rm =
        let small : Small k.key k.radix ss = All-map _ _ ss k.key_small bytes in
        let f = bucket k.key ss in
        let perm = bucket-perm k.key k.radix ss small in
        let written =
          ap (take n) (distribute-bucket k.key k.radix ss sorted small (omega arith))
          ∙ take-append n (joined k.radix 0 f) (drop (length ss) sorted) (length-perm perm ∙ e) in
        recursion-sorts ss _ _ f t (λ i. bucket-In k.key IsBytes ss i bytes)
          (λ i. omega (arith, remaining-bucket k.key d ss i))
          (λ i. omega (arith, length-bucket k.key ss i)) (counts-eq k.key k.radix ss small) written
          perm rm
