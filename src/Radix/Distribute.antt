-- ===== src/Radix/Distribute.antt =====
-- The distribution of the strings to the buckets, and the passes that read the characters first.
use mathlib.Core.List.{append_assoc}
use parallel_string_sorting.Prelude.{
  ℕ, zero, suc, ◌+◌, ◌-◌, ◌≤◌, ◌<◌, List, [], ◌∷◌, ◌++◌, true, ◌==◌, ==_iff, if◌then◌else◌,
  Bool-cases, inl, inr, length, set, take, drop, length-set, length-take, length-drop, length-perm,
  take-append-drop, drop-drop, ◌≡◌, refl, sym, ap, ◌∙◌, arith,
}
use parallel_string_sorting.Strings.{Str}
use parallel_string_sorting.Radix.{zeros, count_loop, prefix_sum, distribute}
use parallel_string_sorting.Radix.Arrays.{
  tabulate, joined, update, base, base_mono, tabulate_same, joined_same, joined_below,
  get_or-tabulate, set-joined, length-joined,
}
use parallel_string_sorting.Radix.Buckets.{
  bucket, Small, bucket-perm, count_one-tabulate, count_loop-eq, zeros-tabulate,
  prefix_sum-tabulate,
}

-- Entries of an array overwritten from a place on.
abbrev overwrite : List Str → ℕ → List Str → List Str
overwrite xs m [] = xs
overwrite xs m (y ∷ ys) = overwrite (set xs m y) (suc m) ys

overwrite-cons :
    (x : Str) (xs : List Str) (m : ℕ) (ys : List Str)
    → overwrite (x ∷ xs) (suc m) ys ≡ x ∷ overwrite xs m ys
overwrite-cons x xs m [] = refl
overwrite-cons x xs m (y ∷ ys) = overwrite-cons x (set xs m y) (suc m) ys

-- An array that is overwritten as a whole.
overwrite_all : (xs ys : List Str) → length xs ≡ length ys → overwrite xs 0 ys ≡ ys
overwrite_all [] [] e = refl
overwrite_all [] (y ∷ ys) e = absurd (omega arith)
overwrite_all (x ∷ xs) [] e = absurd (omega arith)
overwrite_all (x ∷ xs) (y ∷ ys) e =
    overwrite-cons y xs 0 ys ∙ ap (◌∷◌ y) (overwrite_all xs ys (omega arith))

module _ (key : Str → ℕ) (R : ℕ) where
  -- Each bucket is written from its next place on.
  distribute-joined :
      (ss : List Str) (size m : ℕ → ℕ) (f : ℕ → List Str) (rest : List Str)
      → Small key R ss
      → ((k : ℕ) → k < R → length (f k) ≡ size k)
      → ((k : ℕ) → k < R → m k + length (bucket key ss k) ≤ size k)
      → distribute key ss (tabulate R 0 (λ k. base size k + m k)) (joined R 0 f ++ rest)
        ≡ joined R 0 (λ k. overwrite (f k) (m k) (bucket key ss k)) ++ rest
  unfolding distribute
  distribute-joined [] size m f rest small lens room = refl
  distribute-joined (s ∷ ss) size m f rest small lens room =
      let c = key s in
      let m' = λ (k : ℕ). if k == c then suc (m k) else m k in
      let f' = update f c (set (f c) (m c) s) in
      let here : (c == c) ≡ true = (==_iff c c).1 refl in
      let fits : m c + suc (length (bucket key ss c)) ≤ size c = rw here at (room c small.0) in
      let bkt =
        count_one-tabulate key R (λ k. base size k + m k) c small.0
        ∙ tabulate_same R 0 _ (λ k. base size k + m' k) (λ k l. ground arith) in
      let written =
        set-joined R 0 c c (base size c + m c) (m c) f size s rest (omega arith) small.0
          (λ x l. lens x (omega arith)) (omega arith) (omega arith) in
      let lens' : (k : ℕ) → k < R → length (f' k) ≡ size k = λ k l. elim (Bool-cases (k == c)) [
        | inl e ↦
            rw e (length-set (f c) (m c) s ∙ lens c small.0 ∙ ap size (sym ((==_iff k c).0 e)))
        | inr e ↦ rw e (lens k l)
      ] in
      let room' : (k : ℕ) → k < R → m' k + length (bucket key ss k) ≤ size k =
        λ k l. ground (arith, room k l) in
      rw (bkt, get_or-tabulate R 0 c c (λ k. base size k + m k) 0 (omega arith) small.0, written)
        (distribute-joined ss size m' f' rest small.1 lens' room'
          ∙ ap (λ (xs : List Str). xs ++ rest)
              (joined_same R 0 _ _ (λ k l. elim (Bool-cases (k == c)) [
                | inl e ↦
                    let same : k ≡ c = (==_iff k c).0 e in
                    rw e (
                      ap (λ (x : ℕ). overwrite (set (f x) (m x) s) (suc (m k)) (bucket key ss k))
                        (sym same))
                | inr e ↦ rw e refl
              ])))

  -- An array in parts of given sizes.
  pub parts :
      (r i m : ℕ) (size : ℕ → ℕ) (a : List Str)
      → i + r ≡ m
      → joined r i (λ k. take (size k) (drop (base size k) a)) ++ drop (base size m) a
        ≡ drop (base size i) a
  parts zero i m size a e = let same : m ≡ i = omega arith in rw same refl
  parts (suc r) i m size a e =
      let next = parts r (suc i) m size a (omega arith) in
      let behind = drop-drop (size i) (base size i) (base size i + size i) a (omega arith) in
      rw (append_assoc, next, ← behind) (take-append-drop (size i) (drop (base size i) a))

  module _ (ss : List Str) (small : Small key R ss) where
    abbrev pub size : ℕ → ℕ
    size k = length (bucket key ss k)

    pub sizes_sum : base size R ≡ length ss
    sizes_sum =
        let e : 0 + R ≡ R = omega arith in
        rw e at (length-joined R 0 (bucket key ss))
        ∙ omega (arith, length-perm (bucket-perm key R ss small))

    -- The counts of all the strings.
    pub counts-eq : count_loop key ss (zeros R) ≡ tabulate R 0 size
    counts-eq =
        rw (zeros-tabulate key R 0)
          (count_loop-eq key R ss (λ k. 0) small ∙ tabulate_same R 0 _ size (λ k l. omega arith))

    -- The strings are written to the array bucket by bucket.
    pub distribute_lem :
        (sorted : List Str)
        → length ss ≤ length sorted
        → distribute key ss (prefix_sum 0 (tabulate R 0 size)) sorted
          ≡ joined R 0 (bucket key ss) ++ drop (length ss) sorted
    distribute_lem sorted h =
        let f = λ (k : ℕ). take (size k) (drop (base size k) sorted) in
        let lens : (k : ℕ) → k < R → length (f k) ≡ size k = λ k l. omega (
          arith,
          base_mono size (suc k) (R - suc k) R (omega arith),
          length-take (size k) (drop (base size k) sorted),
          length-drop (base size k) sorted,
          sizes_sum,
        ) in
        let starts : prefix_sum 0 (tabulate R 0 size) ≡ tabulate R 0 (λ k. base size k + 0) =
          prefix_sum-tabulate key R 0 size ∙ tabulate_same R 0 _ _ (λ k l. omega arith) in
        let array : sorted ≡ joined R 0 f ++ drop (base size R) sorted =
          sym (parts R 0 R size sorted (omega arith)) in
        let written =
          distribute-joined ss size (λ k. 0) f (drop (base size R) sorted) small lens
            (λ k l. omega arith) in
        let all : joined R 0 (λ k. overwrite (f k) 0 (bucket key ss k))
            ≡ joined R 0 (bucket key ss) =
          joined_below R 0 _ _
            (λ k l. overwrite_all (f k) (bucket key ss k) (lens k (omega arith))) in
        rw starts (
          ap (distribute key ss (tabulate R 0 (λ k. base size k + 0))) array
          ∙ written
          ∙ rw (all, sizes_sum) refl)

-- The strings, distributed to an array with room for them by the prefix sums of their counts, stand
-- there bucket by bucket in the order of the keys, those of a bucket in their former order, and what
-- stood behind them stays.
pub distribute-bucket :
    (key : Str → ℕ) (R : ℕ) (ss sorted : List Str)
    → Small key R ss
    → length ss ≤ length sorted
    → distribute key ss (prefix_sum 0 (count_loop key ss (zeros R))) sorted
      ≡ joined R 0 (bucket key ss) ++ drop (length ss) sorted
distribute-bucket key R ss sorted small h =
    ap (λ (c : List ℕ). distribute key ss (prefix_sum 0 c) sorted) (counts-eq key R ss small)
    ∙ distribute_lem key R ss small sorted h
