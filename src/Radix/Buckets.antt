-- ===== src/Radix/Buckets.antt =====
-- The strings of a list by their key: counted, and gathered key by key.
use mathlib.Core.List.{perm_middle}
use mathlib.Core.List.Perm
use parallel_string_sorting.Prelude.{
  ℕ, zero, suc, ◌+◌, ◌<◌, List, [], ◌∷◌, ◌++◌, true, false, ◌==◌, ==_iff, if◌then◌else◌, Perm,
  Bool-cases, inl, inr, length, All, ◌≡◌, refl, sym, ap, ◌∙◌, arith,
}
use parallel_string_sorting.Strings.{Str}
use parallel_string_sorting.Radix.{zeros, count_one, count_loop, prefix_sum}
use parallel_string_sorting.Radix.Arrays.{
  tabulate, joined, base, tabulate_same, joined_same, get_or-tabulate, set-tabulate,
}

module _ (key : Str → ℕ) where
  -- The strings with one key, in their order.
  abbrev pub bucket : List Str → ℕ → List Str
  bucket [] k = []
  bucket (s ∷ ss) k = let others = bucket ss k in if k == key s then s ∷ others else others

  pub bucket-All : (ss : List Str) (k : ℕ) → All (λ s. key s ≡ k) (bucket ss k)
  bucket-All [] k = tt
  bucket-All (s ∷ ss) k = elim (Bool-cases (k == key s)) [
    | inl e ↦ rw e (sym ((==_iff k (key s)).0 e), bucket-All ss k)
    | inr e ↦ rw e (bucket-All ss k)
  ]

  -- One string more in one of the parts.
  joined-cons :
      (r i j c : ℕ) (f : ℕ → List Str) (s : Str)
      → i + j ≡ c
      → j < r
      → Perm (joined r i (λ k. if k == c then s ∷ f k else f k)) (s ∷ joined r i f)
  joined-cons zero i j c f s e h = absurd (omega arith)
  joined-cons (suc r) i zero c f s e h =
      let same : (i == c) ≡ true = ground (arith, e) in
      let others =
        joined_same r (suc i) (λ k. if k == c then s ∷ f k else f k) f
          (λ k l. ground (arith, e, l)) in
      rw (same, others) (Perm.refl (s ∷ (f i ++ joined r (suc i) f)))
  joined-cons (suc r) i (suc j) c f s e h =
      let differ : (i == c) ≡ false = ground (arith, e) in
      let rest = joined-cons r (suc i) j c f s (omega arith) (omega arith) in
      rw differ (Perm.trans (Perm.append_left (f i) rest) (perm_middle (f i) (joined r (suc i) f)))

  module _ (R : ℕ) where
    -- The keys are below the radix.
    abbrev pub Small : List Str → Type 0
    Small = All (λ s. key s < R)

    -- The buckets hold the strings.
    pub bucket-perm : (ss : List Str) → Small ss → Perm (joined R 0 (bucket ss)) ss
    bucket-perm [] h = rw (empty R 0) (Perm.refl [])
      where
        empty : (r i : ℕ) → joined r i (λ k. bucket [] k) ≡ []
        empty zero i = refl
        empty (suc r) i = empty r (suc i)
    bucket-perm (s ∷ ss) h =
        Perm.trans (joined-cons R 0 (key s) (key s) (bucket ss) s (omega arith) h.0)
          (Perm.cons s (bucket-perm ss h.1))

    -- A place of a table counted up.
    pub count_one-tabulate :
        (f : ℕ → ℕ) (c : ℕ)
        → c < R
        → count_one (tabulate R 0 f) c ≡ tabulate R 0 (λ k. if k == c then f k + 1 else f k)
    count_one-tabulate f c h = rw (get_or-tabulate R 0 c c f 0 (omega arith) h) (
        set-tabulate R 0 c c f (f c + 1) (omega arith)
        ∙ tabulate_same R 0 _ _ (λ k l. elim (Bool-cases (k == c)) [
          | inl e ↦ let same : k ≡ c = (==_iff k c).0 e in rw e (ap (λ (x : ℕ). f x + 1) (sym same))
          | inr e ↦ rw e refl
        ]))

    -- The counts are the sizes of the buckets.
    pub count_loop-eq :
        (ss : List Str) (f : ℕ → ℕ)
        → Small ss
        → count_loop key ss (tabulate R 0 f) ≡ tabulate R 0 (λ k. f k + length (bucket ss k))
    unfolding count_loop
    count_loop-eq [] f h = tabulate_same R 0 _ _ (λ k l. omega arith)
    count_loop-eq (s ∷ ss) f h =
        rw (count_one-tabulate f (key s) h.0)
          (count_loop-eq ss _ h.1 ∙ tabulate_same R 0 _ _ (λ k l. ground arith))

  pub zeros-tabulate : (r i : ℕ) → zeros r ≡ tabulate r i (λ k. 0)
  unfolding zeros
  zeros-tabulate zero i = refl
  zeros-tabulate (suc r) i = ap (◌∷◌ 0) (zeros-tabulate r (suc i))

  pub prefix_sum-tabulate :
      (r i : ℕ) (size : ℕ → ℕ)
      → prefix_sum (base size i) (tabulate r i size) ≡ tabulate r i (base size)
  unfolding prefix_sum
  prefix_sum-tabulate zero i size = refl
  prefix_sum-tabulate (suc r) i size = ap (◌∷◌ (base size i)) (prefix_sum-tabulate r (suc i) size)
