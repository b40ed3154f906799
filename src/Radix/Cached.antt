-- ===== src/Radix/Cached.antt =====
-- The passes over the cached characters do what the passes over the strings do.
use parallel_string_sorting.Prelude.{
  ℕ, zero, suc, ◌≤◌, List, [], ◌∷◌, length, get_or, set, length-set, ◌≡◌, refl, ap, ◌∙◌, arith,
}
use parallel_string_sorting.Strings.{Str}
use parallel_string_sorting.Radix.{
  count_one, count_loop, distribute, read_chars, count_cached, read_and_count, distribute_cached,
}

module _ (key : Str → ℕ) where
  pub length-distribute :
      (ss : List Str) (bkt : List ℕ) (sorted : List Str)
      → length (distribute key ss bkt sorted) ≡ length sorted
  unfolding distribute
  length-distribute [] bkt sorted = refl
  length-distribute (s ∷ ss) bkt sorted =
      length-distribute ss (count_one bkt (key s)) _ ∙ length-set sorted (get_or bkt (key s) 0) s

  pub length-read_chars :
      (ss : List Str) (cache : List ℕ) → length (read_chars key ss cache) ≡ length cache
  unfolding read_chars
  length-read_chars [] cache = refl
  length-read_chars (s ∷ ss) [] = refl
  length-read_chars (s ∷ ss) (c ∷ cache) = ap suc (length-read_chars ss cache)

  pub count_cached-eq :
      (ss : List Str) (n : ℕ) (cache sizes : List ℕ)
      → length ss ≡ n
      → n ≤ length cache
      → count_cached n (read_chars key ss cache) sizes ≡ count_loop key ss sizes
  unfolding count_cached read_chars count_loop
  count_cached-eq [] zero cache sizes e h = refl
  count_cached-eq [] (suc n) cache sizes e h = absurd (omega arith)
  count_cached-eq (s ∷ ss) zero cache sizes e h = absurd (omega arith)
  count_cached-eq (s ∷ ss) (suc n) [] sizes e h = absurd (omega arith)
  count_cached-eq (s ∷ ss) (suc n) (c ∷ cache) sizes e h =
      count_cached-eq ss n cache (count_one sizes (key s)) (omega arith) (omega arith)

  pub read_and_count-eq :
      (ss : List Str) (cache sizes : List ℕ)
      → length ss ≤ length cache
      → read_and_count key ss cache sizes ≡ (read_chars key ss cache, count_loop key ss sizes)
  unfolding read_and_count read_chars count_loop
  read_and_count-eq [] cache sizes h = refl
  read_and_count-eq (s ∷ ss) [] sizes h = absurd (omega arith)
  read_and_count-eq (s ∷ ss) (c ∷ cache) sizes h =
      ap (λ (p : List ℕ × List ℕ). (key s ∷ p.0, p.1))
        (read_and_count-eq ss cache (count_one sizes (key s)) (omega arith))

  pub distribute_cached-eq :
      (ss : List Str) (cache bkt : List ℕ) (sorted : List Str)
      → length ss ≤ length cache
      → distribute_cached ss (read_chars key ss cache) bkt sorted ≡ distribute key ss bkt sorted
  unfolding distribute_cached read_chars distribute
  distribute_cached-eq [] cache bkt sorted h = refl
  distribute_cached-eq (s ∷ ss) [] bkt sorted h = absurd (omega arith)
  distribute_cached-eq (s ∷ ss) (c ∷ cache) bkt sorted h =
      distribute_cached-eq ss cache (count_one bkt (key s)) (set sorted (get_or bkt (key s) 0) s)
        (omega arith)
