-- ===== src/Insertion/Laws.antt =====
-- Insertion sort returns the strings of its range in ascending order, and touches nothing else.
use mathlib.Core.List.{perm_middle, append-nil}
use mathlib.Core.List.Perm
use parallel_string_sorting.Prelude.{
  ℕ, suc, ◌-◌, ◌<◌, ◌%◌, ◌^◌, ◌+◌, List, [], ◌∷◌, ◌++◌, Bool, Bool-cases, inl, inr, ◌≡◌, refl, ◌∙◌,
  sym, length, drop, rev_append, arith, Perm, All, All-map, IsSorted, IsSorted-rev_append,
  rev_append-perm, rev_append-append,
}
use parallel_string_sorting.Strings.{Str, lex_le, LexLe}
use parallel_string_sorting.Strings.Order.{LexLe-of_not, LexLe-trans}
use parallel_string_sorting.Strings.Lcp.{lex_le-lcp}
use parallel_string_sorting.Strings.Scan.{scan_lem}
use parallel_string_sorting.StringSet.Laws.{scan_equal-eq-scan}
use parallel_string_sorting.Insertion.{
  leq_from, leq_generic, insert_loop, inssort, inssort_generic, insertion_sort, int_of_size,
}
use parallel_string_sorting.Insertion.Zipper.{insert_desc, insert_all, insert_loop_lem}

-- The order of the strings behind their first d bytes.
abbrev pub SuffixLe : ℕ → Str → Str → Type 0
SuffixLe d s t = LexLe (drop d s) (drop d t)

-- Both comparisons decide that order.
leq_from-eq : (d : ℕ) (s t : Str) → leq_from d s t ≡ lex_le (drop d s) (drop d t)
unfolding leq_from
leq_from-eq d s t =
    ground (arith, scan_lem (drop d s) (drop d t) 0, lex_le-lcp (drop d s) (drop d t))

leq_generic-eq : (d : ℕ) (s t : Str) → leq_generic d s t ≡ lex_le (drop d s) (drop d t)
unfolding leq_generic
leq_generic-eq d s t = ground (
  arith,
  scan_equal-eq-scan (drop d s) (drop d t) 0,
  scan_lem (drop d s) (drop d t) 0,
  lex_le-lcp (drop d s) (drop d t),
)

module _ (leq : Str → Str → Bool) where
  insert_desc-perm : (x : Str) (p : List Str) → Perm (insert_desc leq x p) (x ∷ p)
  unfolding insert_desc
  insert_desc-perm x [] = Perm.refl (x ∷ [])
  insert_desc-perm x (y ∷ p) = elim (Bool-cases (leq y x)) [
    | inl e ↦ rw (e, insert_desc) (Perm.refl (x ∷ y ∷ p))
    | inr e ↦
        rw (e, insert_desc) (Perm.trans (Perm.cons y (insert_desc-perm x p)) (Perm.swap x y p))
  ]

  insert_all-perm : (q p : List Str) → Perm (insert_all leq q p) (q ++ p)
  unfolding insert_all
  insert_all-perm [] p = Perm.refl p
  insert_all-perm (x ∷ q) p =
      Perm.trans (insert_all-perm q (insert_desc leq x p))
        (Perm.trans (Perm.append_left q (insert_desc-perm x p)) (perm_middle q p))

  -- The comparison decides the order of the suffixes from depth d on.
  module _ (d : ℕ) (decides : (s t : Str) → leq s t ≡ lex_le (drop d s) (drop d t)) where
    -- What stands before the position, from the position down.
    abbrev IsDescending : List Str → Type 0
    IsDescending = IsSorted (λ x y. SuffixLe d y x)

    insert_desc-All :
        (P : Str → Type 0) (x : Str) (p : List Str) → P x → All P p → All P (insert_desc leq x p)
    unfolding insert_desc
    insert_desc-All P x [] px h = (px, tt)
    insert_desc-All P x (y ∷ p) px h = elim (Bool-cases (leq y x)) [
      | inl e ↦ rw (e, insert_desc) (px, h)
      | inr e ↦ rw (e, insert_desc) (h.0, insert_desc-All P x p px h.1)
    ]

    insert_desc-IsDescending :
        (x : Str) (p : List Str) → IsDescending p → IsDescending (insert_desc leq x p)
    unfolding insert_desc
    insert_desc-IsDescending x [] s = (tt, tt)
    insert_desc-IsDescending x (y ∷ p) s = elim (Bool-cases (leq y x)) [
      | inl e ↦
          let le : SuffixLe d y x = sym (decides y x) ∙ e in
          rw (e, insert_desc)
            ((le, All-map _ _ p (λ z h. LexLe-trans (drop d z) (drop d y) (drop d x) h le) s.0), s)
      | inr e ↦
          rw (e, insert_desc)
            (
              insert_desc-All _ x p (LexLe-of_not (drop d y) (drop d x) (sym (decides y x) ∙ e))
                  s.0,
              insert_desc-IsDescending x p s.1,
            )
    ]

    insert_all-IsDescending : (q p : List Str) → IsDescending p → IsDescending (insert_all leq q p)
    unfolding insert_all
    insert_all-IsDescending [] p s = s
    insert_all-IsDescending (x ∷ q) p s =
        insert_all-IsDescending q (insert_desc leq x p) (insert_desc-IsDescending x p s)

    -- The rounds of the outer loop on the strings `x ∷ xs`, with `rest` behind them.
    insert_loop-sorts :
        (x : Str) (xs rest : List Str)
        → (ys : List Str) × (insert_loop leq (length xs) 1 (x ∷ xs ++ rest) ≡ ys ++ rest)
          × IsSorted (SuffixLe d) ys
          × Perm ys (x ∷ xs)
    insert_loop-sorts x xs rest =
        let p = insert_all leq xs (x ∷ []) in
        (
          rev_append p [],
          insert_loop_lem leq xs (x ∷ []) rest ∙ rev_append-append p [] rest,
          IsSorted-rev_append (SuffixLe d) p [] (insert_all-IsDescending xs (x ∷ []) (tt, tt)) tt
              (All_nil p),
          Perm.trans (rw append-nil at (rev_append-perm p [])) (
              Perm.trans (insert_all-perm xs (x ∷ []))
                (rw append-nil at (perm_middle {a = x} xs []))),
        )
      where
        All_nil : (p : List Str) → All (λ y. All (SuffixLe d y) []) p
        All_nil [] = tt
        All_nil (y ∷ p) = (tt, All_nil p)

-- `ys` holds the strings `xs` in the order of their suffixes from depth d on.
abbrev pub IsSortOf : ℕ → List Str → List Str → Type 0
IsSortOf d xs ys = IsSorted (SuffixLe d) ys × Perm ys xs

-- The result array holds the sorted strings of the range, and behind it what stood there.
abbrev pub SortsRange : ℕ → List Str → List Str → List Str → Type 0
SortsRange d xs rest a = (ys : List Str) × (a ≡ ys ++ rest) × IsSortOf d xs ys

-- inssort sorts the first n strings of the array from depth d on and leaves the rest of the array
-- as it was.
pub inssort-sorts :
    (xs rest : List Str) (d : ℕ) → SortsRange d xs rest (inssort (xs ++ rest) (length xs) d)
unfolding inssort
inssort-sorts [] rest d = ([], refl, (tt, Perm.refl []))
inssort-sorts (x ∷ xs) rest d =
    let (ys, e, s, p) = insert_loop-sorts (leq_from d) d (leq_from-eq d) x xs rest in
    let rounds : suc (length xs) - 1 ≡ length xs = omega arith in (ys, rw rounds e, (s, p))

-- insertion_sort sorts an array of fewer than 2^31 strings.
pub insertion_sort-sorts :
    (xs : List Str) → length xs < 2 ^ 31 → IsSortOf 0 xs (insertion_sort xs (length xs))
unfolding insertion_sort
insertion_sort-sorts xs h =
    let (ys, e, s) = inssort-sorts xs [] 0 in
    let n : int_of_size (length xs) ≡ length xs = ground arith in
    let out : inssort xs (length xs) 0 ≡ ys = rw append-nil at (rw append-nil at e) in rw (n, out) s

-- inssort_generic sorts a string set that is not empty and whose size is a size_t.
pub inssort_generic-sorts :
    (xs rest : List Str) (d : ℕ)
    → 0 < length xs
    → length xs < 2 ^ 64
    → SortsRange d xs rest (inssort_generic (xs ++ rest) (length xs) d)
unfolding inssort_generic
inssort_generic-sorts [] rest d pos small = absurd (omega arith)
inssort_generic-sorts (x ∷ xs) rest d pos small =
    let (ys, e, s, p) = insert_loop-sorts (leq_generic d) d (leq_generic-eq d) x xs rest in
    let rounds : (suc (length xs) + 2 ^ 64 - 1) % 2 ^ 64 ≡ length xs = omega arith in
    (ys, rw rounds e, (s, p))
