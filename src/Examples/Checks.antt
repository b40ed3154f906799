-- ===== src/Examples/Checks.antt =====
-- The checker: a permutation that is accepted, one that 64-bit arithmetic rejects, an order.
use parallel_string_sorting.Prelude.{
  ℕ, ◌+◌, [], ◌∷◌, ◌++◌, true, false, ◌≡◌, ◌⊎◌, refl, arith, IsSorted,
}
use mathlib.Core.List.Perm
use parallel_string_sorting.Strings.{LexLe, lex_le}
use parallel_string_sorting.Checker.{
  make_check, check, make_check64, check64, check_sorted_order, not_a_permutation, invalid_order,
  calc_distinguishing_prefix,
}
use parallel_string_sorting.Checker.Permutation.{check-perm, check64-perm}
use parallel_string_sorting.Checker.Laws.{
  FirstUnordered, permutation_message, check_sorted_order_lem,
}
use parallel_string_sorting.Checker.Prefix.{all_needed, lcp_sum, calc_distinguishing_prefix_lem}
use parallel_string_sorting.Examples.Data.{word_ab, word_abc, word_ac, word_b, words}

check-perm_example : check 1000 (20 ∷ 10 ∷ 30 ∷ []) (make_check 1000 (10 ∷ 20 ∷ 30 ∷ [])) ≡ true
unfolding make_check
check-perm_example =
    check-perm 1000 (10 ∷ 20 ∷ 30 ∷ []) (20 ∷ 10 ∷ 30 ∷ []) (Perm.swap 20 10 (30 ∷ []))
      (omega arith)

check64-perm_example :
    check64 1000 (20 ∷ 10 ∷ 30 ∷ []) (make_check64 1000 (10 ∷ 20 ∷ 30 ∷ [])) ≡ true
unfolding make_check64
check64-perm_example =
    check64-perm 1000 (10 ∷ 20 ∷ 30 ∷ []) (20 ∷ 10 ∷ 30 ∷ []) (omega arith)
      ((omega arith, omega arith), ((omega arith, omega arith), ((omega arith, omega arith), tt)))
      (Perm.swap 20 10 (30 ∷ [])) (omega arith)

-- In a string area of 80 GiB the products overflow, and their order matters.
check64-large :
    check64 85899345920
      (7 ∷ 20000000000 ∷ 30 ∷ [])
      (make_check64 85899345920 (20000000000 ∷ 30 ∷ 7 ∷ []))
    ≡ false
unfolding make_check64 check64
check64-large = refl

check_sorted_order_lem_example :
    ((check_sorted_order words false ≡ record { ok = true; messages = permutation_message false })
      × IsSorted LexLe words)
    ⊎ ((k : ℕ) × FirstUnordered words k
        × (check_sorted_order words false ≡ record {
          ok = false;
          messages = permutation_message false ++ invalid_order k (k + 1) ∷ [];
        }))
check_sorted_order_lem_example = check_sorted_order_lem words false

-- An array that is in order passes, also if it is no permutation of the input.
order-run :
    check_sorted_order (word_ab ∷ word_ab ∷ word_b ∷ []) false
    ≡ record { ok = true; messages = not_a_permutation ∷ [] }
unfolding check_sorted_order lex_le
order-run = refl

prefix-run :
    calc_distinguishing_prefix (word_ab ∷ word_abc ∷ word_ac ∷ word_b ∷ []) 5
    ≡ record { distinguishing = 9; lcpsum = 8 }
unfolding calc_distinguishing_prefix
prefix-run = refl

calc_distinguishing_prefix_lem_example :
    calc_distinguishing_prefix (word_ab ∷ word_abc ∷ word_b ∷ []) 5 ≡ record {
      distinguishing = all_needed [] (word_ab ∷ word_abc ∷ word_b ∷ []);
      lcpsum = 5 + lcp_sum word_ab (word_abc ∷ word_b ∷ []);
    }
unfolding lex_le
calc_distinguishing_prefix_lem_example =
    calc_distinguishing_prefix_lem word_ab (word_abc ∷ word_b ∷ []) 5
      ((refl, (refl, tt)), ((refl, tt), (tt, tt)))
