-- ===== src/Checker/Laws.antt =====
-- What check_sorted_order reports.
use parallel_string_sorting.Prelude.{
  ℕ, zero, suc, ◌+◌, ◌-◌, ◌<◌, List, [], ◌∷◌, ◌++◌, Bool, true, false, not, if◌then◌else◌, ◌≡◌, ◌⊎◌,
  inl, inr, refl, ap, ◌∙◌, arith, get_or, length, All, IsSorted, Bool-cases,
}
use parallel_string_sorting.Strings.{Str, lex_le, LexLe}
use parallel_string_sorting.Strings.Order.{LexLe-trans}
use parallel_string_sorting.Checker.{
  Message, not_a_permutation, invalid_order, order_loop, check_sorted_order,
}

-- The pair of places k and k + 1 is the first that is out of order.
pub record FirstUnordered (ss : List Str) (k : ℕ) : Type 0 where
  pub within : k + 1 < length ss
  pub before : (j : ℕ) → j < k → LexLe (get_or ss j []) (get_or ss (suc j) [])
  pub unordered : lex_le (get_or ss k []) (get_or ss (suc k) []) ≡ false

-- The message on the permutation.
abbrev pub permutation_message : Bool → List Message
permutation_message permuted = if not permuted then not_a_permutation ∷ [] else []

above_trans : (s t : Str) (ss : List Str) → LexLe s t → All (LexLe t) ss → All (LexLe s) ss
above_trans s t [] h a = tt
above_trans s t (u ∷ ss) h a = (LexLe-trans s t u h a.0, above_trans s t ss h a.1)

order_loop_lem :
    (i : ℕ) (s : Str) (ss : List Str) (out : List Message)
    → ((order_loop (suc i) s ss out ≡ record { ok = true; messages = out })
        × IsSorted LexLe (s ∷ ss))
      ⊎ ((k : ℕ) × FirstUnordered (s ∷ ss) k
          × (order_loop (suc i) s ss out
              ≡ record { ok = false; messages = out ++ invalid_order (i + k) (i + k + 1) ∷ [] }))
unfolding order_loop
order_loop_lem i s [] out = inl (refl, (tt, tt))
order_loop_lem i s (t ∷ ss) out = elim (Bool-cases (lex_le s t)) [
  | inr bad ↦
      let e : suc i - 1 ≡ i + 0 = omega arith in
      let e' : suc i ≡ i + 0 + 1 = omega arith in
      inr (
        0,
        record { within = omega arith; before = λ j h. absurd (omega arith); unordered = bad },
        rw (bad, e)
            (ap (λ (n : ℕ). record { ok = false; messages = out ++ invalid_order (i + 0) n ∷ [] })
              e'),
      )
  | inl good ↦
      let step : order_loop (suc i) s (t ∷ ss) out ≡ order_loop (suc (suc i)) t ss out =
        rw good refl in
      elim (order_loop_lem (suc i) t ss out) [
        | inl (e, sorted) ↦ inl (step ∙ e, ((good, above_trans s t ss good sorted.0), sorted))
        | inr (k, f, e) ↦
            let a : suc i + k ≡ i + suc k = omega arith in
            inr (
              suc k,
              record {
                within = omega (arith, f.within);
                before = above good k f.before;
                unordered = f.unordered;
              },
              step ∙ rw a at e,
            )
      ]
]
  where
    above :
        lex_le s t ≡ true
        → (k : ℕ) → ((j : ℕ) → j < k → LexLe (get_or (t ∷ ss) j []) (get_or (t ∷ ss) (suc j) []))
        → (j : ℕ) → j < suc k
        → LexLe (get_or (s ∷ t ∷ ss) j []) (get_or (s ∷ t ∷ ss) (suc j) [])
    above good k h zero l = good
    above good k h (suc j) l = h j (omega arith)

-- check_sorted_order says whether the strings are in order. If they are not, it names the first pair
-- that is out of order. That the result is no permutation is printed, and changes nothing else.
pub check_sorted_order_lem :
    (ss : List Str) (permuted : Bool)
    → ((check_sorted_order ss permuted
          ≡ record { ok = true; messages = permutation_message permuted })
        × IsSorted LexLe ss)
      ⊎ ((k : ℕ) × FirstUnordered ss k
          × (check_sorted_order ss permuted ≡ record {
            ok = false;
            messages = permutation_message permuted ++ invalid_order k (k + 1) ∷ [];
          }))
unfolding check_sorted_order
check_sorted_order_lem [] permuted = inl (refl, tt)
check_sorted_order_lem (s ∷ ss) permuted =
    elim (order_loop_lem 0 s ss (permutation_message permuted)) [
      | inl sorted ↦ inl sorted
      | inr (k, f, e) ↦ let z : 0 + k ≡ k = omega arith in inr (k, f, rw z at e)
    ]
