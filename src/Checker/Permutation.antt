-- ===== src/Checker/Permutation.antt =====
-- The permutation checks accept every permutation; that of 64 bits, if the string area is small.
use mathlib.Core.Logic.{∥∥₁_elim}
use native.Mathlib.Nat.{ℕ_set, div-add-mod, mul-add-mod_self_left, mod-eq_of_lt}
use native.Mathlib.Bridge.{le_prop}
use mathlib.Core.HLevel.{×_prop}
use mathlib.Core.List.{Permᴰ}
use parallel_string_sorting.Prelude.{
  ℕ, zero, suc, ◌+◌, ◌*◌, ◌/◌, ◌%◌, ◌^◌, ◌≤◌, ◌<◌, List, [], ◌∷◌, true, ◌≡◌, refl, sym, ap, ◌∙◌,
  Perm, All, All-perm, arith, ==_iff, ◌==◌, Bool-cases, inl, inr, ◌≢◌,
}
use parallel_string_sorting.Checker.{
  prime64, prime32, point, factor, eval_loop, eval_loop64, find_point, check_with, make_check,
  check, make_check64, check64,
}

-- The evaluation modulo p, of which both loops are instances.
eval_mod : ℕ → ℕ → ℕ → List ℕ → ℕ
eval_mod p z v [] = v
eval_mod p z v (a ∷ xs) = eval_mod p z (v * factor z a % p) xs

mod-mul : (p x b : ℕ) → (x % p) * b % p ≡ x * b % p
mod-mul p x b =
    let split = div-add-mod x p in
    let e : (p * (x / p) + x % p) * b ≡ p * (x / p * b) + (x % p) * b = grind arith in
    sym (
      ap (λ (y : ℕ). y * b % p) (sym split)
      ∙ (ap (λ (y : ℕ). y % p) e ∙ mul-add-mod_self_left p (x / p * b) ((x % p) * b)))

-- Of two factors the order does not matter.
swap_factors : (p v a b : ℕ) → (v * a % p) * b % p ≡ (v * b % p) * a % p
swap_factors p v a b =
    let e : v * a * b ≡ v * b * a = grind arith in
    mod-mul p (v * a) b ∙ (ap (λ (y : ℕ). y % p) e ∙ sym (mod-mul p (v * b) a))

eval_mod-Permᴰ : (p z v : ℕ) {xs ys : List ℕ} → Permᴰ xs ys → eval_mod p z v xs ≡ eval_mod p z v ys
unfolding eval_mod
eval_mod-Permᴰ p z v Permᴰ.nil = refl
eval_mod-Permᴰ p z v {ys = y ∷ ys} (Permᴰ.cons e d) =
    rw e (eval_mod-Permᴰ p z (v * factor z y % p) d)
eval_mod-Permᴰ p z v {xs = a ∷ b ∷ xs} (Permᴰ.swap e f) =
    rw (← e, ← f) (ap (λ (w : ℕ). eval_mod p z w xs) (swap_factors p v (factor z a) (factor z b)))
eval_mod-Permᴰ p z v (Permᴰ.trans d e) = eval_mod-Permᴰ p z v d ∙ eval_mod-Permᴰ p z v e

eval_mod-perm : (p z v : ℕ) {xs ys : List ℕ} → Perm xs ys → eval_mod p z v xs ≡ eval_mod p z v ys
eval_mod-perm p z v h = ∥∥₁_elim h (ℕ_set _ _) (eval_mod-Permᴰ p z v)

eval_loop-eq-eval_mod : (z v : ℕ) (xs : List ℕ) → eval_loop z v xs ≡ eval_mod prime64 z v xs
unfolding eval_loop eval_mod
eval_loop-eq-eval_mod z v [] = refl
eval_loop-eq-eval_mod z v (a ∷ xs) = eval_loop-eq-eval_mod z (v * factor z a % prime64) xs

small_product : (a b : ℕ) → a < 2 ^ 32 → b < 2 ^ 32 → a * b < 2 ^ 64
small_product a b h g = grind arith

eval_loop64-eq-eval_mod :
    (z v : ℕ) (xs : List ℕ)
    → v < 2 ^ 32
    → All (λ a. factor z a < 2 ^ 32) xs
    → eval_loop64 z v xs ≡ eval_mod prime32 z v xs
unfolding eval_loop64 eval_mod
eval_loop64-eq-eval_mod z v [] h g = refl
eval_loop64-eq-eval_mod z v (a ∷ xs) h g =
    let f = factor z a in
    let small = small_product v f h g.0 in
    let e : v * f % 2 ^ 64 ≡ v * f = mod-eq_of_lt small in
    let b : v * f % prime32 < 2 ^ 32 = omega arith in
    rw e (eval_loop64-eq-eval_mod z (v * f % prime32) xs b g.1)

-- A check that found a point accepts each array with the same evaluation at the points.
found_check :
    (eval : ℕ → ℕ → List ℕ → ℕ) (area_end : ℕ) (xs ys : List ℕ) (rounds iter : ℕ)
    → ((k : ℕ) → k < rounds + iter → eval (point area_end k) 1 xs ≡ eval (point area_end k) 1 ys)
    → (find_point eval area_end xs rounds iter).v ≢ 0
    → check_with eval area_end ys (find_point eval area_end xs rounds iter) ≡ true
unfolding find_point check_with
found_check eval area_end xs ys zero iter same found = absurd (found refl)
found_check eval area_end xs ys (suc rounds) iter same found =
    let v = eval (point area_end iter) 1 xs in
    elim (Bool-cases (v == 0)) [
      | inl none ↦ rw none (
          found_check eval area_end xs ys rounds (iter + 1) (λ k h. same k (omega arith))
            (rw none at found))
      | inr some ↦ rw some ((==_iff _ _).1 (same iter (omega arith)))
    ]

-- PermutationCheck accepts every permutation of the pointers that it was made from, if it found a
-- point where their polynomial is not zero.
pub check-perm :
    (area_end : ℕ) (xs ys : List ℕ)
    → Perm xs ys
    → (make_check area_end xs).v ≢ 0
    → check area_end ys (make_check area_end xs) ≡ true
unfolding make_check check
check-perm area_end xs ys h found =
    found_check eval_loop area_end xs ys 99999 1
      (λ k l.
        eval_loop-eq-eval_mod (point area_end k) 1 xs
        ∙ (eval_mod-perm prime64 (point area_end k) 1 h
            ∙ sym (eval_loop-eq-eval_mod (point area_end k) 1 ys)))
      found

-- The string area: it ends below 2^64, and a pointer into it is less than 2^32 from its end and the
-- points behind that.
abbrev pub IsNear : ℕ → ℕ → Type 0
IsNear area_end a = (a ≤ area_end) × (area_end + 100000 < a + 2 ^ 32)

near_factors :
    (area_end k : ℕ) (xs : List ℕ)
    → area_end + 100000 < 2 ^ 64
    → k < 100000
    → All (IsNear area_end) xs
    → All (λ a. factor (point area_end k) a < 2 ^ 32) xs
near_factors area_end k [] h l near = tt
near_factors area_end k (a ∷ xs) h l near =
    (omega (arith, near.0.0, near.0.1), near_factors area_end k xs h l near.1)

same_value64 :
    (area_end k : ℕ) (xs ys : List ℕ)
    → area_end + 100000 < 2 ^ 64
    → All (IsNear area_end) xs
    → Perm xs ys
    → k < 100000
    → eval_loop64 (point area_end k) 1 xs ≡ eval_loop64 (point area_end k) 1 ys
same_value64 area_end k xs ys small near h l =
    let near' = All-perm (IsNear area_end) (λ a. ×_prop le_prop le_prop) h near in
    let z = point area_end k in
    eval_loop64-eq-eval_mod z 1 xs (omega arith) (near_factors area_end k xs small l near)
    ∙ (eval_mod-perm prime32 z 1 h
        ∙ sym (
            eval_loop64-eq-eval_mod z 1 ys (omega arith)
              (near_factors area_end k ys small l near')))

-- PermutationCheck64 accepts every permutation of pointers less than 2^32 - 100000 bytes in front of
-- the end of the string area, if it found a point where their polynomial is not zero.
pub check64-perm :
    (area_end : ℕ) (xs ys : List ℕ)
    → area_end + 100000 < 2 ^ 64
    → All (IsNear area_end) xs
    → Perm xs ys
    → (make_check64 area_end xs).v ≢ 0
    → check64 area_end ys (make_check64 area_end xs) ≡ true
unfolding make_check64 check64
check64-perm area_end xs ys small near h found =
    found_check eval_loop64 area_end xs ys 99999 1
      (λ k l. same_value64 area_end k xs ys small near h l) found
