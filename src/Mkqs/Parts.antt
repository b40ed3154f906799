-- ===== src/Mkqs/Parts.antt =====
-- What the three ranges of a split make of the whole array, once they are sorted.
use native.Mathlib.Nat.{ℕ_set}
use native.Mathlib.Bridge.{le_prop}
use mathlib.Core.List.Perm
use parallel_string_sorting.Prelude.{
  ℕ, zero, suc, ◌≤◌, ◌<◌, List, [], ◌∷◌, ◌++◌, length, take, drop, All, All-perm, All-append,
  All-map, IsSorted, ◌≡◌, refl, sym, ap, ◌∙◌, arith,
}
use parallel_string_sorting.Strings.{Str}
use parallel_string_sorting.Insertion.Laws.{SuffixLe, IsSortOf}
use parallel_string_sorting.Mkqs.{char_at, on_range}
use parallel_string_sorting.Mkqs.Order.{
  IsSorted-append, All-cross, SuffixLe-of_lt, SuffixLe-suc, SuffixLe-ended,
}

-- Sorted ranges of strings below, with and above one byte at the depth are a sorted array.
pub parts-IsSortOf :
    (d v : ℕ) (low same high low' same' high' : List Str)
    → All (λ s. char_at d s < v) low
    → All (λ s. char_at d s ≡ v) same
    → All (λ s. v < char_at d s) high
    → IsSortOf d low low'
    → IsSortOf d same same'
    → IsSortOf d high high'
    → IsSortOf d (low ++ (same ++ high)) (low' ++ (same' ++ high'))
parts-IsSortOf d v low same high low' same' high' pl ps ph (sl, el) (ss, es) (sh, eh) =
    let pl' = All-perm (λ s. char_at d s < v) (λ s. le_prop) (Perm.symm el) pl in
    let ps' = All-perm (λ s. char_at d s ≡ v) (λ s. ℕ_set _ _) (Perm.symm es) ps in
    let ph' = All-perm (λ s. v < char_at d s) (λ s. le_prop) (Perm.symm eh) ph in
    let upper = IsSorted-append (SuffixLe d) same' high' ss sh (
      All-cross (SuffixLe d) _ _ same' high' (λ x y p q. SuffixLe-of_lt d x y (omega arith)) ps'
        ph') in
    let above : All (λ s. v ≤ char_at d s) (same' ++ high') =
      All-append _ same' high' (All-map _ _ same' (λ s e. omega arith) ps')
        (All-map _ _ high' (λ s h. omega arith) ph') in
    (
      IsSorted-append (SuffixLe d) low' (same' ++ high') sl upper (
          All-cross (SuffixLe d) _ _ low' (same' ++ high')
            (λ x y p q. SuffixLe-of_lt d x y (omega arith)) pl' above),
      Perm.append el (Perm.append es eh),
    )

pub short-IsSortOf : (d : ℕ) (xs : List Str) → length xs ≤ 1 → IsSortOf d xs xs
short-IsSortOf d [] h = (tt, Perm.refl [])
short-IsSortOf d (x ∷ []) h = ((tt, tt), Perm.refl (x ∷ []))
short-IsSortOf d (x ∷ y ∷ xs) h = absurd (omega arith)

-- Strings with the same byte at the depth, sorted from the next one on.
pub deeper-IsSortOf :
    (d v : ℕ) (xs ys : List Str)
    → All (λ s. char_at d s ≡ v) xs
    → IsSortOf (suc d) xs ys
    → IsSortOf d xs ys
deeper-IsSortOf d v xs ys p (s, e) =
    (lift ys (All-perm (λ s. char_at d s ≡ v) (λ s. ℕ_set _ _) (Perm.symm e) p) s, e)
  where
    lift_one :
        (y : Str) (ys : List Str)
        → char_at d y ≡ v
        → All (λ s. char_at d s ≡ v) ys
        → All (SuffixLe (suc d) y) ys
        → All (SuffixLe d y) ys
    lift_one y [] e p s = tt
    lift_one y (z ∷ ys) e p s = (SuffixLe-suc d y z (e ∙ sym p.0) s.0, lift_one y ys e p.1 s.1)

    lift :
        (ys : List Str)
        → All (λ s. char_at d s ≡ v) ys
        → IsSorted (SuffixLe (suc d)) ys
        → IsSorted (SuffixLe d) ys
    lift [] p s = tt
    lift (y ∷ ys) p s = (lift_one y ys p.0 p.1 s.0, lift ys p.1 s.1)

-- Strings that have ended are in order.
pub ended-IsSortOf : (d : ℕ) (xs : List Str) → All (λ s. char_at d s ≡ 0) xs → IsSortOf d xs xs
ended-IsSortOf d xs p = (all xs p, Perm.refl xs)
  where
    below : (x : Str) (xs : List Str) → char_at d x ≡ 0 → All (SuffixLe d x) xs
    below x [] e = tt
    below x (y ∷ xs) e = (SuffixLe-ended d x y e, below x xs e)

    all : (xs : List Str) → All (λ s. char_at d s ≡ 0) xs → IsSorted (SuffixLe d) xs
    all [] p = tt
    all (x ∷ xs) p = (below x xs p.0, all xs p.1)

pub take-append {ℓ} : {A : Type ℓ} (n : ℕ) (xs ys : List A) → length xs ≡ n → take n (xs ++ ys) ≡ xs
take-append zero [] ys e = refl
take-append zero (x ∷ xs) ys e = absurd (omega arith)
take-append (suc n) [] ys e = absurd (omega arith)
take-append (suc n) (x ∷ xs) ys e = ap (◌∷◌ x) (take-append n xs ys (omega arith))

pub drop-append {ℓ} : {A : Type ℓ} (n : ℕ) (xs ys : List A) → length xs ≡ n → drop n (xs ++ ys) ≡ ys
drop-append zero [] ys e = refl
drop-append zero (x ∷ xs) ys e = absurd (omega arith)
drop-append (suc n) [] ys e = absurd (omega arith)
drop-append (suc n) (x ∷ xs) ys e = drop-append n xs ys (omega arith)

pub on_range-append :
    (lo len : ℕ) (f : List Str → List Str) (xs ys zs : List Str)
    → length xs ≡ lo
    → length ys ≡ len
    → on_range lo len f (xs ++ (ys ++ zs)) ≡ xs ++ (f ys ++ zs)
on_range-append lo len f xs ys zs e g =
    rw
      (
        take-append lo xs (ys ++ zs) e,
        drop-append lo xs (ys ++ zs) e,
        take-append len ys zs g,
        drop-append len ys zs g,
      )
      refl
