-- ===== src/Prelude/Predicates.antt =====
-- Predicates on lists by recursion, which the tactics read and build as tuples.
use native.Mathlib.Nat.{ℕ_set}
use mathlib.Core.HLevel.{×_prop}
use mathlib.Core.Logic.{∥∥₁_elim}
use mathlib.Core.Path.{◌≡◌, refl, ap, ◌∙◌, subst}
use mathlib.Core.List.{List, [], ◌∷◌, ◌++◌, Perm, Permᴰ, perm_middle}
use mathlib.Core.List.Perm
use Prim.Native.Nat.{ℕ, zero, suc}
use parallel_string_sorting.Prelude.Lists.{length, rev_append, take, drop}

abbrev pub All {ℓ κ} : {A : Type ℓ} → (A → Type κ) → List A → Type κ
All P [] = Unit
All P (x ∷ xs) = P x × All P xs

-- Every earlier element is related to every later one.
abbrev pub IsSorted {ℓ κ} : {A : Type ℓ} → (A → A → Type κ) → List A → Type κ
IsSorted R [] = Unit
IsSorted R (x ∷ xs) = All (R x) xs × IsSorted R xs

module _ {ℓ κ} {A : Type ℓ} where
  pub All-append : (P : A → Type κ) (xs ys : List A) → All P xs → All P ys → All P (xs ++ ys)
  All-append P [] ys hx hy = hy
  All-append P (x ∷ xs) ys hx hy = (hx.0, All-append P xs ys hx.1 hy)

  pub All-take : (P : A → Type κ) (n : ℕ) (xs : List A) → All P xs → All P (take n xs)
  All-take P zero xs h = tt
  All-take P (suc n) [] h = tt
  All-take P (suc n) (x ∷ xs) h = (h.0, All-take P n xs h.1)

  pub All-drop : (P : A → Type κ) (n : ℕ) (xs : List A) → All P xs → All P (drop n xs)
  All-drop P zero xs h = h
  All-drop P (suc n) [] h = tt
  All-drop P (suc n) (x ∷ xs) h = All-drop P n xs h.1

  pub All-map : (P Q : A → Type κ) (xs : List A) → ((x : A) → P x → Q x) → All P xs → All Q xs
  All-map P Q [] f h = tt
  All-map P Q (x ∷ xs) f h = (f x h.0, All-map P Q xs f h.1)

  -- A reversed descending list in front of an ascending one above it is ascending.
  pub IsSorted-rev_append :
      (R : A → A → Type κ) (p q : List A)
      → IsSorted (λ x y. R y x) p
      → IsSorted R q
      → All (λ x. All (R x) q) p
      → IsSorted R (rev_append p q)
  IsSorted-rev_append R [] q hp hq cross = hq
  IsSorted-rev_append R (x ∷ p) q hp hq cross =
      IsSorted-rev_append R p (x ∷ q) hp.1 (cross.0, hq) (both p hp.0 cross.1)
    where
      both :
          (p : List A)
          → All (λ y. R y x) p
          → All (λ y. All (R y) q) p
          → All (λ y. R y x × All (R y) q) p
      both [] h c = tt
      both (y ∷ p) h c = ((h.0, c.0), both p h.1 c.1)

pub rev_append-perm {ℓ} : {A : Type ℓ} (p q : List A) → Perm (rev_append p q) (p ++ q)
rev_append-perm [] q = Perm.refl q
rev_append-perm (x ∷ p) q = Perm.trans (rev_append-perm p (x ∷ q)) (perm_middle p q)

pub All-prop {ℓ κ} :
    {A : Type ℓ} {P : A → Type κ} → ((x : A) → IsProp (P x)) → (xs : List A) → IsProp (All P xs)
All-prop h [] = λ a b. refl
All-prop h (x ∷ xs) = ×_prop (h x) (All-prop h xs)

All-Permᴰ {ℓ κ} : {A : Type ℓ} (P : A → Type κ) {xs ys : List A} → Permᴰ xs ys → All P xs → All P ys
All-Permᴰ P Permᴰ.nil a = tt
All-Permᴰ P (Permᴰ.cons e p) a = (subst P e a.0, All-Permᴰ P p a.1)
All-Permᴰ P (Permᴰ.swap e f) a = (subst P f a.1.0, (subst P e a.0, a.1.1))
All-Permᴰ P (Permᴰ.trans p q) a = All-Permᴰ P q (All-Permᴰ P p a)

pub All-perm {ℓ κ} :
    {A : Type ℓ} (P : A → Type κ) {xs ys : List A}
    → ((x : A) → IsProp (P x))
    → Perm xs ys
    → All P xs
    → All P ys
All-perm P {ys = ys} h p a = ∥∥₁_elim p (All-prop h ys) (λ d. All-Permᴰ P d a)

Permᴰ-length {ℓ} : {A : Type ℓ} {xs ys : List A} → Permᴰ xs ys → length xs ≡ length ys
Permᴰ-length Permᴰ.nil = refl
Permᴰ-length (Permᴰ.cons e p) = ap suc (Permᴰ-length p)
Permᴰ-length (Permᴰ.swap e f) = refl
Permᴰ-length (Permᴰ.trans p q) = Permᴰ-length p ∙ Permᴰ-length q

pub length-perm {ℓ} : {A : Type ℓ} {xs ys : List A} → Perm xs ys → length xs ≡ length ys
length-perm p = ∥∥₁_elim p (ℕ_set _ _) Permᴰ-length
