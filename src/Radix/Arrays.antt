-- ===== src/Radix/Arrays.antt =====
-- Tables by a function, arrays that are made of one part for each number, and buckets by a key.
use mathlib.Core.List.{append_assoc}
use parallel_string_sorting.Prelude.{
  ℕ, zero, suc, ◌+◌, ◌-◌, ◌≤◌, ◌<◌, List, [], ◌∷◌, ◌++◌, true, false, ◌==◌, ==_iff, if◌then◌else◌,
  length, get_or, set, length-append, set-append, ◌≡◌, refl, ap, arith,
}

-- The r values of a function from i on.
abbrev pub tabulate {ℓ} : {A : Type ℓ} → ℕ → ℕ → (ℕ → A) → List A
tabulate zero i f = []
tabulate (suc r) i f = f i ∷ tabulate r (suc i) f

-- The r parts from the i-th on, one behind the other.
abbrev pub joined {ℓ} : {A : Type ℓ} → ℕ → ℕ → (ℕ → List A) → List A
joined zero i f = []
joined (suc r) i f = f i ++ joined r (suc i) f

-- A function changed at one number.
abbrev pub update {ℓ} : {A : Type ℓ} → (ℕ → A) → ℕ → A → ℕ → A
update f k v i = if i == k then v else f i

-- The sum of the values below a number.
abbrev pub base : (ℕ → ℕ) → ℕ → ℕ
base f zero = 0
base f (suc k) = base f k + f k

pub base_mono : (f : ℕ → ℕ) (i j k : ℕ) → i + j ≡ k → base f i ≤ base f k
base_mono f i j zero e = let z : i ≡ 0 = omega arith in rw z (omega arith)
base_mono f i zero (suc k) e = let z : i ≡ suc k = omega arith in rw z (omega arith)
base_mono f i (suc j) (suc k) e = omega (arith, base_mono f i j k (omega arith))

pub update-same {ℓ} : {A : Type ℓ} (f : ℕ → A) (k : ℕ) (v : A) → update f k v k ≡ v
update-same f k v = let e : (k == k) ≡ true = (==_iff k k).1 refl in rw e refl

module _ {ℓ} {A : Type ℓ} where
  pub tabulate_same :
      (r i : ℕ) (f g : ℕ → A) → ((k : ℕ) → i ≤ k → f k ≡ g k) → tabulate r i f ≡ tabulate r i g
  tabulate_same zero i f g h = refl
  tabulate_same (suc r) i f g h =
      rw (h i (omega arith), tabulate_same r (suc i) f g (λ k l. h k (omega arith))) refl

  pub joined_below :
      (r i : ℕ) (f g : ℕ → List A) → ((k : ℕ) → k < i + r → f k ≡ g k) → joined r i f ≡ joined r i g
  joined_below zero i f g h = refl
  joined_below (suc r) i f g h =
      rw (h i (omega arith), joined_below r (suc i) f g (λ k l. h k (omega arith))) refl

  pub joined_same :
      (r i : ℕ) (f g : ℕ → List A) → ((k : ℕ) → i ≤ k → f k ≡ g k) → joined r i f ≡ joined r i g
  joined_same zero i f g h = refl
  joined_same (suc r) i f g h =
      rw (h i (omega arith), joined_same r (suc i) f g (λ k l. h k (omega arith))) refl

  pub get_or-tabulate :
      (r i j k : ℕ) (f : ℕ → A) (d : A) → i + j ≡ k → j < r → get_or (tabulate r i f) j d ≡ f k
  get_or-tabulate zero i j k f d e h = absurd (omega arith)
  get_or-tabulate (suc r) i zero k f d e h = let e' : i ≡ k = omega arith in ap f e'
  get_or-tabulate (suc r) i (suc j) k f d e h =
      get_or-tabulate r (suc i) j k f d (omega arith) (omega arith)

  pub set-tabulate :
      (r i j k : ℕ) (f : ℕ → A) (v : A)
      → i + j ≡ k
      → set (tabulate r i f) j v ≡ tabulate r i (update f k v)
  set-tabulate zero i j k f v e = refl
  set-tabulate (suc r) i zero k f v e =
      let e' : (i == k) ≡ true = ground (arith, e) in
      rw e' (ap (◌∷◌ v) (tabulate_same r (suc i) f (update f k v) (λ m l. ground (arith, e, l))))
  set-tabulate (suc r) i (suc j) k f v e =
      let e' : (i == k) ≡ false = ground (arith, e) in
      rw e' (ap (◌∷◌ (f i)) (set-tabulate r (suc i) j k f v (omega arith)))

  set-append_left :
      (xs ys : List A) (m : ℕ) (v : A) → m < length xs → set (xs ++ ys) m v ≡ set xs m v ++ ys
  set-append_left [] ys m v h = absurd (omega arith)
  set-append_left (x ∷ xs) ys zero v h = refl
  set-append_left (x ∷ xs) ys (suc m) v h = ap (◌∷◌ x) (set-append_left xs ys m v (omega arith))

  -- A write to the place m of the k-th part.
  pub set-joined :
      (r i j k q m : ℕ) (f : ℕ → List A) (size : ℕ → ℕ) (v : A) (rest : List A)
      → i + j ≡ k
      → j < r
      → ((x : ℕ) → x < i + r → length (f x) ≡ size x)
      → base size i + q ≡ base size k + m
      → m < size k
      → set (joined r i f ++ rest) q v ≡ joined r i (update f k (set (f k) m v)) ++ rest
  set-joined zero i j k q m f size v rest e h lens at small = absurd (omega arith)
  set-joined (suc r) i zero k q m f size v rest e h lens at small =
      let same : k ≡ i = omega arith in
      let bases : base size k ≡ base size i = ap (base size) same in
      let sizes : size k ≡ size i = ap size same in
      let place : q ≡ m = omega arith in
      let here = update-same f i (set (f i) m v) in
      let others = joined_same r (suc i) f (update f i (set (f i) m v)) (λ x l. ground arith) in
      rw (place, same, here, ← others, append_assoc, append_assoc)
        (set-append_left (f i) (joined r (suc i) f ++ rest) m v
          (omega (arith, lens i (omega arith))))
  set-joined (suc r) i (suc j) k q m f size v rest e h lens at small =
      let differ : (i == k) ≡ false = ground (arith, e) in
      let part = lens i (omega arith) in
      let mono = base_mono size (suc i) j k (omega arith) in
      let before : length (f i) + (q - size i) ≡ q = omega arith in
      rw
        (
          differ,
          append_assoc,
          append_assoc,
          set-append (f i) (joined r (suc i) f ++ rest) (q - size i) q v before,
        )
        (ap (◌++◌ (f i)) (
          set-joined r (suc i) j k (q - size i) m f size v rest (omega arith) (omega arith)
            (λ x l. lens x (omega arith)) (omega arith) small))

  pub length-joined :
      (r i : ℕ) (f : ℕ → List A)
      → base (λ k. length (f k)) (i + r) ≡ base (λ k. length (f k)) i + length (joined r i f)
  length-joined zero i f = let e : i + 0 ≡ i = omega arith in rw e (omega arith)
  length-joined (suc r) i f =
      let e : i + suc r ≡ suc i + r = omega arith in
      rw e (omega (arith, length-joined r (suc i) f, length-append (f i) (joined r (suc i) f)))
