-- ===== src/Prelude/Lists.antt =====
-- Lists as arrays, measured and indexed by native numbers, under the library's names.
use Prim.Native.Nat.{ℕ, zero, suc, ◌+◌, ◌-◌, ◌≤◌, min}
use mathlib.Core.Path.{◌≡◌, refl, ap}
use mathlib.Core.List.{List, [], ◌∷◌, ◌++◌, map}
use native.Mathlib.Omega.{arith}

module _ {ℓ} {A : Type ℓ} where
  abbrev pub length : List A → ℕ
  length [] = 0
  length (x ∷ xs) = suc (length xs)

  abbrev pub get_or : List A → ℕ → A → A
  get_or [] i d = d
  get_or (x ∷ xs) zero d = x
  get_or (x ∷ xs) (suc i) d = get_or xs i d

  -- A write out of bounds changes nothing.
  abbrev pub set : List A → ℕ → A → List A
  set [] i v = []
  set (x ∷ xs) zero v = v ∷ xs
  set (x ∷ xs) (suc i) v = x ∷ set xs i v

  abbrev pub take : ℕ → List A → List A
  take zero xs = []
  take (suc n) [] = []
  take (suc n) (x ∷ xs) = x ∷ take n xs

  abbrev pub drop : ℕ → List A → List A
  drop zero xs = xs
  drop (suc n) [] = []
  drop (suc n) (x ∷ xs) = drop n xs

  abbrev pub replicate : ℕ → A → List A
  replicate zero a = []
  replicate (suc n) a = a ∷ replicate n a

  pub length-replicate : (n : ℕ) (a : A) → length (replicate n a) ≡ n
  length-replicate zero a = refl
  length-replicate (suc n) a = ap suc (length-replicate n a)

  -- The first entry of an array overwritten.
  abbrev pub set_head : A → List A → List A
  set_head v [] = []
  set_head v (x ∷ xs) = v ∷ xs

  -- `p` reversed in front of `q`: an array seen from the position between the two.
  abbrev pub rev_append : List A → List A → List A
  rev_append [] q = q
  rev_append (x ∷ p) q = rev_append p (x ∷ q)

module _ {ℓ} {A : Type ℓ} where
  pub length-append : (xs ys : List A) → length (xs ++ ys) ≡ length xs + length ys
  length-append [] ys = omega arith
  length-append (x ∷ xs) ys = omega (arith, length-append xs ys)

  pub length-set : (xs : List A) (i : ℕ) (v : A) → length (set xs i v) ≡ length xs
  length-set [] i v = refl
  length-set (x ∷ xs) zero v = refl
  length-set (x ∷ xs) (suc i) v = ap suc (length-set xs i v)

  pub length-map {κ} : {B : Type κ} (xs : List A) (f : A → B) → length (map f xs) ≡ length xs
  length-map [] f = refl
  length-map (x ∷ xs) f = ap suc (length-map xs f)

  pub take-append-take :
      (k n : ℕ) (xs : List A) → k ≤ n → take k xs ++ take (n - k) (drop k xs) ≡ take n xs
  take-append-take zero n xs h = let e : n - zero ≡ n = omega arith in rw e
  take-append-take (suc k) zero xs h = absurd (omega arith)
  take-append-take (suc k) (suc n) [] h = nothing (suc n - suc k)
    where
      nothing : (m : ℕ) → take {A = A} m [] ≡ []
      nothing zero = refl
      nothing (suc m) = refl
  take-append-take (suc k) (suc n) (x ∷ xs) h =
      let e : suc n - suc k ≡ n - k = omega arith in
      rw e (ap (◌∷◌ x) (take-append-take k n xs (omega arith)))

  pub drop-drop : (n h m : ℕ) (xs : List A) → n + h ≡ m → drop n (drop h xs) ≡ drop m xs
  drop-drop n zero m xs e = let e' : n ≡ m = omega arith in rw e'
  drop-drop zero (suc h) zero xs e = absurd (omega arith)
  drop-drop (suc n) (suc h) zero xs e = absurd (omega arith)
  drop-drop zero (suc h) (suc m) [] e = refl
  drop-drop (suc n) (suc h) (suc m) [] e = refl
  drop-drop n (suc h) (suc m) (x ∷ xs) e = drop-drop n h m xs (omega arith)

  pub take-append-drop : (n : ℕ) (xs : List A) → take n xs ++ drop n xs ≡ xs
  take-append-drop zero xs = refl
  take-append-drop (suc n) [] = refl
  take-append-drop (suc n) (x ∷ xs) = rw (take-append-drop n xs)

  pub length-take : (n : ℕ) (xs : List A) → length (take n xs) ≡ min n (length xs)
  length-take zero xs = omega arith
  length-take (suc n) [] = omega arith
  length-take (suc n) (x ∷ xs) = omega (arith, length-take n xs)

  pub length-drop : (n : ℕ) (xs : List A) → length (drop n xs) ≡ length xs - n
  length-drop zero xs = omega arith
  length-drop (suc n) [] = omega arith
  length-drop (suc n) (x ∷ xs) = omega (arith, length-drop n xs)

  -- Reading and writing just behind a prefix.
  pub get_or-append :
      (p q : List A) (i j : ℕ) (d : A) → length p + i ≡ j → get_or (p ++ q) j d ≡ get_or q i d
  get_or-append [] q i j d e = let e' : i ≡ j = omega arith in rw e'
  get_or-append (x ∷ p) q i zero d e = absurd (omega arith)
  get_or-append (x ∷ p) q i (suc j) d e = get_or-append p q i j d (omega arith)

  pub set-append :
      (p q : List A) (i j : ℕ) (v : A) → length p + i ≡ j → set (p ++ q) j v ≡ p ++ set q i v
  set-append [] q i j v e = let e' : i ≡ j = omega arith in rw e'
  set-append (x ∷ p) q i zero v e = absurd (omega arith)
  set-append (x ∷ p) q i (suc j) v e = ap (◌∷◌ x) (set-append p q i j v (omega arith))

  pub length-rev_append : (p q : List A) → length (rev_append p q) ≡ length p + length q
  length-rev_append [] q = omega arith
  length-rev_append (x ∷ p) q = omega (arith, length-rev_append p (x ∷ q))

  pub rev_append-append : (p q r : List A) → rev_append p (q ++ r) ≡ rev_append p q ++ r
  rev_append-append [] q r = refl
  rev_append-append (x ∷ p) q r = rev_append-append p (x ∷ q) r

  pub get_or-rev_append_add :
      (p q : List A) (i j : ℕ) (d : A)
      → length p + i ≡ j
      → get_or (rev_append p q) j d ≡ get_or q i d
  get_or-rev_append_add [] q i j d e = let e' : i ≡ j = omega arith in rw e'
  get_or-rev_append_add (x ∷ p) q i j d e =
      get_or-rev_append_add p (x ∷ q) (suc i) j d (omega arith)

  pub set-rev_append_add :
      (p q : List A) (i j : ℕ) (v : A)
      → length p + i ≡ j
      → set (rev_append p q) j v ≡ rev_append p (set q i v)
  set-rev_append_add [] q i j v e = let e' : i ≡ j = omega arith in rw e'
  set-rev_append_add (x ∷ p) q i j v e = set-rev_append_add p (x ∷ q) (suc i) j v (omega arith)
