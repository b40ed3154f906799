-- ===== src/Mkqs/Arrays.antt =====
-- Swaps in arrays, by the entries that they leave.
use mathlib.Core.List.Perm
use parallel_string_sorting.Prelude.{
  ℕ, zero, suc, ◌+◌, ◌-◌, ◌≤◌, ◌<◌, List, [], ◌∷◌, ◌==◌, ltb, leb, if◌then◌else◌, get_or, set,
  length, length-set, Perm, ◌≡◌, refl, ◌∙◌, arith, ◌&&◌,
}
use parallel_string_sorting.Strings.{Str}
use parallel_string_sorting.Mkqs.{swap, vecswap}

pub get_or-set :
    (a : List Str) (i k : ℕ) (v : Str)
    → i < length a
    → get_or (set a i v) k [] ≡ (if k == i then v else get_or a k [])
get_or-set [] i k v h = absurd (omega arith)
get_or-set (x ∷ a) zero zero v h = refl
get_or-set (x ∷ a) zero (suc k) v h = ground arith
get_or-set (x ∷ a) (suc i) zero v h = ground arith
get_or-set (x ∷ a) (suc i) (suc k) v h = ground (arith, get_or-set a i k v)

pub length-swap : (a : List Str) (i j : ℕ) → length (swap a i j) ≡ length a
unfolding swap
length-swap a i j =
    omega (
      arith,
      length-set (set a i (get_or a j [])) j (get_or a i []),
      length-set a i (get_or a j []),
    )

pub get_or-swap :
    (a : List Str) (i j k : ℕ)
    → i < length a
    → j < length a
    → get_or (swap a i j) k []
      ≡ (if k == j then get_or a i [] else if k == i then get_or a j [] else get_or a k [])
unfolding swap
get_or-swap a i j k h g =
    let n = length-set a i (get_or a j []) in
    ground (
      arith,
      get_or-set (set a i (get_or a j [])) j k (get_or a i []) (omega (arith, n)),
      get_or-set a i k (get_or a j []) h,
    )

set-perm :
    (a : List Str) (i : ℕ) (v : Str) → i < length a → Perm (get_or a i [] ∷ set a i v) (v ∷ a)
set-perm [] i v h = absurd (omega arith)
set-perm (x ∷ a) zero v h = Perm.swap v x a
set-perm (x ∷ a) (suc i) v h =
    Perm.trans (Perm.swap x (get_or a i []) (set a i v))
      (Perm.trans (Perm.cons x (set-perm a i v (omega arith))) (Perm.swap v x a))

pub swap-perm : (a : List Str) (i j : ℕ) → i < length a → j < length a → Perm (swap a i j) a
unfolding swap
swap-perm a i j h g =
    let v = get_or a j [] in
    let b = set a i v in
    let n = length-set a i v in
    let same : get_or b j [] ≡ v = ground (arith, get_or-set a i j v h) in
    let first = rw same at (set-perm b j (get_or a i []) (omega (arith, n))) in
    Perm.cons_inv {a = v} (Perm.trans first (set-perm a i v h))

pub length-vecswap : (n i j : ℕ) (a : List Str) → length (vecswap n i j a) ≡ length a
unfolding vecswap
length-vecswap zero i j a = refl
length-vecswap (suc n) i j a =
    omega (arith, length-vecswap n (i + 1) (j + 1) (swap a i j), length-swap a i j)

pub vecswap-perm :
    (n i j : ℕ) (a : List Str) → i + n ≤ length a → j + n ≤ length a → Perm (vecswap n i j a) a
unfolding vecswap
vecswap-perm zero i j a h g = Perm.refl a
vecswap-perm (suc n) i j a h g =
    let l = length-swap a i j in
    Perm.trans (vecswap-perm n (i + 1) (j + 1) (swap a i j) (omega (arith, l)) (omega (arith, l)))
      (swap-perm a i j (omega arith) (omega arith))

-- Where the entry k of the result of vecswap comes from.
abbrev pub vecswap_source : ℕ → ℕ → ℕ → ℕ → ℕ
vecswap_source n i j k =
    if leb i k && ltb k (i + n)
    then j + k - i
    else if leb j k && ltb k (j + n)
    then i + k - j
    else k

swap_sources :
    (n i j k : ℕ) (a : List Str)
    → i + suc n ≤ j
    → let s = vecswap_source n (i + 1) (j + 1) k in
      (if s == j then get_or a i [] else if s == i then get_or a j [] else get_or a s [])
      ≡ get_or a (vecswap_source (suc n) i j k) []
swap_sources n i j k a h =
    let s = vecswap_source n (i + 1) (j + 1) k in
    let e : vecswap_source (suc n) i j k ≡ (if s == j then i else if s == i then j else s) =
      ground arith in
    rw e (ground arith)

pub get_or-vecswap :
    (n i j k : ℕ) (a : List Str)
    → i + n ≤ j
    → j + n ≤ length a
    → get_or (vecswap n i j a) k [] ≡ get_or a (vecswap_source n i j k) []
unfolding vecswap
get_or-vecswap zero i j k a h g = let e : vecswap_source 0 i j k ≡ k = ground arith in rw e refl
get_or-vecswap (suc n) i j k a h g =
    let l = length-swap a i j in
    let s = vecswap_source n (i + 1) (j + 1) k in
    get_or-vecswap n (i + 1) (j + 1) k (swap a i j) (omega arith) (omega (arith, l))
    ∙ (get_or-swap a i j s (omega arith) (omega arith) ∙ swap_sources n i j k a h)
