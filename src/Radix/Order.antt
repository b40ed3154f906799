-- ===== src/Radix/Order.antt =====
-- What a radix sort needs of the characters that it sorts by: the interface to the keys of one and
-- two bytes.
use mathlib.Core.HLevel.{×_prop}
use mathlib.Core.List.Perm
use native.Mathlib.Bridge.{le_prop}
use native.Mathlib.Nat.{ℕ_set}
use parallel_string_sorting.Prelude.{
  ℕ, ◌+◌, ◌≤◌, ◌<◌, List, [], ◌∷◌, ◌++◌, Bool, true, false, length, drop, All, All-perm, All-prop,
  IsSorted, ◌≡◌, ◌≢◌, ◌⊎◌, sym, ap, ◌∙◌, arith,
}
use parallel_string_sorting.Strings.{Str}
use parallel_string_sorting.Insertion.Laws.{SuffixLe, IsSortOf}
use parallel_string_sorting.Keys.Pack.{IsBytes}
use parallel_string_sorting.Mkqs.Order.{IsSorted-append, All-cross, remaining}

-- Keys of strings at a depth. `deeper` is the test on a key other than 0 that its strings go on.
pub record RadixKey (d : ℕ) : Type 0 where
  pub key : Str → ℕ
  pub radix : ℕ
  pub step : ℕ
  pub deeper : ℕ → Bool
  pub radix_pos : 0 < radix
  pub key_small : (s : Str) → IsBytes s → key s < radix
  pub key_lt : (s t : Str) → IsBytes s → IsBytes t → key s < key t → SuffixLe d s t
  pub key_equal :
      (s t : Str) → IsBytes s → IsBytes t → key s ≡ key t → SuffixLe (d + step) s t → SuffixLe d s t
  pub key_ended :
      (s t : Str)
      → IsBytes s
      → IsBytes t
      → key s ≡ key t
      → (key s ≡ 0) ⊎ (deeper (key s) ≡ false)
      → SuffixLe d s t
  pub key_shorter :
      (s : Str)
      → IsBytes s
      → key s ≢ 0
      → deeper (key s) ≡ true
      → length (drop (d + step) s) < length (drop d s)

pub IsBytes-prop : (s : Str) → IsProp (IsBytes s)
IsBytes-prop s = All-prop (λ c. le_prop) s

module _ (d : ℕ) (k : RadixKey d) where
  open k use {key, deeper, step}

  -- The strings of the i-th bucket, and those of later ones.
  abbrev pub In : ℕ → Str → Type 0
  In i s = IsBytes s × (key s ≡ i)

  abbrev pub Behind : ℕ → Str → Type 0
  Behind i s = IsBytes s × (i < key s)

  In-prop : (i : ℕ) (s : Str) → IsProp (In i s)
  In-prop i s = ×_prop (IsBytes-prop s) (ℕ_set _ _)

  Behind-prop : (i : ℕ) (s : Str) → IsProp (Behind i s)
  Behind-prop i s = ×_prop (IsBytes-prop s) le_prop

  -- A sorted bucket in front of the later ones.
  pub buckets-IsSortOf :
      (i : ℕ) (xs ys xs' ys' : List Str)
      → All (In i) xs
      → All (Behind i) ys
      → IsSortOf d xs xs'
      → IsSortOf d ys ys'
      → IsSortOf d (xs ++ ys) (xs' ++ ys')
  buckets-IsSortOf i xs ys xs' ys' px py (sx, ex) (sy, ey) =
      let px' = All-perm (In i) (In-prop i) (Perm.symm ex) px in
      let py' = All-perm (Behind i) (Behind-prop i) (Perm.symm ey) py in
      (
        IsSorted-append (SuffixLe d) xs' ys' sx sy (
            All-cross (SuffixLe d) _ _ xs' ys' (λ x y p q. k.key_lt x y p.0 q.0 (omega arith)) px'
              py'),
        Perm.append ex ey,
      )

  -- Pairs of strings of one bucket.
  IsSorted-In :
      (P : Str → Str → Type 0) (i : ℕ) (ys : List Str)
      → ((x y : Str) → In i x → In i y → P x y → SuffixLe d x y)
      → All (In i) ys
      → IsSorted P ys
      → IsSorted (SuffixLe d) ys
  IsSorted-In P i [] f h s = tt
  IsSorted-In P i (y ∷ ys) f h s = (below ys h.1 s.0, IsSorted-In P i ys f h.1 s.1)
    where
      below : (ys : List Str) → All (In i) ys → All (P y) ys → All (SuffixLe d y) ys
      below [] h s = tt
      below (z ∷ ys) g s = (f y z h.0 g.0 s.0, below ys g.1 s.1)

  pub bucket_deeper-IsSortOf :
      (i : ℕ) (xs ys : List Str) → All (In i) xs → IsSortOf (d + step) xs ys → IsSortOf d xs ys
  bucket_deeper-IsSortOf i xs ys h (s, e) = (
    IsSorted-In (SuffixLe (d + step)) i ys (λ x y p q l. k.key_equal x y p.0 q.0 (p.1 ∙ sym q.1) l)
        (All-perm (In i) (In-prop i) (Perm.symm e) h) s,
    e,
  )

  IsSorted-Unit : (ys : List Str) → IsSorted (λ x y. Unit {0}) ys
  IsSorted-Unit [] = tt
  IsSorted-Unit (y ∷ ys) = (all ys, IsSorted-Unit ys)
    where
      all : (ys : List Str) → All (λ x. Unit {0}) ys
      all [] = tt
      all (y ∷ ys) = (tt, all ys)

  pub bucket_ended-IsSortOf :
      (i : ℕ) (xs : List Str) → All (In i) xs → (i ≡ 0) ⊎ (deeper i ≡ false) → IsSortOf d xs xs
  bucket_ended-IsSortOf i xs h over = (
    IsSorted-In (λ x y. Unit {0}) i xs
        (λ x y p q l. k.key_ended x y p.0 q.0 (p.1 ∙ sym q.1) (move x p.1)) h (IsSorted-Unit xs),
    Perm.refl xs,
  )
    where
      move : (x : Str) → key x ≡ i → (key x ≡ 0) ⊎ (deeper (key x) ≡ false)
      move x e = rw e over

  -- The strings of a bucket that goes on have fewer bytes left behind their key.
  pub remaining_deeper :
      (i : ℕ) (xs : List Str)
      → i ≢ 0
      → deeper i ≡ true
      → All (In i) xs
      → remaining (d + step) xs + length xs ≤ remaining d xs
  remaining_deeper i [] n e h = omega arith
  remaining_deeper i (s ∷ xs) n e h =
      let same = h.0.1 in
      omega (
        arith,
        remaining_deeper i xs n e h.1,
        k.key_shorter s h.0.0 (λ z. n (sym same ∙ z)) (ap deeper same ∙ e),
      )
