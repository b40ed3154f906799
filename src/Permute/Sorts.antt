-- ===== src/Permute/Sorts.antt =====
-- The radix sorts that permute in place sort from a depth on.
use mathlib.Core.List.{append-nil}
use mathlib.Core.List.Perm
use parallel_string_sorting.Prelude.{
  ℕ, zero, suc, ◌+◌, ◌≤◌, ◌<◌, List, [], ◌∷◌, ◌++◌, ltb, Bool-cases, inl, inr, length, drop, take,
  get_or, length-take, length-drop, length-perm, All, All-perm, All-take, All-drop, All-map, ◌≡◌,
  refl, sym, ap, ◌∙◌, arith,
}
use parallel_string_sorting.Strings.{Str}
use parallel_string_sorting.Insertion.Laws.{IsSortOf}
use parallel_string_sorting.Keys.Pack.{IsBytes}
use parallel_string_sorting.Mkqs.{char_at}
use parallel_string_sorting.Mkqs.Order.{
  remaining, remaining-perm, length-le-remaining, All-of_get, get_or-take, get_or-drop,
}
use parallel_string_sorting.Mkqs.Parts.{short-IsSortOf}
use parallel_string_sorting.Permute.{permute, msd_ci0}
use parallel_string_sorting.Permute.Invariant.{size, start, total}
use parallel_string_sorting.Permute.Places.{before}
use parallel_string_sorting.Permute.Laws.{IsBucketed, permute-IsBucketed}
use parallel_string_sorting.Radix.{zeros, count_loop, buckets_loop}
use parallel_string_sorting.Radix.Arrays.{joined, tabulate_same}
use parallel_string_sorting.Radix.Buckets.{Small, bucket}
use parallel_string_sorting.Radix.ByteKey.{byte_key}
use parallel_string_sorting.Radix.Distribute.{counts-eq, parts}
use parallel_string_sorting.Radix.Laws.{leaf-IsSortOf}
use parallel_string_sorting.Radix.Order.{RadixKey, In, IsBytes-prop}
use parallel_string_sorting.Radix.Pass.{recursion-sorts}
use parallel_string_sorting.Radix.Recursion.{Sorts, Keeps}

remaining-take : (d n : ℕ) (xs : List Str) → remaining d (take n xs) ≤ remaining d xs
remaining-take d zero xs = omega arith
remaining-take d (suc n) [] = omega arith
remaining-take d (suc n) (x ∷ xs) = omega (arith, remaining-take d n xs)

remaining-drop : (d n : ℕ) (xs : List Str) → remaining d (drop n xs) ≤ remaining d xs
remaining-drop d zero xs = omega arith
remaining-drop d (suc n) [] = omega arith
remaining-drop d (suc n) (x ∷ xs) = omega (arith, remaining-drop d n xs)

drop_all : (n : ℕ) (xs : List Str) → length xs ≤ n → drop n xs ≡ []
drop_all zero [] h = refl
drop_all zero (x ∷ xs) h = absurd (omega arith)
drop_all (suc n) [] h = refl
drop_all (suc n) (x ∷ xs) h = drop_all n xs (omega arith)

bucket_none :
    (key : Str → ℕ) (R : ℕ) (ss : List Str) (c : ℕ)
    → Small key R ss
    → R ≤ c
    → length (bucket key ss c) ≡ 0
bucket_none key R [] c h l = refl
bucket_none key R (s ∷ ss) c h l = ground (arith, bucket_none key R ss c h.1 l, h.0)

All-both : (P Q : Str → Type 0) (xs : List Str) → All P xs → All Q xs → All (λ s. P s × Q s) xs
All-both P Q [] p q = tt
All-both P Q (x ∷ xs) p q = ((p.0, q.0), All-both P Q xs p.1 q.1)

module _ (key : Str → ℕ) (R : ℕ) (ss : List Str) (small : Small key R ss) (a : List Str)
    (h : IsBucketed key R ss small a) where
  -- The strings in the places of a bucket.
  abbrev pub part : ℕ → List Str
  part c = take (size key R ss small c) (drop (start key R ss small c) a)

  pub length-part : (c : ℕ) → length (part c) ≡ size key R ss small c
  length-part c =
      let taken = length-take (size key R ss small c) (drop (start key R ss small c) a) in
      let dropped = length-drop (start key R ss small c) a in
      elim (Bool-cases (ltb c R)) [
        | inl l ↦
            let inside = before (size key R ss small) c R (ground (arith, l)) in
            omega (arith, total key R ss small, length-perm h.0)
        | inr l ↦ let empty = bucket_none key R ss c small (ground (arith, l)) in omega arith
      ]

  pub part-key : (c : ℕ) → All (λ s. key s ≡ c) (part c)
  part-key c =
      let n = size key R ss small c in
      let at = start key R ss small c in
      All-of_get _ [] (part c) (λ p l.
        let lt : p < n = omega (arith, length-part c) in
        rw (get_or-take n (drop at a) p [] lt, get_or-drop at a p (at + p) [] refl)
          (h.1 c
            (elim (Bool-cases (ltb c R)) [
              | inl s ↦ ground (arith, s)
              | inr s ↦
                  let empty = bucket_none key R ss c small (ground (arith, s)) in
                  absurd (omega arith)
            ])
            (at + p) (omega arith) (omega arith)))

  pub joined-part : joined R 0 part ≡ a
  joined-part =
      sym (append-nil (joined R 0 part))
      ∙ ap (◌++◌ (joined R 0 part)) (
          sym (
            drop_all (start key R ss small R) a
              (omega (arith, total key R ss small, length-perm h.0))))
      ∙ parts key R R 0 R (size key R ss small) a (omega arith)

module _ (d : ℕ) (k : RadixKey d) {S : Type 0} (Room : ℕ → S → Type 0)
    (sort : List Str → S → ℕ → List Str × S) (fuel n : ℕ)
    (ok : Sorts d k Room sort (d + k.step) fuel)
    (less : (m : ℕ) (t : S) → m ≤ n → Room n t → Room m t) (ss : List Str) (e : length ss ≡ n)
    (bytes : All IsBytes ss) (enough : remaining d ss ≤ suc fuel) where
  -- The counting, a permutation into the buckets and the recursion sort the strings.
  pub bucketed-sorts :
      (small : Small k.key k.radix ss) (array : List Str) (t : S)
      → IsBucketed k.key k.radix ss small array
      → Room n t
      → let sizes = count_loop k.key ss (zeros k.radix) in
        let out = buckets_loop k.deeper sort 1 (drop 1 sizes) (get_or sizes 0 0) array t in
        IsSortOf d ss out.0 × Keeps d k Room sort t out.1
  bucketed-sorts small array t h rm =
      let f = part k.key k.radix ss small array h in
      let sizes = size k.key k.radix ss small in
      let begin = start k.key k.radix ss small in
      let lens = length-part k.key k.radix ss small array h in
      let whole = joined-part k.key k.radix ss small array h in
      let bytes' = All-perm IsBytes IsBytes-prop (Perm.symm h.0) bytes in
      let own : (i : ℕ) → All (In d k i) (f i) = λ i.
        All-both IsBytes (λ s. k.key s ≡ i) (f i)
          (All-take IsBytes (sizes i) (drop (begin i) array)
            (All-drop IsBytes (begin i) array bytes'))
          (part-key k.key k.radix ss small array h i) in
      let left : (i : ℕ) → remaining d (f i) ≤ suc fuel = λ i. omega (
        arith,
        remaining-take d (sizes i) (drop (begin i) array),
        remaining-drop d (begin i) array,
        remaining-perm d h.0,
      ) in
      let lengths : (i : ℕ) → length (f i) ≤ n = λ i. omega (
        arith,
        length-take (sizes i) (drop (begin i) array),
        length-drop (begin i) array,
        length-perm h.0,
      ) in
      recursion-sorts d k Room sort fuel n ok less ss array _ f t own left lengths
        (counts-eq k.key k.radix ss small ∙ tabulate_same k.radix 0 _ _ (λ i l. sym (lens i)))
        (sym whole) (rw whole h.0) rm

-- msd_CI0 sorts n strings of bytes from a depth on, with fuel for the bytes that are left in them and
-- a terminator each.
pub msd_ci0-sorts :
    (fuel : ℕ) (strings : List Str) (n depth : ℕ)
    → length strings ≡ n
    → All IsBytes strings
    → remaining depth strings ≤ fuel
    → IsSortOf depth strings (msd_ci0 fuel strings n depth)
unfolding msd_ci0
msd_ci0-sorts zero strings n depth e b f =
    short-IsSortOf depth strings (omega (arith, length-le-remaining depth strings))
msd_ci0-sorts (suc fuel) strings n depth e b f = elim (Bool-cases (ltb n 32)) [
  | inl short ↦ rw short (leaf-IsSortOf depth n strings e)
  | inr long ↦
      let k = byte_key depth in
      let small : Small k.key k.radix strings = All-map _ _ strings k.key_small b in
      let permuted = permute-IsBucketed k.key k.radix strings small (omega arith) in
      let (sorts, keeps) =
        bucketed-sorts depth k (λ m t. Unit {0}) (λ x t m. (msd_ci0 fuel x m (depth + 1), t)) fuel n
          (λ x t m e l b f r. (msd_ci0-sorts fuel x m (depth + 1) e b f, λ q p. p)) (λ m t l r. tt)
          strings e b f small
          (permute (char_at depth) n (count_loop (char_at depth) strings (zeros 256)) strings) tt
          (rw e at permuted) tt in
      rw long sorts
]
