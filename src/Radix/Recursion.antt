-- ===== src/Radix/Recursion.antt =====
-- The recursion over the buckets sorts the strings of all the buckets.
use mathlib.Core.List.{append_assoc}
use mathlib.Core.List.Perm
use parallel_string_sorting.Prelude.{
  ℕ, zero, suc, ◌+◌, ◌≤◌, ◌<◌, List, [], ◌++◌, ◌&&◌, ltb, if◌then◌else◌, Bool-cases, inl, inr,
  length, drop, take, All, All-map, All-append, ◌≡◌, ◌≢◌, refl, sym, ap, subst, ◌∙◌, arith,
  length-append, length-perm,
}
use parallel_string_sorting.Strings.{Str}
use parallel_string_sorting.Insertion.Laws.{IsSortOf}
use parallel_string_sorting.Keys.Pack.{IsBytes}
use parallel_string_sorting.Mkqs.Order.{remaining}
use parallel_string_sorting.Mkqs.Parts.{on_range-append, take-append, drop-append, short-IsSortOf}
use parallel_string_sorting.Radix.{sort_bucket, buckets_loop}
use parallel_string_sorting.Radix.Arrays.{tabulate, joined}
use parallel_string_sorting.Radix.Order.{
  RadixKey, In, Behind, buckets-IsSortOf, bucket_deeper-IsSortOf, bucket_ended-IsSortOf,
  remaining_deeper,
}

module _ (d : ℕ) (key : RadixKey d) {S : Type 0} (Room : ℕ → S → Type 0)
    (sort : List Str → S → ℕ → List Str × S) where
  -- The memory stays as large as it was.
  abbrev pub Keeps : S → S → Type 0
  Keeps t u = (m : ℕ) → Room m t → Room m u

  -- What a call with a depth and fuel does for two strings or more, where the scratch memory has
  -- room for them: it sorts them and keeps the room.
  abbrev pub Sorts : ℕ → ℕ → Type 0
  Sorts depth fuel =
      (x : List Str) (t : S) (n : ℕ)
      → length x ≡ n
      → 1 < n
      → All IsBytes x
      → remaining depth x ≤ fuel
      → Room n t
      → IsSortOf depth x (sort x t n).0 × Keeps t (sort x t n).1

  module _ (fuel room : ℕ) (ok : Sorts (d + key.step) fuel)
      (less : (m : ℕ) (t : S) → m ≤ room → Room room t → Room m t) where
    -- One bucket, between strings in front of it and behind it.
    abbrev Ran : ℕ → List Str → List Str → List Str → S → List Str × S → Type 0
    Ran i done xs rest t out =
        (b : List Str) × (u : S) × (out ≡ (done ++ (b ++ rest), u)) × IsSortOf d xs b × Keeps t u

    one_bucket :
        (i : ℕ) (done xs rest : List Str) (t : S)
        → i ≢ 0
        → All (In d key i) xs
        → remaining d xs ≤ suc fuel
        → length xs ≤ room
        → Room room t
        → Ran i done xs rest t (
            if key.deeper i && ltb 1 (length xs)
            then sort_bucket sort (length done) (length xs) (done ++ (xs ++ rest)) t
            else (done ++ (xs ++ rest), t))
    one_bucket i done xs rest t n h f small rm = elim (Bool-cases (key.deeper i)) [
      | inr over ↦ rw over (xs, t, refl, bucket_ended-IsSortOf d key i xs h (inr over), λ m p. p)
      | inl on ↦ elim (Bool-cases (ltb 1 (length xs))) [
        | inr short ↦
            rw (on, short) (xs, t, refl, short-IsSortOf d xs (ground (arith, short)), λ m p. p)
        | inl long ↦
            let more : 1 < length xs = ground (arith, long) in
            let cut : take (length xs) (drop (length done) (done ++ (xs ++ rest))) ≡ xs =
              rw (drop-append (length done) done (xs ++ rest) refl)
                (take-append (length xs) xs rest refl) in
            let left = remaining_deeper d key i xs n on h in
            let (sorted, keeps) =
              ok xs t (length xs) refl more (All-map _ _ xs (λ s p. p.0) h) (omega arith)
                (less (length xs) t small rm) in
            let whole =
              on_range-append (length done) (length xs) (λ x. (sort xs t (length xs)).0) done xs
                rest refl refl in
            rw (on, long, cut)
              (
                (sort xs t (length xs)).0,
                (sort xs t (length xs)).1,
                ap (λ (a : List Str). (a, (sort xs t (length xs)).1)) whole,
                bucket_deeper-IsSortOf d key i xs _ h sorted,
                keeps,
              )
      ]
    ]

    module _ (f : ℕ → List Str) (own : (i : ℕ) → All (In d key i) (f i))
        (left : (i : ℕ) → remaining d (f i) ≤ suc fuel)
        (sizes : (i : ℕ) → length (f i) ≤ room) where
      pub later : (r i j : ℕ) → i < j → All (Behind d key i) (joined r j f)
      later zero i j h = tt
      later (suc r) i j h =
          All-append _ (f j) (joined r (suc j) f)
            (All-map _ _ (f j) (λ s p. (p.0, omega (arith, p.1))) (own j))
            (later r i (suc j) (omega arith))

      -- The loop sorts the strings of the buckets from the i-th on.
      abbrev Loop : ℕ → ℕ → List Str → S → List Str × S → Type 0
      Loop r i done t out =
          (ys : List Str) × (out.0 ≡ done ++ ys) × IsSortOf d (joined r i f) ys × Keeps t out.1

      pub buckets_loop-sorts :
          (r i : ℕ) (done : List Str) (t : S)
          → 0 < i
          → Room room t
          → Loop r i done t (
              buckets_loop key.deeper sort i
                (tabulate r i (λ k. length (f k)))
                (length done)
                (done ++ joined r i f)
                t)
      unfolding buckets_loop
      buckets_loop-sorts zero i done t pos rm = ([], refl, (tt, Perm.refl []), λ m p. p)
      buckets_loop-sorts (suc r) i done t pos rm =
          let (b, u, e, s, keeps) =
            one_bucket i done (f i) (joined r (suc i) f) t (omega arith) (own i) (left i) (sizes i)
              rm in
          let next : length done + length (f i) ≡ length (done ++ b) =
            omega (arith, length-append done b, length-perm s.1) in
          let (ys, e', s', keeps') =
            buckets_loop-sorts r (suc i) (done ++ b) u (omega arith) (keeps room rm) in
          let run =
            ap
              (λ (p : List Str × S).
                buckets_loop key.deeper sort (suc i) (tabulate r (suc i) (λ k. length (f k)))
                  (length done + length (f i)) p.0 p.1)
              e in
          subst (Loop (suc r) i done t) (sym run) (
            rw (next, ← append_assoc done b (joined r (suc i) f))
              (
                b ++ ys,
                e' ∙ append_assoc done b ys,
                buckets-IsSortOf d key i (f i) (joined r (suc i) f) b ys (own i)
                    (later r i (suc i) (omega arith)) s s',
                λ m p. keeps' m (keeps m p),
              ))
