-- ===== src/RadixStack/Runs.antt =====
-- The loop on the stack finishes the top of the stack, with its strings sorted.
use mathlib.Core.List.{append_assoc}
use mathlib.Core.List.Perm
use parallel_string_sorting.Prelude.{
  ℕ, zero, suc, ◌+◌, ◌≤◌, ◌<◌, List, [], ◌∷◌, ◌++◌, true, false, ◌==◌, ltb, Bool-cases, inl, inr,
  length, length-append, length-perm, get_or, All, All-map, All-append, ◌≡◌, ◌≢◌, refl, ap, subst,
  ◌∙◌, arith,
}
use parallel_string_sorting.Strings.{Str}
use parallel_string_sorting.Insertion.{inssort}
use parallel_string_sorting.Insertion.Laws.{IsSortOf}
use parallel_string_sorting.Keys.Pack.{IsBytes}
use parallel_string_sorting.Mkqs.Order.{remaining}
use parallel_string_sorting.Mkqs.Parts.{on_range-append, short-IsSortOf}
use parallel_string_sorting.Radix.Arrays.{joined}
use parallel_string_sorting.Radix.ByteKey.{byte_key}
use parallel_string_sorting.Radix.Laws.{leaf-IsSortOf}
use parallel_string_sorting.Radix.Order.{
  In, Behind, buckets-IsSortOf, bucket_deeper-IsSortOf, remaining_deeper,
}
use parallel_string_sorting.RadixStack.{RadixStep, State, emplace, round, stack_loop}

-- The loop comes from one state to another, whatever rounds are left then.
abbrev pub Runs : State → State → Type 0
Runs s t = (k : ℕ) × ((more : ℕ) → stack_loop (k + more) s ≡ stack_loop more t)

Runs-trans : (s t u : State) → Runs s t → Runs t u → Runs s u
Runs-trans s t u (k, p) (m, q) = (
  k + m,
  λ more. let e : k + m + more ≡ k + (m + more) = omega arith in rw e (p (m + more) ∙ q more),
)

abbrev pub state : List Str → List Str → List RadixStep → State
state strings sorted stack = record { strings = strings; sorted = sorted; stack = stack }

one_round :
    (strings sorted : List Str) (rs : RadixStep) (rest : List RadixStep)
    → Runs (state strings sorted (rs ∷ rest)) (round rs rest (state strings sorted (rs ∷ rest)))
unfolding stack_loop
one_round strings sorted rs rest =
    (1, λ more. let e : 1 + more ≡ suc more = omega arith in rw e refl)

abbrev pub frame : List ℕ → ℕ → ℕ → RadixStep
frame sizes at i = record { str = at; idx = i; bkt_size = sizes }

-- What a new top of the stack comes to: its strings are sorted, and it is gone.
abbrev pub Ran : List RadixStep → List Str → List Str → List Str → List Str → State → Type 0
Ran rest ss pre post sorted s =
    (out : List Str) × (sorted' : List Str) × Runs s (state (pre ++ (out ++ post)) sorted' rest)
    × IsSortOf (length rest) ss out
    × (length sorted' ≡ length sorted)

abbrev pub Sorts : ℕ → Type 0
Sorts fuel =
    (rest : List RadixStep) (ss pre post sorted : List Str) (n : ℕ)
    → length ss ≡ n
    → 0 < n
    → All IsBytes ss
    → remaining (length rest) ss ≤ fuel
    → n ≤ length sorted
    → Ran rest ss pre post sorted
        (emplace (length pre) n (length rest) (state (pre ++ (ss ++ post)) sorted rest))

-- The strings of later buckets.
pub later-Behind :
    (d : ℕ) (f : ℕ → List Str)
    → ((i : ℕ) → All (In d (byte_key d) i) (f i))
    → (r i j : ℕ) → i < j
    → All (Behind d (byte_key d) i) (joined r j f)
later-Behind d f own zero i j h = tt
later-Behind d f own (suc r) i j h =
    All-append _ (f j) (joined r (suc j) f)
      (All-map _ _ (f j) (λ s p. (p.0, omega (arith, p.1))) (own j))
      (later-Behind d f own r i (suc j) (omega arith))

module _ (fuel : ℕ) (ok : Sorts fuel) (rest : List RadixStep) (sizes : List ℕ) (f : ℕ → List Str)
    (room : ℕ) (own : (i : ℕ) → All (In (length rest) (byte_key (length rest)) i) (f i))
    (left : (i : ℕ) → remaining (length rest) (f i) ≤ suc fuel)
    (small : (i : ℕ) → length (f i) ≤ room)
    (counts : (i : ℕ) → i < 256 → get_or sizes i 0 ≡ length (f i)) where
  abbrev d : ℕ
  d = length rest

  -- One bucket behind the strings `pre`.
  bucket_round :
      (i c : ℕ) (pre post sorted : List Str)
      → i + 1 ≡ c
      → c < 256
      → room ≤ length sorted
      → (b : List Str) × (sorted' : List Str) × Runs
          (state (pre ++ (f c ++ post)) sorted (frame sizes (length pre) i ∷ rest))
          (state (pre ++ (b ++ post)) sorted' (frame sizes (length pre + length (f c)) c ∷ rest))
        × IsSortOf d (f c) b
        × (length sorted' ≡ length sorted)
  unfolding round
  bucket_round i c pre post sorted e lc fits =
      let rs = frame sizes (length pre) i in
      let go : ltb i 255 ≡ true = ground (arith, e, lc) in
      let n : get_or sizes (i + 1) 0 ≡ length (f c) =
        ap (λ (k : ℕ). get_or sizes k 0) e ∙ counts c lc in
      let strings = pre ++ (f c ++ post) in
      let first = one_round strings sorted rs rest in
      let deeper : (b : List Str) → IsSortOf (suc d) (f c) b → IsSortOf d (f c) b = λ b s.
        let one : suc d ≡ d + 1 = omega arith in
        bucket_deeper-IsSortOf d (byte_key d) c (f c) b (own c) (rw one at s) in
      let next = frame sizes (length pre + length (f c)) c in
      let start = state strings sorted (rs ∷ rest) in
      elim (Bool-cases (length (f c) == 0)) [
        | inl z ↦
            let none_here : length pre + length (f c) ≡ length pre = ground (arith, z) in
            let short : length (f c) ≤ 1 = ground (arith, z) in
            (
              f c,
              sorted,
              rw none_here (rw (go, n, z, e) at first),
              short-IsSortOf d (f c) short,
              refl,
            )
        | inr nz ↦
            let pos : 0 < length (f c) = ground (arith, nz) in
            elim (Bool-cases (ltb (length (f c)) 32)) [
              | inl few ↦
                  let len = length (f c) in
                  let here = rw (go, n, nz, few, e) at first in
                  (
                    inssort (f c) len (suc d),
                    sorted,
                    subst (λ (x : List Str). Runs start (state x sorted (next ∷ rest)))
                        (on_range-append (length pre) len (λ x. inssort x len (suc d)) pre (f c)
                          post refl refl)
                        here,
                    deeper (inssort (f c) len (suc d)) (leaf-IsSortOf (suc d) len (f c) refl),
                    refl,
                  )
              | inr many ↦
                  let here = rw (go, n, nz, many, e) at first in
                  let nonzero : c ≢ 0 = λ z. omega arith in
                  let one : d + 1 ≡ suc d = omega arith in
                  let fewer =
                    rw one at (remaining_deeper d (byte_key d) c (f c) nonzero refl (own c)) in
                  let (b, sorted', run, s, l) =
                    ok (next ∷ rest) (f c) pre post sorted (length (f c)) refl pos
                      (All-map _ _ (f c) (λ s p. p.0) (own c)) (omega (arith, left c))
                      (omega (arith, small c)) in
                  (b, sorted', Runs-trans start _ _ here run, deeper b s, l)
            ]
      ]

  -- The rounds with this top of the stack, for the buckets from the c-th on.
  pub buckets_run :
      (r i c : ℕ) (pre post sorted : List Str)
      → i + 1 ≡ c
      → i + r ≡ 255
      → room ≤ length sorted
      → (ys : List Str) × (sorted' : List Str) × Runs
          (state (pre ++ (joined r c f ++ post)) sorted (frame sizes (length pre) i ∷ rest))
          (state (pre ++ (ys ++ post)) sorted' rest)
        × IsSortOf d (joined r c f) ys
        × (length sorted' ≡ length sorted)
  unfolding round
  buckets_run zero i c pre post sorted e a fits =
      let over : ltb i 255 ≡ false = ground (arith, a) in
      (
        [],
        sorted,
        rw over at (one_round (pre ++ post) sorted (frame sizes (length pre) i) rest),
        (tt, Perm.refl []),
        refl,
      )
  buckets_run (suc r) i c pre post sorted e a fits =
      let (b, sorted1, run1, s1, l1) =
        bucket_round i c pre (joined r (suc c) f ++ post) sorted e (omega arith) fits in
      let (ys, sorted2, run2, s2, l2) =
        buckets_run r c (suc c) (pre ++ b) post sorted1 (omega arith) (omega arith) (omega arith) in
      let place : length (pre ++ b) ≡ length pre + length (f c) =
        omega (arith, length-append pre b, length-perm s1.1) in
      let run2' = rw (place, append_assoc pre b, append_assoc pre b) at run2 in
      (
        b ++ ys,
        sorted2,
        rw (append_assoc (f c) (joined r (suc c) f) post, append_assoc b ys post)
            (Runs-trans _ _ _ run1 run2'),
        buckets-IsSortOf d (byte_key d) c (f c) (joined r (suc c) f) b ys (own c)
            (later-Behind d f own r c (suc c) (omega arith)) s1 s2,
        l2 ∙ l1,
      )
