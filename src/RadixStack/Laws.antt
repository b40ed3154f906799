-- ===== src/RadixStack/Laws.antt =====
-- The radix sort with its own stack sorts, with enough rounds.
use mathlib.Core.List.{append-nil, append_assoc}
use mathlib.Core.List.Perm
use parallel_string_sorting.Prelude.{
  ℕ, zero, suc, ◌+◌, ◌≤◌, ◌<◌, List, [], ◌∷◌, ◌++◌, ltb, Bool-cases, inl, inr, length,
  length-append, length-perm, drop, take, get_or, All, All-map, ◌≡◌, refl, sym, ap, subst, ◌∙◌,
  arith,
}
use parallel_string_sorting.Strings.{Str}
use parallel_string_sorting.Insertion.Laws.{IsSortOf}
use parallel_string_sorting.Keys.Pack.{IsBytes}
use parallel_string_sorting.Mkqs.{char_at, on_range}
use parallel_string_sorting.Mkqs.Order.{remaining, length-le-remaining}
use parallel_string_sorting.Mkqs.Parts.{on_range-append, take-append, drop-append}
use parallel_string_sorting.Radix.{zeros, count_loop, prefix_sum, distribute}
use parallel_string_sorting.Radix.Arrays.{joined, get_or-tabulate}
use parallel_string_sorting.Radix.Buckets.{bucket, bucket-perm, Small}
use parallel_string_sorting.Radix.ByteKey.{byte_key}
use parallel_string_sorting.Radix.Cached.{length-distribute}
use parallel_string_sorting.Radix.Distribute.{counts-eq, distribute-bucket}
use parallel_string_sorting.Radix.Laws.{leaf-IsSortOf}
use parallel_string_sorting.Radix.Order.{buckets-IsSortOf, bucket_ended-IsSortOf}
use parallel_string_sorting.Radix.Pass.{bucket-In, remaining-bucket, length-bucket}
use parallel_string_sorting.RadixStack.{State, emplace, stack_loop, bingmann_msd_ce0_sb}
use parallel_string_sorting.RadixStack.Runs.{Runs, Sorts, state, frame, later-Behind, buckets_run}

empty_stack :
    (more : ℕ) (strings sorted : List Str)
    → stack_loop more (state strings sorted []) ≡ state strings sorted []
unfolding stack_loop
empty_stack zero strings sorted = refl
empty_stack (suc more) strings sorted = refl

-- A new top of the stack is finished with its strings sorted.
pub emplace-Ran : (fuel : ℕ) → Sorts fuel
unfolding emplace
emplace-Ran zero rest ss pre post sorted n e pos b f fits =
    absurd (omega (arith, length-le-remaining (length rest) ss))
emplace-Ran (suc fuel) rest ss pre post sorted n e pos bytes enough fits =
    let d = length rest in
    let key = char_at d in
    let k = byte_key d in
    let small : Small key 256 ss = All-map _ _ ss k.key_small bytes in
    let f = bucket key ss in
    let sizes = count_loop key ss (zeros 256) in
    let written = distribute key ss (prefix_sum 0 sizes) sorted in
    let same : length written ≡ length sorted =
      length-distribute key ss (prefix_sum 0 sizes) sorted in
    let perm = bucket-perm key 256 ss small in
    let counts : (i : ℕ) → i < 256 → get_or sizes i 0 ≡ length (f i) = λ i l.
      rw (counts-eq key 256 ss small)
        (get_or-tabulate 256 0 i i (λ c. length (f c)) 0 (omega arith) l) in
    let own = λ (i : ℕ). bucket-In key IsBytes ss i bytes in
    let array : take n written ≡ f 0 ++ joined 255 1 f =
      ap (take n) (distribute-bucket key 256 ss sorted small (omega arith))
      ∙ take-append n (joined 256 0 f) (drop (length ss) sorted) (length-perm perm ∙ e) in
    let (ys, sorted', run, s, l) =
      buckets_run fuel (emplace-Ran fuel) rest sizes f n own
        (λ i. omega (arith, remaining-bucket key d ss i))
        (λ i. omega (arith, length-bucket key ss i)) counts 255 0 1 (pre ++ f 0) post written refl
        refl (omega arith) in
    let J = joined 255 1 f in
    let cut : take n (drop (length pre) (pre ++ (ss ++ post))) ≡ ss =
      ap (take n) (drop-append (length pre) pre (ss ++ post) refl) ∙ take-append n ss post e in
    let on = λ (x : List Str).
      state
        (on_range (length pre) n
          (λ y. take n (distribute key x (prefix_sum 0 (count_loop key x (zeros 256))) sorted))
          (pre ++ (ss ++ post)))
        (distribute key x (prefix_sum 0 (count_loop key x (zeros 256))) sorted)
        (frame (count_loop key x (zeros 256))
            (length pre + get_or (count_loop key x (zeros 256)) 0 0) 0
          ∷ rest) in
    let back =
      on_range-append (length pre) n (λ y. take n written) pre ss post refl e
      ∙ ap (λ (x : List Str). pre ++ (x ++ post)) array in
    let moved : pre ++ ((f 0 ++ J) ++ post) ≡ (pre ++ f 0) ++ (J ++ post) =
      rw (append_assoc (f 0) J post, append_assoc pre (f 0) (J ++ post)) refl in
    let place : length pre + get_or sizes 0 0 ≡ length (pre ++ f 0) =
      omega (arith, counts 0 (omega arith), length-append pre (f 0)) in
    let begin : emplace (length pre) n d (state (pre ++ (ss ++ post)) sorted rest)
        ≡ state ((pre ++ f 0) ++ (J ++ post)) written (frame sizes (length (pre ++ f 0)) 0 ∷ rest) =
      ap on cut
      ∙ ap
          (λ (x : List Str). state x written (frame sizes (length pre + get_or sizes 0 0) 0 ∷ rest))
          (back ∙ moved)
      ∙ ap (λ (p : ℕ). state ((pre ++ f 0) ++ (J ++ post)) written (frame sizes p 0 ∷ rest))
          place in
    let end : (pre ++ f 0) ++ (ys ++ post) ≡ pre ++ ((f 0 ++ ys) ++ post) =
      rw (append_assoc (f 0) ys post, append_assoc pre (f 0) (ys ++ post)) refl in
    let (sorts, perm') =
      buckets-IsSortOf d k 0 (f 0) J (f 0) ys (own 0) (later-Behind d f own 255 0 1 (omega arith))
        (bucket_ended-IsSortOf d k 0 (f 0) (own 0) (inl refl)) s in
    (
      f 0 ++ ys,
      sorted',
      subst (λ (x : State). Runs x (state (pre ++ ((f 0 ++ ys) ++ post)) sorted' rest)) (sym begin)
          (subst
            (λ (x : List Str).
              Runs
                (state ((pre ++ f 0) ++ (J ++ post)) written
                  (frame sizes (length (pre ++ f 0)) 0 ∷ rest))
                (state x sorted' rest))
            end run),
      (sorts, Perm.trans perm' perm),
      l ∙ same,
    )

-- With enough rounds bingmann_msd_CE0_sb sorts n strings of bytes, if the array `sorted` has room for
-- them: there is a number of rounds such that, with it or more, the strings are sorted.
pub bingmann_msd_ce0_sb-sorts :
    (strings sorted : List Str) (n : ℕ)
    → length strings ≡ n
    → All IsBytes strings
    → n ≤ length sorted
    → (rounds : ℕ) × ((more : ℕ)
        → IsSortOf 0 strings (bingmann_msd_ce0_sb (rounds + more) strings n sorted))
unfolding bingmann_msd_ce0_sb
bingmann_msd_ce0_sb-sorts strings sorted n e bytes fits = elim (Bool-cases (ltb n 32)) [
  | inl short ↦ (0, λ more. rw short (leaf-IsSortOf 0 n strings e))
  | inr long ↦
      let whole : [] ++ (strings ++ []) ≡ strings = append-nil strings in
      let (out, sorted', (k, run), s, l) =
        emplace-Ran (remaining 0 strings) [] strings [] [] sorted n e (ground (arith, long)) bytes
          (omega arith) fits in
      let done : (more : ℕ)
          → stack_loop more (state (out ++ []) sorted' []) ≡ state out sorted' [] =
        λ more. rw (append-nil out) (empty_stack more out sorted') in
      (k, λ more. let e' = rw whole at (run more ∙ done more) in rw (long, e') s)
]
