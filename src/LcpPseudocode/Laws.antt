-- ===== src/LcpPseudocode/Laws.antt =====
-- The sort that is close to pseudocode writes what lcp_insertion_sort writes.
use parallel_string_sorting.Prelude.{
  List, ◌∷◌, length, ℕ, zero, suc, ◌+◌, ◌<◌, ◌≤◌, [], Bool, true, false, not, ltb, ◌==◌,
  if◌then◌else◌, get_or, set, ◌≡◌, refl, sym, ap, ◌∙◌, arith, Bool-cases, inl, inr,
}
use parallel_string_sorting.Strings.{Str, deref}
use parallel_string_sorting.StringSet.{scan_equal, is_less, get_chars, is_end}
use parallel_string_sorting.Merge.{LcpStrings}
use parallel_string_sorting.LcpInsertion.CacheSorts.{lcp_insertion_sort-last_round}
use parallel_string_sorting.LcpInsertion.{
  LcpArrays, stop, shift, probe, move_up, write_new, insert_string, insert_rounds,
  lcp_insertion_sort,
}
use parallel_string_sorting.LcpInsertion.Laws.{SortsWithLcps, lcp_insertion_sort-sorts}
use parallel_string_sorting.Mergesort.Laws.{Shares-zero}
use parallel_string_sorting.LcpPseudocode.{
  test_lcp_insertion_sort, test_lcp_insertion_sort_pseudocode, lcp_insertion_sort_cache,
  lcp_insertion_sort_with_cache, lcp_insertion_sort_plain, place, move_back, find_place,
  pseudocode_rounds, lcp_insertion_sort_pseudocode,
}

-- The two arrays that both versions have.
abbrev pub without_cache : LcpArrays → LcpStrings
without_cache a = record { strings = a.strings; lcps = a.lcps }

-- What a probe leads to, by its tests.
probe_cases :
    (down same not_less : Bool) (a kept : LcpArrays) (h g : ℕ)
    (place_at : LcpArrays → ℕ → LcpArrays) (further : ℕ → LcpArrays)
    → (elim (if down
        then stop a h
        else if same
        then (if not_less then stop kept h else shift g)
        else shift h) [ stop a' h' ↦ place_at a' h' | shift h' ↦ further h' ])
      ≡ (if down
          then place_at a h
          else if same
          then (if not_less then place_at kept h else further g)
          else further h)
probe_cases true same not_less a kept h g place_at further = refl
probe_cases false true true a kept h g place_at further = refl
probe_cases false true false a kept h g place_at further = refl
probe_cases false false not_less a kept h g place_at further = refl

unfoldable kept_arrays : Bool → ℕ → Str → ℕ → LcpArrays → LcpArrays
kept_arrays save k snew h a =
    let c = scan_equal (get_chars snew h) (get_chars (get_or a.strings k []) h) h in
    record a {
      lcps = set a.lcps (suc k) c.lcp;
      cache = if save then set a.cache (suc k) (if is_end c.s1 then 0 else deref c.s1) else a.cache;
    }

insert_string-cases :
    (save checked : Bool) (n k : ℕ) (snew : Str) (h : ℕ) (a : LcpArrays)
    → let cur_lcp = get_or a.lcps (suc k) 0 in
      let c = scan_equal (get_chars snew h) (get_chars (get_or a.strings k []) h) h in
      insert_string save checked n (suc k) snew h a ≡ (
        if ltb cur_lcp h
        then write_new save checked n (suc k) snew h a
        else if cur_lcp == h
        then (if not (is_less c.s1 c.s2)
            then write_new save checked n (suc k) snew h (kept_arrays save k snew h a)
            else insert_string save checked n k snew c.lcp (move_up save checked n k a))
        else insert_string save checked n k snew h (move_up save checked n k a))
unfolding insert_string probe kept_arrays
insert_string-cases save checked n k snew h a =
    let cur_lcp = get_or a.lcps (suc k) 0 in
    let c = scan_equal (get_chars snew h) (get_chars (get_or a.strings k []) h) h in
    probe_cases (ltb cur_lcp h) (cur_lcp == h) (not (is_less c.s1 c.s2)) a
      (kept_arrays save k snew h a) h c.lcp (λ b g. write_new save checked n (suc k) snew g b)
      (λ g. insert_string save checked n k snew g (move_up save checked n k a))

insert_string-zero :
    (save checked : Bool) (n : ℕ) (snew : Str) (h : ℕ) (a : LcpArrays)
    → insert_string save checked n 0 snew h a ≡ write_new save checked n 0 snew h a
unfolding insert_string
insert_string-zero save checked n snew h a = refl

-- A round ends with the same writes.
written :
    (save : Bool) (n i : ℕ) (snew : Str) (h : ℕ) (a : LcpArrays)
    → place n i snew h (without_cache a) ≡ without_cache (write_new save true n i snew h a)
unfolding place write_new
written save n i snew h a = ground arith

-- A round with tests, in either version.
find_place-eq-insert_string :
    (save : Bool) (n k : ℕ) (snew : Str) (h : ℕ) (a : LcpArrays)
    → find_place n k snew h (without_cache a) ≡ without_cache (insert_string save true n k snew h a)
unfolding find_place move_back move_up kept_arrays
find_place-eq-insert_string save n zero snew h a =
    written save n 0 snew h a ∙ sym (ap without_cache (insert_string-zero save true n snew h a))
find_place-eq-insert_string save n (suc k) snew h a =
    let cases = insert_string-cases save true n k snew h a in
    let ih : (g : ℕ)
        → find_place n k snew g (move_back n k (without_cache a))
          ≡ without_cache (insert_string save true n k snew g (move_up save true n k a)) =
      λ g. find_place-eq-insert_string save n k snew g (move_up save true n k a) in
    let cur_lcp = get_or a.lcps (suc k) 0 in
    let c = scan_equal (get_chars snew h) (get_chars (get_or a.strings k []) h) h in
    elim (Bool-cases (ltb cur_lcp h)) [
      | inl down ↦ rw (cases, down) (written save n (suc k) snew h a)
      | inr up ↦ elim (Bool-cases (cur_lcp == h)) [
        | inl same ↦ elim (Bool-cases (is_less c.s1 c.s2)) [
          | inl less ↦ rw (cases, up, same, less) (ih c.lcp)
          | inr not_less ↦
              rw (cases, up, same, not_less)
                (written save n (suc k) snew h (kept_arrays save k snew h a))
        ]
        | inr other ↦ rw (cases, up, other) (ih h)
      ]
    ]

-- A test that holds changes nothing.
checked_write :
    (save : Bool) (n i : ℕ) (snew : Str) (h : ℕ) (a : LcpArrays)
    → suc i < n
    → write_new save true n i snew h a ≡ write_new save false n i snew h a
unfolding write_new
checked_write save n i snew h a p = let room : ltb (i + 1) n ≡ true = ground arith in rw room refl

moves :
    (save : Bool) (n k : ℕ) (a : LcpArrays)
    → suc (suc k) < n
    → move_up save true n k a ≡ move_up save false n k a
unfolding move_up
moves save n k a p = let room : ltb (suc k + 1) n ≡ true = ground arith in rw room refl

insert_string-checked :
    (save : Bool) (n k : ℕ) (snew : Str) (h : ℕ) (a : LcpArrays)
    → suc k < n
    → insert_string save true n k snew h a ≡ insert_string save false n k snew h a
unfolding insert_string
insert_string-checked save n zero snew h a p = checked_write save n 0 snew h a p
insert_string-checked save n (suc k) snew h a p =
    let moved : move_up save true n k a ≡ move_up save false n k a = moves save n k a p in
    let ih : (g : ℕ)
        → insert_string save true n k snew g (move_up save true n k a)
          ≡ insert_string save false n k snew g (move_up save false n k a) =
      λ g.
        rw moved (insert_string-checked save n k snew g (move_up save false n k a) (omega arith)) in
    let with_test = insert_string-cases save true n k snew h a in
    let without_test = insert_string-cases save false n k snew h a in
    let cur_lcp = get_or a.lcps (suc k) 0 in
    let c = scan_equal (get_chars snew h) (get_chars (get_or a.strings k []) h) h in
    elim (Bool-cases (ltb cur_lcp h)) [
      | inl down ↦ rw (with_test, without_test, down) (checked_write save n (suc k) snew h a p)
      | inr up ↦ elim (Bool-cases (cur_lcp == h)) [
        | inl same ↦ elim (Bool-cases (is_less c.s1 c.s2)) [
          | inl less ↦ rw (with_test, without_test, up, same, less) (ih c.lcp)
          | inr not_less ↦
              rw (with_test, without_test, up, same, not_less)
                (checked_write save n (suc k) snew h (kept_arrays save k snew h a) p)
        ]
        | inr other ↦ rw (with_test, without_test, up, other) (ih h)
      ]
    ]

pseudocode_rounds-eq-insert_rounds :
    (save : Bool) (n depth rounds j : ℕ) (a : LcpArrays)
    → suc (rounds + j) ≤ n
    → pseudocode_rounds n depth rounds j (without_cache a)
      ≡ without_cache (insert_rounds save n depth rounds j a)
unfolding pseudocode_rounds insert_rounds
pseudocode_rounds-eq-insert_rounds save n depth zero j a p = refl
pseudocode_rounds-eq-insert_rounds save n depth (suc rounds) j a p =
    let new = get_or a.strings j [] in
    rw
      (
        find_place-eq-insert_string save n j new depth a,
        insert_string-checked save n j new depth a (omega arith),
      )
      (pseudocode_rounds-eq-insert_rounds save n depth rounds (suc j)
        (insert_string save false n j new depth a) (omega arith))

pseudocode_rounds-add :
    (n depth r j : ℕ) (a : LcpStrings)
    → pseudocode_rounds n depth (suc r) j a ≡ (
        let b = pseudocode_rounds n depth r j a in
        find_place n (r + j) (get_or b.strings (r + j) []) depth b)
unfolding pseudocode_rounds
pseudocode_rounds-add n depth zero j a = let e : 0 + j ≡ j = omega arith in rw e refl
pseudocode_rounds-add n depth (suc r) j a =
    let e : suc r + j ≡ r + suc j = omega arith in
    rw e (pseudocode_rounds-add n depth r (suc j) (find_place n j (get_or a.strings j []) depth a))

-- lcp_insertion_sort_pseudocode writes, on two or more strings, the strings and lcps that
-- lcp_insertion_sort writes, with or without a cache, whatever the arrays hold.
pub lcp_insertion_sort_pseudocode-eq :
    (save : Bool) (n depth : ℕ) (a : LcpArrays)
    → 1 < n
    → lcp_insertion_sort_pseudocode (without_cache a) n depth
      ≡ without_cache (lcp_insertion_sort save a n depth)
unfolding lcp_insertion_sort_pseudocode
lcp_insertion_sort_pseudocode-eq save zero depth a p = absurd (omega arith)
lcp_insertion_sort_pseudocode-eq save (suc m) depth a p =
    let index : m + 0 ≡ m = omega arith in
    let b = insert_rounds save (suc m) depth m 0 a in
    let rounds = pseudocode_rounds-eq-insert_rounds save (suc m) depth m 0 a (omega arith) in
    pseudocode_rounds-add (suc m) depth m 0 (without_cache a)
    ∙ (rw (index, rounds)
          (find_place-eq-insert_string save (suc m) m (get_or b.strings m []) depth b)
        ∙ sym (ap without_cache (lcp_insertion_sort-last_round save m depth a (omega arith))))

-- The three registered sorters, on two or more strings, sort them, set every lcp from the second on
-- to that of a string with the one before, and leave the first lcp.
pub registered-sorts :
    (x y : Str) (xs : List Str) (l0 : ℕ) (lcps cache : List ℕ)
    → length lcps ≡ suc (length xs)
    → let strings = x ∷ y ∷ xs in
      let n = length strings in
      let r = test_lcp_insertion_sort strings (l0 ∷ lcps) n in
      let p = test_lcp_insertion_sort_pseudocode strings (l0 ∷ lcps) n in
      SortsWithLcps strings l0 (record { strings = r.strings; lcps = r.lcps; cache = [] })
      × SortsWithLcps strings l0 (record { strings = p.strings; lcps = p.lcps; cache = [] })
      × SortsWithLcps strings l0 (lcp_insertion_sort_cache strings (l0 ∷ lcps) cache n)
unfolding test_lcp_insertion_sort test_lcp_insertion_sort_pseudocode lcp_insertion_sort_cache
    lcp_insertion_sort_plain lcp_insertion_sort_with_cache
registered-sorts x y xs l0 lcps cache size =
    let shared = Shares-zero [] (x ∷ y ∷ xs) in
    let plain = lcp_insertion_sort-sorts false [] 0 l0 x (y ∷ xs) lcps [] size shared in
    let cached = lcp_insertion_sort-sorts true [] 0 l0 x (y ∷ xs) lcps cache size shared in
    let pseudocode =
      lcp_insertion_sort_pseudocode-eq false (suc (suc (length xs))) 0
        (record { strings = x ∷ y ∷ xs; lcps = l0 ∷ lcps; cache = [] }) (omega arith) in
    (plain, rw pseudocode plain, cached)
