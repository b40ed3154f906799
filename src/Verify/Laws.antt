-- ===== src/Verify/Laws.antt =====
-- What the check of an lcp array accepts, and that the results of the sorters pass it.
use parallel_string_sorting.Prelude.{
  ℕ, suc, ◌-◌, ◌<◌, List, [], ◌∷◌, Bool, true, false, not, ◌&&◌, ◌==◌, if◌then◌else◌, drop, get_or,
  length, replicate, length-replicate, All-perm, All-append, length-append, length-perm, some, All,
  Perm, IsSorted, ◌≡◌, refl, sym, ◌∙◌, ap, ◌↔◌, ◌⊎◌, inl, inr, arith,
}
use mathlib.Core.List.Perm
use native.Mathlib.Bridge.{le_prop}
use mathlib.Core.Bool.{true≢false}
use parallel_string_sorting.Strings.{Str, deref, lcp, LexLe}
use parallel_string_sorting.Strings.Lcp.{lcp-le-length}
use parallel_string_sorting.Strings.Order.{LexLe-refl}
use parallel_string_sorting.StringSet.{calc_lcp, get_char, get_chars}
use parallel_string_sorting.StringSet.Laws.{calc_lcp-eq-lcp}
use parallel_string_sorting.MergeCache.{LcpCacheStrings, lcp_merge_binary_cache_opt}
use parallel_string_sorting.MergeCache.Laws.{lcp_merge_binary_cache_opt-sorts, IsCacheSorted}
use parallel_string_sorting.MergeCache.Chain.{CacheChain}
use parallel_string_sorting.Merge.Chain.{LcpChain, LcpChain-IsSorted}
use parallel_string_sorting.LcpInsertion.{lcp_insertion_sort}
use parallel_string_sorting.LcpInsertion.Laws.{IsLcpSorted, lcp_insertion_sort-sorts}
use parallel_string_sorting.LcpInsertion.Rounds.{Shares}
use parallel_string_sorting.Verify.{
  no_lcp, verify_rows, verify_lcp_cache, verify_lcp, lcp_insertion_sort_verify,
}

-- From the second string on, every lcp is that with the string before, and, if the cache is
-- checked, every cached byte is the byte behind that lcp.
abbrev pub HasRightLcps : Bool → Str → List Str → List ℕ → List ℕ → Type 0
HasRightLcps check s1 [] lcps cache = Unit
HasRightLcps check s1 (s2 ∷ ss) lcps cache =
    (get_or lcps 0 0 ≡ lcp s1 s2)
    × (check ≡ true → get_or cache 0 0 ≡ deref (drop (lcp s1 s2) s2))
    × HasRightLcps check s2 ss (drop 1 lcps) (drop 1 cache)

abbrev pub IsShort : Str → Type 0
IsShort s = length s < 4294967296

row_iff :
    (check valid : Bool) (s1 s2 : Str) (h l c : ℕ)
    → h ≡ lcp s1 s2
    → ((if check && not (c == deref (drop l s2))
          then false
          else if not (h == l)
          then false
          else valid)
        ≡ true)
      ↔ ((valid ≡ true) × (l ≡ lcp s1 s2) × (check ≡ true → c ≡ deref (drop (lcp s1 s2) s2)))
row_iff false valid s1 s2 h l c e = ground arith
row_iff true valid s1 s2 h l c e = ground arith

pub verify_rows_iff :
    (check : Bool) (s1 : Str) (ss : List Str) (lcps cache : List ℕ) (valid : Bool)
    → IsShort s1
    → All IsShort ss
    → (verify_rows check s1 ss lcps cache valid ≡ true)
      ↔ ((valid ≡ true) × HasRightLcps check s1 ss lcps cache)
unfolding verify_rows get_char get_chars
verify_rows_iff check s1 [] lcps cache valid short shorts = ground arith
verify_rows_iff check s1 (s2 ∷ ss) lcps cache valid short shorts =
    let l = get_or lcps 0 0 in
    let h = calc_lcp s1 s2 in
    let exact : h ≡ lcp s1 s2 = omega (arith, calc_lcp-eq-lcp s1 s2, lcp-le-length s1 s2) in
    let valid2 =
      if check && not (get_or cache 0 0 == get_char s2 l)
      then false
      else if not (h == l)
      then false
      else valid in
    let ih = verify_rows_iff check s2 ss (drop 1 lcps) (drop 1 cache) valid2 shorts.0 shorts.1 in
    let row = row_iff check valid s1 s2 h l (get_or cache 0 0) exact in
    (
      λ e. let (checked, rest) = ih.0 e in let (v, eq, c) = row.0 checked in (v, (eq, c, rest)),
      λ p. ih.1 (row.1 (p.0, p.1.0, p.1.1), p.1.2),
    )

-- What verify_lcp_cache tests of the first entry.
abbrev pub HasRightFirst : Bool → ℕ → Str → ℕ → ℕ → Type 0
HasRightFirst check expected s l c =
    (expected ≡ no_lcp)
    ⊎ ((l ≡ expected) × (check ≡ true → (expected ≡ 42) ⊎ (c ≡ deref (drop l s))))

first_iff :
    (check : Bool) (expected : ℕ) (s : Str) (l c : ℕ)
    → let wrong = check && (not (expected == 42) && not (c == deref (drop l s))) in
      ((if not (expected == no_lcp) && wrong
          then false
          else not (not (expected == no_lcp) && not (l == expected)))
        ≡ true)
      ↔ HasRightFirst check expected s l c
first_iff false expected s l c = ground arith
first_iff true expected s l c = ground arith

-- verify_lcp_cache accepts arrays of strings shorter than 2^32 if, and only if, the first entries are
-- as expected (or nothing is expected), every other lcp is that with the string before, and, if the
-- cache is checked, every other cached byte is the one behind its lcp.
pub verify_lcp_cache_iff :
    (check : Bool) (s : Str) (ss : List Str) (l : ℕ) (lcps : List ℕ) (c : ℕ) (cache : List ℕ)
    (expected : ℕ)
    → All IsShort (s ∷ ss)
    → (verify_lcp_cache check (s ∷ ss) (l ∷ lcps) (c ∷ cache) expected ≡ true)
      ↔ (HasRightFirst check expected s l c × HasRightLcps check s ss lcps cache)
unfolding verify_lcp_cache get_char get_chars
verify_lcp_cache_iff check s ss l lcps c cache expected short =
    let first = first_iff check expected s l c in
    let rows = verify_rows_iff check s ss lcps cache _ short.0 short.1 in
    (λ e. (first.0 (rows.0 e).0, (rows.0 e).1), λ p. rows.1 (first.1 p.0, p.1))

LcpChain-HasRightLcps :
    (s : Str) (ss : List Str) (lcps cache : List ℕ)
    → LcpChain s ss lcps
    → HasRightLcps false s ss lcps cache
LcpChain-HasRightLcps s [] lcps cache c = tt
LcpChain-HasRightLcps s (s2 ∷ ss) [] cache c = absurd c
LcpChain-HasRightLcps s (s2 ∷ ss) (l ∷ lcps) cache c =
    (c.1, λ e. absurd (true≢false (sym e)), LcpChain-HasRightLcps s2 ss lcps (drop 1 cache) c.2)

pub CacheChain-HasRightLcps :
    (s : Str) (ss : List Str) (lcps cache : List ℕ)
    → CacheChain s ss lcps cache
    → HasRightLcps true s ss lcps cache
CacheChain-HasRightLcps s [] lcps cache c = tt
CacheChain-HasRightLcps s (s2 ∷ ss) [] cache c = absurd c
CacheChain-HasRightLcps s (s2 ∷ ss) (l ∷ lcps) [] c = absurd c
CacheChain-HasRightLcps s (s2 ∷ ss) (l ∷ lcps) (x ∷ cache) c = (
  c.1,
  λ e. c.2 ∙ ap (λ (n : ℕ). deref (drop n s2)) c.1,
  CacheChain-HasRightLcps s2 ss lcps cache c.3,
)

-- Right lcps after a first one that is as expected pass verify_lcp.
verify_lcp-true :
    (ss : List Str) (lcps : List ℕ) (expected : ℕ)
    → 0 < length ss
    → All IsShort ss
    → IsLcpSorted ss lcps
    → get_or lcps 0 expected ≡ expected
    → verify_lcp ss lcps expected ≡ true
unfolding verify_lcp verify_lcp_cache get_char get_chars
verify_lcp-true [] lcps expected pos short sorted e = absurd (omega arith)
verify_lcp-true (s ∷ ss) [] expected pos short sorted e = absurd sorted
verify_lcp-true (s ∷ ss) (l ∷ lcps) expected pos short sorted e =
    (verify_rows_iff false s ss lcps [] _ short.0 short.1).1 (
      (first_iff false expected s l 0).1 (inr (e, λ h. absurd (true≢false (sym h)))),
      LcpChain-HasRightLcps s ss lcps [] sorted,
    )

pub IsLcpSorted-IsSorted : (ss : List Str) (lcps : List ℕ) → IsLcpSorted ss lcps → IsSorted LexLe ss
IsLcpSorted-IsSorted [] [] c = tt
IsLcpSorted-IsSorted [] (l ∷ lcps) c = absurd c
IsLcpSorted-IsSorted (s ∷ ss) [] c = absurd c
IsLcpSorted-IsSorted (s ∷ ss) (l ∷ lcps) c =
    LcpChain-IsSorted s (s ∷ ss) (lcp s s ∷ lcps) (LexLe-refl s, refl, c)

-- lcp_insertion_sort_verify does not die on one or more strings, each shorter than 2^32, that share
-- their first `depth` bytes, and it sorts them.
pub lcp_insertion_sort_verify-sorts :
    (r : Str) (x : Str) (xs : List Str) (depth : ℕ)
    → All IsShort (x ∷ xs)
    → Shares r depth (x ∷ xs)
    → (ys : List Str) × (lcp_insertion_sort_verify (x ∷ xs) depth ≡ some ys)
      × IsSorted LexLe ys
      × Perm ys (x ∷ xs)
unfolding lcp_insertion_sort_verify
lcp_insertion_sort_verify-sorts r x xs depth short sh =
    let a =
      lcp_insertion_sort false
        (record { strings = x ∷ xs; lcps = 42 ∷ replicate (length xs) no_lcp; cache = [] })
        (suc (length xs)) depth in
    let sorts =
      lcp_insertion_sort-sorts false r depth 42 x xs (replicate (length xs) no_lcp) []
        (length-replicate (length xs) no_lcp) sh in
    let size : suc (length xs) - 1 ≡ length xs = omega arith in
    let short' = All-perm IsShort (λ s. le_prop) (Perm.symm sorts.1) short in
    let passes =
      verify_lcp-true a.strings a.lcps 42 (omega (arith, length-perm sorts.1)) short' sorts.0
        sorts.2 in
    (a.strings, rw (size, passes) refl, IsLcpSorted-IsSorted a.strings a.lcps sorts.0, sorts.1)

-- Ascending strings with the right lcps and bytes pass verify_lcp_cache.
pub verify_lcp_cache-true :
    (ss : List Str) (lcps cache : List ℕ)
    → 0 < length ss
    → All IsShort ss
    → IsCacheSorted ss lcps cache
    → verify_lcp_cache true ss lcps cache no_lcp ≡ true
verify_lcp_cache-true [] lcps cache n short sorted = absurd (omega arith)
verify_lcp_cache-true (s ∷ ss) [] cache n short sorted = absurd sorted
verify_lcp_cache-true (s ∷ ss) (l ∷ lcps) [] n short sorted = absurd sorted
verify_lcp_cache-true (s ∷ ss) (l ∷ lcps) (c ∷ cache) n short sorted =
    (verify_lcp_cache_iff true s ss l lcps c cache no_lcp short).1
      (inl refl, CacheChain-HasRightLcps s ss lcps cache sorted)

-- The merge with cache, from depth 0 on two sorted arrays of strings shorter than 2^32, the first of
-- them not empty, writes arrays that pass verify_lcp_cache.
pub lcp_merge_binary_cache_opt-verified :
    (p q : LcpCacheStrings)
    → 0 < length p.strings
    → All IsShort p.strings
    → All IsShort q.strings
    → IsCacheSorted p.strings p.lcps p.cache
    → IsCacheSorted q.strings q.lcps q.cache
    → let r = lcp_merge_binary_cache_opt true true p q 0 in
      verify_lcp_cache true r.strings r.lcps r.cache no_lcp ≡ true
lcp_merge_binary_cache_opt-verified p q pos short_p short_q sp sq =
    let r = lcp_merge_binary_cache_opt true true p q 0 in
    let (sorted, perm) = lcp_merge_binary_cache_opt-sorts p q sp sq in
    let short =
      All-perm IsShort (λ s. le_prop) (Perm.symm perm)
        (All-append IsShort p.strings q.strings short_p short_q) in
    verify_lcp_cache-true r.strings r.lcps r.cache
      (omega (arith, length-perm perm, length-append p.strings q.strings)) short sorted
