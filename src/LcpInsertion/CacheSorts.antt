-- ===== src/LcpInsertion/CacheSorts.antt =====
-- The whole insertion sort with the cache.
use parallel_string_sorting.Prelude.{
  ℕ, suc, ◌-◌, ◌≤◌, ◌<◌, List, [], ◌∷◌, ◌++◌, Bool, true, false, leb, ◌≡◌, refl, sym, subst, ◌∙◌,
  arith, length, Perm, length-append, drop, get_or, rev_append, All, get_or-rev_append_add,
  length-map,
}
use parallel_string_sorting.Strings.{Str, deref, lcp}
use parallel_string_sorting.MergeCache.Laws.{IsCacheSorted}
use parallel_string_sorting.MergeCache.Chain.{CacheChain}
use parallel_string_sorting.LcpInsertion.{
  LcpArrays, insert_string, insert_rounds, lcp_insertion_sort,
}
use parallel_string_sorting.LcpInsertion.Entries.{Entry, insert_entry}
use parallel_string_sorting.LcpInsertion.Entries.Laws.{insert_entry-Descending, Below, Descending}
use parallel_string_sorting.LcpInsertion.Zipper.{strs, gaps, arrays}
use parallel_string_sorting.LcpInsertion.Laws.{
  lcp_insertion_sort-sorts, Shares-append, last_view, last_round,
}
use parallel_string_sorting.LcpInsertion.Rounds.{
  Shares, insert_entries, insert_entries-Descending, Shares-entries, length-insert_entry,
  length-insert_entries,
}
use parallel_string_sorting.LcpInsertion.CacheLaws.{
  chars, chars_below, HasChars, insert_rounds-cache, last_round-cache,
}

pub lcp_insertion_sort-last_round :
    (save : Bool) (m depth : ℕ) (a : LcpArrays)
    → 0 < m
    → let b = insert_rounds save (suc m) depth m 0 a in
      lcp_insertion_sort save a (suc m) depth
      ≡ insert_string save true (suc m) m (get_or b.strings m []) depth b
unfolding lcp_insertion_sort
lcp_insertion_sort-last_round save m depth a p =
    let many : leb (suc m) 1 ≡ false = ground arith in
    let last : suc m - 1 ≡ m = omega arith in rw (many, last) refl

Below-CacheChain :
    (l0 b : ℕ) (p : List Entry) (next : Str) (ss : List Str) (hs cs : List ℕ)
    → Below next p
    → CacheChain next ss hs cs
    → IsCacheSorted
        (rev_append (strs p) (next ∷ ss))
        (l0 ∷ rev_append (gaps p) hs)
        (b ∷ rev_append (chars p next) cs)
Below-CacheChain l0 b [] next ss hs cs below c = c
Below-CacheChain l0 b (cur ∷ p) next ss hs cs below c =
    Below-CacheChain l0 b p cur.str (next ∷ ss) (cur.lcp ∷ hs) (deref (drop cur.lcp next) ∷ cs)
      below.2 (below.0, below.1, refl, c)

last_round-IsCacheSorted :
    (n l0 depth b : ℕ) (r : Str) (p : List Entry) (z : Str) (xs : List ℕ)
    → 0 < length p
    → suc (length p) ≡ n
    → Descending depth p
    → All (λ (e : Entry). depth ≤ lcp r e.str) p
    → depth ≤ lcp r z
    → HasChars p xs
    → let a =
        insert_string true true n (length p) z depth (arrays l0 p z [] [] (b ∷ rev_append xs [])) in
      IsCacheSorted a.strings a.lcps a.cache
last_round-IsCacheSorted n l0 depth b r [] z xs pos size d sh hz c = absurd (omega arith)
last_round-IsCacheSorted n l0 depth b r (cur ∷ p) z [] pos size d sh hz c =
    absurd (omega (arith, c.size))
last_round-IsCacheSorted n l0 depth b r (cur ∷ p) z (x ∷ xs) pos size d sh hz c =
    let shared = Shares-entries r depth z (cur ∷ p) hz sh in
    let e = insert_entry z depth (cur ∷ p) in
    let (ss, hs) = last_round true n l0 depth cur p z (b ∷ rev_append (x ∷ xs) []) d.0 size in
    let cs = last_round-cache n l0 depth b r cur p z x xs d size shared.0 c.below in
    rw (ss, hs, cs)
      (all e (length-insert_entry z depth (cur ∷ p))
        (insert_entry-Descending depth z (cur ∷ p) d shared))
  where
    all :
        (e : List Entry)
        → length e ≡ suc (suc (length p))
        → Descending depth e
        → IsCacheSorted
            (rev_append (strs e) [])
            (l0 ∷ rev_append (gaps (drop 1 e)) [])
            (b ∷ rev_append (chars_below e) [])
    all [] n d = absurd (omega arith)
    all (new ∷ e) n d = Below-CacheChain l0 b e new.str [] [] [] d.1 tt

caches_many :
    (r : Str) (depth l0 b : ℕ) (y : Str) (ys : List Str) (z : Str) (hs cs : List ℕ)
    → length hs ≡ suc (length ys)
    → length cs ≡ suc (length ys)
    → Shares r depth (y ∷ ys)
    → depth ≤ lcp r z
    → let a =
        lcp_insertion_sort true
          (record { strings = y ∷ (ys ++ z ∷ []); lcps = l0 ∷ hs; cache = b ∷ cs })
          (suc (suc (length ys)))
          depth in
      IsCacheSorted a.strings a.lcps a.cache
caches_many r depth l0 b y ys z hs cs eh ec sh hz =
    let m = suc (length ys) in
    let p = insert_entries depth (y ∷ ys) [] in
    let start : LcpArrays = record {
      strings = y ∷ (ys ++ z ∷ []);
      lcps = l0 ∷ hs;
      cache = b ∷ cs;
    } in
    let (xs, rounds, c) =
      insert_rounds-cache (suc m) l0 depth b r (y ∷ ys) z [] hs [] cs eh ec sh tt tt
        (record { size = refl; below = refl }) in
    let many : length p ≡ m = omega (arith, length-insert_entries depth (y ∷ ys) []) in
    let (d, sh') = insert_entries-Descending r depth (y ∷ ys) [] sh tt tt in
    let read =
      get_or-rev_append_add (strs p) (z ∷ []) 0 (length p) []
        (omega (arith, length-map p (λ (e : Entry). e.str))) in
    let last =
      last_round-IsCacheSorted (suc m) l0 depth b r p z xs (omega arith) (omega arith) d sh' hz c in
    rw (lcp_insertion_sort-last_round true m depth start (omega arith), rounds)
      (rw (rw many at read) (rw many at last))

abbrev Caches : Str → ℕ → ℕ → ℕ → Str → List ℕ → List ℕ → List Str → Type 0
Caches r depth l0 b x hs cs xs =
    length hs ≡ length xs
    → length cs ≡ length xs
    → Shares r depth (x ∷ xs)
    → let a =
        lcp_insertion_sort true (record { strings = x ∷ xs; lcps = l0 ∷ hs; cache = b ∷ cs })
          (suc (length xs)) depth in
      IsCacheSorted a.strings a.lcps a.cache

all_bytes :
    (r : Str) (depth l0 b : ℕ) (x : Str) (xs : List Str) (hs cs : List ℕ)
    → Caches r depth l0 b x hs cs xs
unfolding lcp_insertion_sort
all_bytes r depth l0 b x [] [] [] eh ec sh = tt
all_bytes r depth l0 b x [] (h ∷ hs) cs eh ec sh = absurd (omega arith)
all_bytes r depth l0 b x [] [] (c ∷ cs) eh ec sh = absurd (omega arith)
all_bytes r depth l0 b x (y ∷ xs) hs cs eh ec sh =
    let (ys, z, e) = last_view y xs in
    subst (Caches r depth l0 b x hs cs) (sym e) (split ys z) eh ec sh
  where
    split : (ys : List Str) (z : Str) → Caches r depth l0 b x hs cs (ys ++ z ∷ [])
    split ys z eh ec sh =
        let (hy, hz) = Shares-append r depth (x ∷ ys) z sh in
        let n : length (ys ++ z ∷ []) ≡ suc (length ys) =
          omega (arith, length-append ys (z ∷ [])) in
        rw n (caches_many r depth l0 b x ys z hs cs (eh ∙ n) (ec ∙ n) hy hz)

-- lcp_insertion_sort with the cache, on one or more strings that share their first `depth` bytes,
-- keeps the strings and leaves them in order with the right lcps and cached bytes from the second
-- string on.
pub lcp_insertion_sort-IsCacheSorted :
    (r : Str) (depth l0 b : ℕ) (x : Str) (xs : List Str) (hs cs : List ℕ)
    → length hs ≡ length xs
    → length cs ≡ length xs
    → Shares r depth (x ∷ xs)
    → let a =
        lcp_insertion_sort true
          (record { strings = x ∷ xs; lcps = l0 ∷ hs; cache = b ∷ cs })
          (suc (length xs))
          depth in
      IsCacheSorted a.strings a.lcps a.cache × Perm a.strings (x ∷ xs)
lcp_insertion_sort-IsCacheSorted r depth l0 b x xs hs cs eh ec sh =
    let (_, perm, _) = lcp_insertion_sort-sorts true r depth l0 x xs hs (b ∷ cs) eh sh in
    (all_bytes r depth l0 b x xs hs cs eh ec sh, perm)
