-- ===== src/LcpInsertion/Laws.antt =====
-- The lcp-aware insertion sort sorts, and its lcps are right.
use mathlib.Core.List.{perm_middle, append-nil}
use mathlib.Core.List.Perm
use parallel_string_sorting.Prelude.{
  ℕ, suc, ◌≤◌, ◌<◌, List, [], ◌∷◌, ◌++◌, Bool, true, false, if◌then◌else◌, ◌≡◌, refl, arith, length,
  drop, get_or, set, rev_append, get_or-rev_append_add, set-rev_append_add, length-map, ap, ◌∙◌,
  sym, Perm, All, rev_append-perm, length-append, subst,
}
use parallel_string_sorting.Strings.{Str, lcp}
use parallel_string_sorting.Strings.Scan.{scan}
use parallel_string_sorting.Merge.Chain.{LcpChain}
use parallel_string_sorting.LcpInsertion.{
  LcpArrays, move_up, write_new, insert_string, insert_rounds, lcp_insertion_sort,
}
use parallel_string_sorting.LcpInsertion.Entries.{Entry, insert_entry}
use parallel_string_sorting.LcpInsertion.Entries.Laws.{
  Below, Descending, insert_entry-Descending, insert_entry-perm,
}
use parallel_string_sorting.LcpInsertion.Zipper.{
  strs, gaps, arrays, HasArrays, insert_string-Inserted, probe-arrays,
}
use parallel_string_sorting.LcpInsertion.Rounds.{
  insert_entries, length-insert_entry, Shares, Shares-entries, insert_entries-Descending,
  insert_entries-perm, length-insert_entries,
}

-- Ascending strings with, from the second on, the lcp with the string before. The first lcp is
-- free.
abbrev pub IsLcpSorted : List Str → List ℕ → Type 0
IsLcpSorted [] [] = Unit
IsLcpSorted [] (h ∷ hs) = ⊥
IsLcpSorted (s ∷ ss) [] = ⊥
IsLcpSorted (s ∷ ss) (h ∷ hs) = LcpChain s ss hs

Below-IsLcpSorted :
    (l0 : ℕ) (p : List Entry) (next : Str) (ss : List Str) (hs : List ℕ)
    → Below next p
    → LcpChain next ss hs
    → IsLcpSorted (rev_append (strs p) (next ∷ ss)) (l0 ∷ rev_append (gaps p) hs)
Below-IsLcpSorted l0 [] next ss hs b c = c
Below-IsLcpSorted l0 (cur ∷ p) next ss hs b c =
    Below-IsLcpSorted l0 p cur.str (next ∷ ss) (cur.lcp ∷ hs) b.2 (b.0, b.1, c)

-- The strings in order, each with its lcp with the string before; the first lcp is as it was.
abbrev pub SortsWithLcps : List Str → ℕ → LcpArrays → Type 0
SortsWithLcps xs l0 a = IsLcpSorted a.strings a.lcps × Perm a.strings xs × (get_or a.lcps 0 l0 ≡ l0)

Descending-IsLcpSorted :
    (depth l0 : ℕ) (p : List Entry)
    → 0 < length p
    → Descending depth p
    → IsLcpSorted (rev_append (strs p) []) (l0 ∷ rev_append (gaps (drop 1 p)) [])
Descending-IsLcpSorted depth l0 [] pos d = absurd (omega arith)
Descending-IsLcpSorted depth l0 (e ∷ p) pos d = Below-IsLcpSorted l0 p e.str [] [] d.1 tt

module _ (save : Bool) (n l0 depth : ℕ) where
  -- The rounds without the check, with the lcps `gs` of the strings that they place.
  insert_rounds-entries :
      (ys : List Str) (z : Str) (p : List Entry) (gs cache : List ℕ)
      → length gs ≡ length ys
      → (c : List ℕ) × (insert_rounds save n depth (length ys) (length p) (record {
        strings = rev_append (strs p) (ys ++ z ∷ []);
        lcps = l0 ∷ rev_append (gaps p) gs;
        cache = cache;
      })
          ≡ arrays l0 (insert_entries depth ys p) z [] [] c)
  unfolding insert_rounds
  insert_rounds-entries [] z p [] cache e = (cache, refl)
  insert_rounds-entries [] z p (g ∷ gs) cache e = absurd (omega arith)
  insert_rounds-entries (y ∷ ys) z p [] cache e = absurd (omega arith)
  insert_rounds-entries (y ∷ ys) z p (g ∷ gs) cache e =
      let r =
        insert_string save false n (length p) y depth
          (arrays l0 p y (ys ++ z ∷ []) (g ∷ gs) cache) in
      let placed =
        insert_string-Inserted save false n l0 y p depth y (ys ++ z ∷ []) g gs cache
          (λ i le. refl) in
      let (c, rest) =
        insert_rounds-entries ys z (insert_entry y depth p) gs r.cache (omega arith) in
      let read =
        get_or-rev_append_add (strs p) (y ∷ (ys ++ z ∷ [])) 0 (length p) []
          (omega (arith, length-map p (λ (e : Entry). e.str))) in
      (c, ground (arith, placed, read, length-insert_entry y depth p, rest))

  -- The round with the check leaves out the lcp that has no place in the array.
  pub last_round :
      (cur : Entry) (p : List Entry) (z : Str) (cache : List ℕ)
      → cur.lcp ≡ depth
      → suc (suc (length p)) ≡ n
      → HasArrays
          (rev_append (strs (insert_entry z depth (cur ∷ p))) [])
          (l0 ∷ rev_append (gaps (drop 1 (insert_entry z depth (cur ∷ p)))) [])
          (insert_string save true n (suc (length p)) z depth (arrays l0 (cur ∷ p) z [] [] cache))
  unfolding insert_string insert_entry write_new move_up
  last_round cur p z cache e size =
      let k = scan (drop depth z) (drop depth cur.str) depth in
      let moved : List ℕ =
        if save then set cache (suc (length p)) (get_or cache (length p) 0) else cache in
      ground (
        arith,
        probe-arrays l0 cur p z [] [] save z depth cache,
        get_or-rev_append_add (strs p) (cur.str ∷ z ∷ []) 0 (length p) []
            (omega (arith, length-map p (λ (e : Entry). e.str))),
        set-rev_append_add (strs p) (cur.str ∷ z ∷ []) 1 (suc (length p)) cur.str
            (omega (arith, length-map p (λ (e : Entry). e.str))),
        set-rev_append_add (strs p) (cur.str ∷ z ∷ []) 1 (suc (length p)) z
            (omega (arith, length-map p (λ (e : Entry). e.str))),
        insert_string-Inserted save true n l0 z p k.lcp cur.str (cur.str ∷ []) cur.lcp [] moved
            (λ i le. ground arith),
      )

  -- The last round on the entries of all strings but the last.
  last_round-sorts :
      (r : Str) (p : List Entry) (z : Str) (cache : List ℕ)
      → 0 < length p
      → suc (length p) ≡ n
      → Descending depth p
      → All (λ (e : Entry). depth ≤ lcp r e.str) p
      → depth ≤ lcp r z
      → SortsWithLcps
          (z ∷ strs p)
          l0
          (insert_string save true n (length p) z depth (arrays l0 p z [] [] cache))
  last_round-sorts r [] z cache pos size d a hz = absurd (omega arith)
  last_round-sorts r (cur ∷ p) z cache pos size d a hz =
      let e = insert_entry z depth (cur ∷ p) in
      let (ss, hs) = last_round cur p z cache d.0 size in
      let ordered =
        Descending-IsLcpSorted depth l0 e (omega (arith, length-insert_entry z depth (cur ∷ p)))
          (insert_entry-Descending depth z (cur ∷ p) d (Shares-entries r depth z (cur ∷ p) hz a)) in
      rw (ss, hs)
        (
          ordered,
          Perm.trans (rw append-nil at (rev_append-perm (strs e) []))
              (insert_entry-perm z depth (cur ∷ p)),
          refl,
        )

-- The rounds leave the entries of all strings but the last for the last round.
sort_by_rounds :
    (save : Bool) (depth l0 : ℕ) (y : Str) (ys : List Str) (z : Str) (hs cache : List ℕ)
    → length hs ≡ suc (length ys)
    → (c : List ℕ) × (lcp_insertion_sort save
          (record { strings = y ∷ (ys ++ z ∷ []); lcps = l0 ∷ hs; cache = cache })
          (suc (suc (length ys)))
          depth
        ≡ insert_string save true
            (suc (suc (length ys)))
            (length (insert_entries depth (y ∷ ys) []))
            z
            depth
            (arrays l0 (insert_entries depth (y ∷ ys) []) z [] [] c))
unfolding lcp_insertion_sort
sort_by_rounds save depth l0 y ys z hs cache size =
    let p = insert_entries depth (y ∷ ys) [] in
    let (c, e) =
      insert_rounds-entries save (suc (suc (length ys))) l0 depth (y ∷ ys) z [] hs cache size in
    let read =
      get_or-rev_append_add (strs p) (z ∷ []) 0 (length p) []
        (omega (arith, length-map p (λ (e : Entry). e.str))) in
    (c, ground (arith, e, read, length-insert_entries depth (y ∷ ys) []))

-- Two strings or more: all but the last one go through the rounds without the check.
sorts_many :
    (save : Bool) (r : Str) (depth l0 : ℕ) (y : Str) (ys : List Str) (z : Str) (hs cache : List ℕ)
    → length hs ≡ suc (length ys)
    → Shares r depth (y ∷ ys)
    → depth ≤ lcp r z
    → SortsWithLcps (y ∷ (ys ++ z ∷ [])) l0 (
        lcp_insertion_sort save
          (record { strings = y ∷ (ys ++ z ∷ []); lcps = l0 ∷ hs; cache = cache })
          (suc (suc (length ys)))
          depth)
sorts_many save r depth l0 y ys z hs cache size sh hz =
    let p = insert_entries depth (y ∷ ys) [] in
    let (c, e) = sort_by_rounds save depth l0 y ys z hs cache size in
    let many = length-insert_entries depth (y ∷ ys) [] in
    let (d, a) = insert_entries-Descending r depth (y ∷ ys) [] sh tt tt in
    let (ordered, perm, head) =
      last_round-sorts save (suc (suc (length ys))) l0 depth r p z c (omega (arith, many))
        (omega (arith, many)) d a hz in
    let perm' = Perm.trans perm (
      Perm.trans (Perm.cons z (rw append-nil at (insert_entries-perm depth (y ∷ ys) [])))
        (Perm.symm (rw append-nil at (perm_middle {a = z} (y ∷ ys) [])))) in
    rw e (ordered, perm', head)

-- A list that is not empty, by its last element.
pub last_view {ℓ} :
    {A : Type ℓ} (x : A) (xs : List A) → (ys : List A) × (z : A) × (x ∷ xs ≡ ys ++ z ∷ [])
last_view x [] = ([], x, refl)
last_view x (y ∷ xs) = let (ys, z, e) = last_view y xs in (x ∷ ys, z, ap (◌∷◌ x) e)

pub Shares-append :
    (r : Str) (depth : ℕ) (ys : List Str) (z : Str)
    → Shares r depth (ys ++ z ∷ [])
    → Shares r depth ys × (depth ≤ lcp r z)
Shares-append r depth [] z h = (tt, h.0)
Shares-append r depth (y ∷ ys) z h =
    let (hs, hz) = Shares-append r depth ys z h.1 in ((h.0, hs), hz)

abbrev Sorts : Bool → Str → ℕ → ℕ → Str → List ℕ → List ℕ → List Str → Type 0
Sorts save r depth l0 x hs cache xs =
    length hs ≡ length xs
    → Shares r depth (x ∷ xs)
    → SortsWithLcps (x ∷ xs) l0 (
        lcp_insertion_sort save (record { strings = x ∷ xs; lcps = l0 ∷ hs; cache = cache })
          (suc (length xs)) depth)

Sorts-split :
    (save : Bool) (r : Str) (depth l0 : ℕ) (x : Str) (ys : List Str) (z : Str) (hs cache : List ℕ)
    → Sorts save r depth l0 x hs cache (ys ++ z ∷ [])
Sorts-split save r depth l0 x ys z hs cache size sh =
    let (hy, hz) = Shares-append r depth (x ∷ ys) z sh in
    let n : length (ys ++ z ∷ []) ≡ suc (length ys) = omega (arith, length-append ys (z ∷ [])) in
    rw n (sorts_many save r depth l0 x ys z hs cache (size ∙ n) hy hz)

-- lcp_insertion_sort on strings that share their first `depth` bytes: it sorts them, sets every
-- lcp from the second on to that of a string with the one before, and leaves the first lcp.
pub lcp_insertion_sort-sorts :
    (save : Bool) (r : Str) (depth l0 : ℕ) (x : Str) (xs : List Str) (hs cache : List ℕ)
    → length hs ≡ length xs
    → Shares r depth (x ∷ xs)
    → SortsWithLcps (x ∷ xs) l0 (
        lcp_insertion_sort save
          (record { strings = x ∷ xs; lcps = l0 ∷ hs; cache = cache })
          (suc (length xs))
          depth)
unfolding lcp_insertion_sort
lcp_insertion_sort-sorts save r depth l0 x [] [] cache size sh = (tt, Perm.refl (x ∷ []), refl)
lcp_insertion_sort-sorts save r depth l0 x [] (h ∷ hs) cache size sh = absurd (omega arith)
lcp_insertion_sort-sorts save r depth l0 x (y ∷ xs) hs cache size sh =
    let (ys, z, e) = last_view y xs in
    subst (Sorts save r depth l0 x hs cache) (sym e) (Sorts-split save r depth l0 x ys z hs cache)
      size sh
