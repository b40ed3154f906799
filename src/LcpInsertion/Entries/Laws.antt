-- ===== src/LcpInsertion/Entries/Laws.antt =====
-- The insertion of an entry keeps the order and the lcps.
use mathlib.Core.List.Perm
use parallel_string_sorting.Prelude.{
  ℕ, ◌≤◌, List, [], ◌∷◌, not, ltb, ◌==◌, if◌then◌else◌, ◌≡◌, refl, arith, drop, map, Perm, if_both,
  All,
}
use parallel_string_sorting.Strings.{Str, deref, LexLe, lcp}
use parallel_string_sorting.Strings.Order.{LexLe-of_not}
use parallel_string_sorting.Strings.Lcp.{lcp_comm, lcp_trans, lcp-lt_before}
use parallel_string_sorting.Strings.Scan.{scan, scan_entry}
use parallel_string_sorting.LcpInsertion.Entries.{Entry, insert_entry}

-- The entries before `next`, from the last one down: each string is before the next one, and its
-- lcp is that with the next one.
abbrev pub Below : Str → List Entry → Type 0
Below next [] = Unit
Below next (cur ∷ p) = LexLe cur.str next × (cur.lcp ≡ lcp cur.str next) × Below cur.str p

-- All entries so far: the last string has no next one, and its lcp is the depth.
abbrev pub Descending : ℕ → List Entry → Type 0
Descending depth [] = Unit
Descending depth (cur ∷ p) = (cur.lcp ≡ depth) × Below cur.str p

pub insert_entry-Below :
    (next new : Str) (h : ℕ) (p : List Entry)
    → Below next p
    → LexLe new next
    → h ≡ lcp new next
    → Below next (insert_entry new h p)
unfolding insert_entry
insert_entry-Below next new h [] b le e = (le, e, tt)
insert_entry-Below next new h (cur ∷ p) b le e =
    let k = scan (drop h new) (drop h cur.str) h in
    ground (
      arith,
      lcp-lt_before next new cur.str,
      lcp-lt_before next cur.str new,
      lcp_trans h next new cur.str,
      lcp_comm next new,
      lcp_comm next cur.str,
      lcp_comm new cur.str,
      scan_entry h new cur.str,
      LexLe-of_not cur.str new,
      insert_entry-Below cur.str new h p,
      insert_entry-Below cur.str new k.lcp p,
    )

pub insert_entry-Descending :
    (depth : ℕ) (new : Str) (p : List Entry)
    → Descending depth p
    → All (λ (e : Entry). depth ≤ lcp new e.str) p
    → Descending depth (insert_entry new depth p)
unfolding insert_entry
insert_entry-Descending depth new [] d sh = (refl, tt)
insert_entry-Descending depth new (cur ∷ p) d sh =
    let k = scan (drop depth new) (drop depth cur.str) depth in
    ground (
      arith,
      lcp_comm new cur.str,
      scan_entry depth new cur.str,
      LexLe-of_not cur.str new,
      insert_entry-Below cur.str new k.lcp p,
    )

pub insert_entry-perm :
    (new : Str) (h : ℕ) (p : List Entry)
    → Perm (map (λ (e : Entry). e.str) (insert_entry new h p)) (new ∷ map (λ (e : Entry). e.str) p)
unfolding insert_entry
insert_entry-perm new h [] = Perm.refl (new ∷ [])
insert_entry-perm new h (cur ∷ p) =
    let strs : List Entry → List Str = map (λ (e : Entry). e.str) in
    let k = scan (drop h new) (drop h cur.str) h in
    let keeps : List Entry → Type 0 = λ e. Perm (strs e) (new ∷ cur.str ∷ strs p) in
    let here = Perm.refl (new ∷ cur.str ∷ strs p) in
    let pass = λ (g : ℕ). cur ∷ insert_entry new g p in
    let pass-perm = λ (g : ℕ).
      Perm.trans (Perm.cons cur.str (insert_entry-perm new g p)) (Perm.swap new cur.str (strs p)) in
    let found = record { str = new; lcp = h } ∷ record { str = cur.str; lcp = k.lcp } ∷ p in
    let ended = not (ltb (deref k.s1) (deref k.s2)) in
    if_both keeps (ltb cur.lcp h) (record { str = new; lcp = h } ∷ cur ∷ p)
      (if cur.lcp == h then if ended then found else pass k.lcp else pass h) here
      (if_both keeps (cur.lcp == h) (if ended then found else pass k.lcp) (pass h)
        (if_both keeps ended found (pass k.lcp) here (pass-perm k.lcp)) (pass-perm h))
