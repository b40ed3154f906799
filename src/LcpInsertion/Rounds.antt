-- ===== src/LcpInsertion/Rounds.antt =====
-- The entries after several rounds: in order, and those of the strings.
use mathlib.Core.List.{perm_middle}
use mathlib.Core.List.Perm
use parallel_string_sorting.Prelude.{
  ℕ, suc, ◌+◌, ◌≤◌, List, [], ◌∷◌, ◌++◌, ◌≡◌, refl, arith, length, drop, Perm, All,
}
use parallel_string_sorting.Strings.{Str, lcp}
use parallel_string_sorting.Strings.Lcp.{lcp_trans}
use parallel_string_sorting.Strings.Scan.{scan}
use parallel_string_sorting.LcpInsertion.Entries.{Entry, insert_entry}
use parallel_string_sorting.LcpInsertion.Entries.Laws.{
  Descending, insert_entry-Descending, insert_entry-perm,
}
use parallel_string_sorting.LcpInsertion.Zipper.{strs}

-- The entries after the rounds for the strings `ys`.
abbrev pub insert_entries : ℕ → List Str → List Entry → List Entry
insert_entries depth [] p = p
insert_entries depth (y ∷ ys) p = insert_entries depth ys (insert_entry y depth p)

pub length-insert_entry :
    (new : Str) (h : ℕ) (p : List Entry) → length (insert_entry new h p) ≡ suc (length p)
unfolding insert_entry
length-insert_entry new h [] = refl
length-insert_entry new h (cur ∷ p) = ground (
  arith,
  length-insert_entry new h p,
  length-insert_entry new (scan (drop h new) (drop h cur.str) h).lcp p,
)

-- The strings share the first `depth` bytes of `r`.
abbrev pub Shares : Str → ℕ → List Str → Type 0
Shares r depth = All (λ s. depth ≤ lcp r s)

pub Shares-entries :
    (r : Str) (depth : ℕ) (new : Str) (p : List Entry)
    → depth ≤ lcp r new
    → All (λ (e : Entry). depth ≤ lcp r e.str) p
    → All (λ (e : Entry). depth ≤ lcp new e.str) p
Shares-entries r depth new [] hn h = tt
Shares-entries r depth new (e ∷ p) hn h =
    (lcp_trans depth r new e.str hn h.0, Shares-entries r depth new p hn h.1)

-- The entries share the first bytes of `r` as well.
pub insert_entry-Shares :
    (r : Str) (depth : ℕ) (new : Str) (h : ℕ) (p : List Entry)
    → depth ≤ lcp r new
    → All (λ (e : Entry). depth ≤ lcp r e.str) p
    → All (λ (e : Entry). depth ≤ lcp r e.str) (insert_entry new h p)
unfolding insert_entry
insert_entry-Shares r depth new h [] hn a = (hn, tt)
insert_entry-Shares r depth new h (cur ∷ p) hn a =
    let k = scan (drop h new) (drop h cur.str) h in
    ground (
      arith,
      insert_entry-Shares r depth new h p hn a.1,
      insert_entry-Shares r depth new k.lcp p hn a.1,
    )

pub insert_entries-Descending :
    (r : Str) (depth : ℕ) (ys : List Str) (p : List Entry)
    → Shares r depth ys
    → All (λ (e : Entry). depth ≤ lcp r e.str) p
    → Descending depth p
    → Descending depth (insert_entries depth ys p)
      × All (λ (e : Entry). depth ≤ lcp r e.str) (insert_entries depth ys p)
insert_entries-Descending r depth [] p sh a d = (d, a)
insert_entries-Descending r depth (y ∷ ys) p sh a d =
    insert_entries-Descending r depth ys (insert_entry y depth p) sh.1
      (insert_entry-Shares r depth y depth p sh.0 a)
      (insert_entry-Descending depth y p d (Shares-entries r depth y p sh.0 a))

pub insert_entries-perm :
    (depth : ℕ) (ys : List Str) (p : List Entry)
    → Perm (strs (insert_entries depth ys p)) (ys ++ strs p)
insert_entries-perm depth [] p = Perm.refl (strs p)
insert_entries-perm depth (y ∷ ys) p =
    Perm.trans (insert_entries-perm depth ys (insert_entry y depth p))
      (Perm.trans (Perm.append_left ys (insert_entry-perm y depth p)) (perm_middle ys (strs p)))

pub length-insert_entries :
    (depth : ℕ) (ys : List Str) (p : List Entry)
    → length (insert_entries depth ys p) ≡ length ys + length p
length-insert_entries depth [] p = omega arith
length-insert_entries depth (y ∷ ys) p =
    omega (
      arith,
      length-insert_entries depth ys (insert_entry y depth p),
      length-insert_entry y depth p,
    )
