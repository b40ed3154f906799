-- ===== src/LcpInsertion/Entries.antt =====
-- One round as insertion into the descending list of what stands before the position. An entry is
-- a string with its lcp with the string that follows it.
pub mod Laws
use parallel_string_sorting.Prelude.{
  ℕ, suc, ◌≤◌, List, [], ◌∷◌, ◌++◌, Bool, true, false, not, ltb, ◌==◌, if◌then◌else◌, ◌≡◌, refl,
  arith, length, drop, map, Perm, ◌⊎◌, inl, inr,
}
use parallel_string_sorting.Strings.{Str, deref, lex_le, LexLe, lcp}
use parallel_string_sorting.Strings.Scan.{scan}

pub record Entry : Type 0 where
  pub str : Str
  pub lcp : ℕ

-- `not (is_less ..)` behind the loop over equal bytes.
unfoldable pub insert_entry : Str → ℕ → List Entry → List Entry
insert_entry new h [] = record { str = new; lcp = h } ∷ []
insert_entry new h (cur ∷ p) =
    let k = scan (drop h new) (drop h cur.str) h in
    let pass = λ (g : ℕ). cur ∷ insert_entry new g p in
    if ltb cur.lcp h
    then record { str = new; lcp = h } ∷ cur ∷ p
    else if cur.lcp == h
    then (if not (ltb (deref k.s1) (deref k.s2))
        then record { str = new; lcp = h } ∷ record { str = cur.str; lcp = k.lcp } ∷ p
        else pass k.lcp)
    else pass h
