-- ===== src/LcpInsertion/CacheLaws.antt =====
-- The cached bytes are those behind the lcps.
use parallel_string_sorting.Prelude.{
  ℕ, zero, suc, ◌≤◌, ◌<◌, List, [], ◌∷◌, ◌++◌, true, false, ltb, ◌==◌, if◌then◌else◌, ◌≡◌, refl,
  sym, ap, ◌∙◌, arith, length, drop, get_or, set, rev_append, All, Bool-cases, inl, inr,
  get_or-rev_append_add, set-rev_append_add, length-map,
}
use parallel_string_sorting.Strings.{Str, deref, lcp}
use parallel_string_sorting.Strings.Lcp.{lcp_trans, lcp_comm}
use parallel_string_sorting.Strings.Scan.{scan, scan_entry, scan_ends}
use parallel_string_sorting.LcpInsertion.{
  LcpArrays, move_up, write_new, insert_string, insert_rounds,
}
use parallel_string_sorting.LcpInsertion.Entries.{Entry, insert_entry}
use parallel_string_sorting.LcpInsertion.Entries.Laws.{insert_entry-Descending, Below, Descending}
use parallel_string_sorting.LcpInsertion.Zipper.{
  insert_string-Inserted, probe-arrays, strs, gaps, arrays,
}
use parallel_string_sorting.LcpInsertion.Rounds.{
  Shares, insert_entries, insert_entry-Shares, Shares-entries, length-insert_entry,
}
use parallel_string_sorting.LcpInsertion.Cache.{read_before, insert_cache, insert_string-cache}

-- The byte behind the lcp of each entry, in the string that follows it.
abbrev pub chars : List Entry → Str → List ℕ
chars [] next = []
chars (e ∷ p) next = deref (drop e.lcp next) ∷ chars p e.str

abbrev pub chars_below : List Entry → List ℕ
chars_below [] = []
chars_below (e ∷ p) = chars p e.str

-- Below their lcp two strings have the same bytes.
deref_shared : (n : ℕ) (s t : Str) → n < lcp s t → deref (drop n s) ≡ deref (drop n t)
unfolding lcp
deref_shared n [] t h = absurd (omega arith)
deref_shared n (c ∷ s) [] h = absurd (omega arith)
deref_shared zero (c ∷ s) (e ∷ t) h = ground arith
deref_shared (suc n) (c ∷ s) (e ∷ t) h = ground (arith, deref_shared n s t)

insert_cache-chars :
    (b : ℕ) (new : Str) (h : ℕ) (p : List Entry) (y : Str)
    → Below y p
    → h ≤ lcp new y
    → insert_cache b new h p (chars p y) (get_or (chars p y) 0 b) y ≡ chars (insert_entry new h p) y
unfolding insert_cache insert_entry
insert_cache-chars b new h [] y below shared = refl
insert_cache-chars b new h (cur ∷ p) y below shared =
    let k = scan (drop h new) (drop h cur.str) h in
    let trans = lcp_trans h y new cur.str in
    ground (
      arith,
      deref_shared cur.lcp new y,
      trans,
      lcp_comm y new,
      lcp_comm y cur.str,
      scan_entry h new cur.str,
      scan_ends h new cur.str,
      insert_cache-chars b new h p cur.str below.2,
      insert_cache-chars b new k.lcp p cur.str below.2,
    )

-- A whole round, from the entries so far.
insert_cache-round :
    (b : ℕ) (new : Str) (depth : ℕ) (p : List Entry) (xs : List ℕ) (g : ℕ) (q0 : Str)
    → Descending depth p
    → All (λ (e : Entry). depth ≤ lcp new e.str) p
    → drop 1 xs ≡ chars_below p
    → (hc : ℕ) × (insert_cache b new depth p xs g q0 ≡ hc ∷ chars_below (insert_entry new depth p))
unfolding insert_cache insert_entry
insert_cache-round b new depth [] xs g q0 d shared below = (deref (drop depth q0), refl)
insert_cache-round b new depth (cur ∷ p) xs g q0 d shared below =
    let k = scan (drop depth new) (drop depth cur.str) depth in
    let inner = insert_cache-chars b new k.lcp p cur.str d.1 in
    elim (Bool-cases (ltb (deref k.s1) (deref k.s2))) [
      | inl less ↦ (g, ground (arith, less, inner, scan_entry depth new cur.str))
      | inr not_less ↦ (
        deref (drop depth q0),
        ground (arith, not_less, scan_entry depth new cur.str, scan_ends depth new cur.str),
      )
    ]

length-chars : (p : List Entry) (next : Str) → length (chars p next) ≡ length p
length-chars [] next = refl
length-chars (e ∷ p) next = ap suc (length-chars p e.str)

-- The bytes that are written for entries, of which the one behind the last entry is not fixed yet.
pub record HasChars (p : List Entry) (xs : List ℕ) : Type 0 where
  pub size : length xs ≡ length p
  pub below : drop 1 xs ≡ chars_below p

length-chars_below : (p : List Entry) (n : ℕ) → length p ≡ suc n → length (chars_below p) ≡ n
length-chars_below [] n e = absurd (omega arith)
length-chars_below (e ∷ p) n h = omega (arith, length-chars p e.str)

same_arrays :
    (a : LcpArrays) (ss : List Str) (hs cs : List ℕ)
    → a.strings ≡ ss
    → a.lcps ≡ hs
    → a.cache ≡ cs
    → a ≡ record { strings = ss; lcps = hs; cache = cs }
same_arrays a ss hs cs es eh ec = cc

insert_rounds-step :
    (n depth k j : ℕ) (a : LcpArrays)
    → insert_rounds true n depth (suc k) j a
      ≡ insert_rounds true n depth k
          (suc j)
          (insert_string true false n j (get_or a.strings j []) depth a)
unfolding insert_rounds
insert_rounds-step n depth k j a = refl

module _ (n l0 depth b : ℕ) (r : Str) where
  pub insert_rounds-cache :
      (ys : List Str) (z : Str) (p : List Entry) (gs xs rest : List ℕ)
      → length gs ≡ length ys
      → length rest ≡ length ys
      → Shares r depth ys
      → All (λ (e : Entry). depth ≤ lcp r e.str) p
      → Descending depth p
      → HasChars p xs
      → (xs' : List ℕ) × (insert_rounds true n depth (length ys) (length p) (record {
        strings = rev_append (strs p) (ys ++ z ∷ []);
        lcps = l0 ∷ rev_append (gaps p) gs;
        cache = b ∷ rev_append xs rest;
      })
          ≡ arrays l0 (insert_entries depth ys p) z [] [] (b ∷ rev_append xs' []))
        × HasChars (insert_entries depth ys p) xs'
  unfolding insert_rounds
  insert_rounds-cache [] z p [] xs [] eg er sh a d c = (xs, refl, c)
  insert_rounds-cache [] z p (g ∷ gs) xs rest eg er sh a d c = absurd (omega arith)
  insert_rounds-cache [] z p [] xs (g ∷ rest) eg er sh a d c = absurd (omega arith)
  insert_rounds-cache (y ∷ ys) z p [] xs rest eg er sh a d c = absurd (omega arith)
  insert_rounds-cache (y ∷ ys) z p (gap ∷ gs) xs [] eg er sh a d c = absurd (omega arith)
  insert_rounds-cache (y ∷ ys) z p (gap ∷ gs) xs (g ∷ rest) eg er sh a d c =
      let q = ys ++ z ∷ [] in
      let before = arrays l0 p y q (gap ∷ gs) (b ∷ rev_append xs (g ∷ rest)) in
      let e = insert_entry y depth p in
      let shared = Shares-entries r depth y p sh.0 a in
      let placed =
        insert_string-Inserted true false n l0 y p depth y q gap gs before.cache (λ i le. refl) in
      let cached =
        insert_string-cache false n l0 b y p depth y q gap gs xs g rest (λ i le. refl) c.size in
      let (hc, bytes) = insert_cache-round b y depth p xs g (get_or q 0 []) d shared c.below in
      let after : LcpArrays = record {
        strings = rev_append (strs e) q;
        lcps = l0 ∷ rev_append (gaps e) gs;
        cache = b ∷ rev_append (hc ∷ chars_below e) rest;
      } in
      let round : insert_string true false n (length p) y depth before ≡ after =
        same_arrays _ _ _ _ placed.0 placed.1
          (cached ∙ ap (λ (v : List ℕ). b ∷ rev_append v rest) bytes) in
      let read =
        get_or-rev_append_add (strs p) (y ∷ q) 0 (length p) []
          (omega (arith, length-map p (λ (e : Entry). e.str))) in
      let (xs', rounds, chars') =
        insert_rounds-cache ys z e gs (hc ∷ chars_below e) rest (omega arith) (omega arith) sh.1
          (insert_entry-Shares r depth y depth p sh.0 a)
          (insert_entry-Descending depth y p d shared)
          (record {
            size = omega (
              arith,
              length-insert_entry y depth p,
              length-chars_below e (length p) (length-insert_entry y depth p),
            );
            below = refl;
          }) in
      let k = length ys in
      let run =
        ap
          (λ (s : Str).
            insert_rounds true n depth k (suc (length p))
              (insert_string true false n (length p) s depth before))
          read
        ∙ (ap (λ (a : LcpArrays). insert_rounds true n depth k (suc (length p)) a) round
            ∙ (ap (λ (j : ℕ). insert_rounds true n depth k j after)
                  (sym (length-insert_entry y depth p))
                ∙ rounds)) in
      (xs', insert_rounds-step n depth k (length p) before ∙ run, chars')

  -- The last round, whose first lcp and byte have no place in the arrays.
  pub last_round-cache :
      (cur : Entry) (p : List Entry) (z : Str) (x : ℕ) (xs : List ℕ)
      → Descending depth (cur ∷ p)
      → suc (suc (length p)) ≡ n
      → depth ≤ lcp z cur.str
      → xs ≡ chars p cur.str
      → (insert_string true true n
          (suc (length p))
          z
          depth
          (arrays l0 (cur ∷ p) z [] [] (b ∷ rev_append (x ∷ xs) []))).cache
        ≡ b ∷ rev_append (chars_below (insert_entry z depth (cur ∷ p))) []
  unfolding insert_string insert_entry write_new move_up
  last_round-cache cur p z x xs d size shared bytes =
      let k = scan (drop depth z) (drop depth cur.str) depth in
      let cache = b ∷ rev_append (x ∷ xs) [] in
      let full : length xs ≡ length p = ap length bytes ∙ length-chars p cur.str in
      let char : ℕ = if deref k.s1 == 0 then 0 else deref k.s1 in
      let written = λ (v : ℕ). set-rev_append_add xs (x ∷ []) 0 (length p) v (omega arith) in
      let moved : List ℕ = set cache (suc (length p)) (get_or cache (length p) 0) in
      ground (
        arith,
        bytes,
        probe-arrays l0 cur p z [] [] true z depth cache,
        get_or-rev_append_add (strs p) (cur.str ∷ z ∷ []) 0 (length p) []
            (omega (arith, length-map p (λ (e : Entry). e.str))),
        set-rev_append_add (strs p) (cur.str ∷ z ∷ []) 1 (suc (length p)) cur.str
            (omega (arith, length-map p (λ (e : Entry). e.str))),
        read_before b xs (x ∷ []) (length p) (omega arith),
        written char,
        written (get_or xs 0 b),
        scan_entry depth z cur.str,
        scan_ends depth z cur.str,
        insert_string-cache true n l0 b z p k.lcp cur.str (cur.str ∷ []) cur.lcp [] xs
            (get_or xs 0 b) [] (λ i le. ground arith) full,
        insert_cache-chars b z k.lcp p cur.str d.1,
      )
