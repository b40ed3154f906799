-- ===== src/LcpInsertion/Zipper.antt =====
-- The array loop computes the insertion of an entry.
use parallel_string_sorting.Prelude.{
  ℕ, suc, ◌≤◌, List, [], ◌∷◌, Bool, true, not, ltb, ◌==◌, if◌then◌else◌, ◌≡◌, arith, length, drop,
  map, get_or, set, rev_append, get_or-rev_append_add, set-rev_append_add, length-map, ap,
}
use parallel_string_sorting.Strings.{Str, deref}
use parallel_string_sorting.Strings.Scan.{scan}
use parallel_string_sorting.StringSet.Laws.{scan_equal-eq-scan}
use parallel_string_sorting.LcpInsertion.{
  LcpArrays, stop, shift, has_room, probe, move_up, write_new, insert_string,
}
use parallel_string_sorting.LcpInsertion.Entries.{Entry, insert_entry}

abbrev pub strs : List Entry → List Str
strs = map (λ (e : Entry). e.str)

abbrev pub gaps : List Entry → List ℕ
gaps = map (λ (e : Entry). e.lcp)

-- The arrays with the entries `p` before the position, `y` at it and `q` behind it.
abbrev pub arrays : ℕ → List Entry → Str → List Str → List ℕ → List ℕ → LcpArrays
arrays l0 p y q g cache = record {
  strings = rev_append (strs p) (y ∷ q);
  lcps = l0 ∷ rev_append (gaps p) g;
  cache = cache;
}

module _ (l0 : ℕ) (cur : Entry) (p : List Entry) (y : Str) (q : List Str) (g : List ℕ) where
  -- Reading and writing just before the position.
  read_str : get_or (rev_append (strs p) (cur.str ∷ y ∷ q)) (length p) [] ≡ cur.str
  read_str =
      get_or-rev_append_add (strs p) (cur.str ∷ y ∷ q) 0 (length p) []
        (omega (arith, length-map p (λ (e : Entry). e.str)))

  write_str :
      (v : Str)
      → set (rev_append (strs p) (cur.str ∷ y ∷ q)) (suc (length p)) v
        ≡ rev_append (strs p) (cur.str ∷ v ∷ q)
  write_str v =
      set-rev_append_add (strs p) (cur.str ∷ y ∷ q) 1 (suc (length p)) v
        (omega (arith, length-map p (λ (e : Entry). e.str)))

  read_gap : get_or (rev_append (gaps p) (cur.lcp ∷ g)) (length p) 0 ≡ cur.lcp
  read_gap =
      get_or-rev_append_add (gaps p) (cur.lcp ∷ g) 0 (length p) 0
        (omega (arith, length-map p (λ (e : Entry). e.lcp)))

  write_gap :
      (v : ℕ) → set (rev_append (gaps p) (cur.lcp ∷ g)) (length p) v ≡ rev_append (gaps p) (v ∷ g)
  write_gap v =
      set-rev_append_add (gaps p) (cur.lcp ∷ g) 0 (length p) v
        (omega (arith, length-map p (λ (e : Entry). e.lcp)))

  write_gap_suc :
      (v : ℕ)
      → set (rev_append (gaps p) (cur.lcp ∷ g)) (suc (length p)) v
        ≡ rev_append (gaps p) (cur.lcp ∷ set g 0 v)
  write_gap_suc v =
      set-rev_append_add (gaps p) (cur.lcp ∷ g) 1 (suc (length p)) v
        (omega (arith, length-map p (λ (e : Entry). e.lcp)))

  pub move_up-arrays :
      (save checked : Bool) (n : ℕ) (cache : List ℕ)
      → has_room checked n (suc (length p)) ≡ true
      → move_up save checked n (length p) (arrays l0 (cur ∷ p) y q g cache)
        ≡ arrays l0 p cur.str
            (cur.str ∷ q)
            (cur.lcp ∷ set g 0 cur.lcp)
            (if save then set cache (suc (length p)) (get_or cache (length p) 0) else cache)
  unfolding move_up
  move_up-arrays save checked n cache room =
      rw (room, read_str, write_str cur.str, read_gap, write_gap_suc cur.lcp)

  -- The cache that a probe leaves if it ends the round.
  abbrev pub char_written : Bool → Str → List ℕ → List ℕ
  char_written save rest cache =
      if save then set cache (suc (length p)) (if deref rest == 0 then 0 else deref rest) else cache

  pub probe-arrays :
      (save : Bool) (new : Str) (h : ℕ) (cache : List ℕ)
      → let k = scan (drop h new) (drop h cur.str) h in
        probe save new h (length p) (arrays l0 (cur ∷ p) y q g cache) ≡ (
          if ltb cur.lcp h
          then stop (arrays l0 (cur ∷ p) y q g cache) h
          else if cur.lcp == h
          then (if not (ltb (deref k.s1) (deref k.s2))
              then stop
                  (arrays l0
                    (record { str = cur.str; lcp = k.lcp } ∷ p)
                    y
                    q
                    g
                    (char_written save k.s1 cache))
                  h
              else shift k.lcp)
          else shift h)
  unfolding probe
  probe-arrays save new h cache = rw (
    read_str,
    read_gap,
    scan_equal-eq-scan (drop h new) (drop h cur.str) h,
    write_gap (scan (drop h new) (drop h cur.str) h).lcp,
  )

-- The strings and lcps of a result, whatever the cache.
abbrev pub HasArrays : List Str → List ℕ → LcpArrays → Type 0
HasArrays ss hs a = (a.strings ≡ ss) × (a.lcps ≡ hs)

module _ (save checked : Bool) (n l0 : ℕ) (new : Str) where
  write_new-arrays :
      (h : ℕ) (p : List Entry) (y : Str) (q : List Str) (g : ℕ) (gs cache : List ℕ)
      → has_room checked n (length p) ≡ true
      → HasArrays
          (rev_append (strs p) (new ∷ q))
          (l0 ∷ rev_append (gaps p) (h ∷ gs))
          (write_new save checked n (length p) new h (arrays l0 p y q (g ∷ gs) cache))
  unfolding write_new
  write_new-arrays h p y q g gs cache room = rw room (
    set-rev_append_add (strs p) (y ∷ q) 0 (length p) new
        (omega (arith, length-map p (λ (e : Entry). e.str))),
    ap (◌∷◌ l0) (
        set-rev_append_add (gaps p) (g ∷ gs) 0 (length p) h
          (omega (arith, length-map p (λ (e : Entry). e.lcp)))),
  )

  -- What the round leaves: the entries with the new one inserted, and what was behind them.
  abbrev Inserted : ℕ → List Entry → List Str → List ℕ → LcpArrays → Type 0
  Inserted h p q gs =
      HasArrays (rev_append (strs (insert_entry new h p)) q)
        (l0 ∷ rev_append (gaps (insert_entry new h p)) gs)

  pub insert_string-Inserted :
      (p : List Entry) (h : ℕ) (y : Str) (q : List Str) (g : ℕ) (gs cache : List ℕ)
      → ((i : ℕ) → i ≤ length p → has_room checked n i ≡ true)
      → Inserted h p q gs
          (insert_string save checked n (length p) new h (arrays l0 p y q (g ∷ gs) cache))
  unfolding insert_string insert_entry
  insert_string-Inserted [] h y q g gs cache room =
      write_new-arrays h [] y q g gs cache (room 0 (omega arith))
  insert_string-Inserted (cur ∷ p) h y q g gs cache room =
      let k = scan (drop h new) (drop h cur.str) h in
      let moved : List ℕ =
        if save then set cache (suc (length p)) (get_or cache (length p) 0) else cache in
      let ih = λ (f : ℕ).
        insert_string-Inserted p f cur.str (cur.str ∷ q) cur.lcp (cur.lcp ∷ gs) moved
          (λ i le. room i (omega arith)) in
      ground (
        arith,
        probe-arrays l0 cur p y q (g ∷ gs) save new h cache,
        move_up-arrays l0 cur p y q (g ∷ gs) save checked n cache
            (room (suc (length p)) (omega arith)),
        write_new-arrays h (cur ∷ p) y q g gs cache (room (suc (length p)) (omega arith)),
        write_new-arrays h (record { str = cur.str; lcp = k.lcp } ∷ p) y q g gs
            (char_written l0 cur p y q (g ∷ gs) save k.s1 cache)
            (room (suc (length p)) (omega arith)),
        ih h,
        ih k.lcp,
      )
