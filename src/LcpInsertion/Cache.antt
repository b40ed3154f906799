-- ===== src/LcpInsertion/Cache.antt =====
-- The cached bytes of a round: what the array loop leaves at and before the position.
use parallel_string_sorting.Prelude.{
  ℕ, zero, suc, ◌≤◌, List, [], ◌∷◌, Bool, true, not, ltb, ◌==◌, if◌then◌else◌, ◌≡◌, refl, ap, arith,
  length, drop, get_or, rev_append, get_or-rev_append_add, set-rev_append_add, length-map,
}
use parallel_string_sorting.Strings.{Str, deref}
use parallel_string_sorting.Strings.Scan.{scan}
use parallel_string_sorting.StringSet.{get_char, get_chars}
use parallel_string_sorting.LcpInsertion.{has_room, write_new, insert_string}
use parallel_string_sorting.LcpInsertion.Entries.{Entry}
use parallel_string_sorting.LcpInsertion.Zipper.{strs, arrays, probe-arrays, move_up-arrays}

-- The bytes behind the lcps of the entries `p`, and of an entry with `g` that follows them, last one
-- first. `b` is the first byte of the array.
unfoldable pub insert_cache : ℕ → Str → ℕ → List Entry → List ℕ → ℕ → Str → List ℕ
insert_cache b new h [] xs g q0 = deref (drop h q0) ∷ []
insert_cache b new h (cur ∷ p) xs g q0 =
    let k = scan (drop h new) (drop h cur.str) h in
    let rest = drop 1 xs in
    let pass = λ (f : ℕ). g ∷ insert_cache b new f p rest (get_or rest 0 b) cur.str in
    if ltb cur.lcp h
    then deref (drop h q0) ∷ xs
    else if cur.lcp == h
    then (if not (ltb (deref k.s1) (deref k.s2))
        then deref (drop h q0) ∷ (if deref k.s1 == 0 then 0 else deref k.s1) ∷ rest
        else pass k.lcp)
    else pass h

pub read_before :
    (b : ℕ) (xs ys : List ℕ) (n : ℕ)
    → n ≡ length xs
    → get_or (b ∷ rev_append xs ys) n 0 ≡ get_or xs 0 b
read_before b [] ys zero e = refl
read_before b [] ys (suc n) e = absurd (omega arith)
read_before b (x ∷ xs) ys zero e = absurd (omega arith)
read_before b (x ∷ xs) ys (suc n) e = get_or-rev_append_add xs (x ∷ ys) 0 n 0 (omega arith)

-- The writes that end a round.
write_new-cache :
    (checked : Bool) (n l0 b : ℕ) (new : Str) (h : ℕ) (p : List Entry) (y : Str) (q : List Str)
    (gs xs : List ℕ) (g : ℕ) (rest : List ℕ)
    → has_room checked n (length p) ≡ true
    → length xs ≡ length p
    → (write_new true checked n
        (length p)
        new
        h
        (arrays l0 p y q gs (b ∷ rev_append xs (g ∷ rest)))).cache
      ≡ b ∷ rev_append xs (deref (drop h (get_or q 0 [])) ∷ rest)
unfolding write_new get_char get_chars
write_new-cache checked n l0 b new h p y q gs xs g rest room size =
    let placed =
      set-rev_append_add (strs p) (y ∷ q) 0 (length p) new
        (omega (arith, length-map p (λ (e : Entry). e.str))) in
    let next =
      get_or-rev_append_add (strs p) (new ∷ q) 1 (suc (length p)) []
        (omega (arith, length-map p (λ (e : Entry). e.str))) in
    rw (room, placed, next)
      (ap (◌∷◌ b) (set-rev_append_add xs (g ∷ rest) 0 (length p) _ (omega arith)))

pub insert_string-cache :
    (checked : Bool) (n l0 b : ℕ) (new : Str) (p : List Entry) (h : ℕ) (y : Str) (q : List Str)
    (gap : ℕ) (gs xs : List ℕ) (g : ℕ) (rest : List ℕ)
    → ((i : ℕ) → i ≤ length p → has_room checked n i ≡ true)
    → length xs ≡ length p
    → (insert_string true checked n
        (length p)
        new
        h
        (arrays l0 p y q (gap ∷ gs) (b ∷ rev_append xs (g ∷ rest)))).cache
      ≡ b ∷ rev_append (insert_cache b new h p xs g (get_or q 0 [])) rest
unfolding insert_string insert_cache
insert_string-cache checked n l0 b new [] h y q gap gs [] g rest room size =
    write_new-cache checked n l0 b new h [] y q (gap ∷ gs) [] g rest (room 0 (omega arith)) refl
insert_string-cache checked n l0 b new [] h y q gap gs (x ∷ xs) g rest room size =
    absurd (omega arith)
insert_string-cache checked n l0 b new (cur ∷ p) h y q gap gs [] g rest room size =
    absurd (omega arith)
insert_string-cache checked n l0 b new (cur ∷ p) h y q gap gs (x ∷ xs) g rest room size =
    let k = scan (drop h new) (drop h cur.str) h in
    let cache = b ∷ rev_append xs (x ∷ g ∷ rest) in
    let char : ℕ = if deref k.s1 == 0 then 0 else deref k.s1 in
    let before = read_before b xs (x ∷ g ∷ rest) (length p) (omega arith) in
    let written = λ (v : ℕ). set-rev_append_add xs (x ∷ g ∷ rest) 0 (length p) v (omega arith) in
    let ih = λ (f : ℕ).
      insert_string-cache checked n l0 b new p f cur.str (cur.str ∷ q) cur.lcp (cur.lcp ∷ gs) xs
        (get_or xs 0 b) (g ∷ rest) (λ i le. room i (omega arith)) (omega arith) in
    ground (
      arith,
      probe-arrays l0 cur p y q (gap ∷ gs) true new h cache,
      move_up-arrays l0 cur p y q (gap ∷ gs) true checked n cache
          (room (suc (length p)) (omega arith)),
      before,
      written (get_or xs 0 b),
      written char,
      write_new-cache checked n l0 b new h (cur ∷ p) y q (gap ∷ gs) (x ∷ xs) g rest
          (room (suc (length p)) (omega arith)) size,
      write_new-cache checked n l0 b new h (record { str = cur.str; lcp = k.lcp } ∷ p) y q
          (gap ∷ gs) (char ∷ xs) g rest (room (suc (length p)) (omega arith)) size,
      ih h,
      ih k.lcp,
    )
