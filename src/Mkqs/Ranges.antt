-- ===== src/Mkqs/Ranges.antt =====
-- A split leaves the strings below the pivot, those with its byte and those above it in three ranges.
use mathlib.Core.List.Perm
use parallel_string_sorting.Prelude.{
  ℕ, ◌+◌, ◌-◌, ◌≤◌, ◌<◌, Option, some, List, length, min, Perm, ◌≡◌, refl, ap, ◌∙◌, arith,
}
use parallel_string_sorting.Strings.{Str}
use parallel_string_sorting.Mkqs.{swap, vecswap, Positions, char_at, char_of, partition_loop, split}
use parallel_string_sorting.Mkqs.Arrays.{
  length-swap, swap-perm, length-vecswap, vecswap-perm, get_or-vecswap, vecswap_source,
}
use parallel_string_sorting.Mkqs.Split.{char_of-swap, IsSplit, AllEqual, AllBelow, AllAbove}
use parallel_string_sorting.Mkqs.Split.Loops.{partition_loop_lem}

module _ (depth : ℕ) where
  char_of-vecswap :
      (n i j k : ℕ) (a : List Str)
      → i + n ≤ j
      → j + n ≤ length a
      → char_of depth (vecswap n i j a) k ≡ char_of depth a (vecswap_source n i j k)
  char_of-vecswap n i j k a h g = ap (char_at depth) (get_or-vecswap n i j k a h g)

  -- The three ranges: r strings below the pivot's byte, `same` with it, r' above.
  pub record Parted (n : ℕ) (orig : List Str) (p : Positions) : Type 0 where
    pub v : ℕ
    pub size : length p.a ≡ n
    pub perm : Perm p.a orig
    pub parts : (p.pb - p.pa) + (p.pa + n - p.pd - 1) + (p.pd - p.pc) ≡ n
    pub some_same : 0 < p.pa + n - p.pd - 1
    pub below : AllBelow depth v p.a 0 (p.pb - p.pa)
    pub equal : AllEqual depth v p.a (p.pb - p.pa) (n - (p.pd - p.pc))
    pub above : AllAbove depth v p.a (n - (p.pd - p.pc)) n

  module _ (v n : ℕ) (orig : List Str) (q : Positions) (s : IsSplit depth v n orig q)
      (done : q.pc < q.pb) where
    r : ℕ
    r = min q.pa (q.pb - q.pa)

    r' : ℕ
    r' = min (q.pd - q.pc) (n - q.pd - 1)

    left : List Str
    unfolding r
    left = vecswap r 0 (q.pb - r) q.a

    gathered : List Str
    unfolding left r'
    gathered = vecswap r' q.pb (n - r') left

    left_source :
        (k : ℕ) → char_of depth left k ≡ char_of depth q.a (vecswap_source r 0 (q.pb - r) k)
    unfolding left r
    left_source k =
        char_of-vecswap r 0 (q.pb - r) k q.a (omega (arith, s.left_le))
          (omega (arith, s.size, s.unread, s.right_le, s.right_lt, s.left_le))

    length-left : length left ≡ n
    unfolding left r
    length-left = length-vecswap r 0 (q.pb - r) q.a ∙ s.size

    gathered_source :
        (k : ℕ) → char_of depth gathered k ≡ char_of depth left (vecswap_source r' q.pb (n - r') k)
    unfolding gathered r'
    gathered_source k =
        let l = length-left in
        char_of-vecswap r' q.pb (n - r') k left
          (omega (arith, done, s.unread, s.right_le, s.right_lt)) (omega (arith, l))

    left-AllBelow : AllBelow depth v left 0 (q.pb - q.pa)
    unfolding r
    left-AllBelow k l u =
        let le = s.left_le in
        ground (arith, left_source k, s.below (vecswap_source r 0 (q.pb - r) k))

    left-AllEqual : AllEqual depth v left (q.pb - q.pa) q.pb
    unfolding r
    left-AllEqual k l u =
        let le = s.left_le in
        ground (arith, left_source k, s.left (vecswap_source r 0 (q.pb - r) k))

    left_rest : (k : ℕ) → q.pb ≤ k → char_of depth left k ≡ char_of depth q.a k
    unfolding r
    left_rest k l =
        let le = s.left_le in
        let e : vecswap_source r 0 (q.pb - r) k ≡ k = ground arith in
        left_source k ∙ ap (char_of depth q.a) e

    gathered-AllBelow : AllBelow depth v gathered 0 (q.pb - q.pa)
    unfolding r'
    gathered-AllBelow k l u =
        let lt = s.right_lt in
        let e : vecswap_source r' q.pb (n - r') k ≡ k = ground (arith, s.right_le, s.unread) in
        omega (arith, gathered_source k, ap (char_of depth left) e, left-AllBelow k l u)

    gathered-AllEqual : AllEqual depth v gathered (q.pb - q.pa) (n - (q.pd - q.pc))
    unfolding r'
    gathered-AllEqual k l u =
        let lt = s.right_lt in
        let le = s.right_le in
        let j = vecswap_source r' q.pb (n - r') k in
        ground (arith, s.unread, gathered_source k, left-AllEqual j, left_rest j, s.right j)

    gathered-AllAbove : AllAbove depth v gathered (n - (q.pd - q.pc)) n
    unfolding r'
    gathered-AllAbove k l u =
        let lt = s.right_lt in
        let le = s.right_le in
        let j = vecswap_source r' q.pb (n - r') k in
        ground (arith, s.unread, gathered_source k, left_rest j, s.above j)

    gathered-perm : Perm gathered orig
    unfolding gathered left r r'
    gathered-perm =
        let l = length-left in
        Perm.trans
          (vecswap-perm r' q.pb (n - r') left
            (omega (arith, l, done, s.unread, s.right_le, s.right_lt)) (omega (arith, l)))
          (Perm.trans
            (vecswap-perm r 0 (q.pb - r) q.a
              (omega (arith, s.size, s.unread, s.right_le, s.right_lt, s.left_le))
              (omega (arith, s.size, s.unread, s.right_le, s.right_lt, s.left_le)))
            s.perm)

    gathered-Parted : (parted : Parted n orig (record q { a = gathered })) × (parted.v ≡ v)
    unfolding gathered
    gathered-Parted =
        let le = s.right_le in
        let lt = s.right_lt in
        let ab = s.left_le in
        let un = s.unread in
        let pos = s.pivot in
        (
          record {
            v = v;
            size = length-vecswap r' q.pb (n - r') left ∙ length-left;
            perm = gathered-perm;
            parts = omega arith;
            some_same = omega arith;
            below = gathered-AllBelow;
            equal = gathered-AllEqual;
            above = gathered-AllAbove;
          },
          refl,
        )

  -- The byte of the pivot, which a split moves to the front.
  front_char :
      (a : List Str) (pivot : ℕ)
      → pivot < length a
      → char_of depth (swap a 0 pivot) 0 ≡ char_of depth a pivot
  front_char a pivot h =
      let same = λ (e : 0 ≡ pivot). ap (char_of depth a) e in
      ground (arith, char_of-swap depth a 0 pivot 0 (omega arith) h, same)

  -- If the type of the counts holds every number up to n, a split of n strings, for n from 1 on, keeps
  -- the strings and leaves those whose byte at the depth is below, equal to and above that of the
  -- pivot in three ranges, the second of them not empty.
  pub split-Parted :
      (count : ℕ → Option ℕ) (a : List Str) (n pivot : ℕ)
      → length a ≡ n
      → pivot < n
      → ((m : ℕ) → m ≤ n → count m ≡ some m)
      → (parted : Parted n a (split depth count a n pivot)) × (parted.v ≡ char_of depth a pivot)
  unfolding split gathered left r r'
  split-Parted count a n pivot size h exact =
      let start = swap a 0 pivot in
      let v = char_of depth start 0 in
      let first : IsSplit depth v n a
          (record { a = start; pa = 1; pb = 1; pc = n - 1; pd = n - 1 }) =
        record {
          size = length-swap a 0 pivot ∙ size;
          perm = swap-perm a 0 pivot (omega arith) (omega arith);
          pivot = omega arith;
          left_le = omega arith;
          unread = omega arith;
          right_le = omega arith;
          right_lt = omega arith;
          left = λ i l u. let e : i ≡ 0 = omega arith in rw e refl;
          below = λ i l u. absurd (omega arith);
          above = λ i l u. absurd (omega arith);
          right = λ i l u. absurd (omega arith);
        } in
      let (s, done) = partition_loop_lem depth v n a n _ first (omega arith) in
      let q =
        partition_loop depth v n n (record { a = start; pa = 1; pb = 1; pc = n - 1; pd = n - 1 }) in
      let le : q.pb ≤ n = omega (arith, s.unread, s.right_le, s.right_lt) in
      let (parted, tied) = gathered-Parted v n a q s done in
      rw
        (
          exact (min q.pa (q.pb - q.pa)) (omega arith),
          exact (min (q.pd - q.pc) (n - q.pd - 1)) (omega arith),
        )
        (parted, tied ∙ front_char a pivot (omega arith))
