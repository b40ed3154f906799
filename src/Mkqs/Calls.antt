-- ===== src/Mkqs/Calls.antt =====
-- The recursive calls behind a split, on its three ranges, sort the array.
use mathlib.Core.List.{append-nil, append_assoc}
use mathlib.Core.List.Perm
use parallel_string_sorting.Prelude.{
  ℕ, suc, ◌+◌, ◌-◌, ◌≤◌, ◌<◌, Option, some, List, [], ◌++◌, Bool, true, false, not, ◌==◌, leb,
  if◌then◌else◌, length, take, drop, take-append-drop, length-take, length-drop, length-append,
  length-perm, All, ◌≡◌, ◌≢◌, refl, sym, ap, ◌∙◌, arith, Bool-cases, ==_iff, leb→le, ◌⊎◌, inl, inr,
  get_or-append,
}
use parallel_string_sorting.Strings.{Str}
use parallel_string_sorting.Insertion.Laws.{IsSortOf}
use parallel_string_sorting.Mkqs.{Positions, char_at, char_of, on_range, sort_parts}
use parallel_string_sorting.Mkqs.Ranges.{Parted}
use parallel_string_sorting.Mkqs.Order.{
  All-of_get, get_or-take, get_or-drop, remaining, remaining-append, remaining-perm, remaining-suc,
  length-le-remaining,
}
use parallel_string_sorting.Mkqs.Parts.{
  parts-IsSortOf, short-IsSortOf, deeper-IsSortOf, ended-IsSortOf, on_range-append,
}

-- The strings of the three ranges.
abbrev lows : Positions → List Str
lows p = take (p.pb - p.pa) p.a

abbrev uppers : Positions → List Str
uppers p = drop (p.pb - p.pa) p.a

abbrev sames : ℕ → Positions → List Str
sames n p = take (p.pa + n - p.pd - 1) (uppers p)

abbrev highs : ℕ → Positions → List Str
highs n p = drop (p.pa + n - p.pd - 1) (uppers p)

module _ (d n : ℕ) (orig : List Str) (p : Positions) (h : Parted d n orig p) where
  abbrev r : ℕ
  r = p.pb - p.pa

  abbrev same : ℕ
  same = p.pa + n - p.pd - 1

  abbrev r' : ℕ
  r' = p.pd - p.pc

  lengths : (length (lows p) ≡ r) × (length (sames n p) ≡ same) × (length (highs n p) ≡ r')
  lengths =
      let a = length-take r p.a in
      let b = length-drop r p.a in
      let c = length-take same (uppers p) in
      let e = length-drop same (uppers p) in
      (
        omega (arith, h.parts, h.size),
        omega (arith, h.parts, h.size),
        omega (arith, h.parts, h.size),
      )

  whole : lows p ++ (sames n p ++ highs n p) ≡ p.a
  whole = rw (take-append-drop same (uppers p)) (take-append-drop r p.a)

  lows-All : All (λ s. char_at d s < h.v) (lows p)
  lows-All = All-of_get _ [] (lows p) (λ i l.
      let lt : i < r = omega (arith, lengths.0) in
      rw (get_or-take r p.a i [] lt) (h.below i (omega arith) lt))

  sames-All : All (λ s. char_at d s ≡ h.v) (sames n p)
  sames-All = All-of_get _ [] (sames n p) (λ i l.
      let lt : i < same = omega (arith, lengths.1) in
      rw (get_or-take same (uppers p) i [] lt, get_or-drop r p.a i (r + i) [] refl)
        (h.equal (r + i) (omega arith) (omega (arith, h.parts))))

  highs-All : All (λ s. h.v < char_at d s) (highs n p)
  highs-All = All-of_get _ [] (highs n p) (λ i l.
      let lt : i < r' = omega (arith, lengths.2) in
      rw
        (
          get_or-drop same (uppers p) i (same + i) [] refl,
          get_or-drop r p.a (same + i) (r + (same + i)) [] refl,
        )
        (h.above (r + (same + i)) (omega (arith, h.parts)) (omega (arith, h.parts))))

  -- The byte that is tested before the middle range is sorted.
  middle_char : (low' : List Str) → length low' ≡ r → char_of d (low' ++ uppers p) r ≡ h.v
  middle_char low' e =
      let some = h.some_same in
      ap (char_at d) (
        get_or-append low' (uppers p) 0 r [] (omega arith) ∙ get_or-drop r p.a 0 r [] (omega arith))
      ∙ h.equal r (omega arith) (omega (arith, h.parts))

  remaining_parts :
      remaining d (lows p) + remaining d (sames n p) + remaining d (highs n p) ≡ remaining d orig
  remaining_parts = omega (
    arith,
    remaining-append d (lows p) (sames n p ++ highs n p),
    remaining-append d (sames n p) (highs n p),
    ap (remaining d) whole,
    remaining-perm d h.perm,
  )

-- What the recursive call has to do for a range of a size that fits, with enough fuel.
abbrev pub Sorts : (ℕ → Type 0) → (List Str → ℕ → ℕ → List Str) → ℕ → Type 0
Sorts Fits sort fuel =
    (x : List Str) (n d : ℕ)
    → length x ≡ n
    → remaining d x ≤ fuel
    → Fits n
    → IsSortOf d x (sort x n d)

-- The sizes of the ranges for which a call with n strings makes recursive calls.
abbrev pub Inherits : (ℕ → Type 0) → ℕ → Type 0
Inherits Fits least = (n m : ℕ) → Fits n → m ≤ n → (least ≤ m) ⊎ (0 < m) → Fits m

range_if :
    (b : Bool) (lo len : ℕ) (f : List Str → List Str) (a xs ys zs : List Str)
    → a ≡ xs ++ (ys ++ zs)
    → length xs ≡ lo
    → length ys ≡ len
    → (if b then on_range lo len f a else a) ≡ xs ++ ((if b then f ys else ys) ++ zs)
range_if true lo len f a xs ys zs e g k = rw e (on_range-append lo len f xs ys zs g k)
range_if false lo len f a xs ys zs e g k = e

module _ (count : ℕ → Option ℕ) (Fits : ℕ → Type 0) (sort : List Str → ℕ → ℕ → List Str) (fuel : ℕ)
    (ok : Sorts Fits sort fuel) (least : ℕ) (small : least ≤ 2)
    (inherits : Inherits Fits least) where
  -- A range that is sorted if it has `least` strings.
  if_long-IsSortOf :
      (x : List Str) (n d : ℕ)
      → length x ≡ n
      → remaining d x ≤ fuel
      → (least ≤ n → Fits n)
      → IsSortOf d x (if leb least n then sort x n d else x)
  if_long-IsSortOf x n d e f fits = elim (Bool-cases (leb least n)) [
    | inl long ↦ rw long (ok x n d e f (fits (leb→le least n long)))
    | inr short ↦ rw short (short-IsSortOf d x (ground arith))
  ]

  module _ (d n : ℕ) (orig : List Str) (p : Positions) (h : Parted d n orig p)
      (enough : remaining d orig ≤ suc fuel) (fits : Fits n)
      (exact : (m : ℕ) → m ≤ n → count m ≡ some m) where
    low' : List Str
    low' = if leb least (p.pb - p.pa) then sort (lows p) (p.pb - p.pa) d else lows p

    mid' : List Str
    mid' = if not (h.v == 0) then sort (sames n p) (p.pa + n - p.pd - 1) (d + 1) else sames n p

    high' : List Str
    high' = if leb least (p.pd - p.pc) then sort (highs n p) (p.pd - p.pc) d else highs n p

    fuel_parts :
        (remaining d (lows p) ≤ fuel)
        × (remaining d (highs n p) ≤ fuel)
        × (h.v ≢ 0 → remaining (d + 1) (sames n p) ≤ fuel)
    fuel_parts =
        let (a, b, c) = lengths d n orig p h in
        let t = remaining_parts d n orig p h in
        let some = h.some_same in
        let one = length-le-remaining d (sames n p) in
        let e : d + 1 ≡ suc d = omega arith in
        (
          omega arith,
          omega arith,
          λ v. rw e (omega (arith, remaining-suc d h.v (sames n p) v (sames-All d n orig p h))),
        )

    low-IsSortOf : IsSortOf d (lows p) low'
    unfolding low'
    low-IsSortOf =
        if_long-IsSortOf (lows p) _ d (lengths d n orig p h).0 fuel_parts.0
          (λ l. inherits n _ fits (omega (arith, h.parts)) (inl l))

    high-IsSortOf : IsSortOf d (highs n p) high'
    unfolding high'
    high-IsSortOf =
        if_long-IsSortOf (highs n p) _ d (lengths d n orig p h).2 fuel_parts.1
          (λ l. inherits n _ fits (omega (arith, h.parts)) (inl l))

    mid-IsSortOf : IsSortOf d (sames n p) mid'
    unfolding mid'
    mid-IsSortOf =
        let all = sames-All d n orig p h in
        elim (Bool-cases (h.v == 0)) [
          | inl z ↦ rw z (ended-IsSortOf d (sames n p) (rw ((==_iff h.v 0).0 z) at all))
          | inr nz ↦
              let v : h.v ≢ 0 = λ e. ground (arith, e) in
              let e : suc d ≡ d + 1 = omega arith in
              rw nz (
                deeper-IsSortOf d h.v (sames n p) _ all (
                  rw e (
                    ok (sames n p) _ (d + 1) (lengths d n orig p h).1 (fuel_parts.2 v)
                      (inherits n _ fits (omega (arith, h.parts)) (inr h.some_same)))))
        ]

    sort_parts-eq : sort_parts count sort least p n d ≡ low' ++ (mid' ++ high')
    unfolding sort_parts low' mid' high'
    sort_parts-eq =
        let k = p.pb - p.pa in
        let m = p.pa + n - p.pd - 1 in
        let (a, b, c) = lengths d n orig p h in
        let low = if leb least k then on_range 0 k (λ x. sort x k d) p.a else p.a in
        let low_eq : low ≡ low' ++ uppers p =
          range_if (leb least k) 0 k (λ x. sort x k d) p.a [] (lows p) (uppers p)
            (sym (take-append-drop k p.a)) refl a in
        let size_low : length low' ≡ k = length-perm low-IsSortOf.1 ∙ a in
        let byte : char_of d low k ≡ h.v =
          ap (λ (x : List Str). char_of d x k) low_eq ∙ middle_char d n orig p h low' size_low in
        let low_split : low ≡ low' ++ (sames n p ++ highs n p) =
          low_eq ∙ ap (◌++◌ low') (sym (take-append-drop m (uppers p))) in
        let mid = if not (h.v == 0) then on_range k m (λ x. sort x m (d + 1)) low else low in
        let mid_eq : mid ≡ low' ++ (mid' ++ highs n p) =
          range_if (not (h.v == 0)) k m (λ x. sort x m (d + 1)) low low' (sames n p) (highs n p)
            low_split size_low b in
        let mid_split : mid ≡ (low' ++ mid') ++ (highs n p ++ []) =
          mid_eq ∙ rw (append-nil, append_assoc) refl in
        let size_mid : length (low' ++ mid') ≡ n - (p.pd - p.pc) =
          omega
            (arith, length-append low' mid', size_low, length-perm mid-IsSortOf.1, b, h.parts) in
        let joined : (low' ++ mid') ++ (high' ++ []) ≡ low' ++ (mid' ++ high') =
          rw (append-nil, append_assoc) refl in
        rw
          (
            exact (p.pb - p.pa) (omega (arith, h.parts)),
            exact (p.pd - p.pc) (omega (arith, h.parts)),
            byte,
          )
          (range_if (leb least (p.pd - p.pc)) (n - (p.pd - p.pc)) (p.pd - p.pc)
              (λ x. sort x (p.pd - p.pc) d) mid (low' ++ mid') (highs n p) [] mid_split size_mid c
            ∙ joined)

    -- The recursive calls behind a split sort the array.
    pub sort_parts-IsSortOf : IsSortOf d orig (sort_parts count sort least p n d)
    sort_parts-IsSortOf =
        let (s, e) =
          parts-IsSortOf d h.v (lows p) (sames n p) (highs n p) low' mid' high'
            (lows-All d n orig p h) (sames-All d n orig p h) (highs-All d n orig p h) low-IsSortOf
            mid-IsSortOf high-IsSortOf in
        rw sort_parts-eq (s, Perm.trans (rw (whole d n orig p h) at e) h.perm)
