-- ===== src/Mkqs/Split.antt =====
-- The partition: strings with the pivot's byte at both ends, smaller ones behind the left end, larger
-- ones in front of the right end, and the unread ones between.
pub mod Loops
use mathlib.Core.List.Perm
use parallel_string_sorting.Prelude.{
  ℕ, zero, suc, ◌+◌, ◌-◌, ◌≤◌, ◌<◌, List, [], ◌∷◌, Bool, true, false, ◌==◌, ltb, leb, if◌then◌else◌,
  get_or, length, Perm, ◌≡◌, refl, ap, ◌∙◌, ◌⊎◌, inl, inr, arith, ◌&&◌, Bool-cases,
}
use parallel_string_sorting.Strings.{Str, deref}
use parallel_string_sorting.Mkqs.{
  swap, vecswap, Positions, char_at, char_of, up_loop, down_loop, partition_loop,
}
use parallel_string_sorting.Mkqs.Arrays.{length-swap, get_or-swap, swap-perm}

module _ (depth : ℕ) where
  char_of-if :
      (a : List Str) (b : Bool) (x y : Str)
      → char_at depth (if b then x else y) ≡ (if b then char_at depth x else char_at depth y)
  char_of-if a true x y = refl
  char_of-if a false x y = refl

  pub char_of-swap :
      (a : List Str) (i j k : ℕ)
      → i < length a
      → j < length a
      → char_of depth (swap a i j) k ≡ (
          if k == j
          then char_of depth a i
          else if k == i
          then char_of depth a j
          else char_of depth a k)
  char_of-swap a i j k h g =
      ap (char_at depth) (get_or-swap a i j k h g)
      ∙ (char_of-if a (k == j) _ _
          ∙ ap (λ (c : ℕ). if k == j then char_of depth a i else c) (char_of-if a (k == i) _ _))

  -- Ranges of an array by the bytes at the depth.
  module _ (v : ℕ) where
    abbrev pub AllEqual : List Str → ℕ → ℕ → Type 0
    AllEqual a lo hi = (i : ℕ) → lo ≤ i → i < hi → char_of depth a i ≡ v

    abbrev pub AllBelow : List Str → ℕ → ℕ → Type 0
    AllBelow a lo hi = (i : ℕ) → lo ≤ i → i < hi → char_of depth a i < v

    abbrev pub AllAbove : List Str → ℕ → ℕ → Type 0
    AllAbove a lo hi = (i : ℕ) → lo ≤ i → i < hi → v < char_of depth a i

    pub record IsSplit (n : ℕ) (orig : List Str) (p : Positions) : Type 0 where
      pub size : length p.a ≡ n
      pub perm : Perm p.a orig
      pub pivot : 1 ≤ p.pa
      pub left_le : p.pa ≤ p.pb
      pub unread : p.pb ≤ p.pc + 1
      pub right_le : p.pc ≤ p.pd
      pub right_lt : p.pd < n
      pub left : AllEqual p.a 0 p.pa
      pub below : AllBelow p.a p.pa p.pb
      pub above : AllAbove p.a (p.pc + 1) (p.pd + 1)
      pub right : AllEqual p.a (p.pd + 1) n

    module _ (n : ℕ) (orig : List Str) (p : Positions) (s : IsSplit n orig p)
        (read : p.pb ≤ p.pc) where
      up_equal :
          char_of depth p.a p.pb ≡ v
          → IsSplit n orig (record p { a = swap p.a p.pa p.pb; pa = p.pa + 1; pb = p.pb + 1 })
      up_equal e =
          let h : p.pa < length p.a = omega (arith, s.size, s.left_le, s.right_le, s.right_lt) in
          let g : p.pb < length p.a = omega (arith, s.size, s.right_le, s.right_lt) in
          let le = s.left_le in
          record {
            size = length-swap p.a p.pa p.pb ∙ s.size;
            perm = Perm.trans (swap-perm p.a p.pa p.pb h g) s.perm;
            pivot = omega arith;
            left_le = omega arith;
            unread = omega arith;
            right_le = s.right_le;
            right_lt = s.right_lt;
            left = λ i l u. ground (arith, char_of-swap p.a p.pa p.pb i h g, s.left i);
            below =
                λ i l u. ground (arith, char_of-swap p.a p.pa p.pb i h g, s.below i, s.below p.pa);
            above = λ i l u. ground (arith, char_of-swap p.a p.pa p.pb i h g, s.above i);
            right =
                λ i l u. ground (arith, char_of-swap p.a p.pa p.pb i h g, s.right i, s.right_le);
          }

      up_below : char_of depth p.a p.pb < v → IsSplit n orig (record p { pb = p.pb + 1 })
      up_below e = record {
        size = s.size;
        perm = s.perm;
        pivot = s.pivot;
        left_le = omega (arith, s.left_le);
        unread = omega arith;
        right_le = s.right_le;
        right_lt = s.right_lt;
        left = s.left;
        below = λ i l u. ground (arith, s.below i);
        above = s.above;
        right = s.right;
      }

      down_equal :
          char_of depth p.a p.pc ≡ v
          → IsSplit n orig (record p { a = swap p.a p.pc p.pd; pc = p.pc - 1; pd = p.pd - 1 })
      down_equal e =
          let h : p.pc < length p.a = omega (arith, s.size, s.right_le, s.right_lt) in
          let g : p.pd < length p.a = omega (arith, s.size, s.right_lt) in
          let le = s.left_le in
          let pos = s.pivot in
          let ri = s.right_le in
          record {
            size = length-swap p.a p.pc p.pd ∙ s.size;
            perm = Perm.trans (swap-perm p.a p.pc p.pd h g) s.perm;
            pivot = s.pivot;
            left_le = s.left_le;
            unread = omega arith;
            right_le = omega arith;
            right_lt = omega (arith, s.right_lt);
            left = λ i l u. ground (arith, char_of-swap p.a p.pc p.pd i h g, s.left i);
            below = λ i l u. ground (arith, char_of-swap p.a p.pc p.pd i h g, s.below i);
            above =
                λ i l u. ground (arith, char_of-swap p.a p.pc p.pd i h g, s.above i, s.above p.pd);
            right = λ i l u. ground (arith, char_of-swap p.a p.pc p.pd i h g, s.right i);
          }

      down_above : v < char_of depth p.a p.pc → IsSplit n orig (record p { pc = p.pc - 1 })
      down_above e =
          let le = s.left_le in
          let pos = s.pivot in
          record {
            size = s.size;
            perm = s.perm;
            pivot = s.pivot;
            left_le = s.left_le;
            unread = omega arith;
            right_le = omega (arith, s.right_le);
            right_lt = s.right_lt;
            left = s.left;
            below = s.below;
            above = λ i l u. ground (arith, s.above i);
            right = s.right;
          }

      cross :
          v < char_of depth p.a p.pb
          → char_of depth p.a p.pc < v
          → IsSplit n orig (record p { a = swap p.a p.pb p.pc; pb = p.pb + 1; pc = p.pc - 1 })
      cross e f =
          let h : p.pb < length p.a = omega (arith, s.size, s.right_le, s.right_lt) in
          let g : p.pc < length p.a = omega (arith, s.size, s.right_le, s.right_lt) in
          let le = s.left_le in
          let pos = s.pivot in
          let ri = s.right_le in
          let apart : p.pb < p.pc = ground arith in
          record {
            size = length-swap p.a p.pb p.pc ∙ s.size;
            perm = Perm.trans (swap-perm p.a p.pb p.pc h g) s.perm;
            pivot = s.pivot;
            left_le = omega arith;
            unread = omega arith;
            right_le = omega arith;
            right_lt = s.right_lt;
            left = λ i l u. ground (arith, char_of-swap p.a p.pb p.pc i h g, s.left i);
            below = λ i l u. ground (arith, char_of-swap p.a p.pb p.pc i h g, s.below i);
            above = λ i l u. ground (arith, char_of-swap p.a p.pb p.pc i h g, s.above i);
            right = λ i l u. ground (arith, char_of-swap p.a p.pb p.pc i h g, s.right i);
          }
