-- ===== src/Insertion/Zipper.antt =====
-- The array loops as insertion into the descending list of what stands before the position.
use parallel_string_sorting.Prelude.{
  suc, List, [], ◌∷◌, ◌++◌, Bool, if◌then◌else◌, ◌≡◌, refl, length, rev_append, arith,
  get_or-rev_append_add, set-rev_append_add,
}
use parallel_string_sorting.Strings.{Str}
use parallel_string_sorting.Insertion.{shift_loop, insert_loop}

module _ (leq : Str → Str → Bool) where
  unfoldable pub insert_desc : Str → List Str → List Str
  insert_desc tmp [] = tmp ∷ []
  insert_desc tmp (x ∷ p) = if leq x tmp then tmp ∷ x ∷ p else x ∷ insert_desc tmp p

  unfoldable pub insert_all : List Str → List Str → List Str
  insert_all [] p = p
  insert_all (x ∷ q) p = insert_all q (insert_desc x p)

  shift_loop_lem :
      (tmp y : Str) (p q : List Str)
      → shift_loop leq (length p) tmp (rev_append p (y ∷ q)) ≡ rev_append (insert_desc tmp p) q
  unfolding shift_loop insert_desc
  shift_loop_lem tmp y [] q = refl
  shift_loop_lem tmp y (x ∷ p) q = ground (
    arith,
    get_or-rev_append_add p (x ∷ y ∷ q) 0 (length p) [] (omega arith),
    set-rev_append_add p (x ∷ y ∷ q) 1 (suc (length p)) tmp (omega arith),
    set-rev_append_add p (x ∷ y ∷ q) 1 (suc (length p)) x (omega arith),
    shift_loop_lem tmp x p (x ∷ q),
  )

  length-insert_desc : (tmp : Str) (p : List Str) → length (insert_desc tmp p) ≡ suc (length p)
  unfolding insert_desc
  length-insert_desc tmp [] = refl
  length-insert_desc tmp (x ∷ p) = ground (arith, length-insert_desc tmp p)

  pub insert_loop_lem :
      (q p r : List Str)
      → insert_loop leq (length q) (length p) (rev_append p (q ++ r))
        ≡ rev_append (insert_all q p) r
  unfolding insert_loop insert_all
  insert_loop_lem [] p r = refl
  insert_loop_lem (x ∷ q) p r = ground (
    arith,
    get_or-rev_append_add p (x ∷ (q ++ r)) 0 (length p) [] (omega arith),
    shift_loop_lem x x p (q ++ r),
    length-insert_desc x p,
    insert_loop_lem q (insert_desc x p) r,
  )
