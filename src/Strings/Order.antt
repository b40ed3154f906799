-- ===== src/Strings/Order.antt =====
-- The lexicographic order is a total order.
use parallel_string_sorting.Prelude.{[], ◌∷◌, Bool, ◌≡◌, refl, arith, ◌⊎◌, inl, inr}
use parallel_string_sorting.Strings.{Str, lex_le, LexLe}

pub LexLe-refl : (s : Str) → LexLe s s
unfolding lex_le
LexLe-refl [] = refl
LexLe-refl (c ∷ s) = ground (arith, LexLe-refl s)

pub LexLe-trans : (s t u : Str) → LexLe s t → LexLe t u → LexLe s u
unfolding lex_le
LexLe-trans [] t u h k = refl
LexLe-trans (c ∷ s) [] u h k = ground arith
LexLe-trans (c ∷ s) (e ∷ t) [] h k = ground arith
LexLe-trans (c ∷ s) (e ∷ t) (f ∷ u) h k = ground (arith, LexLe-trans s t u)

pub LexLe-antisymm : (s t : Str) → LexLe s t → LexLe t s → s ≡ t
unfolding lex_le
LexLe-antisymm [] [] h k = refl
LexLe-antisymm [] (e ∷ t) h k = ground arith
LexLe-antisymm (c ∷ s) [] h k = ground arith
LexLe-antisymm (c ∷ s) (e ∷ t) h k = ground (arith, LexLe-antisymm s t)

pub LexLe-total : (s t : Str) → LexLe s t ⊎ LexLe t s
unfolding lex_le
LexLe-total [] t = inl refl
LexLe-total (c ∷ s) [] = inr refl
LexLe-total (c ∷ s) (e ∷ t) = ground (arith, LexLe-total s t)

-- The failure of the test is the order the other way round.
pub LexLe-of_not : (s t : Str) → lex_le s t ≡ Bool.false → LexLe t s
unfolding lex_le
LexLe-of_not [] t h = ground arith
LexLe-of_not (c ∷ s) [] h = refl
LexLe-of_not (c ∷ s) (e ∷ t) h = ground (arith, LexLe-of_not s t)
