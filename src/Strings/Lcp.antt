-- ===== src/Strings/Lcp.antt =====
-- Longest common prefixes along an ascending sequence: what an lcp says about the order.
use parallel_string_sorting.Prelude.{
  ℕ, zero, suc, ◌+◌, ◌≤◌, ◌<◌, [], ◌∷◌, false, leb, ◌≡◌, refl, arith, take, drop, length,
}
use parallel_string_sorting.Strings.{Str, deref, lex_le, LexLe, lcp}

pub lcp_comm : (s t : Str) → lcp s t ≡ lcp t s
unfolding lcp
lcp_comm [] [] = refl
lcp_comm [] (e ∷ t) = refl
lcp_comm (c ∷ s) [] = refl
lcp_comm (c ∷ s) (e ∷ t) = ground (arith, lcp_comm s t)

-- The strings agree up to their lcp and differ right behind it, unless they are equal.
pub lcp-take : (s t : Str) → take (lcp s t) s ≡ take (lcp s t) t
unfolding lcp
lcp-take [] [] = refl
lcp-take [] (e ∷ t) = refl
lcp-take (c ∷ s) [] = refl
lcp-take (c ∷ s) (e ∷ t) = ground (arith, lcp-take s t)

pub lcp-le-length : (s t : Str) → lcp s t ≤ length s
unfolding lcp
lcp-le-length [] t = omega arith
lcp-le-length (c ∷ s) [] = omega arith
lcp-le-length (c ∷ s) (e ∷ t) = ground (arith, lcp-le-length s t)

-- Comparing the bytes behind the common prefix decides the order.
pub lex_le-lcp :
    (s t : Str) → lex_le s t ≡ leb (deref (drop (lcp s t) s)) (deref (drop (lcp s t) t))
unfolding lex_le lcp
lex_le-lcp [] [] = refl
lex_le-lcp [] (e ∷ t) = ground arith
lex_le-lcp (c ∷ s) [] = ground arith
lex_le-lcp (c ∷ s) (e ∷ t) = ground (arith, lex_le-lcp s t)

-- With equal bytes behind the common prefix both strings end there.
pub deref-lcp :
    (s t : Str) → deref (drop (lcp s t) s) ≡ deref (drop (lcp s t) t) → deref (drop (lcp s t) s) ≡ 0
unfolding lcp
deref-lcp [] [] h = refl
deref-lcp [] (e ∷ t) h = refl
deref-lcp (c ∷ s) [] h = ground arith
deref-lcp (c ∷ s) (e ∷ t) h = ground (arith, deref-lcp s t)

-- A common prefix may be skipped.
pub lcp-drop : (h : ℕ) (s t : Str) → h ≤ lcp s t → lcp (drop h s) (drop h t) + h ≡ lcp s t
unfolding lcp
lcp-drop zero s t p = omega arith
lcp-drop (suc h) [] [] p = absurd (omega arith)
lcp-drop (suc h) [] (e ∷ t) p = absurd (omega arith)
lcp-drop (suc h) (c ∷ s) [] p = absurd (omega arith)
lcp-drop (suc h) (c ∷ s) (e ∷ t) p = ground (arith, lcp-drop h s t)

pub lex_le-drop : (h : ℕ) (s t : Str) → h ≤ lcp s t → lex_le (drop h s) (drop h t) ≡ lex_le s t
unfolding lcp lex_le
lex_le-drop zero s t p = refl
lex_le-drop (suc h) [] [] p = absurd (omega arith)
lex_le-drop (suc h) [] (e ∷ t) p = absurd (omega arith)
lex_le-drop (suc h) (c ∷ s) [] p = absurd (omega arith)
lex_le-drop (suc h) (c ∷ s) (e ∷ t) p = ground (arith, lex_le-drop h s t)

-- Two strings share with one another what both share with a third.
pub lcp_trans : (h : ℕ) (p a b : Str) → h ≤ lcp p a → h ≤ lcp p b → h ≤ lcp a b
unfolding lcp
lcp_trans zero p a b ha hb = omega arith
lcp_trans (suc h) [] a b ha hb = absurd (omega arith)
lcp_trans (suc h) (c ∷ p) [] b ha hb = absurd (omega arith)
lcp_trans (suc h) (c ∷ p) (d ∷ a) [] ha hb = absurd (omega arith)
lcp_trans (suc h) (c ∷ p) (d ∷ a) (e ∷ b) ha hb = ground (arith, lcp_trans h p a b)

-- Of two strings that follow `p`, the one that shares more with `p` comes first, and the two
-- share what the other one shares with `p`.
pub lcp-lt :
    (p a b : Str)
    → LexLe p a
    → LexLe p b
    → lcp p b < lcp p a
    → LexLe a b × (lex_le b a ≡ false) × (lcp a b ≡ lcp p b)
unfolding lcp lex_le
lcp-lt [] a b ha hb h = absurd (omega arith)
lcp-lt (c ∷ p) [] b ha hb h = absurd (omega arith)
lcp-lt (c ∷ p) (d ∷ a) [] ha hb h = ground arith
lcp-lt (c ∷ p) (d ∷ a) (e ∷ b) ha hb h = ground (arith, lcp-lt p a b)

-- Of two strings before `n`, the one that shares less with `n` comes first, and shares the same
-- with the other.
pub lcp-lt_before :
    (n a b : Str) → LexLe a n → LexLe b n → lcp b n < lcp a n → LexLe b a × (lcp b a ≡ lcp b n)
unfolding lcp lex_le
lcp-lt_before [] [] b ha hb h = absurd (omega arith)
lcp-lt_before [] (d ∷ a) b ha hb h = absurd (omega arith)
lcp-lt_before (c ∷ n) [] b ha hb h = absurd (omega arith)
lcp-lt_before (c ∷ n) (d ∷ a) [] ha hb h = ground arith
lcp-lt_before (c ∷ n) (d ∷ a) (e ∷ b) ha hb h = ground (arith, lcp-lt_before n a b)
