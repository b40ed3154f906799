-- ===== src/Keys/Pack.antt =====
-- The number that the first n bytes of a string are in base 256, and how it orders strings.
use parallel_string_sorting.Prelude.{
  ℕ, zero, suc, ◌+◌, ◌*◌, ◌<◌, ◌≤◌, [], ◌∷◌, drop, All, ◌≡◌, refl, ◌⊎◌, inl, inr, arith,
}
use parallel_string_sorting.Strings.{Str, deref, lcp, lex_le, LexLe}

abbrev pub IsBytes : Str → Type 0
IsBytes = All (λ c. c < 255)

-- 256^n
abbrev pub pow256 : ℕ → ℕ
pow256 zero = 1
pow256 (suc n) = pow256 n * 256

-- A string that has ended goes on with zeros.
abbrev pub pack : ℕ → Str → ℕ
pack zero s = 0
pack (suc n) s = deref s * pow256 n + pack n (drop 1 s)

pub pack-nil : (n : ℕ) → pack n [] ≡ 0
pack-nil zero = refl
pack-nil (suc n) = omega (arith, pack-nil n)

pub mul-le : (p a b : ℕ) → a ≤ b → a * p ≤ b * p
mul-le p a b h = grind arith

pub mul-lt : (p a b : ℕ) → a < b → a * p + p ≤ b * p
mul-lt p a b h = omega (arith, mul-le p (suc a) b h, suc-mul p a)
  where
    suc-mul : (p a : ℕ) → suc a * p ≡ a * p + p
    suc-mul p a = grind arith

pub pow256-pos : (n : ℕ) → 0 < pow256 n
pow256-pos zero = omega arith
pow256-pos (suc n) = omega (arith, pow256-pos n)

pub pack-lt : (n : ℕ) (s : Str) → IsBytes s → pack n s < pow256 n
pack-lt zero s b = omega arith
pack-lt (suc n) [] b = omega (arith, pack-nil n, pow256-pos n)
pack-lt (suc n) (c ∷ s) b = omega (
  arith,
  pack-lt n s b.1,
  mul-le (pow256 n) (suc (suc c)) 256 (omega arith),
  mul-lt (pow256 n) (suc c) (suc (suc c)) (omega arith),
)

-- Numbers of two digits in base p are ordered by the first one, then by the second one.
digits-lt : (p a b x y : ℕ) → x < p → y < p → a * p + x < b * p + y → a ≤ b
digits-lt p a b x y hx hy h = ground (arith, mul-lt p b a)

digits-eq : (p a b x y : ℕ) → x < p → y < p → a * p + x ≡ b * p + y → (a ≡ b) × (x ≡ y)
digits-eq p a b x y hx hy h = ground (arith, mul-lt p b a, mul-lt p a b)

-- The smaller number belongs to the smaller string.
pub pack-LexLe : (n : ℕ) (s t : Str) → IsBytes s → IsBytes t → pack n s < pack n t → LexLe s t
unfolding lex_le
pack-LexLe zero s t bs bt h = absurd (omega arith)
pack-LexLe (suc n) [] t bs bt h = refl
pack-LexLe (suc n) (c ∷ s) [] bs bt h =
    absurd (omega (arith, pack-nil n, mul-lt (pow256 n) 0 (suc c) (omega arith), pow256-pos n))
pack-LexLe (suc n) (c ∷ s) (e ∷ t) bs bt h = ground (
  arith,
  digits-lt (pow256 n) (suc c) (suc e) (pack n s) (pack n t) (pack-lt n s bs.1) (pack-lt n t bt.1)
      h,
  pack-LexLe n s t bs.1 bt.1,
  mul-lt (pow256 n) (suc c) (suc e),
)

-- Strings with the same number are equal, or they share n bytes.
pub pack-eq :
    (n : ℕ) (s t : Str) → IsBytes s → IsBytes t → pack n s ≡ pack n t → (s ≡ t) ⊎ (n ≤ lcp s t)
unfolding lcp
pack-eq zero s t bs bt h = inr (omega arith)
pack-eq (suc n) [] [] bs bt h = inl refl
pack-eq (suc n) [] (e ∷ t) bs bt h =
    absurd (omega (arith, pack-nil n, mul-lt (pow256 n) 0 (suc e) (omega arith), pow256-pos n))
pack-eq (suc n) (c ∷ s) [] bs bt h =
    absurd (omega (arith, pack-nil n, mul-lt (pow256 n) 0 (suc c) (omega arith), pow256-pos n))
pack-eq (suc n) (c ∷ s) (e ∷ t) bs bt h =
    let (first, rest) =
      digits-eq (pow256 n) (suc c) (suc e) (pack n s) (pack n t) (pack-lt n s bs.1)
        (pack-lt n t bt.1) h in
    let same : c ≡ e = omega arith in ground (arith, same, pack-eq n s t bs.1 bt.1 rest)
