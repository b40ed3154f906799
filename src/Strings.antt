-- ===== src/Strings.antt =====
-- Zero-terminated byte strings and the specification that the sorters are measured against:
-- the lexicographic order and the longest common prefix. The code compares through pointers
-- (src/tools/stringtools.hpp); a pointer that only moves forward is the suffix that is left.
pub mod Order
pub mod Lcp
pub mod Scan
pub mod Scmp
use parallel_string_sorting.Prelude.{
  ℕ, zero, suc, List, [], ◌∷◌, Bool, true, ltb, ◌==◌, if◌then◌else◌, ◌≡◌, map, ◌-◌,
}

-- `unsigned char*`: the bytes before the terminator. No byte of a string is zero, so the entry c
-- stands for the byte c + 1.
abbrev pub Str : Type 0
Str = List ℕ

-- `*s`: the byte that is pointed at; the terminator is 0.
abbrev pub deref : Str → ℕ
deref [] = 0
deref (c ∷ s) = suc c

-- A string from the bytes that the source would write.
abbrev pub of_bytes : List ℕ → Str
of_bytes = map (λ b. b - 1)

-- The lexicographic order, by comparing first bytes and going on to the rest.
unfoldable pub lex_le : Str → Str → Bool
lex_le [] t = true
lex_le (c ∷ s) [] = Bool.false
lex_le (c ∷ s) (e ∷ t) = if c == e then lex_le s t else ltb c e

abbrev pub LexLe : Str → Str → Type 0
LexLe s t = lex_le s t ≡ true

-- The length of the longest common prefix.
unfoldable pub lcp : Str → Str → ℕ
lcp (c ∷ s) (e ∷ t) = if c == e then suc (lcp s t) else 0
lcp _ _ = 0
