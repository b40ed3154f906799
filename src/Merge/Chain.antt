-- ===== src/Merge/Chain.antt =====
-- Ascending sequences with the right lcps.
use parallel_string_sorting.Prelude.{ℕ, List, [], ◌∷◌, ◌≡◌, refl, take, length, All, IsSorted, ap}
use parallel_string_sorting.Strings.{Str, LexLe, lcp}
use parallel_string_sorting.Strings.Order.{LexLe-trans, LexLe-refl}

-- After the string `p` the strings ascend, and each lcp is that with the string before.
abbrev pub LcpChain : Str → List Str → List ℕ → Type 0
LcpChain p [] [] = Unit
LcpChain p [] (h ∷ hs) = ⊥
LcpChain p (s ∷ ss) [] = ⊥
LcpChain p (s ∷ ss) (h ∷ hs) = LexLe p s × (h ≡ lcp p s) × LcpChain s ss hs

pub LcpChain-take :
    (p : Str) (ss : List Str) (hs : List ℕ) → LcpChain p ss hs → take (length ss) hs ≡ hs
LcpChain-take p [] [] c = refl
LcpChain-take p [] (h ∷ hs) c = absurd c
LcpChain-take p (s ∷ ss) [] c = absurd c
LcpChain-take p (s ∷ ss) (h ∷ hs) c = ap (◌∷◌ h) (LcpChain-take s ss hs c.2)

LcpChain-All :
    (p q : Str) (ss : List Str) (hs : List ℕ) → LexLe p q → LcpChain q ss hs → All (LexLe p) ss
LcpChain-All p q [] hs l c = tt
LcpChain-All p q (s ∷ ss) [] l c = absurd c
LcpChain-All p q (s ∷ ss) (h ∷ hs) l c =
    let m = LexLe-trans p q s l c.0 in (m, LcpChain-All p s ss hs m c.2)

pub LcpChain-IsSorted :
    (p : Str) (ss : List Str) (hs : List ℕ) → LcpChain p ss hs → IsSorted LexLe ss
LcpChain-IsSorted p [] hs c = tt
LcpChain-IsSorted p (s ∷ ss) [] c = absurd c
LcpChain-IsSorted p (s ∷ ss) (h ∷ hs) c =
    (LcpChain-All s s ss hs (LexLe-refl s) c.2, LcpChain-IsSorted s ss hs c.2)
