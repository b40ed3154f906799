-- ===== src/Mkqs/Order.antt =====
-- Lists by their entries, and the order of the strings behind a depth by their bytes there.
use native.Mathlib.Nat.{ℕ_set}
use mathlib.Core.Logic.{∥∥₁_elim}
use mathlib.Core.List.{Permᴰ}
use parallel_string_sorting.Prelude.{
  ℕ, zero, suc, ◌+◌, ◌≤◌, ◌<◌, List, [], ◌∷◌, ◌++◌, get_or, length, take, drop, All, All-append,
  IsSorted, Perm, ◌≡◌, ◌≢◌, refl, ap, ◌∙◌, arith,
}
use parallel_string_sorting.Strings.{Str, deref, lex_le, LexLe}
use parallel_string_sorting.Insertion.Laws.{SuffixLe}
use parallel_string_sorting.Mkqs.{char_at}

module _ {ℓ κ} {A : Type ℓ} where
  pub All-of_get :
      (P : A → Type κ) (d : A) (xs : List A)
      → ((i : ℕ) → i < length xs → P (get_or xs i d))
      → All P xs
  All-of_get P d [] h = tt
  All-of_get P d (x ∷ xs) h =
      (h 0 (omega arith), All-of_get P d xs (λ i l. h (suc i) (omega arith)))

  -- Two sorted lists, all of the first before all of the second.
  pub IsSorted-append :
      (R : A → A → Type κ) (xs ys : List A)
      → IsSorted R xs
      → IsSorted R ys
      → All (λ x. All (R x) ys) xs
      → IsSorted R (xs ++ ys)
  IsSorted-append R [] ys sx sy c = sy
  IsSorted-append R (x ∷ xs) ys sx sy c =
      (All-append (R x) xs ys sx.0 c.0, IsSorted-append R xs ys sx.1 sy c.1)

  pub All-cross :
      (R : A → A → Type κ) (P Q : A → Type 0) (xs ys : List A)
      → ((x y : A) → P x → Q y → R x y)
      → All P xs
      → All Q ys
      → All (λ x. All (R x) ys) xs
  All-cross R P Q [] ys f p q = tt
  All-cross R P Q (x ∷ xs) ys f p q = (below ys q, All-cross R P Q xs ys f p.1 q)
    where
      below : (ys : List A) → All Q ys → All (R x) ys
      below [] q = tt
      below (y ∷ ys) q = (f x y p.0 q.0, below ys q.1)

pub get_or-take {ℓ} :
    {A : Type ℓ} (n : ℕ) (xs : List A) (i : ℕ) (d : A)
    → i < n
    → get_or (take n xs) i d ≡ get_or xs i d
get_or-take zero xs i d h = absurd (omega arith)
get_or-take (suc n) [] i d h = refl
get_or-take (suc n) (x ∷ xs) zero d h = refl
get_or-take (suc n) (x ∷ xs) (suc i) d h = get_or-take n xs i d (omega arith)

pub get_or-drop {ℓ} :
    {A : Type ℓ} (n : ℕ) (xs : List A) (i j : ℕ) (d : A)
    → n + i ≡ j
    → get_or (drop n xs) i d ≡ get_or xs j d
get_or-drop zero xs i j d e = let e' : i ≡ j = omega arith in rw e' refl
get_or-drop (suc n) [] i j d e = refl
get_or-drop (suc n) (x ∷ xs) i zero d e = absurd (omega arith)
get_or-drop (suc n) (x ∷ xs) i (suc j) d e = get_or-drop n xs i j d (omega arith)

pub drop-suc : (d : ℕ) (s : Str) → drop (suc d) s ≡ drop 1 (drop d s)
drop-suc zero s = refl
drop-suc (suc d) [] = refl
drop-suc (suc d) (c ∷ s) = drop-suc d s

bytes_nil : (t : Str) → LexLe [] t
unfolding lex_le
bytes_nil t = refl

bytes_lt : (s t : Str) → deref s < deref t → LexLe s t
unfolding lex_le
bytes_lt [] t h = refl
bytes_lt (c ∷ s) [] h = absurd (omega arith)
bytes_lt (c ∷ s) (e ∷ t) h = ground arith

bytes_eq : (s t : Str) → deref s ≡ deref t → LexLe (drop 1 s) (drop 1 t) → LexLe s t
unfolding lex_le
bytes_eq [] t e h = refl
bytes_eq (c ∷ s) [] e h = absurd (omega arith)
bytes_eq (c ∷ s) (d ∷ t) e h = ground arith

-- A smaller byte at the depth comes first.
pub SuffixLe-of_lt : (d : ℕ) (s t : Str) → char_at d s < char_at d t → SuffixLe d s t
SuffixLe-of_lt d s t h = bytes_lt (drop d s) (drop d t) h

-- Strings with the same byte at the depth are in the order of what is behind.
pub SuffixLe-suc :
    (d : ℕ) (s t : Str) → char_at d s ≡ char_at d t → SuffixLe (suc d) s t → SuffixLe d s t
SuffixLe-suc d s t e h = bytes_eq (drop d s) (drop d t) e (rw (← drop-suc d s, ← drop-suc d t) h)

-- Strings that end in front of the depth are equal from there on.
pub SuffixLe-ended : (d : ℕ) (s t : Str) → char_at d s ≡ 0 → SuffixLe d s t
SuffixLe-ended d s t e = ended (drop d s) (drop d t) e
  where
    ended : (s t : Str) → deref s ≡ 0 → LexLe s t
    ended [] t e = bytes_nil t
    ended (c ∷ s) t e = absurd (omega arith)

-- The bytes from the depth on, with the terminators.
abbrev pub remaining : ℕ → List Str → ℕ
remaining d [] = 0
remaining d (s ∷ ss) = suc (length (drop d s)) + remaining d ss

pub remaining-append :
    (d : ℕ) (xs ys : List Str) → remaining d (xs ++ ys) ≡ remaining d xs + remaining d ys
remaining-append d [] ys = omega arith
remaining-append d (x ∷ xs) ys = omega (arith, remaining-append d xs ys)

pub length-le-remaining : (d : ℕ) (xs : List Str) → length xs ≤ remaining d xs
length-le-remaining d [] = omega arith
length-le-remaining d (x ∷ xs) = omega (arith, length-le-remaining d xs)

remaining-Permᴰ : (d : ℕ) {xs ys : List Str} → Permᴰ xs ys → remaining d xs ≡ remaining d ys
remaining-Permᴰ d Permᴰ.nil = refl
remaining-Permᴰ d (Permᴰ.cons e p) =
    omega (arith, ap (λ (s : Str). length (drop d s)) e, remaining-Permᴰ d p)
remaining-Permᴰ d (Permᴰ.swap e f) =
    omega (arith, ap (λ (s : Str). length (drop d s)) e, ap (λ (s : Str). length (drop d s)) f)
remaining-Permᴰ d (Permᴰ.trans p q) = remaining-Permᴰ d p ∙ remaining-Permᴰ d q

pub remaining-perm : (d : ℕ) {xs ys : List Str} → Perm xs ys → remaining d xs ≡ remaining d ys
remaining-perm d p = ∥∥₁_elim p (ℕ_set _ _) (remaining-Permᴰ d)

-- One byte deeper, strings that do not end have one byte less each.
pub remaining-suc :
    (d v : ℕ) (xs : List Str)
    → v ≢ 0
    → All (λ s. char_at d s ≡ v) xs
    → remaining (suc d) xs + length xs ≤ remaining d xs
remaining-suc d v [] n h = omega arith
remaining-suc d v (s ∷ xs) n h = omega (
  arith,
  remaining-suc d v xs n h.1,
  ap (λ (t : Str). length t) (drop-suc d s),
  one_less (drop d s) (λ e. n (omega (arith, h.0))),
)
  where
    one_less : (t : Str) → deref t ≢ 0 → length (drop 1 t) + 1 ≤ length t
    one_less [] h = absurd (h refl)
    one_less (c ∷ t) h = omega arith
