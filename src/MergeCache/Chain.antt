-- ===== src/MergeCache/Chain.antt =====
-- Streams with cached bytes that ascend after a string.
use parallel_string_sorting.Prelude.{
  ℕ, zero, suc, List, [], ◌∷◌, true, drop, take, length, get_or, set_head, ◌≡◌, refl, ap,
}
use parallel_string_sorting.Strings.{Str, deref, LexLe, lcp}
use parallel_string_sorting.MergeCache.{Stream, step, copy_rest}

-- After `p` the strings ascend, each lcp is that with the string before, and each byte is the one
-- behind that lcp.
abbrev pub CacheChain : Str → List Str → List ℕ → List ℕ → Type 0
CacheChain p [] [] [] = Unit
CacheChain p [] [] (c ∷ cs) = ⊥
CacheChain p [] (h ∷ hs) cs = ⊥
CacheChain p (s ∷ ss) [] cs = ⊥
CacheChain p (s ∷ ss) (h ∷ hs) [] = ⊥
CacheChain p (s ∷ ss) (h ∷ hs) (c ∷ cs) =
    LexLe p s × (h ≡ lcp p s) × (c ≡ deref (drop h s)) × CacheChain s ss hs cs

-- A stream after `p`, its first lcp and byte in variables.
abbrev pub IsStream : Str → List Str → Stream → Type 0
IsStream p input st = CacheChain p input (set_head st.lcp st.lcps) (set_head st.ch st.cache)

CacheChain-take :
    (p : Str) (ss : List Str) (hs cs : List ℕ)
    → CacheChain p ss hs cs
    → (take (length ss) hs ≡ hs) × (take (length ss) cs ≡ cs)
CacheChain-take p [] [] [] c = (refl, refl)
CacheChain-take p [] [] (x ∷ cs) c = absurd c
CacheChain-take p [] (h ∷ hs) cs c = absurd c
CacheChain-take p (s ∷ ss) [] cs c = absurd c
CacheChain-take p (s ∷ ss) (h ∷ hs) [] c = absurd c
CacheChain-take p (s ∷ ss) (h ∷ hs) (x ∷ cs) c =
    let (e, f) = CacheChain-take s ss hs cs c.3 in (ap (◌∷◌ h) e, ap (◌∷◌ x) f)

set_head-take {ℓ} :
    {A : Type ℓ} (v : A) (n : ℕ) (xs : List A) → set_head v (take n xs) ≡ take n (set_head v xs)
set_head-take v zero [] = refl
set_head-take v zero (x ∷ xs) = refl
set_head-take v (suc n) [] = refl
set_head-take v (suc n) (x ∷ xs) = refl

pub CacheChain-copy_rest :
    (p : Str) (input : List Str) (st : Stream)
    → IsStream p input st
    → let r = copy_rest true true input st in CacheChain p r.strings r.lcps r.cache
CacheChain-copy_rest p input st s =
    let (e, f) = CacheChain-take p input (set_head st.lcp st.lcps) (set_head st.ch st.cache) s in
    rw (set_head-take st.lcp, e, set_head-take st.ch, f) s

-- The first string of a stream, and what the stream is behind it.
pub chain_head :
    (p x : Str) (input : List Str) (hs cs : List ℕ) (h c : ℕ)
    → CacheChain p (x ∷ input) (set_head h hs) (set_head c cs)
    → LexLe p x
      × (h ≡ lcp p x)
      × (c ≡ deref (drop h x))
      × CacheChain x input (drop 1 hs) (drop 1 cs)
chain_head p x input [] cs h c s = absurd s
chain_head p x input (l ∷ hs) [] h c s = absurd s
chain_head p x input (l ∷ hs) (k ∷ cs) h c s = s

pub chain_step :
    (x : Str) (input : List Str) (st : Stream) (ch : ℕ)
    → CacheChain x input (drop 1 st.lcps) (drop 1 st.cache)
    → IsStream x input (step input (record st { ch = ch }))
chain_step x [] st ch c = nothing (drop 1 st.lcps) (drop 1 st.cache) c
  where
    nothing :
        (hs cs : List ℕ)
        → CacheChain x [] hs cs
        → CacheChain x [] (set_head st.lcp hs) (set_head ch cs)
    nothing [] [] c = tt
    nothing [] (k ∷ cs) c = absurd c
    nothing (h ∷ hs) cs c = absurd c
chain_step x (s ∷ input) st ch c = same (drop 1 st.lcps) (drop 1 st.cache) c
  where
    same :
        (hs cs : List ℕ)
        → CacheChain x (s ∷ input) hs cs
        → CacheChain x (s ∷ input) (set_head (get_or hs 0 0) hs) (set_head (get_or cs 0 0) cs)
    same [] cs c = absurd c
    same (h ∷ hs) [] c = absurd c
    same (h ∷ hs) (k ∷ cs) c = c

pub chain_after :
    (p x y : Str) (input : List Str) (hs cs : List ℕ) (h c h' c' : ℕ)
    → CacheChain p (y ∷ input) (set_head h hs) (set_head c cs)
    → LexLe x y
    → h' ≡ lcp x y
    → c' ≡ deref (drop h' y)
    → CacheChain x (y ∷ input) (set_head h' hs) (set_head c' cs)
chain_after p x y input [] cs h c h' c' s le e f = absurd s
chain_after p x y input (l ∷ hs) [] h c h' c' s le e f = absurd s
chain_after p x y input (l ∷ hs) (k ∷ cs) h c h' c' s le e f = (le, e, f, s.3)
