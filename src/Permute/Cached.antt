-- ===== src/Permute/Cached.antt =====
-- The permutation with cached characters moves the strings like the one without.
use parallel_string_sorting.Prelude.{
  ℕ, zero, suc, ◌+◌, ◌-◌, ◌≤◌, ◌<◌, List, [], ◌∷◌, false, ◌==◌, ltb, if◌then◌else◌, Bool-cases, inl,
  inr, length, length-set, get_or, set, All, ◌≡◌, refl, sym, ap, ◌∙◌, arith,
}
use parallel_string_sorting.Strings.{Str}
use parallel_string_sorting.Mkqs.Arrays.{get_or-set}
use parallel_string_sorting.Permute.{
  Cycle, cycle_loop, permute_loop, CachedCycle, cached_cycle_loop, cached_permute_loop,
}

get_or-set_char :
    (a : List ℕ) (i k v : ℕ)
    → i < length a
    → get_or (set a i v) k 0 ≡ (if k == i then v else get_or a k 0)
get_or-set_char [] i k v h = absurd (omega arith)
get_or-set_char (x ∷ a) zero zero v h = refl
get_or-set_char (x ∷ a) zero (suc k) v h = ground arith
get_or-set_char (x ∷ a) (suc i) zero v h = ground arith
get_or-set_char (x ∷ a) (suc i) (suc k) v h = ground (arith, get_or-set_char a i k v)

-- The ends of the buckets are in the array.
bound_at : (n : ℕ) (bkt : List ℕ) (c : ℕ) → All (λ e. e ≤ n) bkt → get_or bkt c 0 ≤ n
bound_at n [] c h = omega arith
bound_at n (e ∷ bkt) zero h = h.0
bound_at n (e ∷ bkt) (suc c) h = bound_at n bkt c h.1

bound-set :
    (n : ℕ) (bkt : List ℕ) (c v : ℕ) → All (λ e. e ≤ n) bkt → v ≤ n → All (λ e. e ≤ n) (set bkt c v)
bound-set n [] c v h l = tt
bound-set n (e ∷ bkt) zero v h l = (l, h.1)
bound-set n (e ∷ bkt) (suc c) v h l = (h.0, bound-set n bkt c v h.1 l)

module _ (key : Str → ℕ) (n : ℕ) (sizes : List ℕ) where
  -- No string belongs to an empty bucket.
  abbrev IsUsed : Str → Type 0
  IsUsed s = 0 < get_or sizes (key s) 0

  -- From a place on, the cache holds the characters of the n strings.
  pub record Mirrors (from : ℕ) (strings : List Str) (cache : List ℕ) : Type 0 where
    pub size : length strings ≡ n
    pub room : n ≤ length cache
    pub same : (p : ℕ) → from ≤ p → p < n → get_or cache p 0 ≡ key (get_or strings p [])
    pub used : (p : ℕ) → p < n → IsUsed (get_or strings p [])

  IsUsed-set :
      (a : List Str) (j : ℕ) (s : Str)
      → length a ≡ n
      → ((p : ℕ) → p < n → IsUsed (get_or a p []))
      → IsUsed s
      → j < n
      → (p : ℕ) → p < n
      → IsUsed (get_or (set a j s) p [])
  IsUsed-set a j s e h u l p lp = elim (Bool-cases (p == j)) [
    | inl t ↦ let y = get_or-set a j p s (omega arith) in rw (rw t at y) u
    | inr t ↦ let y = get_or-set a j p s (omega arith) in rw (rw t at y) (h p lp)
  ]

  Mirrors-set :
      (from : ℕ) (a : List Str) (cache : List ℕ) (j : ℕ) (s : Str)
      → Mirrors from a cache
      → IsUsed s
      → j < n
      → Mirrors from (set a j s) (set cache j (key s))
  Mirrors-set from a cache j s h u l = record {
    size = length-set a j s ∙ h.size;
    room = omega (arith, length-set cache j (key s), h.room);
    same = λ p fp lp.
        let x = get_or-set_char cache j p (key s) (omega (arith, h.room)) in
        let y = get_or-set a j p s (omega (arith, h.size)) in
        elim (Bool-cases (p == j)) [
          | inl t ↦ rw t at x ∙ sym (ap key (rw t at y))
          | inr t ↦ rw t at x ∙ h.same p fp lp ∙ sym (ap key (rw t at y))
        ];
    used = IsUsed-set a j s h.size h.used u l;
  }

  -- A write of a string behind which the cache is not read any more.
  Mirrors-behind :
      (from from' : ℕ) (a : List Str) (cache : List ℕ) (s : Str)
      → Mirrors from a cache
      → IsUsed s
      → from < n
      → from < from'
      → Mirrors from' (set a from s) cache
  Mirrors-behind from from' a cache s h u l lt = record {
    size = length-set a from s ∙ h.size;
    room = h.room;
    same = λ p fp lp.
        let y = get_or-set a from p s (omega (arith, h.size)) in
        let t : (p == from) ≡ false = ground arith in
        h.same p (omega arith) lp ∙ sym (ap key (rw t at y));
    used = IsUsed-set a from s h.size h.used u l;
  }

  abbrev plain : CachedCycle → Cycle
  plain s = record { perm = s.perm; strings = s.strings; bkt = s.bkt }

  record Follows (i : ℕ) (s : CachedCycle) : Type 0 where
    char : s.permch ≡ key s.perm
    own : IsUsed s.perm
    arrays : Mirrors i s.strings s.charcache
    bounds : All (λ e. e ≤ n) s.bkt

  cached_cycle_loop-plain :
      (rounds i : ℕ) (s : CachedCycle)
      → 0 < n
      → Follows i s
      → (plain (cached_cycle_loop rounds i s) ≡ cycle_loop key rounds i (plain s))
        × Follows i (cached_cycle_loop rounds i s)
        × (length (cached_cycle_loop rounds i s).charcache ≡ length s.charcache)
  unfolding cached_cycle_loop cycle_loop
  cached_cycle_loop-plain zero i s pos h = (refl, h, refl)
  cached_cycle_loop-plain (suc rounds) i s pos h =
      let c = key s.perm in
      let small = bound_at n s.bkt c h.bounds in
      let j = get_or s.bkt c 0 - 1 in
      let lj : j < n = omega arith in
      let bounds' = bound-set n s.bkt c j h.bounds (omega arith) in
      elim (Bool-cases (ltb i j)) [
        | inl on ↦
            let t : CachedCycle = record {
              perm = get_or s.strings j [];
              permch = get_or s.charcache j 0;
              strings = set s.strings j s.perm;
              charcache = set s.charcache j c;
              bkt = set s.bkt c j;
            } in
            let h' : Follows i t = record {
              char = h.arrays.same j (ground (arith, on)) lj;
              own = h.arrays.used j lj;
              arrays = Mirrors-set i s.strings s.charcache j s.perm h.arrays h.own lj;
              bounds = bounds';
            } in
            let (p, f, l) = cached_cycle_loop-plain rounds i t pos h' in
            rw (h.char, on) (p, f, l ∙ length-set s.charcache j c)
        | inr off ↦
            rw (h.char, off)
              (refl, record { char = refl; own = h.own; arrays = h.arrays; bounds = bounds' }, refl)
      ]

  pub cached_permute_loop-plain :
      (last rounds i : ℕ) (strings : List Str) (cache bkt : List ℕ)
      → Mirrors i strings cache
      → All (λ e. e ≤ n) bkt
      → ((cached_permute_loop n last sizes rounds i strings cache bkt).0
          ≡ permute_loop key n last sizes rounds i strings bkt)
        × (length (cached_permute_loop n last sizes rounds i strings cache bkt).1 ≡ length cache)
  unfolding cached_permute_loop permute_loop
  cached_permute_loop-plain last zero i strings cache bkt h b = (refl, refl)
  cached_permute_loop-plain last (suc rounds) i strings cache bkt h b =
      elim (Bool-cases (ltb i (n - last))) [
        | inr off ↦ rw off (refl, refl)
        | inl on ↦
            let li : i < n = ground (arith, on) in
            let s0 : CachedCycle = record {
              perm = get_or strings i [];
              permch = get_or cache i 0;
              strings = strings;
              charcache = cache;
              bkt = bkt;
            } in
            let (p, f, l) = cached_cycle_loop-plain (suc n) i s0 (omega arith) (record {
              char = h.same i (omega arith) li;
              own = h.used i li;
              arrays = h;
              bounds = b;
            }) in
            let s = cached_cycle_loop (suc n) i s0 in
            let next = i + get_or sizes s.permch 0 in
            let far : i < next = omega (arith, f.own, ap (λ (c : ℕ). get_or sizes c 0) f.char) in
            let (q, m) =
              cached_permute_loop-plain last rounds next (set s.strings i s.perm) s.charcache s.bkt
                (Mirrors-behind i next s.strings s.charcache s.perm f.arrays f.own li far)
                f.bounds in
            let run = λ (t : Cycle).
              permute_loop key n last sizes rounds (i + get_or sizes (key t.perm) 0)
                (set t.strings i t.perm) t.bkt in
            let here : permute_loop key n last sizes rounds next (set s.strings i s.perm) s.bkt
                ≡ run (plain s) =
              ap
                (λ (c : ℕ).
                  permute_loop key n last sizes rounds (i + get_or sizes c 0)
                    (set s.strings i s.perm) s.bkt)
                f.char in
            rw on (q ∙ here ∙ ap run p, m ∙ l)
      ]
