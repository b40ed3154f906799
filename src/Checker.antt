-- ===== src/Checker.antt =====
-- src/tools/checker.hpp: the checks of a sorter's result. A string is known by its address for the
-- permutation check and by its bytes for the order.
pub mod Permutation
pub mod Laws
pub mod Prefix
use parallel_string_sorting.Prelude.{
  ℕ, zero, suc, ◌+◌, ◌-◌, ◌*◌, ◌%◌, ◌^◌, List, [], ◌∷◌, ◌++◌, Bool, true, false, not, ◌&&◌, ltb,
  ◌==◌, if◌then◌else◌, drop,
}
use parallel_string_sorting.Strings.{Str, deref, lex_le}

-- The largest primes below 2^64 and 2^32.
abbrev pub prime64 : ℕ
prime64 = 18446744073709551557

abbrev pub prime32 : ℕ
prime32 = 4294967291

-- `(uint64_t)g_string_data + g_string_datasize + iter`, for the address `area_end` of the end of the
-- string area.
abbrev pub point : ℕ → ℕ → ℕ
point area_end iter = (area_end + iter) % 2 ^ 64

-- `z - (uint64_t)stringptr[i]`
abbrev pub factor : ℕ → ℕ → ℕ
factor z address = (z + 2 ^ 64 - address) % 2 ^ 64

-- `v *= (z - (uint64_t)stringptr[i]); v %= p;` in integers of any size.
pub eval_loop : ℕ → ℕ → List ℕ → ℕ
eval_loop z v [] = v
eval_loop z v (a ∷ addresses) = eval_loop z ((v * factor z a) % prime64) addresses

-- The same in uint64_t.
pub eval_loop64 : ℕ → ℕ → List ℕ → ℕ
eval_loop64 z v [] = v
eval_loop64 z v (a ∷ addresses) = eval_loop64 z (((v * factor z a) % 2 ^ 64) % prime32) addresses

-- PermutationCheck and PermutationCheck64: the result of the evaluation, and the iteration.
pub record PermutationCheck : Type 0 where
  pub v : ℕ
  pub iter : ℕ

module _ (eval : ℕ → ℕ → List ℕ → ℕ) (area_end : ℕ) (addresses : List ℕ) where
  -- The loop of the constructor, for the rounds that are left.
  pub find_point : ℕ → ℕ → PermutationCheck
  find_point zero iter = record { v = 0; iter = iter }
  find_point (suc rounds) iter =
      let v = eval (point area_end iter) 1 addresses in
      let rest = find_point rounds (iter + 1) in
      if not (v == 0) then record { v = v; iter = iter } else rest

  -- check
  pub check_with : PermutationCheck → Bool
  check_with pc = pc.v == eval (point area_end pc.iter) 1 addresses

unfoldable pub make_check : ℕ → List ℕ → PermutationCheck
unfolding find_point eval_loop
make_check area_end addresses = find_point eval_loop area_end addresses 99999 1

unfoldable pub check : ℕ → List ℕ → PermutationCheck → Bool
unfolding check_with eval_loop
check area_end addresses pc = check_with eval_loop area_end addresses pc

unfoldable pub make_check64 : ℕ → List ℕ → PermutationCheck
unfolding find_point eval_loop64
make_check64 area_end addresses = find_point eval_loop64 area_end addresses 99999 1

unfoldable pub check64 : ℕ → List ℕ → PermutationCheck → Bool
unfolding check_with eval_loop64
check64 area_end addresses pc = check_with eval_loop64 area_end addresses pc

-- What check_sorted_order prints.
pub data Message : Type 0 where
  not_a_permutation : Message
  invalid_order : ℕ → ℕ → Message

pub record Report : Type 0 where
  pub ok : Bool
  pub messages : List Message

-- The loop over the pairs `i - 1` and `i`, by the string before and those that are left. strcmp
-- compares by the bytes as unsigned numbers.
pub order_loop : ℕ → Str → List Str → List Message → Report
order_loop i s [] out = record { ok = true; messages = out }
order_loop i s (t ∷ ss) out =
    if lex_le s t
    then order_loop (suc i) t ss out
    else record { ok = false; messages = out ++ invalid_order (i - 1) i ∷ [] }

order_strings : List Str → List Message → Report
unfolding order_loop
order_strings [] out = record { ok = true; messages = out }
order_strings (s ∷ ss) out = order_loop 1 s ss out

-- The strings behind the pointers, and the result of the permutation check.
unfoldable pub check_sorted_order : List Str → Bool → Report
unfolding order_strings
check_sorted_order ss permuted =
    order_strings ss (if not permuted then not_a_permutation ∷ [] else [])

-- The loop over equal bytes, on the suffixes from `depth` on.
unfoldable pub depth_loop : Str → Str → ℕ → ℕ
depth_loop [] t depth = depth
depth_loop (c ∷ s) t depth =
    if (suc c == deref t) && not (suc c == 0) then depth_loop s (drop 1 t) (suc depth) else depth

-- D and lcpsum.
pub record Prefixes : Type 0 where
  pub distinguishing : ℕ
  pub lcpsum : ℕ

pub prefix_loop : ℕ → Str → List Str → Prefixes → Prefixes
unfolding depth_loop
prefix_loop pdepth s [] r = r
prefix_loop pdepth s (t ∷ ss) r =
    let lcp = depth_loop s t 0 in
    let depth = lcp + 1 in
    let d = if ltb pdepth depth then r.distinguishing + (depth - pdepth) else r.distinguishing in
    prefix_loop depth t ss (record { distinguishing = d + depth; lcpsum = r.lcpsum + lcp })

calc_prefixes : List Str → Prefixes → Prefixes
unfolding prefix_loop
calc_prefixes [] r = r
calc_prefixes (s ∷ ss) r = prefix_loop 0 s ss r

unfoldable pub calc_distinguishing_prefix : List Str → ℕ → Prefixes
unfolding calc_prefixes
calc_distinguishing_prefix ss lcpsum =
    calc_prefixes ss (record { distinguishing = 0; lcpsum = lcpsum })
