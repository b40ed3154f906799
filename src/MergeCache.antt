-- ===== src/MergeCache.antt =====
-- src/sequential/bingmann-lcp_mergesort_binary.hpp: the merge that keeps the byte behind each lcp
-- in an array of its own (lcp_merge_binary_cache_opt), for the two template parameters that say
-- whether lcps and bytes are written.
pub mod Chain
pub mod Laws
use parallel_string_sorting.Prelude.{
  ℕ, suc, List, [], ◌∷◌, Bool, true, false, not, ◌&&◌, ltb, ◌==◌, if◌then◌else◌, drop, take, length,
  get_or, set_head,
}
use parallel_string_sorting.Strings.{Str, deref}
use parallel_string_sorting.Merge.{advance}

-- LcpCacheStringPtr.
pub record LcpCacheStrings : Type 0 where
  pub strings : List Str
  pub lcps : List ℕ
  pub cache : List ℕ

pub record CharCursor : Type 0 where
  pub ch1 : ℕ
  pub ch2 : ℕ
  pub lcp : ℕ

-- `while (ch1 != 0 && ch1 == ch2) { ++lcp; ch1 = (*input1)[lcp]; ch2 = (*input2)[lcp]; }` on the
-- suffixes from lcp on. A byte that is not zero has more string behind it.
unfoldable pub scan_cached : Str → Str → ℕ → ℕ → ℕ → CharCursor
scan_cached [] t ch1 ch2 h = record { ch1 = ch1; ch2 = ch2; lcp = h }
scan_cached (c ∷ s) t ch1 ch2 h =
    if not (ch1 == 0) && (ch1 == ch2)
    then scan_cached s (drop 1 t) (deref s) (deref (drop 1 t)) (suc h)
    else record { ch1 = ch1; ch2 = ch2; lcp = h }

-- A stream: what is left of its arrays, and the current lcp and byte in variables.
pub record Stream : Type 0 where
  pub lcps : List ℕ
  pub cache : List ℕ
  pub lcp : ℕ
  pub ch : ℕ

-- `++input, ++lcps, ++cache; if (input < end) lcp = *lcps, ch = *cache;`
abbrev pub step : List Str → Stream → Stream
step [] st = record st { lcps = advance st.lcps; cache = drop 1 st.cache }
step (s ∷ input) st = record {
  lcps = advance st.lcps;
  cache = drop 1 st.cache;
  lcp = get_or (advance st.lcps) 0 0;
  ch = get_or (drop 1 st.cache) 0 0;
}

module _ (output_lcp output_cache : Bool) where
  -- The writes of one string with its lcp and byte.
  abbrev pub emit : Str → ℕ → ℕ → LcpCacheStrings → LcpCacheStrings
  emit s h c rest = record {
    strings = s ∷ rest.strings;
    lcps = if output_lcp then h ∷ rest.lcps else rest.lcps;
    cache = if output_cache then c ∷ rest.cache else rest.cache;
  }

  -- The copies of a stream that is left.
  abbrev pub copy_rest : List Str → Stream → LcpCacheStrings
  copy_rest input st = record {
    strings = input;
    lcps = if output_lcp then set_head st.lcp (take (length input) st.lcps) else [];
    cache = if output_cache then set_head st.ch (take (length input) st.cache) else [];
  }

  unfoldable pub merge_cache_loop : List Str → Stream → List Str → Stream → LcpCacheStrings
  unfolding scan_cached
  merge_cache_loop [] st1 input2 st2 = copy_rest input2 st2
  merge_cache_loop (x ∷ input1) st1 [] st2 = copy_rest (x ∷ input1) st1
  merge_cache_loop (x ∷ input1) st1 (y ∷ input2) st2 =
      let k = scan_cached (drop st1.lcp x) (drop st2.lcp y) st1.ch st2.ch st1.lcp in
      let take1 = λ (own other : Stream).
        emit x st1.lcp st1.ch (merge_cache_loop input1 (step input1 own) (y ∷ input2) other) in
      let take2 = λ (other own : Stream).
        emit y st2.lcp st2.ch (merge_cache_loop (x ∷ input1) other input2 (step input2 own)) in
      if st1.lcp == st2.lcp
      then (if ltb k.ch1 k.ch2
          then take1 (record st1 { ch = k.ch1 }) (record st2 { lcp = k.lcp; ch = k.ch2 })
          else take2 (record st1 { lcp = k.lcp; ch = k.ch1 }) (record st2 { ch = k.ch2 }))
      else if ltb st1.lcp st2.lcp
      then take2 st1 st2
      else take1 st1 st2

-- `input < end ? (*input)[lcp] : 0`
abbrev pub first_char : List Str → ℕ → ℕ
first_char [] h = 0
first_char (s ∷ input) h = deref (drop h s)

unfoldable pub lcp_merge_binary_cache_opt :
    Bool → Bool → LcpCacheStrings → LcpCacheStrings → ℕ → LcpCacheStrings
unfolding merge_cache_loop
lcp_merge_binary_cache_opt output_lcp output_cache input1 input2 depth =
    merge_cache_loop output_lcp output_cache input1.strings
      (record {
        lcps = input1.lcps;
        cache = input1.cache;
        lcp = depth;
        ch = first_char input1.strings depth;
      })
      input2.strings
      (record {
        lcps = input2.lcps;
        cache = input2.cache;
        lcp = depth;
        ch = first_char input2.strings depth;
      })
