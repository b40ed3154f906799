-- ===== src/JobQueue/Drain.antt =====
-- The queue cannot deadlock: from every reachable state the threads can run on until all have left.
use parallel_string_sorting.Prelude.{
  ℕ, ◌+◌, ◌<◌, List, [], ◌∷◌, ◌++◌, ◌≡◌, refl, sym, ap, ◌⊎◌, inl, inr, length, length-append, subst,
  arith, All, All-append,
}
use mathlib.Core.List.{append_assoc, append-nil}
use parallel_string_sorting.JobQueue.{
  Shared, Thread, busy, running, emptied, polling, checking, woken, returned, Move, pop, no_job,
  finish, go_idle, pop_idle, still_none, leave, wake, System, pick, init, Reach, here, next,
}
use parallel_string_sorting.JobQueue.Invariant.{total, resting, Reach-Inv, start-Inv}

-- Moves of one thread while the others wait, the first of them in front.
data Run {Job : Type 0} (n : ℕ) (u : Shared Job) (v : Thread Job)
    : Shared Job → Thread Job → Type 0 where
  stay : Run n u v u v
  move : {m k : Shared Job} {t x : Thread Job} → Move n m t k x → Run n u v k x → Run n u v m t

-- At the test of the idle loop, or gone.
abbrev AtEnd : {Job : Type 0} → Thread Job → Type 0
AtEnd t = (t ≡ checking) ⊎ (t ≡ returned)

-- A thread can empty the queue by itself and come to the test.
module _ {Job : Type 0} (n : ℕ) where
  abbrev Ends : Shared Job → Thread Job → Type 0
  Ends m t = (u : Shared Job) × (v : Thread Job) × Run n u v m t × AtEnd v

  before-Ends : {m k : Shared Job} {t x : Thread Job} → Move n m t k x → Ends k x → Ends m t
  before-Ends mv (u, v, r, e) = (u, v, move mv r, e)

  polling-Ends : (idle : ℕ) → Ends (record { queue = []; idle = idle }) polling
  polling-Ends idle =
      (record { queue = []; idle = idle }, checking, move (still_none refl) stay, inl refl)

  busy-Ends : (q : List Job) (idle : ℕ) → Ends (record { queue = q; idle = idle }) busy
  busy-Ends [] idle = before-Ends (no_job refl) (before-Ends go_idle (polling-Ends (idle + 1)))
  busy-Ends (j ∷ q) idle = before-Ends (pop j [] q refl) (before-Ends (finish j) (busy-Ends q idle))

  thread-Ends :
      (q : List Job) (idle : ℕ) (t : Thread Job) → Ends (record { queue = q; idle = idle }) t
  thread-Ends q idle busy = busy-Ends q idle
  thread-Ends q idle (running j) = before-Ends (finish j) (busy-Ends q idle)
  thread-Ends [] idle emptied = before-Ends go_idle (polling-Ends (idle + 1))
  thread-Ends (j ∷ q) idle emptied = before-Ends go_idle (
      before-Ends (pop_idle j [] q refl)
        (before-Ends (wake j) (before-Ends (finish j) (busy-Ends q _))))
  thread-Ends [] idle polling = polling-Ends idle
  thread-Ends (j ∷ q) idle polling =
      before-Ends (pop_idle j [] q refl)
        (before-Ends (wake j) (before-Ends (finish j) (busy-Ends q _)))
  thread-Ends q idle checking = (_, checking, stay, inl refl)
  thread-Ends q idle (woken j) = before-Ends (wake j) (before-Ends (finish j) (busy-Ends q _))
  thread-Ends q idle returned = (_, returned, stay, inr refl)

-- A thread with P can be run, from a shared state with K to one with K, until it has Q.
abbrev Acts :
    {Job : Type 0}
    → ℕ
    → (Thread Job → Type 0)
    → (Thread Job → Type 0)
    → (Shared Job → Type 0)
    → Type 0
Acts {Job} n P Q K =
    (m : Shared Job) (t : Thread Job)
    → K m
    → P t
    → (u : Shared Job) × (v : Thread Job) × Run n u v m t × Q v × K u

-- The same within a system of n threads.
module _ {Job : Type 0} {s : System Job} (n : ℕ) where
  lift :
      {u : Shared Job} {v : Thread Job} {m : Shared Job} {t : Thread Job}
      (before after : List (Thread Job))
      → length (before ++ t ∷ after) ≡ n
      → Run n u v m t
      → Reach s (record { mem = m; threads = before ++ t ∷ after })
      → Reach s (record { mem = u; threads = before ++ v ∷ after })
  lift before after e stay r = r
  lift {m = m} {t = t} before after e (move {k = k} {x = x} mv run) r =
      lift before after
        (omega (arith, e, length-append before (t ∷ after), length-append before (x ∷ after))) run
        (next r (pick before t after refl (subst (λ (c : ℕ). Move c m t k x) (sym e) mv)))

  -- What a thread can do by itself, all threads can do one after the other.
  module _ (P Q : Thread Job → Type 0) (K : Shared Job → Type 0) (act : Acts n P Q K) where
    each :
        (before after : List (Thread Job)) (m : Shared Job)
        → All Q before
        → All P after
        → K m
        → length (before ++ after) ≡ n
        → Reach s (record { mem = m; threads = before ++ after })
        → (u : Shared Job) × (ts : List (Thread Job)) × Reach s (record { mem = u; threads = ts })
          × All Q ts
          × K u
    each before [] m q p k e r = (m, before, rw append-nil at r, q, k)
    each before (t ∷ after) m q p k e r =
        let (u, v, run, qv, ku) = act m t k p.0 in
        let r' = lift before after e run r in
        each (before ++ v ∷ []) after u (All-append Q before (v ∷ []) q (qv, tt)) p.1 ku
          (omega (
            arith,
            e,
            length-append before (t ∷ after),
            length-append (before ++ v ∷ []) after,
            length-append before (v ∷ []),
          ))
          (rw (append_assoc before (v ∷ []) after) r')

module _ {Job : Type 0} (n : ℕ) where
  any_thread : (ts : List (Thread Job)) → All (λ t. Unit {0}) ts
  any_thread [] = tt
  any_thread (t ∷ ts) = (tt, any_thread ts)

  to_test : Acts n (λ (t : Thread Job). Unit {0}) AtEnd (λ (m : Shared Job). Unit {0})
  to_test m t k p = let (u, v, run, e) = thread-Ends n m.queue m.idle t in (u, v, run, e, tt)

  -- A thread at the test leaves if all are counted.
  leaving : Acts n AtEnd (λ (t : Thread Job). t ≡ returned) (λ (m : Shared Job). m.idle ≡ n)
  leaving m checking k p = (m, returned, move (leave k) stay, refl, k)
  leaving m returned k p = (m, returned, stay, refl, k)
  leaving m busy k p = absurd (ground arith)
  leaving m (running j) k p = absurd (ground arith)
  leaving m emptied k p = absurd (ground arith)
  leaving m polling k p = absurd (ground arith)
  leaving m (woken j) k p = absurd (ground arith)

  total-resting : (ts : List (Thread Job)) → All AtEnd ts → total resting ts ≡ length ts
  total-resting [] h = refl
  total-resting (t ∷ ts) h = omega (arith, at_end t h.0, total-resting ts h.1)
    where
      at_end : (t : Thread Job) → AtEnd t → resting t ≡ 1
      at_end t (inl e) = ap resting e
      at_end t (inr e) = ap resting e

-- No deadlock: from every state that n threads can reach, whatever their jobs have enqueued, they
-- can run on until all of them have left.
pub can_finish :
    {Job : Type 0} {s : System Job} (n : ℕ) (jobs : List Job)
    → 0 < n
    → Reach (init n jobs) s
    → (t : System Job) × Reach s t × All (λ x. x ≡ returned) t.threads
can_finish {s} n jobs h r =
    let inv = start-Inv n jobs h r in
    let (u, ts, tested, ends, _) =
      each n _ _ _ (to_test n) [] s.threads s.mem tt (any_thread n s.threads) tt inv.threads here in
    let inv' = Reach-Inv inv tested in
    let counted = total-resting n ts ends in
    let (w, gone, left, done, _) =
      each n _ _ _ (leaving n) [] ts u tt ends (omega (arith, inv'.counted, inv'.threads, counted))
        inv'.threads tested in
    (record { mem = w; threads = gone }, left, done)
