-- ===== src/JobQueue/Invariant.antt =====
-- m_idle_count counts the threads outside the inner loop, and a job in the queue has a thread that
-- will look for it. Both hold at the start and are kept by every step.
use parallel_string_sorting.Prelude.{
  ℕ, zero, suc, ◌+◌, ◌≤◌, ◌<◌, List, [], ◌∷◌, ◌++◌, ◌≡◌, refl, ap, ◌⊎◌, inl, inr, length,
  length-append, length-replicate, replicate, arith,
}
use parallel_string_sorting.JobQueue.{
  Shared, Thread, busy, running, emptied, woken, Move, pop, no_job, enqueue, finish, go_idle,
  pop_idle, still_none, retry, leave, wake, System, Step, pick, init, Reach, here, next,
}

abbrev pub total {ℓ} : {A : Type ℓ} → (A → ℕ) → List A → ℕ
total w [] = 0
total w (x ∷ xs) = w x + total w xs

module _ {ℓ} {A : Type ℓ} where
  pub total-append : (w : A → ℕ) (xs ys : List A) → total w (xs ++ ys) ≡ total w xs + total w ys
  total-append w [] ys = omega arith
  total-append w (x ∷ xs) ys = omega (arith, total-append w xs ys)

  pub total-replicate : (w : A → ℕ) (n : ℕ) (x : A) → w x ≡ 0 → total w (replicate n x) ≡ 0
  total-replicate w zero x h = refl
  total-replicate w (suc n) x h = omega (arith, total-replicate w n x h)

-- The threads that m_idle_count counts.
abbrev pub resting : {Job : Type 0} → Thread Job → ℕ
resting busy = 0
resting (running j) = 0
resting emptied = 0
resting _ = 1

-- The threads that will try to pop a job, or run one, before they test the count.
abbrev pub active : {Job : Type 0} → Thread Job → ℕ
active busy = 1
active (running j) = 1
active (woken j) = 1
active _ = 0

pub record Inv {Job : Type 0} (n : ℕ) (s : System Job) : Type 0 where
  pub threads : length s.threads ≡ n
  pub counted : s.mem.idle ≡ total resting s.threads
  pub looked_for : (s.mem.queue ≡ []) ⊎ (0 < total active s.threads)

Inv-init : {Job : Type 0} (n : ℕ) (jobs : List Job) → 0 < n → Inv n (init n jobs)
Inv-init zero jobs h = absurd (omega arith)
Inv-init (suc n) jobs h = record {
  threads = length-replicate (suc n) busy;
  counted = omega (arith, total-replicate resting n busy refl);
  looked_for = inr (omega arith);
}

-- A move keeps the count, and leaves the thread active unless the queue is empty.
pub Move-counted :
    {Job : Type 0} {n : ℕ} {m m1 : Shared Job} {t t1 : Thread Job}
    → Move n m t m1 t1
    → resting t ≤ m.idle
    → m1.idle + resting t ≡ m.idle + resting t1
Move-counted (pop j b a e) h = omega arith
Move-counted (no_job e) h = omega arith
Move-counted (enqueue j k) h = omega arith
Move-counted (finish j) h = omega arith
Move-counted go_idle h = omega arith
Move-counted (pop_idle j b a e) h = omega arith
Move-counted (still_none e) h = omega arith
Move-counted (retry e) h = omega arith
Move-counted (leave e) h = omega arith
Move-counted (wake j) h = omega arith

pub Move-active :
    {Job : Type 0} {n : ℕ} {m m1 : Shared Job} {t t1 : Thread Job}
    → Move n m t m1 t1
    → (m1.queue ≡ []) ⊎ (active t1 ≡ 1) ⊎ ((active t ≡ 0) × (m1.queue ≡ m.queue))
Move-active (pop j b a e) = inr (inl refl)
Move-active (no_job e) = inl e
Move-active (enqueue j k) = inr (inl refl)
Move-active (finish j) = inr (inl refl)
Move-active go_idle = inr (inr (refl, refl))
Move-active (pop_idle j b a e) = inr (inl refl)
Move-active (still_none e) = inl e
Move-active (retry e) = inr (inr (refl, refl))
Move-active (leave e) = inr (inr (refl, refl))
Move-active (wake j) = inr (inl refl)

module _ {Job : Type 0} {n : ℕ} where
  pub Step-Inv : {s t : System Job} → Step s t → Inv n s → Inv n t
  Step-Inv {s} (pick b t a {t' = t1} e mv) inv = record {
    threads =
        omega (arith, inv.threads, ap length e, length-append b (t ∷ a), length-append b (t1 ∷ a));
    counted = omega (
      arith,
      inv.counted,
      ap (total resting) e,
      total-append resting b (t ∷ a),
      total-append resting b (t1 ∷ a),
      Move-counted mv
          (omega (arith, inv.counted, ap (total resting) e, total-append resting b (t ∷ a))),
    );
    looked_for = ground (
      arith,
      inv.looked_for,
      ap (total active) e,
      total-append active b (t ∷ a),
      total-append active b (t1 ∷ a),
      Move-active mv,
    );
  }

  -- Every reachable state.
  pub Reach-Inv : {s t : System Job} → Inv n s → Reach s t → Inv n t
  Reach-Inv h here = h
  Reach-Inv h (next r st) = Step-Inv st (Reach-Inv h r)

pub start-Inv :
    {Job : Type 0} {s : System Job} (n : ℕ) (jobs : List Job)
    → 0 < n
    → Reach (init n jobs) s
    → Inv n s
start-Inv n jobs h r = Reach-Inv (Inv-init n jobs h) r
