-- ===== src/JobQueue.antt =====
-- src/tools/jobqueue.hpp: the job queue. The threads of one queue run executeThreadWork, interleaved
-- in any order, one access to the shared queue or counter at a time.
pub mod Invariant
pub mod Safety
pub mod Drain
pub mod Group
use parallel_string_sorting.Prelude.{
  ℕ, zero, suc, ◌+◌, ◌-◌, List, [], ◌∷◌, ◌++◌, ◌≡◌, ◌≢◌, length, replicate,
}

-- What the threads share: the jobs in the queue, in some order, and m_idle_count.
pub record Shared (Job : Type 0) : Type 0 where
  pub queue : List Job
  pub idle : ℕ

-- Where a thread stands in executeThreadWork.
pub data Thread (Job : Type 0) : Type 0 where
  busy : Thread Job  -- at `try_pop` of the inner loop
  running : Job → Thread Job  -- in `job->run`
  emptied : Thread Job  -- before `++m_idle_count`
  polling : Thread Job  -- at `try_pop` of the idle loop
  checking : Thread Job  -- at the test of m_idle_count
  woken : Job → Thread Job  -- before `--m_idle_count`
  returned : Thread Job

-- One step of one thread of n. `try_pop` takes some job of the queue, and fails if it is empty. A
-- running job may enqueue jobs, and may end at any time. The default group assists nobody.
pub data Move {Job : Type 0} (n : ℕ) (m : Shared Job)
    : Thread Job → Shared Job → Thread Job → Type 0 where
  pop :
      (j : Job) (before after : List Job)
      → m.queue ≡ before ++ j ∷ after
      → Move n m busy (record m { queue = before ++ after }) (running j)
  no_job : m.queue ≡ [] → Move n m busy m emptied
  enqueue : (j k : Job) → Move n m (running j) (record m { queue = k ∷ m.queue }) (running j)
  finish : (j : Job) → Move n m (running j) m busy
  go_idle : Move n m emptied (record m { idle = m.idle + 1 }) polling
  pop_idle :
      (j : Job) (before after : List Job)
      → m.queue ≡ before ++ j ∷ after
      → Move n m polling (record m { queue = before ++ after }) (woken j)
  still_none : m.queue ≡ [] → Move n m polling m checking
  retry : m.idle ≢ n → Move n m checking m polling
  leave : m.idle ≡ n → Move n m checking m returned
  wake : (j : Job) → Move n m (woken j) (record m { idle = m.idle - 1 }) (running j)

-- The queue with all its threads.
pub record System (Job : Type 0) : Type 0 where
  pub mem : Shared Job
  pub threads : List (Thread Job)

-- A step of the thread between `before` and `after`. m_numthrs is the number of threads.
pub data Step {Job : Type 0} (s : System Job) : System Job → Type 0 where
  pick :
      (before : List (Thread Job)) (t : Thread Job) (after : List (Thread Job)) {m : Shared Job}
      {t' : Thread Job}
      → s.threads ≡ before ++ t ∷ after
      → Move (length s.threads) s.mem t m t'
      → Step s (record { mem = m; threads = before ++ t' ∷ after })

-- What `loop` starts n threads with.
abbrev pub init : {Job : Type 0} → ℕ → List Job → System Job
init n jobs = record {
  mem = record { queue = jobs; idle = 0 };
  threads = replicate n (Thread.busy);
}

-- Several steps.
pub data Reach {Job : Type 0} (s : System Job) : System Job → Type 0 where
  here : Reach s s
  next : {t u : System Job} → Reach s t → Step t u → Reach s u

-- The jobs that a step enqueues, and those whose run it ends.
abbrev pub spawned :
    {Job : Type 0} {n : ℕ} {m m1 : Shared Job} {t t1 : Thread Job} → Move n m t m1 t1 → List Job
spawned (Move.enqueue j k) = k ∷ []
spawned _ = []

abbrev pub ended :
    {Job : Type 0} {n : ℕ} {m m1 : Shared Job} {t t1 : Thread Job} → Move n m t m1 t1 → List Job
ended (Move.finish j) = j ∷ []
ended _ = []

-- The same of an execution.
unfoldable pub all_spawned : {Job : Type 0} {s t : System Job} → Reach s t → List Job
all_spawned here = []
all_spawned (next r (pick _ _ _ _ mv)) = spawned mv ++ all_spawned r

unfoldable pub all_ended : {Job : Type 0} {s t : System Job} → Reach s t → List Job
all_ended here = []
all_ended (next r (pick _ _ _ _ mv)) = ended mv ++ all_ended r
