-- ===== src/JobQueue/Group.antt =====
-- src/tools/jobqueue.hpp: NumaJobQueueGroup, job queues whose threads assist each other, and
-- JobQueueT::try_run.
pub mod Laws
use parallel_string_sorting.Prelude.{
  ℕ, zero, suc, ◌+◌, ◌-◌, ◌/◌, ◌%◌, ◌^◌, List, [], ◌∷◌, Bool, true, false, not, leb, ltb, ◌==◌,
  if◌then◌else◌, length, get_or, set,
}

-- What try_run reads and changes of a queue: the jobs in the order in which `try_pop` hands them out,
-- m_idle_count and m_numthrs.
pub record JobQueue (Job : Type 0) : Type 0 where
  pub jobs : List Job
  pub idle : ℕ
  pub threads : ℕ

abbrev pub no_queue : {Job : Type 0} → JobQueue Job
no_queue = record { jobs = []; idle = 0; threads = 0 }

-- `if (++id >= m_queues.size()) id = 0;` in unsigned int.
abbrev pub next_id : ℕ → ℕ → ℕ
next_id size id = let i = (id + 1) % 2 ^ 32 in if leb size i then 0 else i

-- `run` is what a job does to the queue that it is run with.
module _ {Job : Type 0} (run : Job → JobQueue Job → JobQueue Job) where
  try_run_jobs : List Job → JobQueue Job → Bool × JobQueue Job
  try_run_jobs [] q = (not (q.idle == q.threads), q)
  try_run_jobs (j ∷ jobs) q = (true, run j (record q { jobs = jobs }))

  unfoldable pub try_run : JobQueue Job → Bool × JobQueue Job
  unfolding try_run_jobs
  try_run q = try_run_jobs q.jobs q

  -- The loop of assist, for the rounds that are left.
  pub assist_loop : ℕ → ℕ → List (JobQueue Job) → Bool × List (JobQueue Job)
  unfolding try_run
  assist_loop zero id queues = (false, queues)
  assist_loop (suc rounds) id queues =
      let id' = next_id (length queues) id in
      let (ran, q) = try_run (get_or queues id' no_queue) in
      let rest = assist_loop rounds id' (set queues id' q) in
      if ran then (true, set queues id' q) else rest

  unfoldable pub assist : ℕ → List (JobQueue Job) → Bool × List (JobQueue Job)
  unfolding assist_loop
  assist qid queues = assist_loop (length queues - 1) qid queues

-- How many of `threads` threads queue k of n gets.
unfoldable pub calc_thread_num : ℕ → ℕ → ℕ → ℕ
calc_thread_num threads k n =
    let per_node = threads / n in if ltb k (threads % n) then per_node + 1 else per_node

-- What numaLaunch starts queue k with: at least one thread.
unfoldable pub launch_threads : ℕ → ℕ → ℕ → ℕ
unfolding calc_thread_num
launch_threads threads k n = let t = calc_thread_num threads k n in if t == 0 then 1 else t
