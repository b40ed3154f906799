-- ===== src/Examples/Jobs.antt =====
-- The job queue: executions of one and two threads, and queues that assist each other.
use parallel_string_sorting.Prelude.{
  ℕ, ◌+◌, ◌/◌, ◌≤◌, ◌<◌, List, [], ◌∷◌, ◌++◌, false, ◌≡◌, ◌≢◌, ◌⊎◌, ◌↔◌, refl, arith, All, get_or,
}
use Prim.Native.Nat.{max}
use parallel_string_sorting.JobQueue.{
  Thread, busy, running, emptied, polling, checking, woken, returned, pop, no_job, enqueue, finish,
  go_idle, pop_idle, still_none, leave, System, pick, init, Reach, here, next, all_spawned,
  all_ended,
}
use parallel_string_sorting.JobQueue.Invariant.{resting}
use parallel_string_sorting.JobQueue.Safety.{SameJobs, all_held, jobs_kept, jobs_done, leave_iff}
use parallel_string_sorting.JobQueue.Drain.{can_finish}
use parallel_string_sorting.JobQueue.Group.{
  JobQueue, no_queue, assist, calc_thread_num, launch_threads,
}
use parallel_string_sorting.JobQueue.Group.Laws.{
  IsFinished, Assisted, sum_below, assist_lem, calc_thread_num-shares,
}

-- One thread runs job 7, which enqueues job 3, and that one.
abbrev last_run : System ℕ
last_run = record { mem = record { queue = []; idle = 1 }; threads = returned ∷ [] }

abbrev one_thread : Reach (init 1 (7 ∷ [])) last_run
one_thread =
    let first = pick [] busy [] refl (pop 7 [] [] refl) in
    let second = pick [] busy [] refl (pop 3 [] [] refl) in
    next
      (next
        (next
          (next
            (next
              (next
                (next (next (next here first) (pick [] (running 7) [] refl (enqueue 7 3)))
                  (pick [] (running 7) [] refl (finish 7)))
                second)
              (pick [] (running 3) [] refl (finish 3)))
            (pick [] busy [] refl (no_job refl)))
          (pick [] emptied [] refl go_idle))
        (pick [] polling [] refl (still_none refl)))
      (pick [] checking [] refl (leave refl))

one_thread-jobs : (all_spawned one_thread ≡ 3 ∷ []) × (all_ended one_thread ≡ 3 ∷ 7 ∷ [])
unfolding all_spawned all_ended
one_thread-jobs = (refl, refl)

jobs_kept_example :
    SameJobs
      ((7 ∷ []) ++ all_spawned one_thread)
      (last_run.mem.queue ++ all_held last_run.threads ++ all_ended one_thread)
jobs_kept_example = jobs_kept 1 (7 ∷ []) one_thread

jobs_done_example :
    (last_run.mem.queue ≡ []) × SameJobs (all_ended one_thread) ((7 ∷ []) ++ all_spawned one_thread)
jobs_done_example = jobs_done 1 (7 ∷ []) one_thread (omega arith) (refl, tt)

leave_iff_example : (last_run.mem.idle ≡ 1) ↔ All (λ t. resting t ≡ 1) last_run.threads
leave_iff_example = leave_iff 1 (7 ∷ []) one_thread (omega arith)

can_finish_example :
    (t : System ℕ) × Reach (init 2 (7 ∷ 3 ∷ [])) t × All (λ x. x ≡ returned) t.threads
can_finish_example = can_finish 2 (7 ∷ 3 ∷ []) (omega arith) here

-- The second thread leaves while the first holds a job that it has popped in the idle loop, and that
-- may enqueue others.
early_leave :
    Reach {Job = ℕ}
      (init 2 (7 ∷ []))
      (record { mem = record { queue = []; idle = 2 }; threads = woken 5 ∷ returned ∷ [] })
early_leave =
    let one = λ (t : Thread ℕ). t ∷ [] in
    let taken = next here (pick (one busy) busy [] refl (pop 7 [] [] refl)) in
    let rests =
      next (next taken (pick [] busy (one (running 7)) refl (no_job refl)))
        (pick [] emptied (one (running 7)) refl go_idle) in
    let handed =
      next (next rests (pick (one polling) (running 7) [] refl (enqueue 7 5)))
        (pick [] polling (one (running 7)) refl (pop_idle 5 [] [] refl)) in
    next
      (next
        (next
          (next (next handed (pick (one (woken 5)) (running 7) [] refl (finish 7)))
            (pick (one (woken 5)) busy [] refl (no_job refl)))
          (pick (one (woken 5)) emptied [] refl go_idle))
        (pick (one (woken 5)) polling [] refl (still_none refl)))
      (pick (one (woken 5)) checking [] refl (leave refl))

-- Three queues: the own one, a finished one, and one with a job, which enqueues another.
abbrev queues : List (JobQueue ℕ)
queues =
    record { jobs = 4 ∷ []; idle = 0; threads = 2 }
    ∷ record { jobs = []; idle = 2; threads = 2 }
    ∷ record { jobs = 9 ∷ []; idle = 1; threads = 2 }
    ∷ []

abbrev run_job : ℕ → JobQueue ℕ → JobQueue ℕ
run_job j q = record q { jobs = q.jobs ++ (j + 1) ∷ [] }

assist-run :
    (assist run_job 0 queues).1
    ≡ record { jobs = 4 ∷ []; idle = 0; threads = 2 }
      ∷ record { jobs = []; idle = 2; threads = 2 }
      ∷ record { jobs = 10 ∷ []; idle = 1; threads = 2 }
      ∷ []
unfolding assist
assist-run = refl

assist_lem_example :
    ((assist run_job 0 queues ≡ (false, queues))
      × ((j : ℕ) → j < 3 → j ≢ 0 → IsFinished (get_or queues j no_queue)))
    ⊎ Assisted run_job queues 0 2 (assist run_job 0 queues)
assist_lem_example = assist_lem run_job 0 queues (omega arith) (omega arith)

calc_thread_num-run : (calc_thread_num 10 0 3 ≡ 4) × (calc_thread_num 10 2 3 ≡ 3)
unfolding calc_thread_num
calc_thread_num-run = (refl, refl)

calc_thread_num-shares_example :
    (sum_below 3 (λ k. calc_thread_num 10 k 3) ≡ 10)
    × ((k : ℕ)
        → (10 / 3 ≤ calc_thread_num 10 k 3)
          × (calc_thread_num 10 k 3 ≤ 10 / 3 + 1)
          × (launch_threads 10 k 3 ≡ max 1 (calc_thread_num 10 k 3)))
calc_thread_num-shares_example = calc_thread_num-shares 10 3 (omega arith)
