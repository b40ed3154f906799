-- ===== src/JobQueue/Safety.antt =====
-- No job is lost, no job runs twice, and threads leave only when all have found the queue empty.
use parallel_string_sorting.Prelude.{
  ℕ, ◌+◌, ◌≤◌, ◌<◌, List, [], ◌∷◌, ◌++◌, ◌≡◌, refl, sym, ap, ◌↔◌, length, arith, All,
}
use parallel_string_sorting.JobQueue.{
  Shared, Thread, busy, running, woken, returned, Move, pop, no_job, enqueue, finish, go_idle,
  pop_idle, still_none, retry, leave, wake, System, pick, init, Reach, here, next, spawned, ended,
  all_spawned, all_ended,
}
use parallel_string_sorting.JobQueue.Invariant.{
  total, total-append, total-replicate, resting, active, start-Inv,
}

-- Two lists hold the same jobs, each as often: every weight of jobs has the same sum.
abbrev pub SameJobs : {Job : Type 0} → List Job → List Job → Type 0
SameJobs {Job} xs ys = (w : Job → ℕ) → total w xs ≡ total w ys

-- The job that a thread has popped and not finished.
abbrev pub held : {Job : Type 0} → Thread Job → List Job
held (running j) = j ∷ []
held (woken j) = j ∷ []
held _ = []

abbrev pub all_held : {Job : Type 0} → List (Thread Job) → List Job
all_held [] = []
all_held (t ∷ ts) = held t ++ all_held ts

module _ {Job : Type 0} (w : Job → ℕ) where
  weight-all_held :
      (ts : List (Thread Job)) → total w (all_held ts) ≡ total (λ t. total w (held t)) ts
  weight-all_held [] = refl
  weight-all_held (t ∷ ts) =
      omega (arith, total-append w (held t) (all_held ts), weight-all_held ts)

  Move-weight :
      {n : ℕ} {m m1 : Shared Job} {t t1 : Thread Job} (mv : Move n m t m1 t1)
      → total w m.queue + total w (held t) + total w (spawned mv)
        ≡ total w m1.queue + total w (held t1) + total w (ended mv)
  Move-weight (pop j b a e) =
      omega (arith, ap (total w) e, total-append w b (j ∷ a), total-append w b a)
  Move-weight (no_job e) = omega arith
  Move-weight (enqueue j k) = omega arith
  Move-weight (finish j) = omega arith
  Move-weight go_idle = omega arith
  Move-weight (pop_idle j b a e) =
      omega (arith, ap (total w) e, total-append w b (j ∷ a), total-append w b a)
  Move-weight (still_none e) = omega arith
  Move-weight (retry e) = omega arith
  Move-weight (leave e) = omega arith
  Move-weight (wake j) = omega arith

  Reach-weight :
      {s u : System Job} (r : Reach s u)
      → total w s.mem.queue + total (λ t. total w (held t)) s.threads + total w (all_spawned r)
        ≡ total w u.mem.queue + total (λ t. total w (held t)) u.threads + total w (all_ended r)
  unfolding all_spawned all_ended
  Reach-weight here = refl
  Reach-weight (next r (pick b t a {t' = t1} e mv)) =
      let own = λ (x : Thread Job). total w (held x) in
      omega (
        arith,
        Reach-weight r,
        Move-weight mv,
        ap (total own) e,
        total-append own b (t ∷ a),
        total-append own b (t1 ∷ a),
        total-append w (spawned mv) (all_spawned r),
        total-append w (ended mv) (all_ended r),
      )

-- At any time of any execution of n threads, the jobs of the start and those that were enqueued are
-- the jobs in the queue, those that a thread holds and those whose run has ended, each as often.
pub jobs_kept :
    {Job : Type 0} {s : System Job} (n : ℕ) (jobs : List Job) (r : Reach (init n jobs) s)
    → SameJobs (jobs ++ all_spawned r) (s.mem.queue ++ all_held s.threads ++ all_ended r)
jobs_kept {s} n jobs r w =
    let own = λ (x : Thread _). total w (held x) in
    omega (
      arith,
      Reach-weight w r,
      total-append w jobs (all_spawned r),
      total-append w s.mem.queue (all_held s.threads),
      total-append w (s.mem.queue ++ all_held s.threads) (all_ended r),
      weight-all_held w s.threads,
      total-replicate own n busy refl,
    )

nobody_active :
    {Job : Type 0} (ts : List (Thread Job))
    → All (λ t. t ≡ returned) ts
    → (total active ts ≡ 0) × (all_held ts ≡ [])
nobody_active [] h = (refl, refl)
nobody_active (t ∷ ts) h =
    let (a, b) = nobody_active ts h.1 in (omega (arith, ap active h.0), rw (h.0, b) refl)

-- When all threads have left, the queue is empty, and the jobs whose run has ended are those of the
-- start and those that were enqueued, each as often: none is lost, and none has run twice.
pub jobs_done :
    {Job : Type 0} {s : System Job} (n : ℕ) (jobs : List Job) (r : Reach (init n jobs) s)
    → 0 < n
    → All (λ t. t ≡ returned) s.threads
    → (s.mem.queue ≡ []) × SameJobs (all_ended r) (jobs ++ all_spawned r)
jobs_done {s} n jobs r h gone =
    let (quiet, free) = nobody_active s.threads gone in
    let empty : s.mem.queue ≡ [] = ground (arith, (start-Inv n jobs h r).looked_for) in
    (empty, λ w. sym (rw (empty, free) at (jobs_kept n jobs r w)))

resting-le : {Job : Type 0} (t : Thread Job) → resting t ≤ 1
resting-le t = ground arith

resting_iff :
    {Job : Type 0} (ts : List (Thread Job))
    → (total resting ts ≤ length ts)
      × ((total resting ts ≡ length ts) ↔ All (λ t. resting t ≡ 1) ts)
resting_iff [] = (omega arith, (λ e. tt, λ h. refl))
resting_iff (t ∷ ts) =
    let (le, iff) = resting_iff ts in
    (
      omega (arith, resting-le t),
      (
        λ e. (omega (arith, resting-le t), iff.0 (omega (arith, resting-le t))),
        λ h. omega (arith, h.0, iff.1 h.1),
      ),
    )

-- The test by which a thread leaves holds exactly when every thread is outside the inner loop: none
-- of them is about to pop a job there, runs one, or has not been counted yet. (One may have just
-- popped a job in the idle loop.)
pub leave_iff :
    {Job : Type 0} {s : System Job} (n : ℕ) (jobs : List Job)
    → Reach (init n jobs) s
    → 0 < n
    → (s.mem.idle ≡ n) ↔ All (λ t. resting t ≡ 1) s.threads
leave_iff {s} n jobs r h =
    let inv = start-Inv n jobs h r in
    let (le, iff) = resting_iff s.threads in
    (
      λ e. iff.0 (omega (arith, inv.counted, inv.threads)),
      λ a. omega (arith, iff.1 a, inv.counted, inv.threads),
    )
