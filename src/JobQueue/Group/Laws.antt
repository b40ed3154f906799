-- ===== src/JobQueue/Group/Laws.antt =====
-- The queues are visited round-robin, each other queue once; the threads are all handed out.
use parallel_string_sorting.Prelude.{
  ℕ, zero, suc, ◌+◌, ◌-◌, ◌*◌, ◌/◌, ◌%◌, ◌^◌, ◌≤◌, ◌<◌, List, [], ◌∷◌, Bool, true, false, ltb, ◌==◌,
  if◌then◌else◌, length, get_or, set, ◌≡◌, ◌⊎◌, inl, inr, refl, ap, arith, Bool-cases, ◌≢◌, min,
}
use Prim.Native.Nat.{max}
use native.Mathlib.Decide.{dec_lt}
use native.Mathlib.Nat.{div-add-mod, mod-lt}
use parallel_string_sorting.JobQueue.Group.{
  JobQueue, no_queue, try_run, try_run_jobs, next_id, assist_loop, assist, calc_thread_num,
  launch_threads,
}

-- The k-th queue behind `id`, going round.
abbrev pub behind : ℕ → ℕ → ℕ → ℕ
behind size id k = if ltb (id + k) size then id + k else id + k - size

-- What try_run takes for a finished queue: no job, and an idle count that is the number of threads.
pub record IsFinished {Job : Type 0} (q : JobQueue Job) : Type 0 where
  pub jobs : q.jobs ≡ []
  pub idle : q.idle ≡ q.threads

set_self {ℓ} : {A : Type ℓ} (xs : List A) (i : ℕ) (d : A) → set xs i (get_or xs i d) ≡ xs
set_self [] i d = refl
set_self (x ∷ xs) zero d = refl
set_self (x ∷ xs) (suc i) d = ap (◌∷◌ x) (set_self xs i d)

module _ {Job : Type 0} (run : Job → JobQueue Job → JobQueue Job) where
  -- What a successful try_run makes of a queue: it runs the first job, or it finds no job, but not all
  -- threads idle, and changes nothing.
  abbrev pub HasRunJobs : List Job → JobQueue Job → JobQueue Job → Type 0
  HasRunJobs [] old new = (old.idle ≢ old.threads) × (new ≡ old)
  HasRunJobs (j ∷ js) old new = new ≡ run j (record old { jobs = js })

  abbrev pub HasRun : JobQueue Job → JobQueue Job → Type 0
  HasRun old new = HasRunJobs old.jobs old new

  -- try_run fails on queues that it takes for finished, and leaves them as they are.
  try_run_lem :
      (q : JobQueue Job)
      → ((try_run run q ≡ (false, q)) × IsFinished q)
        ⊎ ((r : JobQueue Job) × (try_run run q ≡ (true, r)) × HasRun q r)
  unfolding try_run
  try_run_lem q = by_jobs q.jobs q refl
    where
      by_jobs :
          (js : List Job) (q : JobQueue Job)
          → q.jobs ≡ js
          → ((try_run_jobs run js q ≡ (false, q)) × IsFinished q)
            ⊎ ((r : JobQueue Job) × (try_run_jobs run js q ≡ (true, r)) × HasRunJobs js q r)
      by_jobs [] q e = elim (Bool-cases (q.idle == q.threads)) [
        | inl done ↦ inl (rw done refl, record { jobs = e; idle = ground arith })
        | inr more ↦ inr (q, rw more refl, ((λ f. ground (arith, f)), refl))
      ]
      by_jobs (j ∷ js) q e = inr (run j (record q { jobs = js }), refl, refl)

  -- try_run takes all queues behind `id`, up to the last of the rounds, for finished.
  abbrev pub AllFinished : List (JobQueue Job) → ℕ → ℕ → Type 0
  AllFinished queues id rounds =
      (i : ℕ)
      → 0 < i
      → i ≤ rounds
      → IsFinished (get_or queues (behind (length queues) id i) no_queue)

  -- The k-th queue behind `id` is the first that try_run does not take for finished; it alone may have
  -- changed, by a run of its first job.
  pub record Assisted (queues : List (JobQueue Job)) (id rounds : ℕ)
      (result : Bool × List (JobQueue Job)) : Type 0 where
    pub k : ℕ
    pub q : JobQueue Job
    pub positive : 0 < k
    pub within : k ≤ rounds
    pub others : AllFinished queues id (k - 1)
    pub ran : HasRun (get_or queues (behind (length queues) id k) no_queue) q
    pub result_eq : result ≡ (true, set queues (behind (length queues) id k) q)

  next_id-eq-behind : (size id : ℕ) → id < size → size < 2 ^ 32 → next_id size id ≡ behind size id 1
  next_id-eq-behind size id h small = ground arith

  behind-behind :
      (size id k : ℕ)
      → id < size
      → k < size
      → behind size (behind size id 1) k ≡ behind size id (suc k)
  behind-behind size id k h g = ground arith

  behind-lt : (size id : ℕ) → id < size → behind size id 1 < size
  behind-lt size id h = ground arith

  assist_loop_lem :
      (rounds id : ℕ) (queues : List (JobQueue Job))
      → id < length queues
      → length queues < 2 ^ 32
      → rounds < length queues
      → ((assist_loop run rounds id queues ≡ (false, queues)) × AllFinished queues id rounds)
        ⊎ Assisted queues id rounds (assist_loop run rounds id queues)
  unfolding assist_loop
  assist_loop_lem zero id queues h small r = inl (refl, λ i p l. absurd (omega arith))
  assist_loop_lem (suc rounds) id queues h small r =
      let size = length queues in
      let b = behind size id 1 in
      let e = next_id-eq-behind size id h small in
      rw e (elim (try_run_lem (get_or queues b no_queue)) [
        | inl (none, fin) ↦
            rw (none, set_self queues b no_queue)
              (elim (assist_loop_lem rounds b queues (behind-lt size id h) small (omega arith)) [
                | inl (left, all) ↦ inl (left, shift rounds fin all (omega arith))
                | inr a ↦ inr (record {
                  k = suc a.k;
                  q = a.q;
                  positive = omega arith;
                  within = omega (arith, a.within);
                  others =
                      let f = shift (a.k - 1) fin a.others (omega (arith, a.within)) in
                      λ i p l. f i p (omega (arith, a.positive));
                  ran = rw (behind-behind size id a.k h (omega (arith, a.within))) at (a.ran);
                  result_eq =
                      rw (behind-behind size id a.k h (omega (arith, a.within))) at (a.result_eq);
                })
              ])
        | inr (q, some, ran) ↦ inr (record {
          k = 1;
          q = q;
          positive = omega arith;
          within = omega arith;
          others = λ i p l. absurd (omega arith);
          ran = ran;
          result_eq = rw some refl;
        })
      ])
    where
      shift :
          (n : ℕ)
          → IsFinished (get_or queues (behind (length queues) id 1) no_queue)
          → AllFinished queues (behind (length queues) id 1) n
          → n < length queues
          → AllFinished queues id (suc n)
      shift n fin all lt zero p l = absurd (omega arith)
      shift n fin all lt (suc zero) p l = fin
      shift n fin all lt (suc (suc i)) p l =
          rw (← behind-behind (length queues) id (suc i) h (omega arith))
            (all (suc i) (omega arith) (omega arith))

  behind-onto :
      (size id j : ℕ)
      → id < size
      → j < size
      → j ≢ id
      → (i : ℕ) × (0 < i) × (i ≤ size - 1) × (behind size id i ≡ j)
  behind-onto size id j h g d = elim (dec_lt id j) [
    | yes l ↦ (j - id, omega arith, omega arith, ground arith)
    | no l ↦ (j + size - id, ground arith, ground arith, ground arith)
  ]

  -- assist gives up only when every other queue has no job and an idle count that is the number of its
  -- threads, and changes nothing then; otherwise it succeeds at the first other queue, going round
  -- from the own one, of which that is not so: it runs the first job of that queue, or, if there is
  -- none, changes nothing, and it changes no other queue.
  pub assist_lem :
      (qid : ℕ) (queues : List (JobQueue Job))
      → qid < length queues
      → length queues < 2 ^ 32
      → ((assist run qid queues ≡ (false, queues))
          × ((j : ℕ) → j < length queues → j ≢ qid → IsFinished (get_or queues j no_queue)))
        ⊎ Assisted queues qid (length queues - 1) (assist run qid queues)
  unfolding assist
  assist_lem qid queues h small =
      elim (assist_loop_lem (length queues - 1) qid queues h small (omega arith)) [
        | inl (left, all) ↦ inl (
          left,
          λ j g d.
              let (i, p, l, e) = behind-onto (length queues) qid j h g d in rw e at (all i p l),
        )
        | inr a ↦ inr a
      ]

-- The sum of f at the numbers below n.
abbrev pub sum_below : ℕ → (ℕ → ℕ) → ℕ
sum_below zero f = 0
sum_below (suc n) f = sum_below n f + f n

sum-calc_thread_num :
    (threads n m : ℕ)
    → sum_below m (λ k. calc_thread_num threads k n) ≡ m * (threads / n) + min m (threads % n)
unfolding calc_thread_num
sum-calc_thread_num threads n zero = omega arith
sum-calc_thread_num threads n (suc m) =
    let ih = sum-calc_thread_num threads n m in
    let q = threads / n in let e : suc m * q ≡ m * q + q = grind arith in ground arith

-- One or more queues share the threads: together they get all of them, no two differ by more than
-- one, and numaLaunch starts each with what it gets, or with one thread if that is none.
pub calc_thread_num-shares :
    (threads n : ℕ)
    → 0 < n
    → (sum_below n (λ k. calc_thread_num threads k n) ≡ threads)
      × ((k : ℕ)
          → (threads / n ≤ calc_thread_num threads k n)
            × (calc_thread_num threads k n ≤ threads / n + 1)
            × (launch_threads threads k n ≡ max 1 (calc_thread_num threads k n)))
unfolding calc_thread_num launch_threads
calc_thread_num-shares threads n h = (
  omega (arith, sum-calc_thread_num threads n n, div-add-mod threads n, mod-lt threads h),
  λ k. ground arith,
)
