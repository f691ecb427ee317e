-- ===== src/Scheduler/Jobs/Timers.antt =====
-- Which job the timer of an index runs, and that the timers fit the jobs.
use mathlib.Core.Option
use server_components.Common.{
  ℕ, zero, suc, ◌≡◌, refl, ap, ◌∙◌, true, false, Option, none, some, List, [], ◌∷◌, arith,
  get_elem?, inl, inr, Bool-cases, Bytes, bytes_eq, bytes_eq_refl, take, any,
}
use server_components.Scheduler.Jobs.{
  ScheduledJob, ApiClient, JobScheduler, find_job, schedule_next, run_found, run_job_once, success,
  on_timer,
}

-- The job of an index is found by its name when no job before it has that name.
find_job-at :
    (jobs : List ScheduledJob) (i : ℕ) (job : ScheduledJob)
    → get_elem? jobs i ≡ some job
    → any (λ j. bytes_eq j.name job.name) (take i jobs) ≡ false
    → find_job job.name jobs ≡ some job
unfolding find_job
find_job-at [] i job e n = cc
find_job-at (j ∷ jobs) zero job e n =
    let same : j ≡ job = cc in rw same (rw (bytes_eq_refl job.name) refl)
find_job-at (j ∷ jobs) (suc i) job e n =
    let other : bytes_eq j.name job.name ≡ false = ground arith in
    rw other (find_job-at jobs i job e (ground arith))

find_job-earlier :
    (jobs : List ScheduledJob) (i : ℕ) (name : Bytes)
    → any (λ j. bytes_eq j.name name) (take i jobs) ≡ true
    → find_job name jobs ≡ find_job name (take i jobs)
unfolding find_job
find_job-earlier jobs zero name e = cc
find_job-earlier [] (suc i) name e = refl
find_job-earlier (j ∷ jobs) (suc i) name e = elim (Bool-cases (bytes_eq j.name name)) [
  | inl own ↦ rw own
  | inr other ↦ rw other (find_job-earlier jobs i name (ground arith))
]

module _ {C : Type 0} (api : ApiClient C) where
  on_timer-runs :
      (i : ℕ) (s : JobScheduler C) (job : ScheduledJob)
      → s.started ≡ true
      → get_elem? s.jobs i ≡ some job
      → on_timer api success i s
        ≡ Option.map (λ r. schedule_next i r.1) (run_job_once api job.name s)
  unfolding on_timer
  on_timer-runs i s job on e = rw on (cc)

  run_job_once-found :
      (name : Bytes) (s : JobScheduler C) (job : ScheduledJob)
      → find_job name s.jobs ≡ some job
      → run_job_once api name s ≡ some (run_found api job s)
  unfolding run_job_once
  run_job_once-found name s job e = cc

  run_job_once-map :
      {A : Type 0} (f : JobScheduler C → A) (name : Bytes) (s : JobScheduler C)
      (found : Option ScheduledJob)
      → find_job name s.jobs ≡ found
      → Option.map (λ r. f r.1) (run_job_once api name s)
        ≡ Option.map (λ job. f (run_found api job s).1) found
  unfolding run_job_once
  run_job_once-map f name s none e = cc
  run_job_once-map f name s (some job) e = cc

  -- When the timer of a job comes due it runs that job, and arms the timer again, if no job before it in the list has its
  -- name. If one has, the timer runs the first job of the name instead, and its own job never runs.
  pub on_timer_lem :
      (i : ℕ) (s : JobScheduler C) (job : ScheduledJob)
      → s.started ≡ true
      → get_elem? s.jobs i ≡ some job
      → let namesakes = any (λ j. bytes_eq j.name job.name) (take i s.jobs) in
        (namesakes ≡ false
          → on_timer api success i s ≡ some (schedule_next i (run_found api job s).1))
        × (namesakes ≡ true
            → on_timer api success i s
              ≡ Option.map
                  (λ first. schedule_next i (run_found api first s).1)
                  (find_job job.name (take i s.jobs)))
  on_timer_lem i s job on here = (
    λ alone.
        on_timer-runs i s job on here
        ∙ ap (Option.map (λ r. schedule_next i r.1))
            (run_job_once-found job.name s job (find_job-at s.jobs i job here alone)),
    λ shared.
        on_timer-runs i s job on here
        ∙ run_job_once-map (schedule_next i) job.name s (find_job job.name (take i s.jobs))
            (find_job-earlier s.jobs i job.name shared),
  )
