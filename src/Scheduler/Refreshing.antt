-- ===== src/Scheduler/Refreshing.antt =====
-- components/scheduler/scheduler/scheduler.cpp: the set of jobs is reloaded while the scheduler runs.
--
-- What the provider of the job list does in a call is an argument. The event loop and the signals are Boost.Asio's.
use server_components.Common.Int.{leb_ℤ}
use server_components.Common.{
  ℕ, zero, suc, ◌≤◌, ◌≡◌, refl, sym, Bool, true, false, ◌&&◌, not, Option, none, some, List, [],
  ◌∷◌, arith, if◌then◌else◌, length, get_elem?, keep, inl, inr, Bool-cases, bytes_eq,
}
use server_components.Scheduler.Jobs.{
  Headers, ScheduledJob, ApiClient, JobScheduler, is_enabled, arm_all, register_job, set_jobs,
  start, stop, authenticate_targets, success, on_timer,
}

-- `operator==` of the jobs, member by member.
unfoldable pub headers_eq : Headers → Headers → Bool
headers_eq [] [] = true
headers_eq ((n, v) ∷ left) ((m, w) ∷ right) = bytes_eq n m && bytes_eq v w && headers_eq left right
headers_eq _ _ = false

unfoldable pub job_eq : ScheduledJob → ScheduledJob → Bool
job_eq a b =
    bytes_eq a.name b.name
    && bytes_eq a.method b.method
    && bytes_eq a.path b.path
    && (leb_ℤ a.interval_seconds b.interval_seconds && leb_ℤ b.interval_seconds a.interval_seconds)
    && bytes_eq a.server_url b.server_url
    && bytes_eq a.service_account_email b.service_account_email
    && bytes_eq a.service_account_password b.service_account_password
    && headers_eq a.headers b.headers

unfoldable pub jobs_eq : List ScheduledJob → List ScheduledJob → Bool
jobs_eq [] [] = true
jobs_eq (a ∷ left) (b ∷ right) = job_eq a b && jobs_eq left right
jobs_eq _ _ = false

pub record Scheduler (C : Type 0) : Type 0 where
  pub job_scheduler : JobScheduler C
  pub jobs : List ScheduledJob
  pub last_jobs : List ScheduledJob
  pub has_provider : Bool
  pub initialized : Bool

-- What a call of the provider returns, or that it throws a `std::exception`.
pub data Provided : Type 0 where
  provided : List ScheduledJob → Provided
  provider_threw : Provided

module _ {C : Type 0} (api : ApiClient C) where
  -- The loop of `Initialize`.
  unfoldable pub register_all : List ScheduledJob → JobScheduler C → JobScheduler C
  register_all [] s = s
  register_all (job ∷ jobs) s = register_all jobs (register_job job s)

  -- `Initialize`; `none` is the exception of a provider that throws. What the moved-from list keeps is not modelled.
  unfoldable pub initialize_with : List ScheduledJob → Scheduler C → Bool × Scheduler C
  initialize_with jobs s =
      let (all_ok, job_scheduler) = authenticate_targets api (register_all jobs s.job_scheduler) in
      (
        all_ok,
        record {
          job_scheduler = job_scheduler;
          jobs = jobs;
          last_jobs = if s.has_provider then jobs else s.last_jobs;
          has_provider = s.has_provider;
          initialized = if all_ok then true else s.initialized;
        },
      )

  unfoldable pub initialize : Provided → Scheduler C → Option (Bool × Scheduler C)
  initialize provider_threw s = if s.has_provider then none else some (initialize_with s.jobs s)
  initialize (provided jobs) s = some (initialize_with (if s.has_provider then jobs else s.jobs) s)

  -- `Stop`, `SetJobs`, `AuthenticateTargets`, `Start`.
  unfoldable pub reload : List ScheduledJob → JobScheduler C → JobScheduler C
  reload next s = start (authenticate_targets api (set_jobs next (stop s))).1

  -- `Refresh`: whether the jobs were reloaded.
  unfoldable pub refresh : Provided → Scheduler C → Bool × Scheduler C
  refresh provider_threw s = (false, s)
  refresh (provided next) s =
      if not s.has_provider then (false, s) else if jobs_eq next s.last_jobs then (false, s) else (
        true,
        record {
          job_scheduler = reload next s.job_scheduler;
          jobs = s.jobs;
          last_jobs = next;
          has_provider = true;
          initialized = s.initialized;
        },
      )

  reload_lem :
      (next : List ScheduledJob) (s : JobScheduler C)
      → let after = reload next s in
        (after.jobs ≡ keep is_enabled next)
        × (after.started ≡ true)
        × (after.timers ≡ arm_all (keep is_enabled next))
  unfolding reload start stop set_jobs authenticate_targets
  reload_lem next s = (refl, refl, refl)

  -- A refresh whose provider throws changes nothing. One that reloads the jobs remembers the new list, keeps exactly its
  -- enabled jobs, and arms a timer for every one of them, also for those whose target failed to log in.
  pub refresh_lem :
      (answer : Provided) (s : Scheduler C)
      → let (reloaded, after) = refresh answer s in
        (reloaded ≡ false → after ≡ s)
        × (reloaded ≡ true
            → (answer ≡ provided after.last_jobs)
              × (after.job_scheduler.jobs ≡ keep is_enabled after.last_jobs)
              × (after.job_scheduler.started ≡ true)
              × (after.job_scheduler.timers ≡ arm_all (keep is_enabled after.last_jobs)))
  unfolding refresh
  refresh_lem provider_threw s = ((λ e. refl), λ e. cc)
  refresh_lem (provided next) s = elim (Bool-cases s.has_provider) [
    | inr alone ↦ rw alone ((λ e. refl), λ e. cc)
    | inl asks ↦ elim (Bool-cases (jobs_eq next s.last_jobs)) [
      | inl same ↦ rw (asks, same) ((λ e. refl), λ e. cc)
      | inr changed ↦
          rw (asks, changed)
            (
              (λ e. cc),
              λ e.
                  let (jobs, on, timers) = reload_lem next s.job_scheduler in
                  (refl, jobs, on, timers),
            )
    ]
  ]

  get_elem?-beyond : {A : Type 0} (xs : List A) (i : ℕ) → length xs ≤ i → get_elem? xs i ≡ none
  get_elem?-beyond [] i h = refl
  get_elem?-beyond (x ∷ xs) zero h = absurd (omega arith)
  get_elem?-beyond (x ∷ xs) (suc i) h = get_elem?-beyond xs i (omega arith)

  on_timer-beyond :
      (i : ℕ) (s : JobScheduler C)
      → s.started ≡ true
      → get_elem? s.jobs i ≡ none
      → on_timer api success i s ≡ none
  unfolding on_timer
  on_timer-beyond i s on e = rw on cc

  -- A wait that had come due before a refresh that reloads, and whose handler runs after it, reads the list of jobs out of
  -- range when the new list has no job of its index.
  pub refresh-stale_timer :
      (next : List ScheduledJob) (s : Scheduler C) (i : ℕ)
      → (refresh (provided next) s).0 ≡ true
      → length (keep is_enabled next) ≤ i
      → on_timer api success i (refresh (provided next) s).1.job_scheduler ≡ none
  refresh-stale_timer next s i reloaded short =
      let after = (refresh (provided next) s).1 in
      let (asked, jobs, on, timers) = (refresh_lem (provided next) s).1 reloaded in
      let listed : next ≡ after.last_jobs = cc in
      on_timer-beyond i after.job_scheduler on
        (get_elem?-beyond after.job_scheduler.jobs i (rw (jobs, sym listed) short))
