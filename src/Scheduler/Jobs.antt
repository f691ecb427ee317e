-- ===== src/Scheduler/Jobs.antt =====
-- components/scheduler/scheduler/job_scheduler.cpp: the registered jobs, the sessions of their targets, the timers.
--
-- The client of a target (api_client.cpp) is an interface over its state. A timer is unarmed, or waits for a number of
-- seconds; a completion is what Boost.Asio hands to the handler of a wait.
pub mod Keys
pub mod Targets
pub mod Timers
use mathlib.Core.Option
use server_components.Common.Int.{ℤ, pos, negsuc, leb_ℤ}
use server_components.Common.{
  ℕ, zero, suc, Bool, true, false, ◌&&◌, ◌||◌, not, Option, none, some, List, [], ◌∷◌, ◌++◌, map,
  if◌then◌else◌, leb, ltb, length, get_elem?, set, any, keep, Bytes, bytes, bytes_eq,
}

abbrev pub Headers : Type 0
Headers = List (Bytes × Bytes)

pub record ScheduledJob : Type 0 where
  pub name : Bytes
  pub method : Bytes
  pub path : Bytes
  pub interval_seconds : ℤ
  pub server_url : Bytes
  pub service_account_email : Bytes
  pub service_account_password : Bytes
  pub headers : Headers

pub record JobExecutionResult : Type 0 where
  pub job_name : Bytes
  pub status_code : ℕ
  pub success : Bool
  pub error_message : Bytes

-- A call: the status of the response, or what was thrown.
pub data CallResult : Type 0 where
  response : ℕ → CallResult
  std_exception : Bytes → CallResult
  unknown_exception : CallResult

pub record ApiClient (C : Type 0) : Type 0 where
  pub make_client : Bytes → Headers → C
  pub login : Bytes → Bytes → C → Bool × C
  pub call_endpoint : Bytes → Bytes → Headers → C → CallResult × C

pub record JobScheduler (C : Type 0) : Type 0 where
  pub jobs : List ScheduledJob
  pub clients_by_target : List (Bytes × C)
  pub started : Bool
  pub timers : List (Option ℤ)

abbrev pub is_enabled : ScheduledJob → Bool
is_enabled job = not (leb_ℤ job.interval_seconds (pos 0))

unfoldable pub header_lines : Headers → Bytes
header_lines [] = []
header_lines ((name, value) ∷ headers) =
    10 ∷ (name ++ (bytes ": " ++ (value ++ header_lines headers)))

unfoldable pub target_key : Bytes → Bytes → Bytes → Headers → Bytes
target_key server_url email password headers =
    server_url ++ (10 ∷ (email ++ (10 ∷ (password ++ header_lines headers))))

unfoldable pub key_of : ScheduledJob → Bytes
key_of job =
    target_key job.server_url job.service_account_email job.service_account_password job.headers

unfoldable pub find_job : Bytes → List ScheduledJob → Option ScheduledJob
find_job name [] = none
find_job name (job ∷ jobs) =
    let later = find_job name jobs in if bytes_eq job.name name then some job else later

-- The loop of `Start`: a timer for each job that follows, armed at once.
unfoldable pub arm_all : List ScheduledJob → List (Option ℤ)
arm_all [] = []
arm_all (job ∷ jobs) = some job.interval_seconds ∷ arm_all jobs

unfoldable pub execution_result : Bytes → CallResult → JobExecutionResult
execution_result name (response status) = record {
  job_name = name;
  status_code = status;
  success = leb 200 status && ltb status 300;
  error_message = [];
}
execution_result name (std_exception message) = record {
  job_name = name;
  status_code = 0;
  success = false;
  error_message = message;
}
execution_result name unknown_exception = record {
  job_name = name;
  status_code = 0;
  success = false;
  error_message = bytes "unknown exception";
}

module _ {C : Type 0} where
  unfoldable pub find_client : Bytes → List (Bytes × C) → Option C
  find_client key [] = none
  find_client key ((k, client) ∷ clients) =
      let later = find_client key clients in if bytes_eq k key then some client else later

  -- `clientsByTarget_[key] = client`, and what calls on the shared client leave behind.
  unfoldable pub put_client : Bytes → C → List (Bytes × C) → List (Bytes × C)
  put_client key client [] = (key, client) ∷ []
  put_client key client ((k, old) ∷ clients) =
      let later = put_client key client clients in
      if bytes_eq k key then (k, client) ∷ clients else (k, old) ∷ later

  unfoldable pub register_job : ScheduledJob → JobScheduler C → JobScheduler C
  register_job job s =
      if is_enabled job
      then record {
        jobs = s.jobs ++ job ∷ [];
        clients_by_target = s.clients_by_target;
        started = s.started;
        timers = s.timers;
      }
      else s

  unfoldable pub set_jobs : List ScheduledJob → JobScheduler C → JobScheduler C
  set_jobs jobs s = record {
    jobs = keep is_enabled jobs;
    clients_by_target = [];
    started = s.started;
    timers = s.timers;
  }

  abbrev pub with_clients : List (Bytes × C) → JobScheduler C → JobScheduler C
  with_clients clients s = record {
    jobs = s.jobs;
    clients_by_target = clients;
    started = s.started;
    timers = s.timers;
  }

  abbrev pub with_timers : Bool → List (Option ℤ) → JobScheduler C → JobScheduler C
  with_timers started timers s = record {
    jobs = s.jobs;
    clients_by_target = s.clients_by_target;
    started = started;
    timers = timers;
  }

  -- `ScheduleNext`
  unfoldable pub schedule_next : ℕ → JobScheduler C → JobScheduler C
  schedule_next job_index s =
      if not s.started || leb (length s.timers) job_index
      then s
      else (elim (get_elem? s.jobs job_index) [
        | none ↦ s
        | some job ↦ with_timers s.started (set s.timers job_index (some job.interval_seconds)) s
      ])

  unfoldable pub start : JobScheduler C → JobScheduler C
  start s = if s.started then s else with_timers true (arm_all s.jobs) s

  unfoldable pub stop : JobScheduler C → JobScheduler C
  stop s = with_timers false [] s

  module _ (api : ApiClient C) where
    -- The client of the job's target, which is made on first use.
    unfoldable pub client_of : ScheduledJob → List (Bytes × C) → C
    client_of job clients = elim (find_client (key_of job) clients) [
      | some client ↦ client
      | none ↦ api.make_client job.server_url job.headers
    ]

    -- The loop of `AuthenticateTargets`: whether all logins succeeded, the clients, and the keys in `attempted`.
    unfoldable pub authenticate_from :
        List ScheduledJob
        → Bool
        → List Bytes
        → List (Bytes × C)
        → Bool × List Bytes × List (Bytes × C)
    authenticate_from [] all_ok attempted clients = (all_ok, attempted, clients)
    authenticate_from (job ∷ jobs) all_ok attempted clients =
        let key = key_of job in
        let (logged_in, client) =
          api.login job.service_account_email job.service_account_password
            (client_of job clients) in
        let next =
          authenticate_from jobs (all_ok && logged_in) (key ∷ attempted)
            (put_client key client clients) in
        let same = authenticate_from jobs all_ok attempted clients in
        if any (λ k. bytes_eq k key) attempted then same else next

    unfoldable pub authenticate_targets : JobScheduler C → Bool × JobScheduler C
    authenticate_targets s =
        let (all_ok, attempted, clients) = authenticate_from s.jobs true [] s.clients_by_target in
        (all_ok, with_clients clients s)

    -- The call of one job, which has been found.
    unfoldable pub run_found : ScheduledJob → JobScheduler C → JobExecutionResult × JobScheduler C
    run_found job s =
        let (called, client) =
          api.call_endpoint job.method job.path job.headers (client_of job s.clients_by_target) in
        (
          execution_result job.name called,
          with_clients (put_client (key_of job) client s.clients_by_target) s,
        )

    -- `none` is the `std::out_of_range` of an unknown name.
    unfoldable pub run_job_once :
        Bytes → JobScheduler C → Option (JobExecutionResult × JobScheduler C)
    run_job_once job_name s = elim (find_job job_name s.jobs) [
      | none ↦ none
      | some job ↦ some (run_found job s)
    ]

-- The error code of a completed wait.
pub data Completion : Type 0 where
  success : Completion
  operation_aborted : Completion
  error : Completion

module _ {C : Type 0} (api : ApiClient C) where
  -- The handler of `ScheduleNext`. `none` is the access of `jobs_` out of range, which is undefined.
  unfoldable pub on_timer : Completion → ℕ → JobScheduler C → Option (JobScheduler C)
  on_timer operation_aborted job_index s = some s
  on_timer error job_index s = some (if s.started then schedule_next job_index s else s)
  on_timer success job_index s =
      let ran : Option (JobScheduler C) = elim (get_elem? s.jobs job_index) [
        | none ↦ none
        | some job ↦ Option.map (λ r. schedule_next job_index r.1) (run_job_once api job.name s)
      ] in
      if s.started then ran else some s
