-- ===== src/Scheduler/Tests.antt =====
-- The scheduler with two jobs of one name, and the theorems at them.
use server_components.Common.Int.{pos}
use server_components.Common.{
  ℕ, suc, ◌≡◌, refl, true, false, some, List, [], ◌∷◌, arith, Bytes, bytes,
}
use server_components.Scheduler.Jobs.{Headers, ScheduledJob, ApiClient, JobScheduler, response}
use server_components.Scheduler.Jobs.Keys.{target_key_injective}
use server_components.Scheduler.Refreshing.{Scheduler}

-- A client that counts its calls, and that every login fails.
abbrev counting : ApiClient ℕ
counting = record {
  make_client = λ url headers. 0;
  login = λ email password c. (false, c);
  call_endpoint = λ method path headers c. (response 200, suc c);
}

abbrev billing : Bytes → ScheduledJob
billing site = record {
  name = bytes "billing";
  method = bytes "POST";
  path = bytes "/api/admin/run_billing";
  interval_seconds = pos 60;
  server_url = bytes "http://localhost";
  service_account_email = bytes "svc@x";
  service_account_password = bytes "pw";
  headers = (bytes "X-Honuware-Site", site) ∷ [];
}

abbrev two_tenants : List ScheduledJob
two_tenants = billing (bytes "one") ∷ billing (bytes "two") ∷ []

abbrev running : JobScheduler ℕ
running = record {
  jobs = two_tenants;
  clients_by_target = [];
  started = true;
  timers = some (pos 60) ∷ some (pos 60) ∷ [];
}

abbrev engine : Scheduler ℕ
engine = record {
  job_scheduler = running;
  jobs = [];
  last_jobs = two_tenants;
  has_provider = true;
  initialized = true;
}

abbrev one_header : Headers
one_header = (bytes "A", bytes "b") ∷ []

target_key_injective_example :
    (bytes "u" ≡ bytes "u")
    × (bytes "e" ≡ bytes "e")
    × (bytes "p" ≡ bytes "p")
    × (one_header ≡ one_header)
target_key_injective_example =
    target_key_injective (bytes "u") (bytes "u") (bytes "e") (bytes "e") (bytes "p") (bytes "p")
      one_header one_header (ground arith) (ground arith) refl
