-- ===== src/Scheduler/Jobs/Targets.antt =====
-- `AuthenticateTargets` logs in once for each target.
use server_components.Common.{
  ◌≡◌, refl, subst, ◌≢◌, Bool, true, false, ◌&&◌, none, some, List, [], ◌∷◌, arith, any, All, inl,
  inr, Bool-cases, Bytes, bytes_eq, bytes_eq_iff, bytes_eq_refl,
}
use server_components.Scheduler.Jobs.{
  ScheduledJob, ApiClient, key_of, find_client, put_client, client_of, authenticate_from,
}

abbrev pub has_key : Bytes → List Bytes → Bool
has_key key attempted = any (λ k. bytes_eq k key) attempted

-- No key stands twice in a list.
abbrev pub AreDistinct : List Bytes → Type 0
AreDistinct [] = Unit
AreDistinct (key ∷ keys) = (has_key key keys ≡ false) × AreDistinct keys

module _ {C : Type 0} where
  abbrev pub HasClient : List (Bytes × C) → Bytes → Type 0
  HasClient clients key = find_client key clients ≢ none

  find_client-put_client :
      (key : Bytes) (client : C) (clients : List (Bytes × C))
      → find_client key (put_client key client clients) ≡ some client
  unfolding find_client put_client
  find_client-put_client key client [] = rw (bytes_eq_refl key)
  find_client-put_client key client ((k, old) ∷ clients) =
      ground (arith, find_client-put_client key client clients)

  -- A client that is there stays.
  put_client-HasClient :
      (key other : Bytes) (client : C) (clients : List (Bytes × C))
      → HasClient clients other
      → HasClient (put_client key client clients) other
  unfolding find_client put_client
  put_client-HasClient key other client [] h = absurd (h refl)
  put_client-HasClient key other client ((k, old) ∷ clients) h =
      elim (Bool-cases (bytes_eq k other)) [
        | inl own ↦ elim (Bool-cases (bytes_eq k key)) [
          | inl e ↦ rw (e, own) (λ f. cc)
          | inr e ↦ rw (e, own) (λ f. cc)
        ]
        | inr apart ↦ elim (Bool-cases (bytes_eq k key)) [
          | inl e ↦ rw (e, apart) (λ f. h (rw apart f))
          | inr e ↦
              rw (e, apart) (put_client-HasClient key other client clients (λ f. h (rw apart f)))
        ]
      ]

  module _ (api : ApiClient C) where
    -- What is shown of a run over jobs, with the keys that were attempted before.
    abbrev Attempted :
        List ScheduledJob → List Bytes → Bool × List Bytes × List (Bytes × C) → Type 0
    Attempted jobs attempted (ok', attempted', clients') =
        AreDistinct attempted'
        × ((key : Bytes) → has_key key attempted ≡ true → has_key key attempted' ≡ true)
        × All (λ job. has_key (key_of job) attempted' ≡ true) jobs
        × ((key : Bytes) → has_key key attempted' ≡ true → HasClient clients' key)

    authenticate_from-again :
        (job : ScheduledJob) (jobs : List ScheduledJob) (all_ok : Bool) (attempted : List Bytes)
        (clients : List (Bytes × C))
        → has_key (key_of job) attempted ≡ true
        → authenticate_from api jobs all_ok attempted clients
          ≡ authenticate_from api (job ∷ jobs) all_ok attempted clients
    unfolding authenticate_from
    authenticate_from-again job jobs all_ok attempted clients h = rw h

    authenticate_from-first :
        (job : ScheduledJob) (jobs : List ScheduledJob) (all_ok : Bool) (attempted : List Bytes)
        (clients : List (Bytes × C))
        → has_key (key_of job) attempted ≡ false
        → let (logged_in, client) =
            api.login job.service_account_email job.service_account_password
              (client_of api job clients) in
          authenticate_from api jobs
            (all_ok && logged_in)
            (key_of job ∷ attempted)
            (put_client (key_of job) client clients)
          ≡ authenticate_from api (job ∷ jobs) all_ok attempted clients
    unfolding authenticate_from
    authenticate_from-first job jobs all_ok attempted clients h = rw h

    authenticate_from_lem :
        (jobs : List ScheduledJob) (all_ok : Bool) (attempted : List Bytes)
        (clients : List (Bytes × C))
        → AreDistinct attempted
        → ((key : Bytes) → has_key key attempted ≡ true → HasClient clients key)
        → Attempted jobs attempted (authenticate_from api jobs all_ok attempted clients)
    authenticate_from_lem [] all_ok attempted clients d h =
        unfold authenticate_from in (d, (λ key e. e), tt, h)
    authenticate_from_lem (job ∷ jobs) all_ok attempted clients d h =
        elim (Bool-cases (has_key (key_of job) attempted)) [
          | inl again ↦
              let (d', more, all_in, found) =
                authenticate_from_lem jobs all_ok attempted clients d h in
              subst (Attempted (job ∷ jobs) attempted)
                (authenticate_from-again job jobs all_ok attempted clients again)
                (d', more, (more (key_of job) again, all_in), found)
          | inr first ↦
              let key = key_of job in
              let (logged_in, client) =
                api.login job.service_account_email job.service_account_password
                  (client_of api job clients) in
              let (d', more, all_in, found) =
                authenticate_from_lem jobs (all_ok && logged_in) (key ∷ attempted)
                  (put_client key client clients) (first, d) (λ other e. present other client e) in
              subst (Attempted (job ∷ jobs) attempted)
                (authenticate_from-first job jobs all_ok attempted clients first)
                (
                  d',
                  (λ other e. more other (ground arith)),
                  (more key (rw (bytes_eq_refl key) refl), all_in),
                  found,
                )
        ]
      where
        present :
            (other : Bytes) (client : C)
            → has_key other (key_of job ∷ attempted) ≡ true
            → HasClient (put_client (key_of job) client clients) other
        present other client e = elim (Bool-cases (bytes_eq (key_of job) other)) [
          | inl own ↦
              let same : key_of job ≡ other = (bytes_eq_iff (key_of job) other).0 own in
              rw⁻¹ same (rw (find_client-put_client (key_of job) client clients) (λ f. cc))
          | inr apart ↦
              put_client-HasClient (key_of job) other client clients (h other (ground arith))
        ]

    -- Whatever the logins answer: each target is attempted once, every job's target is among the attempted ones, and a client
    -- is at hand for every one of them.
    pub authenticate_from-once :
        (jobs : List ScheduledJob) (clients : List (Bytes × C))
        → let (all_ok, attempted, after) = authenticate_from api jobs true [] clients in
          AreDistinct attempted
          × All (λ job. has_key (key_of job) attempted ≡ true) jobs
          × ((key : Bytes) → has_key key attempted ≡ true → HasClient after key)
    authenticate_from-once jobs clients =
        let (d, more, all_in, found) =
          authenticate_from_lem jobs true [] clients tt (λ key e. cc) in
        (d, all_in, found)
