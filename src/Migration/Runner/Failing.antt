-- ===== src/Migration/Runner/Failing.antt =====
-- A run that a migration stops.
use server_components.Common.{◌≡◌, refl, sym, ap, ◌∙◌, ◌⊎◌, inl, inr, List, [], ◌∷◌, ◌++◌, Bytes}
use server_components.Migration.Runner.{
  Thrown, what, thrown, MigrationResult, add_applied, add_skipped, Pending, finished, failed,
  Database, Migration, apply_one, apply_from, apply_pending, exit_code, run_migrate_command,
}
use server_components.Migration.Runner.Rerunning.{
  Result-cases, apply_from-thrown, apply_from-applied, apply_from-skipped,
}

module _ {D : Type 0} where
  -- A run that failed at an id, and what it did: it finished the migrations before, and then one of this id threw.
  abbrev pub StoppedAt :
      MigrationResult → List (Migration D) → Database D → Bytes → Bytes → Database D → Type 0
  StoppedAt result migrations db id error after =
      (before : List (Migration D)) × (migration : Migration D) × (behind : List (Migration D))
      × (partial : MigrationResult) × (e : Thrown) × (migrations ≡ before ++ (migration ∷ behind))
      × (migration.id ≡ id)
      × (what e ≡ error)
      × (apply_from result before db ≡ (finished partial, after))
      × (apply_one migration after ≡ thrown e)

  extend :
      (result next : MigrationResult) (migration : Migration D) (migrations : List (Migration D))
      (db between after : Database D) (id error : Bytes)
      → ((rest : List (Migration D))
          → apply_from result (migration ∷ rest) db ≡ apply_from next rest between)
      → StoppedAt next migrations between id error after
      → StoppedAt result (migration ∷ migrations) db id error after
  extend result next migration migrations db between after id error step
        (before, m, behind, partial, e, split, same, message, ran, threw) =
      (
        migration ∷ before,
        m,
        behind,
        partial,
        e,
        ap (◌∷◌ migration) split,
        same,
        message,
        step before ∙ ran,
        threw,
      )

  apply_from-failed :
      (result : MigrationResult) (migrations : List (Migration D)) (db after : Database D)
      (id error : Bytes)
      → apply_from result migrations db ≡ (failed id error, after)
      → StoppedAt result migrations db id error after
  apply_from-failed result [] db after id error e = unfold apply_from in cc
  apply_from-failed result (migration ∷ migrations) db after id error e =
      elim (Result-cases (apply_one migration db)) [
        | inl (t, ran) ↦
            let stopped = sym (apply_from-thrown result migration migrations db t ran) ∙ e in
            let same : db ≡ after = ap (λ r. r.1) stopped in
            (
              [],
              migration,
              migrations,
              result,
              t,
              refl,
              cc,
              cc,
              unfold apply_from in ap (λ d. (finished result, d)) same,
              rw⁻¹ same ran,
            )
        | inr (inl (between, ran)) ↦
            extend result (add_applied migration.id result) migration migrations db between after id
              error (λ rest. apply_from-applied result migration rest db between ran)
              (apply_from-failed (add_applied migration.id result) migrations between after id error
                (sym (apply_from-applied result migration migrations db between ran) ∙ e))
        | inr (inr (between, ran)) ↦
            extend result (add_skipped migration.id result) migration migrations db between after id
              error (λ rest. apply_from-skipped result migration rest db between ran)
              (apply_from-failed (add_skipped migration.id result) migrations between after id error
                (sym (apply_from-skipped result migration migrations db between ran) ∙ e))
      ]

  -- When a run fails it names the migration that threw and its message. The database is then the one that the migrations
  -- before that one leave, which all finished: nothing of the failed migration or of a later one is in it.
  pub apply_pending-failed :
      (migrations : List (Migration D)) (db after : Database D) (id error : Bytes)
      → apply_pending migrations db ≡ (failed id error, after)
      → StoppedAt (record { applied = []; skipped = [] }) migrations db id error after
  unfolding apply_pending
  apply_pending-failed migrations db after id error e =
      apply_from-failed (record { applied = []; skipped = [] }) migrations db after id error e

  -- The exit code of the command is 0 exactly when every migration of the list was applied or skipped, and 1 when one failed.
  pub run_migrate_command-exit :
      (migrations : List (Migration D)) (db : Database D)
      → let (code, after) = run_migrate_command migrations db in
        ((code ≡ 0)
          × ((result : MigrationResult) × (apply_pending migrations db ≡ (finished result, after))))
        ⊎ ((code ≡ 1)
            × ((id : Bytes) × (error : Bytes) × StoppedAt
                  (record { applied = []; skipped = [] })
                  migrations
                  db
                  id
                  error
                  after))
  unfolding run_migrate_command
  run_migrate_command-exit migrations db =
      outcome (apply_pending migrations db).0 (apply_pending migrations db).1 refl
    where
      outcome :
          (pending : Pending) (after : Database D)
          → apply_pending migrations db ≡ (pending, after)
          → ((exit_code pending ≡ 0)
              × ((result : MigrationResult) × (apply_pending migrations db
                    ≡ (finished result, after))))
            ⊎ ((exit_code pending ≡ 1)
                × ((id : Bytes) × (error : Bytes) × StoppedAt
                      (record { applied = []; skipped = [] })
                      migrations
                      db
                      id
                      error
                      after))
      outcome (finished result) after e = unfold exit_code in inl (refl, (result, e))
      outcome (failed id error) after e =
          unfold exit_code in
          inr (refl, (id, error, apply_pending-failed migrations db after id error e))
