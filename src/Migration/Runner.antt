-- ===== src/Migration/Runner.antt =====
-- components/platform/business_logic/migration (migration_runner.cpp, migrate_command.cpp,
-- migration_namespace.cpp) and components/platform/sql_util/table_helpers/schema_migrations.cpp.
--
-- A database is its table of applied migrations with everything else, of a type that is a parameter. What a
-- migration does is a function of the database. A transaction that throws is rolled back; a commit that fails and the
-- repair of a lost connection are not modelled.
pub mod Rerunning
pub mod Failing
use server_components.Common.{
  ℕ, Bool, true, false, ◌||◌, List, [], ◌∷◌, ◌++◌, if◌then◌else◌, any, Bytes, bytes, bytes_eq,
}

-- `std::exception` with its `what()`, or anything else that is thrown.
pub data Thrown : Type 0 where
  std_exception : Bytes → Thrown
  unknown : Thrown

unfoldable pub what : Thrown → Bytes
what (std_exception message) = message
what unknown = bytes "unknown exception"

pub data Result {ℓ} (A : Type ℓ) : Type ℓ where
  ok : A → Result A
  thrown : Thrown → Result A

-- The separator of kMigrationNamespaceSeparator.
unfoldable pub namespaced_migration_id : Bytes → Bytes → Bytes
namespaced_migration_id migration_namespace local_id = migration_namespace ++ (b'/' ∷ local_id)

pub record MigrationResult : Type 0 where
  pub applied : List Bytes
  pub skipped : List Bytes

unfoldable pub add_applied : Bytes → MigrationResult → MigrationResult
add_applied id result = record { applied = result.applied ++ id ∷ []; skipped = result.skipped }

unfoldable pub add_skipped : Bytes → MigrationResult → MigrationResult
add_skipped id result = record { applied = result.applied; skipped = result.skipped ++ id ∷ [] }

-- What `ApplyPending` comes to: a result, or a `MigrationFailure`.
pub data Pending : Type 0 where
  finished : MigrationResult → Pending
  failed : Bytes → Bytes → Pending

-- What `RunMigrateCommand` returns.
unfoldable pub exit_code : Pending → ℕ
exit_code (finished result) = 0
exit_code (failed id error) = 1

-- `RunInTransaction`
unfoldable pub run_in_transaction {ℓ κ} :
    {S : Type ℓ} {A : Type κ} → (S → Result (A × S)) → S → Result A × S
run_in_transaction body s = elim (body s) [ ok (a, s') ↦ (ok a, s') | thrown e ↦ (thrown e, s) ]

pub record Database (D : Type 0) : Type 0 where
  pub schema_migrations : List Bytes
  pub content : D

pub record Migration (D : Type 0) : Type 0 where
  pub id : Bytes
  pub apply : Database D → Result (Database D)

module _ {D : Type 0} where
  unfoldable pub is_applied : Database D → Bytes → Bool
  is_applied db id = any (λ applied. bytes_eq applied id) db.schema_migrations

  -- The insert of `RecordApplied`; the id is the primary key.
  unfoldable pub record_applied : Bytes → Database D → Result (Database D)
  record_applied id db =
      if is_applied db id
      then thrown (std_exception (bytes "duplicate key"))
      else ok (record { schema_migrations = db.schema_migrations ++ id ∷ []; content = db.content })

  unfoldable pub mark_applied : Result (Database D) → Result (Bool × Database D)
  mark_applied (thrown e) = thrown e
  mark_applied (ok db) = ok (true, db)

  -- What follows the migration in the transaction.
  unfoldable pub then_record : Bytes → Result (Database D) → Result (Bool × Database D)
  then_record id (thrown e) = thrown e
  then_record id (ok db) = mark_applied (record_applied id db)

  unfoldable pub apply_one : Migration D → Database D → Result (Bool × Database D)
  apply_one migration db =
      if is_applied db migration.id
      then ok (false, db)
      else then_record migration.id (migration.apply db)

  -- The loop of `ApplyPending`, from the result so far.
  unfoldable pub apply_from :
      MigrationResult → List (Migration D) → Database D → Pending × Database D
  apply_from result [] db = (finished result, db)
  apply_from result (migration ∷ migrations) db =
      let next = run_in_transaction (apply_one migration) db in
      let applied = apply_from (add_applied migration.id result) migrations next.1 in
      let skipped = apply_from (add_skipped migration.id result) migrations next.1 in
      elim (next.0) [
        | thrown e ↦ (failed migration.id (what e), next.1)
        | ok true ↦ applied
        | ok false ↦ skipped
      ]

  unfoldable pub apply_pending : List (Migration D) → Database D → Pending × Database D
  apply_pending migrations db = apply_from (record { applied = []; skipped = [] }) migrations db

  -- The exit code, and the database afterwards.
  unfoldable pub run_migrate_command : List (Migration D) → Database D → ℕ × Database D
  run_migrate_command migrations db =
      let (pending, after) = apply_pending migrations db in (exit_code pending, after)
