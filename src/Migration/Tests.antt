-- ===== src/Migration/Tests.antt =====
-- Two migrations, one of which may throw, and the theorems at them.
use server_components.Common.{ℕ, suc, ◌≡◌, refl, true, List, [], ◌∷◌, All, Bytes, bytes, bytes_eq}
use server_components.Migration.Runner.{
  std_exception, what, ok, thrown, finished, failed, add_applied, add_skipped, run_in_transaction,
  Database, Migration, is_applied, record_applied, mark_applied, then_record, apply_one, apply_from,
  apply_pending,
}
use server_components.Migration.Runner.Rerunning.{KeepsRecords, apply_pending-again}
use server_components.Migration.Runner.Failing.{StoppedAt, apply_pending-failed}

-- The content is a number of tables.
abbrev adds_table : Bytes → Migration ℕ
adds_table id = record {
  id = id;
  apply = λ db. ok (record { schema_migrations = db.schema_migrations; content = suc db.content });
}

abbrev throws : Bytes → Migration ℕ
throws id = record { id = id; apply = λ db. thrown (std_exception (bytes "no such table")) }

abbrev empty : Database ℕ
empty = record { schema_migrations = []; content = 0 }

abbrev two : List (Migration ℕ)
two = adds_table (bytes "a/1") ∷ adds_table (bytes "a/2") ∷ []

abbrev after_two : Database ℕ
after_two = record { schema_migrations = bytes "a/1" ∷ bytes "a/2" ∷ []; content = 2 }

abbrev broken : List (Migration ℕ)
broken = adds_table (bytes "a/1") ∷ throws (bytes "a/2") ∷ adds_table (bytes "a/3") ∷ []

abbrev after_one : Database ℕ
after_one = record { schema_migrations = bytes "a/1" ∷ []; content = 1 }

run_two :
    apply_pending two empty
    ≡ (finished (record { applied = bytes "a/1" ∷ bytes "a/2" ∷ []; skipped = [] }), after_two)
unfolding apply_pending apply_from run_in_transaction apply_one then_record mark_applied
    record_applied is_applied add_applied add_skipped bytes_eq
run_two = refl

run_broken : apply_pending broken empty ≡ (failed (bytes "a/2") (bytes "no such table"), after_one)
unfolding apply_pending apply_from run_in_transaction apply_one then_record mark_applied
    record_applied is_applied add_applied add_skipped bytes_eq what
run_broken = refl

keeps : (id : Bytes) → KeepsRecords (adds_table id)
unfolding is_applied
keeps id db after e other h =
    let same : after.schema_migrations ≡ db.schema_migrations = cc in rw same h

apply_pending-again_example :
    All (λ migration. is_applied after_two migration.id ≡ true) two
    × (apply_pending two after_two
        ≡ (finished (record { applied = []; skipped = bytes "a/1" ∷ bytes "a/2" ∷ [] }), after_two))
apply_pending-again_example =
    apply_pending-again two empty after_two
      (record { applied = bytes "a/1" ∷ bytes "a/2" ∷ []; skipped = [] })
      (keeps (bytes "a/1"), (keeps (bytes "a/2"), tt)) run_two

apply_pending-failed_example :
    StoppedAt
      (record { applied = []; skipped = [] })
      broken
      empty
      (bytes "a/2")
      (bytes "no such table")
      after_one
apply_pending-failed_example =
    apply_pending-failed broken empty after_one (bytes "a/2") (bytes "no such table") run_broken
