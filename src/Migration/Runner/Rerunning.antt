-- ===== src/Migration/Runner/Rerunning.antt =====
-- Running the migrations again after a run that finished.
use server_components.Common.{
  ◌≡◌, refl, subst, sym, ap, ◌∙◌, ◌≢◌, ◌⊎◌, Bool, true, false, List, [], ◌∷◌, ◌++◌, map, arith,
  any-append, All, inl, inr, Bool-cases, Bytes, bytes_eq, bytes_eq_refl, append_assoc, append-nil,
}
use server_components.Migration.Runner.{
  Thrown, what, then_record, mark_applied, Result, ok, thrown, MigrationResult, add_applied,
  add_skipped, finished, failed, run_in_transaction, Database, Migration, is_applied,
  record_applied, apply_one, apply_from, apply_pending,
}

pub Result-cases {κ} :
    {A : Type κ} (r : Result (Bool × A))
    → ((e : Thrown) × (r ≡ thrown e))
      ⊎ (((a : A) × (r ≡ ok (true, a))) ⊎ ((a : A) × (r ≡ ok (false, a))))
Result-cases (thrown e) = inl (e, refl)
Result-cases (ok (true, a)) = inr (inl (a, refl))
Result-cases (ok (false, a)) = inr (inr (a, refl))

module _ {D : Type 0} where
  -- A migration does not take entries out of the table of applied migrations.
  abbrev pub KeepsRecords : Migration D → Type 0
  KeepsRecords migration =
      (db after : Database D)
      → migration.apply db ≡ ok after
      → (id : Bytes) → is_applied db id ≡ true
      → is_applied after id ≡ true

  record_applied_lem :
      (id : Bytes) (db after : Database D)
      → record_applied id db ≡ ok after
      → (is_applied after id ≡ true)
        × ((other : Bytes) → is_applied db other ≡ true → is_applied after other ≡ true)
  unfolding record_applied is_applied
  record_applied_lem id db after e = elim (Bool-cases (is_applied db id)) [
    | inl twice ↦ absurd (not_twice twice e)
    | inr first ↦
        let result : after
            ≡ record { schema_migrations = db.schema_migrations ++ id ∷ []; content = db.content } =
          appended first e in
        rw result (
          any-append (λ applied. bytes_eq applied id) db.schema_migrations (id ∷ [])
              ∙ rw (bytes_eq_refl id) (ground arith),
          λ other h.
              any-append (λ applied. bytes_eq applied other) db.schema_migrations (id ∷ [])
              ∙ rw h refl,
        )
  ]
    where
      not_twice : is_applied db id ≡ true → record_applied id db ≢ ok after
      not_twice twice f = cc

      appended :
          is_applied db id ≡ false
          → record_applied id db ≡ ok after
          → after
            ≡ record { schema_migrations = db.schema_migrations ++ id ∷ []; content = db.content }
      appended first f = cc

  then_record-ok :
      (id : Bytes) (result : Result (Database D)) (after : Database D) (applied : Bool)
      → then_record id result ≡ ok (applied, after)
      → (db : Database D) × (result ≡ ok db) × (record_applied id db ≡ ok after)
  unfolding then_record mark_applied
  then_record-ok id (thrown e) after applied h = cc
  then_record-ok id (ok db) after applied h = (db, refl, recorded (record_applied id db) h)
    where
      recorded : (r : Result (Database D)) → mark_applied r ≡ ok (applied, after) → r ≡ ok after
      recorded (thrown e) f = cc
      recorded (ok d) f = cc

  apply_one-ok :
      (migration : Migration D) (db after : Database D) (applied : Bool)
      → KeepsRecords migration
      → apply_one migration db ≡ ok (applied, after)
      → (is_applied after migration.id ≡ true)
        × ((other : Bytes) → is_applied db other ≡ true → is_applied after other ≡ true)
  unfolding apply_one
  apply_one-ok migration db after applied keeps e = elim (Bool-cases (is_applied db migration.id)) [
    | inl done ↦ let same : db ≡ after = cc in (rw⁻¹ same done, λ other h. rw⁻¹ same h)
    | inr pending ↦
        let ran : then_record migration.id (migration.apply db) ≡ ok (applied, after) = cc in
        let (between, applies, recorded) =
          then_record-ok migration.id (migration.apply db) after applied ran in
        let (own, others) = record_applied_lem migration.id between after recorded in
        (own, λ other h. others other (keeps db between applies other h))
  ]

  -- One round of the loop.
  pub apply_from-thrown :
      (result : MigrationResult) (migration : Migration D) (migrations : List (Migration D))
      (db : Database D) (e : Thrown)
      → apply_one migration db ≡ thrown e
      → apply_from result (migration ∷ migrations) db ≡ (failed migration.id (what e), db)
  unfolding apply_from run_in_transaction
  apply_from-thrown result migration migrations db e h = cc

  pub apply_from-applied :
      (result : MigrationResult) (migration : Migration D) (migrations : List (Migration D))
      (db after : Database D)
      → apply_one migration db ≡ ok (true, after)
      → apply_from result (migration ∷ migrations) db
        ≡ apply_from (add_applied migration.id result) migrations after
  unfolding apply_from run_in_transaction
  apply_from-applied result migration migrations db after h = cc

  pub apply_from-skipped :
      (result : MigrationResult) (migration : Migration D) (migrations : List (Migration D))
      (db after : Database D)
      → apply_one migration db ≡ ok (false, after)
      → apply_from result (migration ∷ migrations) db
        ≡ apply_from (add_skipped migration.id result) migrations after
  unfolding apply_from run_in_transaction
  apply_from-skipped result migration migrations db after h = cc

  apply_from-records :
      (result final : MigrationResult) (migrations : List (Migration D)) (db after : Database D)
      → All KeepsRecords migrations
      → apply_from result migrations db ≡ (finished final, after)
      → All (λ migration. is_applied after migration.id ≡ true) migrations
        × ((other : Bytes) → is_applied db other ≡ true → is_applied after other ≡ true)
  apply_from-records result final [] db after keeps e =
      unfold apply_from in
      (tt, λ other h. subst (λ d. is_applied d other ≡ true) (ap (λ r. r.1) e) h)
  apply_from-records result final (migration ∷ migrations) db after (k, keeps) e =
      elim (Result-cases (apply_one migration db)) [
        | inl (t, ran) ↦ let stopped = apply_from-thrown result migration migrations db t ran in cc
        | inr (inl (between, ran)) ↦
            let (own, others) = apply_one-ok migration db between true k ran in
            let (rest, kept) =
              apply_from-records (add_applied migration.id result) final migrations between after
                keeps (sym (apply_from-applied result migration migrations db between ran) ∙ e) in
            ((kept migration.id own, rest), λ other h. kept other (others other h))
        | inr (inr (between, ran)) ↦
            let (own, others) = apply_one-ok migration db between false k ran in
            let (rest, kept) =
              apply_from-records (add_skipped migration.id result) final migrations between after
                keeps (sym (apply_from-skipped result migration migrations db between ran) ∙ e) in
            ((kept migration.id own, rest), λ other h. kept other (others other h))
      ]

  abbrev pub ids : List (Migration D) → List Bytes
  ids migrations = map (λ migration. migration.id) migrations

  apply_one-skips :
      (migration : Migration D) (db : Database D)
      → is_applied db migration.id ≡ true
      → apply_one migration db ≡ ok (false, db)
  unfolding apply_one
  apply_one-skips migration db h = rw h

  apply_from-skips :
      (result : MigrationResult) (migrations : List (Migration D)) (db : Database D)
      → All (λ migration. is_applied db migration.id ≡ true) migrations
      → apply_from result migrations db ≡ (
        finished (record { applied = result.applied; skipped = result.skipped ++ ids migrations }),
        db,
      )
  apply_from-skips result [] db h = unfold apply_from in rw (append-nil result.skipped)
  apply_from-skips result (migration ∷ migrations) db (done, h) =
      apply_from-skipped result migration migrations db db (apply_one-skips migration db done)
      ∙ apply_from-skips (add_skipped migration.id result) migrations db h
      ∙ unfold add_skipped in rw (append_assoc result.skipped (migration.id ∷ []) (ids migrations))

  -- When no migration removes records of applied ones: after a run that finished, every migration of the list is recorded
  -- as applied, and a second run of the list changes nothing: it skips all of them, in order, and finishes.
  pub apply_pending-again :
      (migrations : List (Migration D)) (db after : Database D) (result : MigrationResult)
      → All KeepsRecords migrations
      → apply_pending migrations db ≡ (finished result, after)
      → All (λ migration. is_applied after migration.id ≡ true) migrations
        × (apply_pending migrations after
            ≡ (finished (record { applied = []; skipped = ids migrations }), after))
  unfolding apply_pending
  apply_pending-again migrations db after result keeps e =
      let (all_recorded, kept) = apply_from-records _ result migrations db after keeps e in
      (all_recorded, apply_from-skips _ migrations after all_recorded)
