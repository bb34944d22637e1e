-- ===== src/Common/Migration/Recorded.antt =====
-- common/migration.go: that the table of migrations says what has been applied.
use friend_net.Prelude.{
  ◌≡◌, refl, ◌∙◌, sym, inl, inr, Bool, true, false, not, ◌||◌, Option, none, some, List, [], ◌∷◌,
  ◌++◌, append_assoc, append-nil, map, Bytes, if◌then◌else◌, Option-cases,
}
use friend_net.Common.Migration.{
  Migration, Works, Database, MigrationErr, err_create, err_query, err_begin, err_commit,
  insert_failed, has_name, migrate, do_migrations,
}

-- One migration after the other, `none` if one fails.
abbrev pub run : {D : Type 0} → List (Migration D) → D → Option D
run [] d = some d
run (m ∷ ms) d = elim (m.apply d) [ none ↦ none | some after ↦ run ms after ]

abbrev pub name_of : {D : Type 0} → Migration D → Bytes
name_of m = m.name

-- Some of the migrations in their order, without those that `applied` has.
pub data IsPart {D : Type 0} (applied : List Bytes)
    : List (Migration D) → List (Migration D) → Type 0 where
  part_nil : (ms : List (Migration D)) → IsPart applied [] ms
  part_skip :
      (done ms : List (Migration D)) (m : Migration D)
      → IsPart applied done ms
      → IsPart applied done (m ∷ ms)
  part_cons :
      (done ms : List (Migration D)) (m : Migration D)
      → has_name applied m.name ≡ false
      → IsPart applied done ms
      → IsPart applied (m ∷ done) (m ∷ ms)

-- The names that were added are those of migrations that were run, in their order, and none was run
-- whose name was there before.
pub record IsRecorded {D : Type 0} (applied : List Bytes) (ms : List (Migration D))
    (db after : Database D) : Type 0 where
  pub done : List (Migration D)
  pub names : after.names ≡ db.names ++ map name_of done
  pub content : run done db.content ≡ some after.content
  pub part : IsPart applied done ms

module _ {D : Type 0} (works : Bytes → Works) where
  IsRecorded-none :
      (applied : List Bytes) (ms : List (Migration D)) (db : Database D)
      → IsRecorded applied ms db db
  IsRecorded-none applied ms db = record {
    done = [];
    names = sym (append-nil db.names);
    content = refl;
    part = part_nil ms;
  }

  IsRecorded-skip :
      (applied : List Bytes) (ms : List (Migration D)) (m : Migration D) (db after : Database D)
      → IsRecorded applied ms db after
      → IsRecorded applied (m ∷ ms) db after
  IsRecorded-skip applied ms m db after r = record {
    done = r.done;
    names = r.names;
    content = r.content;
    part = part_skip r.done ms m r.part;
  }

  IsRecorded-cons :
      (applied : List Bytes) (ms : List (Migration D)) (m : Migration D) (db after : Database D)
      (d : D)
      → has_name applied m.name ≡ false
      → m.apply db.content ≡ some d
      → IsRecorded applied ms (record { names = db.names ++ m.name ∷ []; content = d }) after
      → IsRecorded applied (m ∷ ms) db after
  IsRecorded-cons applied ms m db after d new e r = record {
    done = m ∷ r.done;
    names = r.names ∙ append_assoc db.names (m.name ∷ []) (map name_of r.done);
    content = rw e r.content;
    part = part_cons r.done ms m new r.part;
  }

  IsRecorded-if :
      (applied : List Bytes) (ms : List (Migration D)) (db : Database D)
      → (b : Bool) (x y : Database D × Option MigrationErr) → IsRecorded applied ms db x.0
      → (b ≡ false → IsRecorded applied ms db y.0)
      → IsRecorded applied ms db ((if b then x else y).0)
  IsRecorded-if applied ms db true x y h k = h
  IsRecorded-if applied ms db false x y h k = k refl

  pub migrate-IsRecorded :
      (applied : List Bytes) (ms : List (Migration D)) (db : Database D)
      → IsRecorded applied ms db (migrate works applied ms db).0
  unfolding migrate
  migrate-IsRecorded applied [] db = IsRecorded-none applied [] db
  migrate-IsRecorded applied (m ∷ ms) db =
      let unchanged = IsRecorded-none applied (m ∷ ms) db in
      IsRecorded-if applied (m ∷ ms) db (has_name applied m.name) (migrate works applied ms db) _
        (IsRecorded-skip applied ms m db _ (migrate-IsRecorded applied ms db))
        (λ new.
          IsRecorded-if applied (m ∷ ms) db (not (works m.name).begin) (db, some err_begin) _
            unchanged
            (λ _. elim (Option-cases (m.apply db.content)) [
              | inl e ↦ rw e unchanged
              | inr (d, e) ↦ rw e (
                  IsRecorded-if applied (m ∷ ms) db
                    (not (works m.name).insert || has_name db.names m.name)
                    (db, insert_failed (works m.name).rollback) _ unchanged
                    (λ _.
                      IsRecorded-if applied (m ∷ ms) db (not (works m.name).commit)
                        (db, some err_commit) _ unchanged
                        (λ _. IsRecorded-cons applied ms m db _ d new e (
                          migrate-IsRecorded applied ms
                            (record { names = db.names ++ m.name ∷ []; content = d })))))
            ]))

  -- Whatever works and whatever fails, the names that DoMigrations adds to the table are those of the
  -- migrations that were run and kept, in their order, and the database is what they make of it; none of
  -- them was in the table before.
  pub do_migrations-IsRecorded :
      (create query : Bool) (ms : List (Migration D)) (db : Database D)
      → IsRecorded db.names ms db (do_migrations works create query ms db).0
  unfolding do_migrations
  do_migrations-IsRecorded create query ms db =
      IsRecorded-if db.names ms db (not create) (db, some err_create) _
        (IsRecorded-none db.names ms db)
        (λ _.
          IsRecorded-if db.names ms db (not query) (db, some err_query) _
            (IsRecorded-none db.names ms db) (λ _. migrate-IsRecorded db.names ms db))
