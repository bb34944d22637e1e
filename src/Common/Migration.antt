-- ===== src/Common/Migration.antt =====
-- common/migration.go: DoMigrations over the table of applied migrations. `D` is the rest of the
-- database. A transaction that is rolled back, or whose commit fails, leaves the database as it was.
use friend_net.Prelude.{
  Bool, true, false, not, ◌||◌, ◌&&◌, Option, none, some, List, [], ◌∷◌, ◌++◌, Bytes, bytes_eq,
  if◌then◌else◌,
}
pub mod Recorded
pub mod Complete
mod Tests

-- A Migration: its name and what Apply makes of the database, `none` for an error.
pub record Migration (D : Type 0) : Type 0 where
  pub name : Bytes
  pub apply : D → Option D

-- Which of the statements for a migration work: Begin, the insert, Rollback and Commit.
pub record Works : Type 0 where
  pub begin : Bool
  pub insert : Bool
  pub rollback : Bool
  pub commit : Bool

-- The names in the table migration, and the rest.
pub record Database (D : Type 0) : Type 0 where
  pub names : List Bytes
  pub content : D

pub data MigrationErr : Type 0 where
  err_create err_query err_begin err_apply err_rollback err_commit : MigrationErr

-- slices.Contains
unfoldable pub has_name : List Bytes → Bytes → Bool
has_name [] name = false
has_name (n ∷ names) name = bytes_eq n name || has_name names name

-- What is returned where the insert fails: `err` is by then what Rollback returned.
abbrev pub insert_failed : Bool → Option MigrationErr
insert_failed true = none
insert_failed false = some err_rollback

module _ {D : Type 0} (works : Bytes → Works) where
  -- The loop over the migrations. The primary key refuses a name that is already there.
  unfoldable pub migrate :
      List Bytes → List (Migration D) → Database D → Database D × Option MigrationErr
  unfolding has_name
  migrate applied [] db = (db, none)
  migrate applied (m ∷ ms) db =
      let skip = migrate applied ms db in
      let w = works m.name in
      if has_name applied m.name
      then skip
      else if not w.begin
      then (db, some err_begin)
      else elim (m.apply db.content) [
        | none ↦ (db, some err_apply)
        | some after ↦
            let rest =
              migrate applied ms (record { names = db.names ++ m.name ∷ []; content = after }) in
            if not w.insert || has_name db.names m.name
            then (db, insert_failed w.rollback)
            else if not w.commit
            then (db, some err_commit)
            else rest
      ]

  -- Whether the table can be made, and read.
  unfoldable pub do_migrations :
      Bool → Bool → List (Migration D) → Database D → Database D × Option MigrationErr
  unfolding migrate
  do_migrations create query ms db =
      if not create
      then (db, some err_create)
      else if not query
      then (db, some err_query)
      else migrate db.names ms db
