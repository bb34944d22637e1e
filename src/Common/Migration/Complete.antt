-- ===== src/Common/Migration/Complete.antt =====
-- common/migration.go: when every migration has been applied.
use friend_net.Prelude.{
  ◌≡◌, refl, inl, inr, Bool, true, false, not, ◌||◌, Option, none, some, List, [], ◌∷◌, ◌++◌, map,
  Bytes, bytes_eq, bytes_eq_iff, if◌then◌else◌, arith, All, Option-cases,
}
use friend_net.Common.Migration.{
  Migration, Works, Database, MigrationErr, err_create, err_query, err_begin, err_apply, err_commit,
  insert_failed, has_name, migrate, do_migrations,
}
use friend_net.Common.Migration.Recorded.{name_of, migrate-IsRecorded}

has_name-append :
    (xs ys : List Bytes) (n : Bytes) → has_name (xs ++ ys) n ≡ (has_name xs n || has_name ys n)
unfolding has_name
has_name-append [] ys n = refl
has_name-append (x ∷ xs) ys n = ground (arith, has_name-append xs ys n)

has_name_added : (names : List Bytes) (n : Bytes) → has_name (names ++ n ∷ []) n ≡ true
unfolding has_name
has_name_added names n = ground (arith, has_name-append names (n ∷ []) n, (bytes_eq_iff n n).1 refl)

has_name_kept :
    (names : List Bytes) (k n : Bytes)
    → has_name names n ≡ true
    → has_name (names ++ k ∷ []) n ≡ true
has_name_kept names k n h = ground (arith, has_name-append names (k ∷ []) n, h)

-- No two migrations of one name.
abbrev pub Distinct : {D : Type 0} → List (Migration D) → Type 0
Distinct [] = Unit
Distinct (m ∷ ms) = All (λ k. bytes_eq m.name k.name ≡ false) ms × Distinct ms

abbrev pub Named : {D : Type 0} → List Bytes → List (Migration D) → Type 0
Named names = All (λ m. has_name names m.name ≡ true)

-- What is in the table, of the migrations to come, was there when it was read.
abbrev Fresh : {D : Type 0} → List Bytes → List Bytes → List (Migration D) → Type 0
Fresh applied names = All (λ m. has_name names m.name ≡ true → has_name applied m.name ≡ true)

Fresh-cons :
    {D : Type 0}
    → (applied names : List Bytes) (n : Bytes) (ms : List (Migration D))
    → All (λ k. bytes_eq n k.name ≡ false) ms
    → Fresh applied names ms
    → Fresh applied (names ++ n ∷ []) ms
unfolding has_name
Fresh-cons applied names n [] d f = tt
Fresh-cons applied names n (m ∷ ms) d f = (
  (λ h. f.0 (ground (arith, has_name-append names (n ∷ []) m.name, d.0, h))),
  Fresh-cons applied names n ms d.1 f.1,
)

Fresh-refl : {D : Type 0} → (names : List Bytes) (ms : List (Migration D)) → Fresh names names ms
Fresh-refl names [] = tt
Fresh-refl names (m ∷ ms) = ((λ h. h), Fresh-refl names ms)

-- All the migrations are in the table if nil is returned.
record IsComplete {D : Type 0} (ms : List (Migration D)) (out : Database D × Option MigrationErr)
    : Type 0 where
  all : out.1 ≡ none → Named out.0.names ms

IsComplete-failed :
    {D : Type 0}
    → (ms : List (Migration D)) (db : Database D) (e : MigrationErr) → IsComplete ms (db, some e)
IsComplete-failed ms db e = record { all = λ h. cc }

IsComplete-if :
    {D : Type 0}
    → (ms : List (Migration D)) (b : Bool) (x y : Database D × Option MigrationErr)
    → (b ≡ true → IsComplete ms x)
    → (b ≡ false → IsComplete ms y)
    → IsComplete ms (if b then x else y)
IsComplete-if ms true x y h k = h refl
IsComplete-if ms false x y h k = k refl

module _ {D : Type 0} (works : Bytes → Works) where
  -- A name that is in the table stays there.
  migrate-kept :
      (applied : List Bytes) (ms : List (Migration D)) (db : Database D) (n : Bytes)
      → has_name db.names n ≡ true
      → has_name (migrate works applied ms db).0.names n ≡ true
  migrate-kept applied ms db n h =
      let r = migrate-IsRecorded works applied ms db in
      rw (r.names) (ground (arith, has_name-append db.names (map name_of r.done) n, h))

  migrate-IsComplete :
      (applied : List Bytes) (ms : List (Migration D)) (db : Database D)
      → ((n : Bytes) → (works n).insert ≡ true)
      → ((n : Bytes) → has_name applied n ≡ true → has_name db.names n ≡ true)
      → Distinct ms
      → Fresh applied db.names ms
      → IsComplete ms (migrate works applied ms db)
  unfolding migrate
  migrate-IsComplete applied [] db ins sub d f = record { all = λ e. tt }
  migrate-IsComplete applied (m ∷ ms) db ins sub d f =
      IsComplete-if (m ∷ ms) (has_name applied m.name) (migrate works applied ms db) _
        (λ there. record {
          all = λ e. (
            migrate-kept applied ms db m.name (sub m.name there),
            (migrate-IsComplete applied ms db ins sub d.1 f.1).all e,
          );
        })
        (λ new.
          IsComplete-if (m ∷ ms) (not (works m.name).begin) (db, some err_begin) _
            (λ _. IsComplete-failed (m ∷ ms) db err_begin)
            (λ _. elim (Option-cases (m.apply db.content)) [
              | inl a ↦ rw a (IsComplete-failed (m ∷ ms) db err_apply)
              | inr (c, a) ↦ rw a (
                  IsComplete-if (m ∷ ms) (not (works m.name).insert || has_name db.names m.name)
                    (db, insert_failed (works m.name).rollback) _
                    (λ taken. absurd (ground (arith, ins m.name, f.0, new, taken)))
                    (λ _.
                      IsComplete-if (m ∷ ms) (not (works m.name).commit) (db, some err_commit) _
                        (λ _. IsComplete-failed (m ∷ ms) db err_commit)
                        (λ _.
                          let next : Database D = record {
                            names = db.names ++ m.name ∷ [];
                            content = c;
                          } in
                          record {
                            all = λ e. (
                              migrate-kept applied ms next m.name (has_name_added db.names m.name),
                              (migrate-IsComplete applied ms next ins
                                    (λ n h. has_name_kept db.names m.name n (sub n h)) d.1
                                    (Fresh-cons applied db.names m.name ms d.0 f.1)).all
                                  e,
                            );
                          })))
            ]))

  -- Where no insert fails for another reason than its name, and no two migrations have one name, all
  -- the migrations are in the table whenever DoMigrations returns nil.
  pub do_migrations-Named :
      (create query : Bool) (ms : List (Migration D)) (db : Database D)
      → ((n : Bytes) → (works n).insert ≡ true)
      → Distinct ms
      → (do_migrations works create query ms db).1 ≡ none
      → Named (do_migrations works create query ms db).0.names ms
  unfolding do_migrations
  do_migrations-Named create query ms db ins d =
      (IsComplete-if ms (not create) (db, some err_create) _
        (λ _. IsComplete-failed ms db err_create)
        (λ _.
          IsComplete-if ms (not query) (db, some err_query) _
            (λ _. IsComplete-failed ms db err_query)
            (λ _. migrate-IsComplete db.names ms db ins (λ n h. h) d (Fresh-refl db.names ms)))).all
