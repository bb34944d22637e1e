-- ===== src/Common/Migration/Tests.antt =====
-- common/migration.go: two migrations, of which a database has none or one.
use friend_net.Prelude.{ℕ, ◌+◌, ◌≡◌, refl, true, false, none, some, [], ◌∷◌, Bytes, codes}
use friend_net.Common.Migration.{Migration, Works, Database, do_migrations}
use friend_net.Common.Migration.Recorded.{IsRecorded, do_migrations-IsRecorded}
use friend_net.Common.Migration.Complete.{Named, do_migrations-Named}

abbrev first_step : Migration ℕ
first_step = record { name = codes "a"; apply = λ n. some (n + 1) }

abbrev second_step : Migration ℕ
second_step = record { name = codes "b"; apply = λ n. some (n + 10) }

abbrev all_work : Bytes → Works
all_work name = record { begin = true; insert = true; rollback = true; commit = true }

abbrev no_insert : Bytes → Works
no_insert name = record { begin = true; insert = false; rollback = true; commit = true }

abbrev fresh : Database ℕ
fresh = record { names = []; content = 0 }

abbrev half_way : Database ℕ
half_way = record { names = codes "a" ∷ []; content = 1 }

-- An insert that fails is rolled back, and nil is returned.
lost_insert :
    do_migrations no_insert true true (first_step ∷ second_step ∷ []) fresh ≡ (fresh, none)
unfolding do_migrations
lost_insert = refl

do_migrations-IsRecorded_example :
    IsRecorded
      (codes "a" ∷ [])
      (first_step ∷ second_step ∷ [])
      half_way
      (do_migrations all_work true true (first_step ∷ second_step ∷ []) half_way).0
do_migrations-IsRecorded_example =
    do_migrations-IsRecorded all_work true true (first_step ∷ second_step ∷ []) half_way

do_migrations-Named_example :
    Named
      (do_migrations all_work true true (first_step ∷ second_step ∷ []) half_way).0.names
      (first_step ∷ second_step ∷ [])
unfolding do_migrations
do_migrations-Named_example =
    do_migrations-Named all_work true true (first_step ∷ second_step ∷ []) half_way (λ n. refl)
      ((refl, tt), (tt, tt)) refl
