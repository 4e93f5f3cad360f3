-- ===== src/Store/Migrate/Tests.antt =====
-- The ladder of migrations at a sample file, whose schema is the list of the migrations that it has.
use shigoku.Common.{ℕ, List, none, ◌⊎◌, ◌≡◌, ◌++◌, Bool, false, ◌∷◌, [], ltb, length, arith, refl}
use shigoku.Common.Int.{pos}
use shigoku.Store.Types.{ok}
use shigoku.Store.Migrate.{migrate, taken, DbFile, Answers}
use shigoku.Store.Migrate.Laws.{migrate-Ends, Ends, upgraded}
use shigoku.Store.Migrate.Live.{migrate-ok}

abbrev record_ddl : ℕ → List ℕ → List ℕ
record_ddl n schema = schema ++ n ∷ []

abbrev any_schema : List ℕ → Bool
any_schema schema = ltb 0 (length schema)

abbrev quiet : Answers
quiet = record {
  wal = λ i. taken;
  foreign_keys = none;
  first_read = none;
  begin = λ i. taken;
  second_read = none;
  verify = none;
  run_ddl = λ n. none;
  bump = none;
  commit = none;
  read_only = false;
}

abbrev second_version : DbFile (List ℕ)
second_version = record { version = pos 2; schema = 1 ∷ 2 ∷ [] }

abbrev alone : DbFile (List ℕ) → DbFile (List ℕ)
alone f = f

migrate-Ends_example :
    Ends record_ddl any_schema second_version
      (migrate record_ddl any_schema quiet alone second_version)
    ⊎ Ends record_ddl any_schema second_version
        (migrate record_ddl any_schema quiet alone second_version)
migrate-Ends_example = migrate-Ends record_ddl any_schema quiet alone second_version

migrate-ok_example :
    migrate record_ddl any_schema quiet alone second_version
    ≡ (ok tt, record { version = pos 6; schema = upgraded record_ddl any_schema 4 2 (1 ∷ 2 ∷ []) })
migrate-ok_example =
    migrate-ok record_ddl any_schema quiet alone second_version 2 2 0 (λ n. refl)
      (refl, refl, refl, refl) ((λ i h. absurd (omega arith)), refl) (omega arith)
      (refl, omega arith) (refl, omega arith)

ladder :
    (migrate record_ddl any_schema quiet alone second_version).1
    ≡ record { version = pos 6; schema = 1 ∷ 2 ∷ 3 ∷ 4 ∷ 5 ∷ 6 ∷ [] }
unfolding migrate
ladder = refl
