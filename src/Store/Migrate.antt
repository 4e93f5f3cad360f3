-- ===== src/Store/Migrate.antt =====
-- src/store.cpp: the schema's version, the ladder of migrations and the opening of a database file. The
-- SQL of a migration is `ddl`, on an abstract schema; `Answers` has the faults of SQLite's calls.
pub mod Laws
pub mod Live
pub mod Tests
use shigoku.Common.{
  true, false, ℕ, Option, suc, Bool, zero, [], ◌%◌, some, if◌then◌else◌, List, Bytes, ◌^◌, ltb,
  none, ◌∷◌, not, ◌==◌, ◌-◌,
}
use shigoku.Common.Int.{ℤ, pos, negsuc}
use shigoku.Store.Types.{
  Result, ok, err, StoreError, StoreErrorKind, schema_invalid, schema_missing, read_only_db,
  migration_incomplete, schema_too_new,
}

abbrev pub schema_version : ℕ
schema_version = 6

-- `kLockRetryLimit`.
abbrev pub lock_retry_limit : ℕ
lock_retry_limit = 100

pub record DbFile {ℓ} (S : Type ℓ) : Type ℓ where
  pub version : ℤ
  pub schema : S

-- An attempt at a lock: taken, contended, or another failure.
pub data Attempt : Type 0 where
  taken : Attempt
  contended : StoreError → Attempt
  broken : StoreError → Attempt

pub record Answers : Type 0 where
  pub wal : ℕ → Attempt
  pub foreign_keys : Option StoreError
  pub first_read : Option StoreError
  pub begin : ℕ → Attempt
  pub second_read : Option StoreError
  pub verify : Option StoreError
  pub run_ddl : ℕ → Option StoreError
  pub bump : Option StoreError
  pub commit : Option StoreError
  pub read_only : Bool

-- The retry loop of `enable_wal` and `begin_immediate`: attempt number `limit - left`.
unfoldable pub retry : (ℕ → Attempt) → ℕ → ℕ → Result StoreError (Unit {0})
retry answers i zero = elim (answers i) [ taken ↦ ok tt | contended e ↦ err e | broken e ↦ err e ]
retry answers i (suc left) = elim (answers i) [
  | taken ↦ ok tt
  | contended e ↦ retry answers (suc i) left
  | broken e ↦ err e
]

unfoldable pub enable_wal : Answers → Result StoreError (Unit {0})
unfolding retry
enable_wal a = retry a.wal 0 lock_retry_limit

unfoldable pub begin_immediate : Answers → Result StoreError (Unit {0})
unfolding retry
begin_immediate a = retry a.begin 0 lock_retry_limit

abbrev schema_error : StoreErrorKind → ℕ → ℕ → StoreError
schema_error kind found expected = record {
  kind = kind;
  detail = [];
  found = found;
  expected = expected;
}

-- The low 32 bits.
abbrev low_word : ℤ → ℕ
low_word (pos n) = n % 2 ^ 32
low_word (negsuc n) = 2 ^ 32 - 1 - n % 2 ^ 32

abbrev pub checked_version : ℤ → Result StoreError ℕ
checked_version (negsuc n) = err (schema_error schema_invalid (low_word (negsuc n)) 0)
checked_version (pos n) =
    if ltb (2 ^ 32 - 1) n
    then err (schema_error schema_invalid (low_word (pos n)) 0)
    else if ltb schema_version n
    then err (schema_error schema_too_new n schema_version)
    else ok n

abbrev pub or_fault {ℓ} :
    {A : Type ℓ} → Option StoreError → Result StoreError A → Result StoreError A
or_fault none r = r
or_fault (some e) r = err e

-- The errors and results of a transaction: a ROLLBACK leaves the file as it was locked.
abbrev pub settle {ℓ} : {F : Type ℓ} → F → Result StoreError F → Result StoreError (Unit {0}) × F
settle before (ok after) = (ok tt, after)
settle before (err e) = (err e, before)

module _ {ℓ} {S : Type ℓ} (ddl : ℕ → S → S) (has_show : S → Bool) where
  unfoldable pub user_version : Option StoreError → DbFile S → Result StoreError ℕ
  user_version fault f = or_fault fault (checked_version f.version)

  unfoldable pub verify_schema_present : Option StoreError → DbFile S → Result StoreError (Unit {0})
  verify_schema_present fault f = or_fault fault (
      if has_show f.schema
      then ok tt
      else err (schema_error schema_missing schema_version schema_version))

  -- The rungs that are left, each for the version that it leads to, from version `at`.
  unfoldable pub climb : Answers → List ℕ → ℕ → S → Result StoreError (ℕ × S)
  climb a [] at schema = ok (at, schema)
  climb a (n ∷ rungs) at schema = elim (ltb at n) [
    | false ↦ climb a rungs at schema
    | true ↦ elim (a.run_ddl n) [ some e ↦ err e | none ↦ climb a rungs n (ddl n schema) ]
  ]

  abbrev pub rungs : List ℕ
  rungs = 1 ∷ 2 ∷ 3 ∷ 4 ∷ 5 ∷ 6 ∷ []

  -- The version check after the ladder, the bump and COMMIT.
  unfoldable pub stamp_version : Answers → Result StoreError (ℕ × S) → Result StoreError (DbFile S)
  stamp_version a (err e) = err e
  stamp_version a (ok (at, schema)) =
      if not (at == schema_version)
      then err (schema_error migration_incomplete at schema_version)
      else or_fault a.bump
          (or_fault a.commit (ok (record { version = pos schema_version; schema = schema })))

  -- Under the lock.
  unfoldable pub migrate_locked : Answers → DbFile S → Result StoreError (Unit {0}) × DbFile S
  unfolding user_version verify_schema_present climb stamp_version
  migrate_locked a f = elim (user_version a.second_read f) [
    | err e ↦ (err e, f)
    | ok at ↦
        if at == schema_version
        then (verify_schema_present a.verify f, f)
        else settle f (stamp_version a (climb a rungs at f.schema))
  ]

  -- `peers` is what other processes make of the file until the lock is taken.
  unfoldable pub migrate :
      Answers → (DbFile S → DbFile S) → DbFile S → Result StoreError (Unit {0}) × DbFile S
  unfolding user_version verify_schema_present begin_immediate migrate_locked
  migrate a peers f = elim (user_version a.first_read f) [
    | err e ↦ (err e, f)
    | ok at ↦
        if at == schema_version
        then (verify_schema_present a.verify f, f)
        else elim (begin_immediate a) [
          | err e ↦ (err e, peers f)
          | ok _ ↦ migrate_locked a (peers f)
        ]
  ]

  abbrev probe_writable : Answers → Bytes → DbFile S → Result StoreError (Unit {0}) × DbFile S
  probe_writable a path f =
      if a.read_only
      then (err (record { kind = read_only_db; detail = path; found = 0; expected = 0 }), f)
      else (ok tt, f)

  abbrev after_migrate :
      Answers
      → Bytes
      → Result StoreError (Unit {0}) × DbFile S
      → Result StoreError (Unit {0}) × DbFile S
  after_migrate a path (err e, f) = (err e, f)
  after_migrate a path (ok _, f) = probe_writable a path f

  unfoldable pub finish_open :
      Answers → Bytes → (DbFile S → DbFile S) → DbFile S → Result StoreError (Unit {0}) × DbFile S
  unfolding enable_wal migrate
  finish_open a path peers f = elim (enable_wal a) [
    | err e ↦ (err e, f)
    | ok _ ↦ elim a.foreign_keys [
      | some e ↦ (err e, f)
      | none ↦ after_migrate a path (migrate a peers f)
    ]
  ]
