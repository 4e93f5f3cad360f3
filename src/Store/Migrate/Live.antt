-- ===== src/Store/Migrate/Live.antt =====
-- A database file is opened where nothing goes wrong for good.
use mathlib.Core.Path.{subst}
use shigoku.Common.{
  ℕ, Bool, ◌<◌, ◌≤◌, Option, ◌≡◌, ◌+◌, arith, none, ◌-◌, suc, dec_lt, Bool-cases, ◌==◌, zero, ltb,
  refl, inr, false, ◌∙◌, inl, ◌∷◌, [],
}
use shigoku.Common.Int.{pos}
use shigoku.Store.Types.{ok, StoreError}
use shigoku.Store.Migrate.{
  taken, contended, migrate, migrate_locked, climb, stamp_version, user_version, retry,
  begin_immediate, Attempt, Answers, DbFile, settle, lock_retry_limit, or_fault, schema_version,
}
use shigoku.Store.Migrate.Laws.{upgraded, climb-upgraded, climb-past, climb-next, count_up}

-- A lock that is contended `k` times and then taken.
abbrev pub IsTakenAfter : (ℕ → Attempt) → ℕ → Type 0
IsTakenAfter answers k =
    ((i : ℕ) → i < k → (e : StoreError) × (answers i ≡ contended e)) × (answers k ≡ taken)

retry-ok :
    (answers : ℕ → Attempt) (i left k : ℕ)
    → i ≤ k
    → k ≤ i + left
    → IsTakenAfter answers k
    → retry answers i left ≡ ok tt
unfolding retry
retry-ok answers i zero k low high t =
    let e : k ≡ i = omega arith in rw (subst (λ (j : ℕ). answers j ≡ taken) e t.1, retry) refl
retry-ok answers i (suc left) k low high t = elim (dec_lt i k) [
  | yes more ↦
      let (e, busy) = t.0 i more in
      rw (busy, retry) (retry-ok answers (suc i) left k (omega arith) (omega arith) t)
  | no last ↦
      let e : k ≡ i = omega arith in rw (subst (λ (j : ℕ). answers j ≡ taken) e t.1, retry) refl
]

module _ {ℓ} {S : Type ℓ} (ddl : ℕ → S → S) (has_show : S → Bool) where
  version_read :
      (fault : Option StoreError) (f : DbFile S) (at : ℕ)
      → fault ≡ none
      → f.version ≡ pos at
      → at < 6
      → user_version ddl has_show fault f ≡ ok at
  unfolding user_version
  version_read fault f at h v below = rw (h, or_fault) (rw v (ground arith))

  stamped :
      (a : Answers) (f : DbFile S) (seen to : ℕ) (schema : S)
      → to ≡ 0 + 6
      → schema ≡ upgraded ddl has_show (0 + 6 - seen) seen f.schema
      → (a.first_read ≡ none) × (a.second_read ≡ none) × (a.bump ≡ none) × (a.commit ≡ none)
      → settle f (stamp_version ddl has_show a (ok (to, schema))) ≡ (
        ok tt,
        record { version = pos 6; schema = upgraded ddl has_show (6 - seen) seen f.schema },
      )
  unfolding stamp_version
  stamped a f seen to schema end same faults = rw (end, same) (rw (faults.2, faults.3) refl)

  climb-quiet :
      (a : Answers) (m k at : ℕ) (schema : S)
      → ((n : ℕ) → a.run_ddl n ≡ none)
      → (to : ℕ) × (schema' : S) × (climb ddl has_show a (count_up ddl has_show k m) at schema
          ≡ ok (to, schema'))
  unfolding climb count_up
  climb-quiet a zero k at schema quiet = (at, schema, refl)
  climb-quiet a (suc m) k at schema quiet = elim (Bool-cases (ltb at (suc k))) [
    | inr past ↦
        let (to, schema', e) = climb-quiet a m (suc k) at schema quiet in
        (
          to,
          schema',
          climb-past ddl has_show a (suc k) at (count_up ddl has_show (suc k) m) schema past ∙ e,
        )
    | inl next ↦
        let (to, schema', e) = climb-quiet a m (suc k) (suc k) (ddl (suc k) schema) quiet in
        (
          to,
          schema',
          climb-next ddl has_show a (suc k) at (count_up ddl has_show (suc k) m) schema next
                (quiet (suc k))
              ∙ e,
        )
  ]

  -- Where SQLite reports no fault, and the lock is contended at most a hundred times before it is taken,
  -- a file of an older version, which is still older under the lock, is migrated.
  pub migrate-ok :
      (a : Answers) (peers : DbFile S → DbFile S) (f : DbFile S) (at seen k : ℕ)
      → ((n : ℕ) → a.run_ddl n ≡ none)
      → (a.first_read ≡ none) × (a.second_read ≡ none) × (a.bump ≡ none) × (a.commit ≡ none)
      → IsTakenAfter a.begin k
      → k ≤ lock_retry_limit
      → (f.version ≡ pos at) × (at < 6)
      → ((peers f).version ≡ pos seen) × (seen < 6)
      → migrate ddl has_show a peers f ≡ (
        ok tt,
        record { version = pos 6; schema = upgraded ddl has_show (6 - seen) seen (peers f).schema },
      )
  unfolding migrate migrate_locked
  migrate-ok a peers f at seen k quiet faults lock limit old older =
      let first = version_read a.first_read f at faults.0 old.0 old.1 in
      let second = version_read a.second_read (peers f) seen faults.1 older.0 older.1 in
      let not_current : (at == schema_version) ≡ false = ground arith in
      let still_older : (seen == schema_version) ≡ false = ground arith in
      let locked : begin_immediate a ≡ ok tt =
        unfold begin_immediate in retry-ok a.begin 0 lock_retry_limit k (omega arith) limit lock in
      let (to, schema', climbed) = climb-quiet a 6 0 seen (peers f).schema quiet in
      let (end, same) =
        climb-upgraded ddl has_show a 6 0 seen to (peers f).schema schema' (omega arith)
          (omega arith) climbed in
      let six_rungs : climb ddl has_show a (1 ∷ 2 ∷ 3 ∷ 4 ∷ 5 ∷ 6 ∷ []) seen (peers f).schema
          ≡ ok (to, schema') =
        unfold count_up in climbed in
      rw (first, migrate)
        (rw (not_current, migrate)
          (rw (locked, migrate)
            (rw (second, migrate_locked)
              (rw (still_older, migrate_locked)
                (rw (six_rungs, migrate_locked)
                  (stamped a (peers f) seen to schema' end same faults))))))
