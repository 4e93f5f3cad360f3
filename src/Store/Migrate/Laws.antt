-- ===== src/Store/Migrate/Laws.antt =====
-- How the opening of a database file ends, whatever SQLite and other processes do.
use shigoku.Common.{
  ℕ, Bool, ◌<◌, ◌≤◌, suc, ◌≡◌, ◌+◌, zero, arith, ◌⊎◌, ◌-◌, true, List, Option, [], Bool-cases, ◌∷◌,
  ltb, inr, inl, refl, ◌∙◌, some, ap, none, Option-cases, false, sym, ◌==◌, if◌then◌else◌,
}
use shigoku.Common.Int.{ℤ, pos, negsuc}
use shigoku.Store.Types.{Result, ok, err, StoreError, Result-cases}
use shigoku.Store.Migrate.{
  migrate, migrate_locked, climb, stamp_version, user_version, verify_schema_present,
  begin_immediate, DbFile, Answers, checked_version, settle, schema_version, or_fault, rungs,
}

checked_version-read : (v : ℤ) (at : ℕ) → checked_version v ≡ ok at → (v ≡ pos at) × (at ≤ 6)
checked_version-read (negsuc n) at h = absurd (cc)
checked_version-read (pos n) at h = ground arith

module _ {ℓ} {S : Type ℓ} (ddl : ℕ → S → S) (has_show : S → Bool) where
  -- The schema after the next `k` migrations.
  pub upgraded : ℕ → ℕ → S → S
  upgraded zero at schema = schema
  upgraded (suc k) at schema = upgraded k (suc at) (ddl (suc at) schema)

  -- `g` is `f` at the current version, with each migration that `f` did not have, in their order; a
  -- file that had the version already has the table `show`.
  abbrev pub IsCurrent : DbFile S → DbFile S → Type ℓ
  IsCurrent f g =
      (at : ℕ) × (f.version ≡ pos at)
      × (at ≤ 6)
      × (g.version ≡ pos 6)
      × (g.schema ≡ upgraded (6 - at) at f.schema)
      × ((at < 6) ⊎ (has_show g.schema ≡ true))

  -- An error leaves the file as it was.
  abbrev pub Ends : DbFile S → Result StoreError (Unit {0}) × DbFile S → Type ℓ
  Ends f out = ((e : StoreError) × (out ≡ (err e, f))) ⊎ ((out.0 ≡ ok tt) × IsCurrent f out.1)

  -- The `m` rungs after version `k`.
  unfoldable pub count_up : ℕ → ℕ → List ℕ
  count_up k zero = []
  count_up k (suc m) = suc k ∷ count_up (suc k) m

  rung_upgraded :
      (m k at : ℕ) (schema : S)
      → at ≡ k
      → upgraded (suc k + m - suc k) (suc k) (ddl (suc k) schema)
        ≡ upgraded (k + suc m - at) at schema
  unfolding upgraded
  rung_upgraded m k at schema e =
      let left : suc k + m - suc k ≡ m = omega arith in
      let right : k + suc m - k ≡ suc m = omega arith in rw (e, left, right) refl

  pub climb-past :
      (a : Answers) (n at : ℕ) (rest : List ℕ) (schema : S)
      → ltb at n ≡ false
      → climb ddl has_show a (n ∷ rest) at schema ≡ climb ddl has_show a rest at schema
  unfolding climb
  climb-past a n at rest schema h = rw (h, climb) refl

  pub climb-next :
      (a : Answers) (n at : ℕ) (rest : List ℕ) (schema : S)
      → ltb at n ≡ true
      → a.run_ddl n ≡ none
      → climb ddl has_show a (n ∷ rest) at schema ≡ climb ddl has_show a rest n (ddl n schema)
  unfolding climb
  climb-next a n at rest schema h k = rw (h, climb) (rw (k, climb) refl)

  climb-fault :
      (a : Answers) (n at : ℕ) (rest : List ℕ) (schema : S) (e : StoreError)
      → ltb at n ≡ true
      → a.run_ddl n ≡ some e
      → climb ddl has_show a (n ∷ rest) at schema ≡ err e
  unfolding climb
  climb-fault a n at rest schema e h k = rw (h, climb) (rw (k, climb) refl)

  pub climb-upgraded :
      (a : Answers) (m k at to : ℕ) (schema schema' : S)
      → k ≤ at
      → at ≤ k + m
      → climb ddl has_show a (count_up k m) at schema ≡ ok (to, schema')
      → (to ≡ k + m) × (schema' ≡ upgraded (k + m - at) at schema)
  unfolding climb count_up upgraded
  climb-upgraded a zero k at to schema schema' low high h =
      let same : k + 0 - at ≡ 0 = omega arith in (ground arith, rw same (cc))
  climb-upgraded a (suc m) k at to schema schema' low high h = elim (Bool-cases (ltb at (suc k))) [
    | inr past ↦
        let (end, same) =
          climb-upgraded a m (suc k) at to schema schema' (ground arith) (omega arith)
            (sym (climb-past a (suc k) at (count_up (suc k) m) schema past) ∙ h) in
        (omega (arith, end), same ∙ ap (λ (j : ℕ). upgraded (j - at) at schema) (omega arith))
    | inl next ↦ elim (Option-cases (a.run_ddl (suc k))) [
      | inr (e, fault) ↦
          absurd (cc (climb-fault a (suc k) at (count_up (suc k) m) schema e next fault))
      | inl fine ↦
          let at_rung : at ≡ k = ground arith in
          let rest = sym (climb-next a (suc k) at (count_up (suc k) m) schema next fine) ∙ h in
          let (end, same) =
            climb-upgraded a m (suc k) (suc k) to (ddl (suc k) schema) schema' (omega arith)
              (omega arith) rest in
          (omega (arith, end), same ∙ rung_upgraded m k at schema at_rung)
    ]
  ]

  -- A version that is read is that of the file.
  user_version-read :
      (fault : Option StoreError) (f : DbFile S) (at : ℕ)
      → user_version ddl has_show fault f ≡ ok at
      → (f.version ≡ pos at) × (at ≤ 6)
  unfolding user_version
  user_version-read none f at h = checked_version-read f.version at h
  user_version-read (some e) f at h = absurd (cc)

  verified-Ends :
      (fault : Option StoreError) (f : DbFile S) (at : ℕ)
      → (f.version ≡ pos at) × (at ≤ 6)
      → (at == schema_version) ≡ true
      → Ends f (verify_schema_present ddl has_show fault f, f)
  unfolding verify_schema_present upgraded
  verified-Ends (some e) f at read h = inl (e, refl)
  verified-Ends none f at read h = elim (Bool-cases (has_show f.schema)) [
    | inr missing ↦ rw missing (inl (_, refl))
    | inl present ↦
        let six : at ≡ 6 = ground arith in
        rw present
          (inr (refl, (6, read.0 ∙ ap pos six, omega arith, read.0 ∙ ap pos six, refl, inr refl)))
  ]

  committed-Ends :
      (bump commit : Option StoreError) (f : DbFile S) (at : ℕ) (schema : S)
      → f.version ≡ pos at
      → at < 6
      → schema ≡ upgraded (6 - at) at f.schema
      → Ends f (
          settle f (
            or_fault bump
              (or_fault commit (ok (record { version = pos schema_version; schema = schema })))))
  committed-Ends (some e) commit f at schema v below same = inl (e, refl)
  committed-Ends none (some e) f at schema v below same = inl (e, refl)
  committed-Ends none none f at schema v below same =
      inr (refl, (at, v, omega arith, refl, same, inl below))

  stamp_version-Ends :
      (a : Answers) (f : DbFile S) (at : ℕ) (r : Result StoreError (ℕ × S))
      → f.version ≡ pos at
      → at < 6
      → ((to : ℕ) (schema : S)
          → r ≡ ok (to, schema)
          → (to ≡ 6) × (schema ≡ upgraded (6 - at) at f.schema))
      → Ends f (settle f (stamp_version ddl has_show a r))
  unfolding stamp_version
  stamp_version-Ends a f at (err e) v below done = inl (e, refl)
  stamp_version-Ends a f at (ok (to, schema)) v below done =
      let (end, same) = done to schema refl in
      let six : (to == schema_version) ≡ true = ground arith in
      rw six (committed-Ends a.bump a.commit f at schema v below same)

  locked-Ends :
      (a : Answers) (f : DbFile S) (at : ℕ)
      → (f.version ≡ pos at) × (at ≤ 6)
      → Ends f (
          if at == schema_version
          then (verify_schema_present ddl has_show a.verify f, f)
          else settle f (
              stamp_version ddl has_show a (climb ddl has_show a (rungs ddl has_show) at f.schema)))
  locked-Ends a f at read = elim (Bool-cases (at == schema_version)) [
    | inl current ↦ rw current (verified-Ends a.verify f at read current)
    | inr older ↦ rw older (
        stamp_version-Ends a f at (climb ddl has_show a (rungs ddl has_show) at f.schema) read.0
          (ground arith)
          (λ to schema h.
            climb-upgraded a 6 0 at to f.schema schema (omega arith) read.1 (unfold count_up in h)))
  ]

  migrate_locked-Ends : (a : Answers) (f : DbFile S) → Ends f (migrate_locked ddl has_show a f)
  unfolding migrate_locked
  migrate_locked-Ends a f = elim (Result-cases (user_version ddl has_show a.second_read f)) [
    | inr (e, bad) ↦ rw (bad, migrate_locked) (inl (e, refl))
    | inl (at, read) ↦
        rw (read, migrate_locked) (locked-Ends a f at (user_version-read a.second_read f at read))
  ]

  -- Either the file as it was at first, or as others left it when the lock was taken, is brought to the
  -- current version with every migration that it lacked, in order; or there is an error and it is as it
  -- was. No failure leaves a schema that is migrated in part, or one with another version's stamp_version.
  pub migrate-Ends :
      (a : Answers) (peers : DbFile S → DbFile S) (f : DbFile S)
      → Ends f (migrate ddl has_show a peers f) ⊎ Ends (peers f) (migrate ddl has_show a peers f)
  unfolding migrate
  migrate-Ends a peers f = elim (Result-cases (user_version ddl has_show a.first_read f)) [
    | inr (e, bad) ↦ rw (bad, migrate) (inl (inl (e, refl)))
    | inl (at, read) ↦ elim (Bool-cases (at == schema_version)) [
      | inl current ↦
          rw (read, migrate)
            (rw (current, migrate)
              (inl
                (verified-Ends a.verify f at (user_version-read a.first_read f at read) current)))
      | inr older ↦ elim (Result-cases (begin_immediate a)) [
        | inr (e, busy) ↦
            rw (read, migrate) (rw (older, migrate) (rw (busy, migrate) (inr (inl (e, refl)))))
        | inl (u, locked) ↦
            rw (read, migrate)
              (rw (older, migrate) (rw (locked, migrate) (inr (migrate_locked-Ends a (peers f)))))
      ]
    ]
  ]
