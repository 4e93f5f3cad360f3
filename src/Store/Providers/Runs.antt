-- ===== src/Store/Providers/Runs.antt =====
-- src/store.cpp: what a transaction comes to.
use shigoku.Store.Providers.{
  Database, Statement, run_statements, transaction, Tables, or_rollback, begin,
}
use shigoku.Common.{
  List, ◌∷◌, ℕ, [], ◌≡◌, ◌⊎◌, none, Option-cases, inl, inr, ap, suc, some, ◌∙◌, sym,
}
use shigoku.Store.Types.{ok, err, StoreError, Result-cases}

-- The statements on a database without faults.
unfoldable pub all_of : List Statement → Statement
all_of [] t = ok t
all_of (s ∷ statements) t = elim (s t) [ err e ↦ err e | ok t' ↦ all_of statements t' ]

pub all_of-step :
    (s : Statement) (statements : List Statement) (t t' : Tables)
    → s t ≡ ok t'
    → all_of (s ∷ statements) t ≡ all_of statements t'
unfolding all_of
all_of-step s statements t t' h = rw (h, all_of)

pub all_of-stop :
    (s : Statement) (statements : List Statement) (t : Tables) (e : StoreError)
    → s t ≡ err e
    → all_of (s ∷ statements) t ≡ err e
unfolding all_of
all_of-stop s statements t e h = rw (h, all_of)

module _ (d : Database) where
  module _ (i : ℕ) where
    run-end : d.fault i ≡ none → (t : Tables) → run_statements d i [] t ≡ ok t
    unfolding run_statements
    run-end n t = rw (n, run_statements)

    run-fault :
        (e : StoreError)
        → d.fault i ≡ some e
        → (statements : List Statement) (t : Tables) → run_statements d i statements t ≡ err e
    unfolding run_statements
    run-fault e n [] t = rw (n, run_statements)
    run-fault e n (s ∷ statements) t = rw (n, run_statements)

    module _ (n : d.fault i ≡ none) (s : Statement) (statements : List Statement) (t : Tables) where
      run-step :
          (t' : Tables)
          → s t ≡ ok t'
          → run_statements d i (s ∷ statements) t ≡ run_statements d (suc i) statements t'
      unfolding run_statements
      run-step t' h = rw (n, h, run_statements)

      run-stop : (e : StoreError) → s t ≡ err e → run_statements d i (s ∷ statements) t ≡ err e
      unfolding run_statements
      run-stop e h = rw (n, h, run_statements)

  -- A statement met a fault of the database.
  abbrev pub Faulted : StoreError → Type 0
  Faulted e = (j : ℕ) × (d.fault j ≡ some e)

  run_statements-cases :
      (i : ℕ) (statements : List Statement) (t : Tables)
      → ((e : StoreError) × Faulted e × (run_statements d i statements t ≡ err e))
        ⊎ (run_statements d i statements t ≡ all_of statements t)
  unfolding all_of
  run_statements-cases i [] t = elim (Option-cases (d.fault i)) [
    | inr (e, f) ↦ inl (e, (i, f), run-fault i e f [] t)
    | inl n ↦ inr (run-end i n t)
  ]
  run_statements-cases i (s ∷ statements) t = elim (Option-cases (d.fault i)) [
    | inr (e, f) ↦ inl (e, (i, f), run-fault i e f (s ∷ statements) t)
    | inl n ↦ elim (Result-cases (s t)) [
      | inr (e, f) ↦ inr (run-stop i n s statements t e f ∙ sym (all_of-stop s statements t e f))
      | inl (t', f) ↦ elim (run_statements-cases (suc i) statements t') [
        | inl (e, at, g) ↦ inl (e, at, run-step i n s statements t t' f ∙ g)
        | inr g ↦ inr (run-step i n s statements t t' f ∙ g ∙ sym (all_of-step s statements t t' f))
      ]
    ]
  ]

  run_statements_faultless :
      (i : ℕ) (statements : List Statement) (t : Tables)
      → ((j : ℕ) → d.fault j ≡ none)
      → run_statements d i statements t ≡ all_of statements t
  unfolding all_of
  run_statements_faultless i [] t h = run-end i (h i) t
  run_statements_faultless i (s ∷ statements) t h = elim (Result-cases (s t)) [
    | inr (e, f) ↦ run-stop i (h i) s statements t e f ∙ sym (all_of-stop s statements t e f)
    | inl (t', f) ↦
        run-step i (h i) s statements t t' f
        ∙ run_statements_faultless (suc i) statements t' h
        ∙ sym (all_of-step s statements t t' f)
  ]

  -- A transaction either meets a fault and leaves the tables, or does what its statements do.
  pub transaction-cases :
      (statements : List Statement) (t : Tables)
      → ((e : StoreError) × Faulted e × (transaction d statements t ≡ (err e, t)))
        ⊎ (transaction d statements t ≡ or_rollback t (all_of statements t))
  unfolding transaction all_of
  transaction-cases statements t = elim (run_statements-cases 0 (begin ∷ statements) t) [
    | inl (e, at, h) ↦ inl (e, at, ap (or_rollback t) h)
    | inr h ↦ inr (ap (or_rollback t) h)
  ]

  pub transaction_faultless :
      (statements : List Statement) (t : Tables)
      → ((j : ℕ) → d.fault j ≡ none)
      → transaction d statements t ≡ or_rollback t (all_of statements t)
  unfolding transaction all_of
  transaction_faultless statements t h =
      ap (or_rollback t) (run_statements_faultless 0 (begin ∷ statements) t h)
