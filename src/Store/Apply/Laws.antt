-- ===== src/Store/Apply/Laws.antt =====
-- The plan loop of `Store::apply_reconcile_for` in src/store.cpp: what becomes of each row.
use shigoku.Common.{
  ℕ, suc, ◌+◌, ◌^◌, ◌<◌, ◌≤◌, ◌≡◌, ◌≢◌, refl, inl, inr, Bool, false, List, [], ◌∷◌, Option, none,
  some, arith, get_elem?, length, length-append, All, ◌∙◌, ap, Bool-cases, Option-cases,
}
use shigoku.Common.Int.{ℤ, eq_ℤ_iff}
use shigoku.Store.Types.{PullOutcome, StoreError}
use shigoku.Store.Merge.{eq_entry_iff}
use shigoku.Store.Rows.{Row, Table, update_where, update_row}
use shigoku.Store.Rows.Laws.{get_elem?-update_where}
use shigoku.Store.Apply.{
  SyncTracker, SyncPlanRow, local_entry, is_guarded, write_plan_row, any_row, Applied, applied,
  failed, apply_row, apply_plan, add_contended, count_applied,
}

-- The table that a step leaves, whether or not the database failed on the way.
abbrev pub table_of : Applied → Table
table_of (applied rows out) = rows
table_of (failed rows e) = rows

-- What the plan means for one row of its own: each entry whose guard is the row's triple takes it.
unfoldable pub row_after : SyncTracker → ℤ → List SyncPlanRow → Row → Row
row_after tracker now [] r = r
row_after tracker now (p ∷ plan) r =
    row_after tracker now plan (update_row (is_guarded p) (write_plan_row tracker p now) r)

-- No entry of the plan was made of the row's live triple.
abbrev pub IsEdited : List SyncPlanRow → Row → Type 0
IsEdited plan r = All (λ p. p.id ≡ r.anilist_id → local_entry r ≢ p.guard) plan

abbrev pub no_fault : SyncPlanRow → Option StoreError
no_fault p = none

update_where-none :
    (p : Row → Bool) (write : Row → Row) (rows : Table)
    → any_row p rows ≡ false
    → update_where p write rows ≡ rows
unfolding update_where any_row
update_where-none p write [] h = refl
update_where-none p write (r ∷ rows) h = ground (arith, update_where-none p write rows)

module _ (tracker : SyncTracker) (now : ℤ) where
  abbrev pub wrote : SyncPlanRow → Table → Table
  wrote p rows = update_where (is_guarded p) (write_plan_row tracker p now) rows

  -- One planned row: the database fails, or the row is written, or it is contended.
  pub apply_row_lem :
      (p : SyncPlanRow) (rows : Table) (out : PullOutcome)
      → (out' : PullOutcome) × (apply_row tracker now none p rows out ≡ applied (wrote p rows) out')
        × (out.reconciled + 1 < 2 ^ 32
            → out'.reconciled + length out'.contended ≡ suc (out.reconciled + length out.contended))
        × (out'.reconciled ≤ suc out.reconciled)
  unfolding apply_row
  apply_row_lem p rows out = elim (Bool-cases (any_row (is_guarded p) rows)) [
    | inl h ↦ (count_applied p.conflict out, rw h refl, λ b. omega arith, omega arith)
    | inr h ↦
        let same : wrote p rows ≡ rows = update_where-none _ _ rows h in
        (
          add_contended p.id out,
          ground (arith, same),
          λ b. omega (arith, length-append out.contended (p.id ∷ [])),
          omega arith,
        )
  ]

  is_guarded-edited :
      (p : SyncPlanRow) (r : Row)
      → (p.id ≡ r.anilist_id → local_entry r ≢ p.guard)
      → is_guarded p r ≡ false
  unfolding is_guarded
  is_guarded-edited p r h =
      ground (arith, eq_ℤ_iff r.anilist_id p.id, eq_entry_iff (local_entry r) p.guard)

  pub apply_plan-cons :
      (fault : SyncPlanRow → Option StoreError) (p : SyncPlanRow) (plan : List SyncPlanRow)
      (rows rows' : Table) (out out' : PullOutcome)
      → fault p ≡ none
      → apply_row tracker now none p rows out ≡ applied rows' out'
      → apply_plan tracker now fault (p ∷ plan) rows out
        ≡ apply_plan tracker now fault plan rows' out'
  unfolding apply_plan
  apply_plan-cons fault p plan rows rows' out out' f e = rw (apply_plan, f, e) refl

  apply_plan-fails :
      (fault : SyncPlanRow → Option StoreError) (p : SyncPlanRow) (plan : List SyncPlanRow)
      (rows : Table) (out : PullOutcome) (e : StoreError)
      → fault p ≡ some e
      → apply_plan tracker now fault (p ∷ plan) rows out ≡ failed rows e
  unfolding apply_row apply_plan
  apply_plan-fails fault p plan rows out e f = rw (apply_plan, f) refl

  -- A row that was edited after the plan was made keeps its edit, whatever the database answers.
  pub apply_plan-IsEdited :
      (fault : SyncPlanRow → Option StoreError) (plan : List SyncPlanRow) (rows : Table)
      (out : PullOutcome) (i : ℕ) (r : Row)
      → get_elem? rows i ≡ some r
      → IsEdited plan r
      → get_elem? (table_of (apply_plan tracker now fault plan rows out)) i ≡ some r
  unfolding apply_plan
  apply_plan-IsEdited fault [] rows out i r at edited = at
  apply_plan-IsEdited fault (p ∷ plan) rows out i r at edited = elim (Option-cases (fault p)) [
    | inr (e, f) ↦ rw (apply_plan-fails fault p plan rows out e f) at
    | inl f ↦
        let step = apply_row_lem p rows out in
        let spared : is_guarded p r ≡ false = is_guarded-edited p r edited.0 in
        let kept : update_row (is_guarded p) (write_plan_row tracker p now) r ≡ r =
          ground (arith, spared) in
        let at' =
          get_elem?-update_where (is_guarded p) (write_plan_row tracker p now) rows i r at in
        rw (apply_plan-cons fault p plan rows _ out _ f step.1)
          (apply_plan-IsEdited fault plan (wrote p rows) step.0 i r (at' ∙ ap some kept) edited.1)
  ]
