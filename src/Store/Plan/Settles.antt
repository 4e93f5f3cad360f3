-- ===== src/Store/Plan/Settles.antt =====
-- src/store.cpp: `reconcile_plan_for` after the plan loop of `apply_reconcile_for` has applied its plan.
use shigoku.Store.Keyed.Laws.{some_inj}
use shigoku.Store.Keyed.{KeysApart, find}
use shigoku.Store.Keyed.Second.{missing_behind, miss_of_none}
use shigoku.Store.Merge.{eq_entry_iff}
use shigoku.Store.Plan.Second.{
  entry_for, row_key, plan_for, plan_for-cons, entry_for-cases, after_entry, entry_for-settled,
}
use shigoku.Store.Types.{PullOutcome, no_pull, RemoteEntry}
use shigoku.Store.Plan.{
  RemoteCell, candidates, collapse, make_plan, entry_key, plan_rows, ReconcileCandidate,
}
use shigoku.Store.Apply.Laws.{row_after, no_fault, apply_row_lem, wrote, apply_plan-cons}
use shigoku.Common.{
  List, ◌∷◌, ◌≡◌, Bool, [], ap, refl, ◌≢◌, true, none, some, arith, false, sym, Option-cases, inl,
  inr, ◌∙◌, All, keep_if,
}
use shigoku.Store.Apply.{
  apply_plan, SyncPlanRow, is_guarded, local_entry, anilist, write_plan_row, applied,
}
use shigoku.Store.Rows.{Row, Table, update_where, update_row}
use shigoku.Common.Int.{ℤ, eq_ℤ_iff}

-- What the loop leaves, as one write to each row.
map_rows : (Row → Row) → Table → Table
map_rows f [] = []
map_rows f (r ∷ rows) = f r ∷ map_rows f rows

map_rows-id : (rows : Table) → map_rows (λ r. r) rows ≡ rows
unfolding map_rows
map_rows-id [] = refl
map_rows-id (r ∷ rows) = ap (λ t. r ∷ t) (map_rows-id rows)

map_rows-update_where :
    (p : Row → Bool) (write f : Row → Row) (rows : Table)
    → map_rows f (update_where p write rows) ≡ map_rows (λ r. f (update_row p write r)) rows
unfolding map_rows update_where
map_rows-update_where p write f [] = refl
map_rows-update_where p write f (r ∷ rows) =
    ap (λ t. f (update_row p write r) ∷ t) (map_rows-update_where p write f rows)

module _ (now : ℤ) where
  apply_plan-map_rows :
      (plan : List SyncPlanRow) (rows : Table) (out : PullOutcome)
      → (tally : PullOutcome) × (apply_plan anilist now no_fault plan rows out
          ≡ applied (map_rows (row_after anilist now plan) rows) tally)
  unfolding apply_plan row_after
  apply_plan-map_rows [] rows out = (out, ap (λ t. applied t out) (sym (map_rows-id rows)))
  apply_plan-map_rows (p ∷ plan) rows out =
      let step = apply_row_lem anilist now p rows out in
      let rest = apply_plan-map_rows plan (wrote anilist now p rows) step.0 in
      (
        rest.0,
        apply_plan-cons anilist now no_fault p plan rows _ out _ refl step.1
            ∙ rest.1
            ∙ ap (λ t. applied t rest.0)
                (map_rows-update_where (is_guarded p) (write_plan_row anilist p now)
                  (row_after anilist now plan) rows),
      )

module _ (now : ℤ) (cells : List RemoteCell) where
  -- The entry of a row has the row's id and its triple as the guard.
  entry_for-own :
      (r : Row) (p : SyncPlanRow)
      → entry_for now cells r ≡ some p
      → (p.id ≡ r.anilist_id) × (p.guard ≡ local_entry r)
  entry_for-own r p h = elim (entry_for-cases now cells r) [
    | inl n ↦ absurd (cc (h, n))
    | inr (remote, e) ↦ rw (some_inj (sym h ∙ e)) (refl, refl)
  ]

  is_guarded-own :
      (p : SyncPlanRow) (r : Row)
      → p.id ≡ r.anilist_id
      → p.guard ≡ local_entry r
      → is_guarded p r ≡ true
  unfolding is_guarded
  is_guarded-own p r h g =
      ground (arith, eq_ℤ_iff r.anilist_id p.id, eq_entry_iff (local_entry r) p.guard)

  is_guarded-other : (p : SyncPlanRow) (r : Row) → p.id ≢ r.anilist_id → is_guarded p r ≡ false
  unfolding is_guarded
  is_guarded-other p r n = ground (arith, eq_ℤ_iff r.anilist_id p.id)

  row_after-other :
      (p : SyncPlanRow) (plan : List SyncPlanRow) (r : Row)
      → p.id ≢ r.anilist_id
      → row_after anilist now (p ∷ plan) r ≡ row_after anilist now plan r
  unfolding row_after
  row_after-other p plan r n = rw (is_guarded-other p r n) refl

  row_after-own :
      (p : SyncPlanRow) (plan : List SyncPlanRow) (r : Row)
      → is_guarded p r ≡ true
      → row_after anilist now (p ∷ plan) r
        ≡ row_after anilist now plan (write_plan_row anilist p now r)
  unfolding row_after
  row_after-own p plan r h = rw h refl

  no_rows : (r : Row) → row_after anilist now (plan_for now cells []) r ≡ r
  unfolding row_after plan_for candidates keep_if plan_rows
  no_rows r = refl

  other_id :
      (s : Row) (rows : Table) (r : Row) (p : SyncPlanRow)
      → find row_key r.anilist_id (s ∷ rows) ≡ none
      → entry_for now cells s ≡ some p
      → p.id ≢ r.anilist_id
  other_id s rows r p n e h = absurd (
      cc (
        miss_of_none row_key row_key r.anilist_id s rows n,
        (eq_ℤ_iff s.anilist_id r.anilist_id).1 (sym (entry_for-own s p e).0 ∙ h),
      ))

  -- The plan for other rows leaves a row alone.
  plan_for-spares :
      (rows : Table) (r : Row)
      → find row_key r.anilist_id rows ≡ none
      → row_after anilist now (plan_for now cells rows) r ≡ r
  plan_for-spares [] r n = no_rows r
  plan_for-spares (s ∷ rows) r n =
      rw (plan_for-cons now cells s rows) (elim (Option-cases (entry_for now cells s)) [
        | inl e ↦
            rw e (plan_for-spares rows r (missing_behind row_key row_key r.anilist_id s rows n))
        | inr (p, e) ↦ rw e (
            row_after-other p (plan_for now cells rows) r (other_id s rows r p n e)
            ∙ plan_for-spares rows r (missing_behind row_key row_key r.anilist_id s rows n))
      ])

  -- The head of the table: its own entry, and nothing of the plan for the others.
  own_entry :
      (r : Row) (rows : Table)
      → find row_key r.anilist_id rows ≡ none
      → row_after anilist now (plan_for now cells (r ∷ rows)) r
        ≡ after_entry now cells (entry_for now cells r) r
  unfolding write_plan_row
  own_entry r rows n =
      rw (plan_for-cons now cells r rows) (elim (Option-cases (entry_for now cells r)) [
        | inl e ↦ rw e (plan_for-spares rows r n)
        | inr (p, e) ↦
            let own = entry_for-own r p e in
            rw e (
              row_after-own p (plan_for now cells rows) r (is_guarded-own p r own.0 own.1)
              ∙ plan_for-spares rows (write_plan_row anilist p now r) n)
      ])

  -- A row behind the head: the head's entry passes it by.
  behind :
      (s : Row) (rows : Table) (r : Row)
      → r.anilist_id ≢ s.anilist_id
      → row_after anilist now (plan_for now cells (s ∷ rows)) r
        ≡ row_after anilist now (plan_for now cells rows) r
  behind s rows r n =
      rw (plan_for-cons now cells s rows) (elim (Option-cases (entry_for now cells s)) [
        | inl e ↦ rw e refl
        | inr (p, e) ↦ rw e (
            row_after-other p (plan_for now cells rows) r
              (λ h. n (sym h ∙ (entry_for-own s p e).0)))
      ])

  -- Each row ends with its own entry applied.
  abbrev EndsWell : List SyncPlanRow → Row → Type 0
  EndsWell plan r = entry_for now cells (row_after anilist now plan r) ≡ none

  head_apart :
      (s r : Row) (others : Table)
      → find row_key s.anilist_id (r ∷ others) ≡ none
      → r.anilist_id ≢ s.anilist_id
  head_apart s r others n h = absurd (
      cc (
        miss_of_none row_key row_key s.anilist_id r others n,
        (eq_ℤ_iff r.anilist_id s.anilist_id).1 h,
      ))

  ends_behind :
      (s : Row) (rows some_rows : Table)
      → find row_key s.anilist_id some_rows ≡ none
      → All (EndsWell (plan_for now cells rows)) some_rows
      → All (EndsWell (plan_for now cells (s ∷ rows))) some_rows
  ends_behind s rows [] n all = tt
  ends_behind s rows (r ∷ others) n all = (
    rw (behind s rows r (head_apart s r others n)) all.0,
    ends_behind s rows others (missing_behind row_key row_key s.anilist_id r others n) all.1,
  )

  rows_end_well :
      (rows : Table) → KeysApart row_key rows → All (EndsWell (plan_for now cells rows)) rows
  rows_end_well [] a = tt
  rows_end_well (r ∷ rows) a = (
    rw (own_entry r rows a.0) (entry_for-settled now cells r),
    ends_behind r rows rows a.0 (rows_end_well rows a.1),
  )

  nothing : plan_for now cells [] ≡ []
  unfolding plan_for candidates keep_if plan_rows
  nothing = refl

  plan_for-ended :
      (plan : List SyncPlanRow) (rows : Table)
      → All (EndsWell plan) rows
      → plan_for now cells (map_rows (row_after anilist now plan) rows) ≡ []
  unfolding map_rows
  plan_for-ended plan [] all = nothing
  plan_for-ended plan (r ∷ rows) all =
      plan_for-cons now cells (row_after anilist now plan r)
        (map_rows (row_after anilist now plan) rows)
      ∙ rw all.0 (plan_for-ended plan rows all.1)

-- AniList's cells do not depend on the library.
collapse-anilist :
    (c d : List ReconcileCandidate) (remote : List RemoteEntry) (cells : List RemoteCell)
    → collapse anilist c remote cells ≡ collapse anilist d remote cells
unfolding collapse entry_key
collapse-anilist c d [] cells = refl
collapse-anilist c d (e ∷ remote) cells = collapse-anilist c d remote _

-- In a table whose ids are distinct, once the database has carried out the plan that a pulled AniList list
-- asks for, the same list asks for no further merge.
pub make_plan-settled :
    (now : ℤ) (rows : Table) (remote : List RemoteEntry)
    → KeysApart row_key rows
    → (after : Table) × (tally : PullOutcome) × (apply_plan anilist now no_fault
          (make_plan anilist rows remote).plan
          rows
          no_pull
        ≡ applied after tally)
      × ((make_plan anilist after remote).plan ≡ [])
unfolding make_plan plan_for
make_plan-settled now rows remote a =
    let cells = collapse anilist (candidates anilist rows) remote [] in
    let plan = plan_for now cells rows in
    let step = apply_plan-map_rows now plan rows no_pull in
    let after = map_rows (row_after anilist now plan) rows in
    (
      after,
      step.0,
      step.1,
      ap (λ c. plan_rows c (candidates anilist after))
            (collapse-anilist (candidates anilist after) (candidates anilist rows) remote [])
          ∙ plan_for-ended now cells plan rows (rows_end_well now cells rows a),
    )
