-- ===== src/Store/Plan/Second.antt =====
-- src/store.cpp: what `reconcile_plan_for` plans for a table that its own plan was applied to.
use shigoku.Store.Types.{ListEntry}
use shigoku.Store.Merge.{eq_entry_iff, reconcile, merged_of, snapshot_of, eq_entry}
use shigoku.Store.Merge.Laws.{reconcile-twice}
use shigoku.Store.Apply.{write_plan_row, SyncPlanRow, anilist}
use shigoku.Store.Plan.{
  RemoteCell, plan_entry, candidates, in_library, ReconcileCandidate, plan_rows, plan_of, cell_key,
  candidate_of, push_opt, same_base,
}
use shigoku.Store.Rows.{Row, Table}
use shigoku.Common.{
  List, Option, ◌≡◌, true, false, none, if◌then◌else◌, some, keep_if, Bool-cases, ◌⊎◌, ◌∷◌, inr,
  ◌∙◌, inl, refl, ap, Option-cases, ◌&&◌,
}
use shigoku.Store.Keyed.{Keyed, find}
use shigoku.Common.Int.{ℤ, eq_ℤ, eq_ℤ_iff}

-- No two rows have one id: `anilist_id` is the primary key.
abbrev pub row_key : Keyed ℤ Row
row_key = record { key = λ r. r.anilist_id; eq_key = eq_ℤ; eq_key_iff = eq_ℤ_iff }

-- A candidate that took the merge, and the entry that asks for it.
abbrev settled : ReconcileCandidate → ListEntry → ReconcileCandidate
settled c remote =
    let r = reconcile c.base c.local remote in
    record c { local = merged_of r; base = some (snapshot_of r) }

abbrev pub entry_of : ReconcileCandidate → ListEntry → SyncPlanRow
entry_of c remote =
    let r = reconcile c.base c.local remote in
    record {
      id = c.id;
      guard = c.local;
      merged = merged_of r;
      snapshot = snapshot_of r;
      conflict = r.conflict;
    }

plan_entry-same :
    (c : ReconcileCandidate) (remote : ListEntry)
    → let r = reconcile c.base c.local remote in
      eq_entry (merged_of r) c.local ≡ true
      → same_base c.base (snapshot_of r) ≡ true
      → plan_entry c remote ≡ none
unfolding plan_entry
plan_entry-same c remote h g = rw (h, g)

plan_entry-settled :
    (c : ReconcileCandidate) (remote : ListEntry) → plan_entry (settled c remote) remote ≡ none
plan_entry-settled c remote =
    let twice = reconcile-twice c.base c.local remote in
    plan_entry-same (settled c remote) remote ((eq_entry_iff _ _).1 twice.0)
      ((eq_entry_iff _ _).1 twice.1)

plan_entry-cases :
    (c : ReconcileCandidate) (remote : ListEntry)
    → (plan_entry c remote ≡ none) ⊎ (plan_entry c remote ≡ some (entry_of c remote))
unfolding plan_entry
plan_entry-cases c remote =
    let r = reconcile c.base c.local remote in
    elim (Bool-cases (eq_entry (merged_of r) c.local && same_base c.base (snapshot_of r))) [
      | inl h ↦ inl (rw h refl)
      | inr h ↦ inr (rw h refl)
    ]

module _ (now : ℤ) (cells : List RemoteCell) where
  -- The plan's entry for a row of the table.
  pub entry_for : Row → Option SyncPlanRow
  entry_for r =
      if in_library r
      then plan_of (find cell_key r.anilist_id cells) (candidate_of anilist r)
      else none

  unfoldable pub plan_for : Table → List SyncPlanRow
  plan_for rows = plan_rows cells (candidates anilist rows)

  abbrev pub after_entry : Option SyncPlanRow → Row → Row
  after_entry none r = r
  after_entry (some p) r = write_plan_row anilist p now r

  pub plan_for-cons :
      (r : Row) (rows : Table) → plan_for (r ∷ rows) ≡ push_opt (entry_for r) (plan_for rows)
  unfolding plan_for entry_for candidates plan_rows keep_if
  plan_for-cons r rows = elim (Bool-cases (in_library r)) [ inl h ↦ rw h refl | inr h ↦ rw h refl ]

  entry_for-in :
      (r : Row)
      → in_library r ≡ true
      → entry_for r ≡ plan_of (find cell_key r.anilist_id cells) (candidate_of anilist r)
  unfolding entry_for
  entry_for-in r h = rw h refl

  entry_for-out : (r : Row) → in_library r ≡ false → entry_for r ≡ none
  unfolding entry_for
  entry_for-out r h = rw h refl

  -- A row's entry, if it has one, is made of its own triple and a remote entry.
  pub entry_for-cases :
      (r : Row)
      → (entry_for r ≡ none)
        ⊎ ((remote : ListEntry) × (entry_for r ≡ some (entry_of (candidate_of anilist r) remote)))
  entry_for-cases r = elim (Bool-cases (in_library r)) [
    | inr h ↦ inl (entry_for-out r h)
    | inl h ↦ elim (Option-cases (find cell_key r.anilist_id cells)) [
      | inl n ↦ inl (entry_for-in r h ∙ ap (λ o. plan_of o (candidate_of anilist r)) n)
      | inr (cell, f) ↦
          let e = entry_for-in r h ∙ ap (λ o. plan_of o (candidate_of anilist r)) f in
          elim (plan_entry-cases (candidate_of anilist r) cell.entry) [
            | inl n ↦ inl (e ∙ n)
            | inr g ↦ inr (cell.entry, e ∙ g)
          ]
    ]
  ]

  abbrev written : Row → RemoteCell → Row
  written r cell = write_plan_row anilist (entry_of (candidate_of anilist r) cell.entry) now r

  settled_at :
      (r : Row) (cell : RemoteCell)
      → in_library r ≡ true
      → find cell_key r.anilist_id cells ≡ some cell
      → entry_for (after_entry (entry_for r) r) ≡ none
  unfolding write_plan_row
  settled_at r cell h f =
      let e = entry_for-in r h ∙ ap (λ o. plan_of o (candidate_of anilist r)) f in
      elim (plan_entry-cases (candidate_of anilist r) cell.entry) [
        | inl n ↦ rw (e ∙ n) (e ∙ n)
        | inr g ↦ rw (e ∙ g) (
            entry_for-in (written r cell) h
            ∙ ap (λ o. plan_of o (settled (candidate_of anilist r) cell.entry)) f
            ∙ plan_entry-settled (candidate_of anilist r) cell.entry)
      ]

  -- Planning again for a row that took its entry plans nothing.
  pub entry_for-settled : (r : Row) → entry_for (after_entry (entry_for r) r) ≡ none
  entry_for-settled r = elim (Bool-cases (in_library r)) [
    | inr h ↦ rw (entry_for-out r h) (entry_for-out r h)
    | inl h ↦ elim (Option-cases (find cell_key r.anilist_id cells)) [
      | inl n ↦
          rw (entry_for-in r h, n)
            (entry_for-in r h ∙ ap (λ o. plan_of o (candidate_of anilist r)) n)
      | inr (cell, f) ↦ settled_at r cell h f
    ]
  ]
