-- ===== src/Store/Apply.antt =====
-- The merges of a pull as src/store.cpp applies them: one guarded UPDATE for each planned row.
pub mod Laws
use shigoku.Common.{
  ℕ, ◌+◌, ◌/◌, ◌%◌, ◌^◌, Bool, true, false, not, ◌&&◌, List, [], ◌∷◌, ◌++◌, Option, none, some,
  if◌then◌else◌, ◌==◌, ltb, value_or,
}
use shigoku.Common.Int.{ℤ, eq_ℤ}
use shigoku.Domain.Enums.{eq_status}
use shigoku.Store.Types.{Result, ok, err, StoreError, ListEntry, PullOutcome, no_pull}
use shigoku.Store.Rows.{Row, Table, has_id, update_where, run_update, score_of}
use shigoku.Store.Merge.{eq_entry}

pub data SyncTracker : Type 0 where
  anilist mal : SyncTracker

pub record SyncPlanRow : Type 0 where
  pub id : ℤ
  pub guard : ListEntry
  pub merged : ListEntry
  pub snapshot : ListEntry
  pub conflict : Bool

-- The live triple that the WHERE compares with the guard.
abbrev pub local_entry : Row → ListEntry
local_entry r = record { status = r.list_status; progress = r.progress; score = score_of r }

unfoldable pub is_guarded : SyncPlanRow → Row → Bool
is_guarded p r = has_id p.id r && eq_entry (local_entry r) p.guard

-- The mirror's snapshot score is on MAL's own scale.
abbrev pub snap_score : SyncTracker → ℕ → ℕ
snap_score mal raw = (raw + 5) / 10
snap_score anilist raw = raw

-- The stamp is set on a rise only.
abbrev pub with_merged : SyncPlanRow → ℤ → Row → Row
with_merged p now r = record r {
  list_status = p.merged.status;
  progress = p.merged.progress;
  progress_stamped_at =
      if ltb r.progress p.merged.progress then some now else r.progress_stamped_at;
  user_score = some p.merged.score;
}

unfoldable pub write_plan_row : SyncTracker → SyncPlanRow → ℤ → Row → Row
write_plan_row anilist p now r = record (with_merged p now r) {
  synced_status = some p.snapshot.status;
  synced_progress = some p.snapshot.progress;
  synced_score = some (snap_score anilist p.snapshot.score);
}
write_plan_row mal p now r = record (with_merged p now r) {
  mal_synced_status = some p.snapshot.status;
  mal_synced_progress = some p.snapshot.progress;
  mal_synced_score = some (snap_score mal p.snapshot.score);
}

-- Whether `sqlite3_changes` is not 0.
unfoldable pub any_row : (Row → Bool) → Table → Bool
any_row p [] = false
any_row p (r ∷ rows) = let rest = any_row p rows in if p r then true else rest

abbrev pub add_contended : ℤ → PullOutcome → PullOutcome
add_contended id out = record out { contended = out.contended ++ id ∷ [] }

abbrev pub count_applied : Bool → PullOutcome → PullOutcome
count_applied conflict out = record out {
  reconciled = (out.reconciled + 1) % 2 ^ 32;
  conflicts = if conflict then (out.conflicts + 1) % 2 ^ 32 else out.conflicts;
}

-- What a step leaves: the table and the tally, or the table with the database's error.
pub data Applied : Type 0 where
  applied : Table → PullOutcome → Applied
  failed : Table → StoreError → Applied

-- One planned row.
unfoldable pub apply_row :
    SyncTracker → ℤ → Option StoreError → SyncPlanRow → Table → PullOutcome → Applied
apply_row tracker now (some e) p rows out = failed rows e
apply_row tracker now none p rows out =
    if any_row (is_guarded p) rows
    then applied (update_where (is_guarded p) (write_plan_row tracker p now) rows)
        (count_applied p.conflict out)
    else applied rows (add_contended p.id out)

-- The loop over the plan; `fault` answers for each row's statement.
unfoldable pub apply_plan :
    SyncTracker
    → ℤ
    → (SyncPlanRow → Option StoreError)
    → List SyncPlanRow
    → Table
    → PullOutcome
    → Applied
apply_plan tracker now fault [] rows out = applied rows out
apply_plan tracker now fault (p ∷ plan) rows out =
    elim (apply_row tracker now (fault p) p rows out) [
      | applied rows' out' ↦ apply_plan tracker now fault plan rows' out'
      | failed rows' e ↦ failed rows' e
    ]

-- MAL only: a NULL mal_id is filled in.
abbrev pub lacks_mal_id : ℤ → Row → Bool
lacks_mal_id id r = has_id id r && elim r.mal_id [ none ↦ true | some m ↦ false ]

unfoldable pub backfill : (ℤ × ℤ → Option StoreError) → List (ℤ × ℤ) → Table → PullOutcome → Applied
backfill fault [] rows out = applied rows out
backfill fault ((id, mal_id) ∷ pairs) rows out = elim (fault (id, mal_id)) [
  | some e ↦ failed rows e
  | none ↦
      backfill fault pairs
        (update_where (lacks_mal_id id) (λ r. record r { mal_id = some mal_id }) rows) out
]
