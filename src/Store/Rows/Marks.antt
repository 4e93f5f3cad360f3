-- ===== src/Store/Rows/Marks.antt =====
-- `Store::mark_synced` of src/store.cpp and the push work list.
use shigoku.Store.Rows.Laws.{get_elem?-update_where}
use shigoku.Common.{
  ℕ, ◌≡◌, ◌≢◌, ◌↔◌, ◌⊎◌, true, some, arith, has_value, get_elem?, none, refl, ◌∙◌, ap,
}
use shigoku.Common.Int.{◌<ℤ◌, pos, eq_ℤ_iff}
use shigoku.Domain.Types.{ListStatus}
use shigoku.Domain.Enums.{eq_status_iff}
use shigoku.Store.Rows.{Row, with_snapshot, score_of, mark_synced, Table, ok, has_id, update_row}
use shigoku.Store.WorkList.{is_dirty}

with_snapshot-dirty :
    (r : Row) (status : ListStatus) (progress stored raw : ℕ)
    → has_value r.library_added_at ≡ true
    → pos 0 <ℤ r.anilist_id
    → (is_dirty (with_snapshot status progress stored (some raw) r) ≡ true)
      ↔ (r.list_status ≢ status)
        ⊎ (r.progress ≢ progress)
        ⊎ ((score_of r ≢ raw) × (score_of r ≢ stored))
unfolding is_dirty with_snapshot
with_snapshot-dirty r status progress stored raw lib id =
    let same = eq_status_iff status r.list_status in
    (λ h. ground (arith, same), λ h. ground (arith, same))

-- Marking a pushed library row, with the score the server stored, takes the row off the work list,
-- unless an edit during the push changed its status, its progress, or its score (to one that is
-- neither the pushed nor the stored score): then, and only then, it is still dirty.
pub mark_synced-is_dirty :
    (rows : Table) (i : ℕ) (r : Row) (status : ListStatus) (progress stored raw : ℕ)
    → get_elem? rows i ≡ some r
    → has_value r.library_added_at ≡ true
    → pos 0 <ℤ r.anilist_id
    → (after : Table) × (n : Row) × (mark_synced none r.anilist_id status progress stored
          (some raw)
          rows
        ≡ ok after)
      × (get_elem? after i ≡ some n)
      × ((is_dirty n ≡ true)
          ↔ (r.list_status ≢ status)
            ⊎ (r.progress ≢ progress)
            ⊎ ((score_of r ≢ raw) × (score_of r ≢ stored)))
unfolding mark_synced
mark_synced-is_dirty rows i r status progress stored raw at lib id =
    let write : Row → Row = with_snapshot status progress stored (some raw) in
    let same : has_id r.anilist_id r ≡ true = (eq_ℤ_iff r.anilist_id r.anilist_id).1 refl in
    let moved = get_elem?-update_where (has_id r.anilist_id) write rows i r at in
    let taken : update_row (has_id r.anilist_id) write r ≡ write r = ground (arith, same) in
    (
      _,
      write r,
      refl,
      moved ∙ ap some taken,
      with_snapshot-dirty r status progress stored raw lib id,
    )
