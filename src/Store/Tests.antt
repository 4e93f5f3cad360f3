-- ===== src/Store/Tests.antt =====
-- The merge at concrete entries.
use shigoku.Store.Rows.Marks.{mark_synced-is_dirty}
use shigoku.Store.WorkList.Laws.{InOrder, IsUnpushed, list_dirty_for_sync-Perm}
use mathlib.Core.List.{Perm}
use shigoku.Common.Int.{pos}
use shigoku.Store.Apply.Laws.{table_of, no_fault, apply_plan-IsEdited}
use shigoku.Store.WorkList.{list_dirty_for_sync, to_sync_row, is_dirty}
use shigoku.Store.Apply.{SyncPlanRow, apply_plan, anilist}
use shigoku.Store.Rows.{Row, Table, mark_synced, score_of}
use shigoku.Common.{
  ◌≡◌, false, some, ◌≢◌, get_elem?, none, ◌⊎◌, ◌∷◌, [], map, codes, keep_if, true, ◌↔◌, refl, arith,
}
use shigoku.Domain.Types.{watching, completed, planning}
use shigoku.Store.Types.{ListEntry, ok, no_pull}
use shigoku.Store.Merge.{reconcile, merged_of, snapshot_of}
use shigoku.Store.Merge.Laws.{reconcile-twice}

abbrev base : ListEntry
base = record { status = planning; progress = 1; score = 0 }

abbrev ahead : ListEntry
ahead = record { status = watching; progress = 5; score = 70 }

abbrev done : ListEntry
done = record { status = completed; progress = 3; score = 0 }

reconcile-twice_example :
    let r = reconcile (some base) ahead done in
    let again = reconcile (some (snapshot_of r)) (merged_of r) done in
    (merged_of again ≡ merged_of r) × (snapshot_of again ≡ snapshot_of r) × (again.conflict ≡ false)
reconcile-twice_example = reconcile-twice (some base) ahead done

abbrev held : Row
held = record {
  anilist_id = pos 7;
  mal_id = none;
  title_romaji = codes "Mushishi";
  status = none;
  total_episodes = some 26;
  next_airing_at = none;
  next_airing_episode = none;
  list_status = watching;
  progress = 5;
  play_count = 0;
  progress_stamped_at = none;
  library_added_at = some (pos 1);
  last_watched_at = none;
  user_score = some 75;
  synced_status = none;
  synced_progress = none;
  synced_score = none;
  mal_synced_status = none;
  mal_synced_progress = none;
  mal_synced_score = none;
  notice_last_episode = none;
  notice_pending = false;
}

mark_synced-is_dirty_example :
    (after : Table) × (n : Row) × (mark_synced none (pos 7) watching 5 80 (some 75) (held ∷ [])
      ≡ ok after)
    × (get_elem? after 0 ≡ some n)
    × ((is_dirty n ≡ true)
        ↔ (held.list_status ≢ watching)
          ⊎ (held.progress ≢ 5)
          ⊎ ((score_of held ≢ 75) × (score_of held ≢ 80)))
mark_synced-is_dirty_example =
    mark_synced-is_dirty (held ∷ []) 0 held watching 5 80 75 refl refl (omega arith)

list_dirty_for_sync-Perm_example :
    (listed : Table) × (list_dirty_for_sync none (held ∷ []) ≡ ok (map to_sync_row listed))
    × Perm listed (keep_if is_dirty (held ∷ []))
    × ((r : Row) → (is_dirty r ≡ true) ↔ IsUnpushed r)
    × InOrder listed
list_dirty_for_sync-Perm_example = list_dirty_for_sync-Perm (held ∷ [])

-- A plan made of an earlier state of the row.
abbrev stale : SyncPlanRow
stale = record { id = pos 7; guard = base; merged = ahead; snapshot = ahead; conflict = false }

apply_plan-IsEdited_example :
    get_elem? (table_of (apply_plan anilist (pos 9) no_fault (stale ∷ []) (held ∷ []) no_pull)) 0
    ≡ some held
apply_plan-IsEdited_example =
    apply_plan-IsEdited anilist (pos 9) no_fault (stale ∷ []) (held ∷ []) no_pull 0 held refl
      (λ e f. cc, tt)
