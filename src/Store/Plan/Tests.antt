-- ===== src/Store/Plan/Tests.antt =====
-- src/store.cpp: plans for a sample table.
use shigoku.Store.Merge.{reconcile}
use shigoku.Domain.Enums.{eq_status}
use shigoku.Store.Plan.Counts.{size, remote_only, make_plan_shares}
use shigoku.Store.Plan.Settles.{make_plan-settled}
use shigoku.Store.Apply.Laws.{no_fault}
use shigoku.Store.Apply.{apply_plan, applied, anilist}
use shigoku.Store.Plan.Second.{row_key}
use shigoku.Store.Keyed.{find, upsert}
use shigoku.Store.Plan.{
  make_plan, entry_key, is_later, collapse, candidates, plan_entry, seed_has_title, is_matched,
  sort_by_id, import_cap, insert_by_id, seed_id,
}
use shigoku.Common.{List, none, some, ◌∷◌, codes, [], keep_if, false, ◌≡◌, refl, length, ◌≤◌, map}
use shigoku.Store.Types.{RemoteEntry, PullOutcome, no_pull}
use shigoku.Store.Rows.{Row, Table}
use shigoku.Common.Int.{pos}
use shigoku.Domain.Samples.{sample_show}
use shigoku.Domain.Types.{watching, completed}

abbrev pub tracked : Row
tracked = record {
  anilist_id = pos 7;
  mal_id = none;
  title_romaji = codes "Mushishi";
  status = none;
  total_episodes = some 26;
  next_airing_at = none;
  next_airing_episode = none;
  list_status = watching;
  progress = 3;
  play_count = 0;
  progress_stamped_at = none;
  library_added_at = some (pos 1);
  last_watched_at = none;
  user_score = none;
  synced_status = some watching;
  synced_progress = some 3;
  synced_score = some 0;
  mal_synced_status = none;
  mal_synced_progress = none;
  mal_synced_score = none;
  notice_last_episode = none;
  notice_pending = false;
}

-- The server moved on, and an older copy of the entry stands in another list.
abbrev newer : RemoteEntry
newer = record {
  anilist_id = pos 7;
  status = completed;
  progress = 26;
  score = 80;
  updated_at = pos 50;
  import_seed = none;
}

abbrev older : RemoteEntry
older = record newer { status = watching; progress = 30; updated_at = pos 40 }

-- A show that the library does not have.
abbrev unseen : RemoteEntry
unseen = record newer {
  anilist_id = pos 9;
  status = watching;
  import_seed = some (record sample_show { anilist_id = pos 9 });
}

abbrev pulled : List RemoteEntry
pulled = newer ∷ older ∷ unseen ∷ []

merged_newer :
    map (λ p. p.merged) (make_plan anilist (tracked ∷ []) pulled).plan
    ≡ record { status = completed; progress = 26; score = 80 } ∷ []
unfolding make_plan find upsert keep_if entry_key is_later plan_entry reconcile eq_status
merged_newer = refl

imported : map seed_id (make_plan anilist (tracked ∷ []) pulled).shares.imports ≡ pos 9 ∷ []
unfolding make_plan find upsert keep_if entry_key is_later seed_has_title is_matched sort_by_id
    insert_by_id eq_status
imported = refl

one_row : find row_key (pos 7) [] ≡ none
unfolding find
one_row = refl

make_plan-settled_example :
    (after : Table) × (tally : PullOutcome) × (apply_plan anilist
        (pos 60)
        no_fault
        (make_plan anilist (tracked ∷ []) pulled).plan
        (tracked ∷ [])
        no_pull
      ≡ applied after tally)
    × ((make_plan anilist after pulled).plan ≡ [])
make_plan-settled_example = make_plan-settled (pos 60) (tracked ∷ []) pulled (one_row, tt)

make_plan_shares_example :
    let s = (make_plan anilist (tracked ∷ []) pulled).shares in
    let cands = candidates anilist (tracked ∷ []) in
    (length s.imports ≤ import_cap anilist)
    × (size s ≡ length (remote_only cands (collapse anilist cands pulled [])))
make_plan_shares_example = make_plan_shares anilist (tracked ∷ []) pulled
