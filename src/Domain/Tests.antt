-- ===== src/Domain/Tests.antt =====
-- The helpers of the domain at concrete inputs.
use shigoku.Domain.Calendar.{civil_from_days}
use shigoku.Domain.Calendar.Laws.{day_count, IsMonthDay, month_length, civil_from_days-counts}
use shigoku.Common.Int.{pos, pos_part}
use shigoku.Domain.Airing.Laws.{IsNews, detect_schedule_notices-IsNews, IsTold}
use shigoku.Domain.Samples.{sample_show}
use shigoku.Domain.Airing.{detect_schedule_notices}
use shigoku.Common.{◌+◌, ◌≤◌, ◌≡◌, false, some, All, ◌∷◌, [], codes, none}
use shigoku.Domain.Types.{watching, Show}

abbrev airing : Show
airing = record {
  enrichment = record sample_show {
    next_airing_at = some (pos 1000);
    next_airing_episode = some 5;
    status = some (codes "RELEASING");
  };
  enrichment_fetched_at = none;
  enrichment_fieldset_version = none;
  list_status = watching;
  notes = none;
  play_count = 0;
  progress = 2;
  library_added_at = some (pos 1);
  last_watched_at = none;
  synced_status = none;
  synced_progress = none;
  user_score = none;
  synced_score = none;
  notice_last_episode = some 4;
  notice_pending = false;
}

detect_schedule_notices-IsNews_example :
    All (IsNews (airing ∷ []) 0 (pos 2000)) (detect_schedule_notices (airing ∷ []) (pos 2000))
    × IsTold 0 (airing ∷ []) (pos 2000) (detect_schedule_notices (airing ∷ []) (pos 2000))
detect_schedule_notices-IsNews_example = detect_schedule_notices-IsNews (airing ∷ []) (pos 2000)

-- The 4th of October 2024.
civil_from_days-counts_example :
    (day_count (civil_from_days (pos 20000)) ≡ 20000 + 719468)
    × IsMonthDay (civil_from_days (pos 20000)).month (civil_from_days (pos 20000)).day
    × ((civil_from_days (pos 20000)).day
        ≤ month_length
            (pos_part (civil_from_days (pos 20000)).year)
            (civil_from_days (pos 20000)).month)
civil_from_days-counts_example = civil_from_days-counts 20000
