-- ===== src/Store/Finish/Tests.antt =====
-- src/store.cpp: the end of a play over whole seconds and ratios in hundredths.
use shigoku.Domain.Airing.{is_still_airing}
use shigoku.Domain.Enums.{after_play_status}
use shigoku.Store.Apply.{any_row}
use shigoku.Store.Providers.Tests.{working}
use shigoku.Store.Rows.{status_row, update_where}
use shigoku.Store.Plan.Tests.{tracked}
use shigoku.Common.{
  ℕ, codes, ◌≡◌, true, ◌∷◌, none, some, ltb, [], refl, leb, if◌then◌else◌, ◌==◌, ◌*◌, ◌/◌, map,
}
use shigoku.Store.Finish.Laws.{Ends, record_finish-Ends}
use shigoku.Store.Keyed.{find}
use shigoku.Store.Finish.{
  Reals, PlayTables, Play, record_finish, play_counts, upsert_progress, bump_engagement, ok,
  engaged, finish_status, finish_progress, natural_end,
}
use shigoku.Common.Int.{pos}
use shigoku.Store.Plan.Second.{row_key}
use shigoku.Domain.Types.{watching, sub}

abbrev hundredths : Reals
hundredths = record {
  Real = ℕ;
  is_finite = λ x. true;
  lt = ltb;
  le = leb;
  div = λ a b. if b == 0 then 0 else a * 100 / b;
  zero_secs = 0;
  watched_ratio = 95;
  natural_end_ratio = 80;
  counted_ratio = 50;
  counted_min_secs = 240;
}

abbrev tables : PlayTables hundredths
tables = record { shows = tracked ∷ []; progress = [] }

abbrev to_the_end : Play hundredths
to_the_end = record {
  anilist_id = pos 7;
  translation = sub;
  episode = codes "26";
  position_secs = 1400;
  duration_secs = 1440;
  last_provider = none;
  now = pos 90;
}

found : find row_key (pos 7) tables.shows ≡ some tracked
unfolding find
found = refl

counts : (record_finish hundredths working to_the_end 26 tables).0 ≡ ok true
unfolding record_finish status_row play_counts upsert_progress any_row bump_engagement
counts = refl

-- A show of unknown status counts as airing, so it is not completed.
still_watching :
    map (λ r. r.list_status) (record_finish hundredths working to_the_end 26 tables).1.shows
    ≡ watching ∷ []
unfolding record_finish status_row play_counts upsert_progress any_row bump_engagement update_where
    engaged finish_status finish_progress natural_end after_play_status is_still_airing
still_watching = refl

record_finish-Ends_example :
    Ends hundredths to_the_end 26 tracked tables
      (record_finish hundredths working to_the_end 26 tables)
record_finish-Ends_example =
    record_finish-Ends hundredths working to_the_end 26 tables tracked found
