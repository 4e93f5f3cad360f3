-- ===== src/Domain/Samples.antt =====
-- A sample catalog row for the tests.
use shigoku.Common.{[], none, some, codes}
use shigoku.Common.Int.{pos}
use shigoku.Domain.Types.{Enrichment}

abbrev pub sample_show : Enrichment
sample_show = record {
  anilist_id = pos 7;
  mal_id = none;
  title_romaji = codes "Mushishi";
  title_english = none;
  title_native = none;
  cover_url = none;
  total_episodes = some 26;
  duration_minutes = none;
  year = none;
  season = none;
  status = none;
  description = none;
  score = none;
  kind = none;
  start_date = none;
  genres = [];
  studios = [];
  source_material = none;
  rank = none;
  rank_type = none;
  rank_year = none;
  next_airing_at = none;
  next_airing_episode = none;
  country = none;
}
