-- ===== src/Match/Tests.antt =====
-- src/resolver.cpp, over concrete titles and hits.
use shigoku.Domain.Airing.{eq_ci}
use shigoku.Domain.Types.{Enrichment}
use shigoku.Match.Score.{
  SearchHit, candidate_score, best_title, cross, episode_part, against, total_is_authoritative,
  year_part,
}
use shigoku.Common.{
  split_text, ◌∷◌, strip_prefix, codes, [], bytes_eq, none, some, ◌≡◌, ◌↔◌, ◌≢◌, refl,
}
use shigoku.Common.Int.{pos, ◌≤ℤ◌, ◌+ℤ◌}
use shigoku.Domain.Samples.{sample_show}
use shigoku.Match.Titles.{normalize_title, canon_season, title_score}
use shigoku.Match.Winner.{clear_winner, see_all, see, decide}
use shigoku.Match.Pick.{best_provider_match, best_catalog_match}
use shigoku.Match.Pick.Sound.{IsPicked, best_provider_match-IsPicked, best_catalog_match-IsPicked}

form_a : canon_season (codes "showseason2part1") ≡ codes "shows2part1"
unfolding canon_season split_text strip_prefix
form_a = refl

form_b : canon_season (codes "show2ndseason") ≡ codes "shows2"
unfolding canon_season split_text strip_prefix bytes_eq
form_b = refl

no_marker : canon_season (codes "seasonless") ≡ codes "seasonless"
unfolding canon_season split_text strip_prefix bytes_eq
no_marker = refl

season_agrees : title_score (codes "Show 2nd Season") (some (codes "Show: Season 2")) ≡ pos 1600
unfolding title_score normalize_title canon_season split_text strip_prefix bytes_eq
season_agrees = refl

prefix : title_score (codes "Mushishi") (some (codes "Mushishi Zoku")) ≡ pos 1250
unfolding title_score normalize_title canon_season split_text strip_prefix bytes_eq
prefix = refl

abbrev hit : SearchHit
hit = record {
  provider_id = codes "m-1";
  title = codes "Mushishi";
  title_english = none;
  title_native = none;
  anilist_id = some (pos 7);
  mal_id = none;
  total_episodes = none;
  eps_sub = 26;
  eps_dub = 25;
  year = none;
}

abbrev other_hit : SearchHit
other_hit = record hit { title = codes "Naruto"; anilist_id = some (pos 9) }

-- A film under the same title: refused by its episode count.
abbrev film : SearchHit
film = record hit { eps_sub = 1; eps_dub = 1 }

hit_wins : best_provider_match sample_show (other_hit ∷ film ∷ hit ∷ []) ≡ some 2
unfolding best_provider_match clear_winner see_all see decide candidate_score cross against
    title_score normalize_title canon_season split_text strip_prefix bytes_eq episode_part
    total_is_authoritative year_part eq_ci ◌+ℤ◌
hit_wins = refl

best_provider_match-IsPicked_example :
    (cand : SearchHit) × IsPicked (candidate_score sample_show) (other_hit ∷ film ∷ hit ∷ []) 2 cand
    × (pos 900 ≤ℤ best_title sample_show cand)
    × (episode_part sample_show cand ≢ none)
best_provider_match-IsPicked_example =
    best_provider_match-IsPicked sample_show (other_hit ∷ film ∷ hit ∷ []) 2 hit_wins

best_catalog_match-IsPicked_example :
    (best_catalog_match hit (sample_show ∷ []) ≡ some 0)
    ↔ ((e : Enrichment) × IsPicked (λ e. candidate_score e hit) (sample_show ∷ []) 0 e)
best_catalog_match-IsPicked_example = best_catalog_match-IsPicked hit (sample_show ∷ []) 0
