-- ===== src/Match/Score.antt =====
-- src/resolver.cpp: the score of a provider's search hit against a show of the catalog.
pub mod Laws
pub mod Range
use shigoku.Domain.Airing.{eq_ci}
use shigoku.Match.Titles.{title_score}
use shigoku.Domain.Types.{Enrichment}
use shigoku.Common.{
  Bytes, Option, ℕ, Bool, if◌then◌else◌, List, some, value_or, true, ltb, false, ◌∷◌, ◌==◌, max,
  not, ◌-◌, ◌&&◌, [], leb, ◌||◌, none, codes,
}
use shigoku.Common.Int.{ℤ, pos, negsuc, ltb_ℤ, ◌+ℤ◌}

pub record SearchHit : Type 0 where
  pub provider_id : Bytes
  pub title : Bytes
  pub title_english : Option Bytes
  pub title_native : Option Bytes
  pub anilist_id : Option ℤ
  pub mal_id : Option ℤ
  pub total_episodes : Option ℕ
  pub eps_sub : ℕ
  pub eps_dub : ℕ
  pub year : Option ℕ

unfoldable pub candidate_episodes : SearchHit → ℕ
candidate_episodes cand = value_or cand.total_episodes (max cand.eps_sub cand.eps_dub)

unfoldable pub total_is_authoritative : Option Bytes → Bool
total_is_authoritative none = true
total_is_authoritative (some status) =
    not (eq_ci status (codes "RELEASING")) && not (eq_ci status (codes "HIATUS"))

unfoldable pub abs_diff : ℕ → ℕ → ℕ
abs_diff a b = if ltb b a then a - b else b - a

-- Both years are known, and `p` holds of their distance.
abbrev pub years_are : (ℕ → Bool) → Option ℕ → Option ℕ → Bool
years_are p none other = false
years_are p (some a) none = false
years_are p (some a) (some b) = p (abs_diff a b)

unfoldable pub id_match_contradicted : Enrichment → SearchHit → Bool
unfolding candidate_episodes abs_diff
id_match_contradicted canonical cand =
    let known_eps = value_or canonical.total_episodes 0 in
    let cand_eps = candidate_episodes cand in
    ltb 0 known_eps
      && ltb 0 cand_eps
      && total_is_authoritative canonical.status
      && ltb 3 (abs_diff known_eps cand_eps)
    || years_are (ltb 1) canonical.year cand.year

unfoldable pub id_match_corroborated : Enrichment → SearchHit → Bool
unfolding candidate_episodes abs_diff
id_match_corroborated canonical cand =
    let known_eps = value_or canonical.total_episodes 0 in
    let cand_eps = candidate_episodes cand in
    ltb 0 known_eps && ltb 0 cand_eps && leb (abs_diff known_eps cand_eps) 3
    || years_are (λ diff. leb diff 1) canonical.year cand.year

abbrev pub max_ℤ : ℤ → ℤ → ℤ
max_ℤ a b = if ltb_ℤ a b then b else a

-- `std::numeric_limits<std::int32_t>::min() / 4`.
abbrev pub no_score : ℤ
no_score = negsuc 536870911

-- The inner loop: one known title against the candidate's.
unfoldable pub against : ℤ → Bytes → List (Option Bytes) → ℤ
against score k [] = score
against score k (c ∷ cands) = against (max_ℤ score (title_score k c)) k cands

-- The outer loop, past the titles that are not there or empty.
unfoldable pub cross : ℤ → List (Option Bytes) → List (Option Bytes) → ℤ
cross score [] cands = score
cross score (none ∷ known) cands = cross score known cands
cross score (some [] ∷ known) cands = cross score known cands
cross score (some (b ∷ k) ∷ known) cands = cross (against score (b ∷ k) cands) known cands

unfoldable pub best_title : Enrichment → SearchHit → ℤ
best_title canonical cand =
    cross no_score
      (some canonical.title_romaji ∷ canonical.title_english ∷ canonical.title_native ∷ [])
      (some cand.title ∷ cand.title_english ∷ cand.title_native ∷ [])

-- What the distance of two known episode counts adds; none where the hit is refused.
unfoldable pub episode_bonus : ℕ → Bool → Option ℤ
episode_bonus diff authoritative =
    if diff == 0
    then some (pos 180)
    else if leb diff 1
    then some (pos 120)
    else if leb diff 3
    then some (pos 60)
    else if authoritative
    then none
    else some (negsuc 119)

unfoldable pub episode_part : Enrichment → SearchHit → Option ℤ
unfolding candidate_episodes abs_diff episode_bonus
episode_part canonical cand =
    let known_eps = value_or canonical.total_episodes 0 in
    let cand_eps = candidate_episodes cand in
    if ltb 0 known_eps && ltb 0 cand_eps
    then episode_bonus (abs_diff known_eps cand_eps) (total_is_authoritative canonical.status)
    else some (pos 0)

unfoldable pub year_bonus : ℕ → ℤ
year_bonus diff = if diff == 0 then pos 120 else if diff == 1 then pos 40 else negsuc 159

unfoldable pub year_part : Option ℕ → Option ℕ → ℤ
unfolding abs_diff year_bonus
year_part none other = pos 0
year_part (some a) none = pos 0
year_part (some a) (some b) = year_bonus (abs_diff a b)

-- -4000: a film against a series.
abbrev pub refused : ℤ
refused = negsuc 3999

abbrev pub add_parts : ℤ → Option ℤ → ℤ → ℤ
add_parts score none year = refused
add_parts score (some eps) year = score +ℤ eps +ℤ year

unfoldable pub candidate_score : Enrichment → SearchHit → ℤ
unfolding best_title
candidate_score canonical cand =
    let score = best_title canonical cand in
    if ltb_ℤ score (pos 0)
    then score
    else add_parts score (episode_part canonical cand) (year_part canonical.year cand.year)
