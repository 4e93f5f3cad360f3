-- ===== src/Match/Pick.antt =====
-- src/resolver.cpp: the picks over a list of candidates.
pub mod Laws
pub mod Sound
use shigoku.Common.{
  Option, Bool, ℕ, List, false, some, ◌∷◌, none, map, ◌||◌, if◌then◌else◌, has_value, suc, not, [],
}
use shigoku.Match.Score.{SearchHit, candidate_score, id_match_contradicted, id_match_corroborated}
use shigoku.Match.Winner.{clear_winner}
use shigoku.Domain.Types.{Enrichment}
use shigoku.Common.Int.{ℤ, eq_ℤ}

-- `*a == b` of two optional ids.
abbrev pub same_id : Option ℤ → Option ℤ → Bool
same_id none b = false
same_id (some a) none = false
same_id (some a) (some b) = eq_ℤ a b

unfoldable pub id_agrees : Enrichment → SearchHit → Bool
id_agrees canonical cand =
    same_id cand.anilist_id (some canonical.anilist_id) || same_id canonical.mal_id cand.mal_id

-- The loop from index `i`, with the first bare match so far.
unfoldable pub id_match_from : Enrichment → ℕ → Option ℕ → List SearchHit → Option ℕ
id_match_from canonical i bare [] = bare
id_match_from canonical i bare (cand ∷ cands) =
    let bare' = if has_value bare then bare else some i in
    let skipped = id_match_from canonical (suc i) bare cands in
    let remembered = id_match_from canonical (suc i) bare' cands in
    if not (id_agrees canonical cand)
    then skipped
    else if id_match_contradicted canonical cand
    then skipped
    else if id_match_corroborated canonical cand
    then some i
    else remembered

unfoldable pub best_id_match : Enrichment → List SearchHit → Option ℕ
unfolding id_match_from
best_id_match canonical cands = id_match_from canonical 0 none cands

unfoldable pub best_provider_match : Enrichment → List SearchHit → Option ℕ
unfolding clear_winner
best_provider_match canonical cands = clear_winner (map (candidate_score canonical) cands)

unfoldable pub best_catalog_match : SearchHit → List Enrichment → Option ℕ
unfolding clear_winner
best_catalog_match hit entries = clear_winner (map (λ e. candidate_score e hit) entries)
