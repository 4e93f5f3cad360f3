-- ===== src/Match/Pick/Laws.antt =====
-- src/resolver.cpp: what a pick says of the candidates.
use shigoku.Match.Score.{SearchHit, id_match_corroborated, id_match_contradicted}
use shigoku.Match.Pick.{id_match_from, best_id_match, id_agrees}
use shigoku.Domain.Types.{Enrichment}
use shigoku.Common.{
  Bool, Option, ℕ, some, List, none, ◌&&◌, ◌≡◌, ◌∷◌, not, if◌then◌else◌, arith, suc, [], refl,
}

-- The index, from `i`, of the first entry that passes the test.
abbrev pub first_from {ℓ} : {A : Type ℓ} → (A → Bool) → ℕ → List A → Option ℕ
first_from p i [] = none
first_from p i (x ∷ xs) = if p x then some i else first_from p (suc i) xs

abbrev pub or_else {ℓ} : {A : Type ℓ} → Option A → Option A → Option A
or_else none b = b
or_else (some a) b = some a

-- The id agrees and nothing speaks against it; and something speaks for it too.
abbrev pub fits : Enrichment → SearchHit → Bool
fits canonical cand = id_agrees canonical cand && not (id_match_contradicted canonical cand)

abbrev pub backed : Enrichment → SearchHit → Bool
backed canonical cand = fits canonical cand && id_match_corroborated canonical cand

id_match_from_lem :
    (canonical : Enrichment) (i : ℕ) (bare : Option ℕ) (cands : List SearchHit)
    → id_match_from canonical i bare cands
      ≡ or_else
          (first_from (backed canonical) i cands)
          (or_else bare (first_from (fits canonical) i cands))
unfolding id_match_from
id_match_from_lem canonical i none [] = refl
id_match_from_lem canonical i (some b) [] = refl
id_match_from_lem canonical i none (cand ∷ cands) = ground (
  arith,
  id_match_from_lem canonical (suc i) none cands,
  id_match_from_lem canonical (suc i) (some i) cands,
)
id_match_from_lem canonical i (some b) (cand ∷ cands) =
    ground (arith, id_match_from_lem canonical (suc i) (some b) cands)

-- The match by id is the first hit whose id agrees and that nothing contradicts and something
-- corroborates; failing that, the first whose id agrees and that nothing contradicts.
pub best_id_match-first_from :
    (canonical : Enrichment) (cands : List SearchHit)
    → best_id_match canonical cands
      ≡ or_else (first_from (backed canonical) 0 cands) (first_from (fits canonical) 0 cands)
unfolding best_id_match
best_id_match-first_from canonical cands = id_match_from_lem canonical 0 none cands
