-- ===== src/Match/Score/Range.antt =====
-- src/resolver.cpp, `candidate_score`: the range of the scores, and what a winning score takes.
use shigoku.Domain.Types.{Enrichment}
use shigoku.Common.{
  Bool-cases, ◌≡◌, some, inl, arith, none, inr, refl, ◌⊎◌, true, ◌<◌, false, value_or, ◌≢◌, Option,
}
use shigoku.Common.Int.{ℤ, pos, negsuc, ◌≤ℤ◌, ◌<ℤ◌, ◌+ℤ◌, ltb_ℤ}
use shigoku.Match.Score.{
  add_parts, candidate_score, SearchHit, best_title, episode_part, year_part, candidate_episodes,
  total_is_authoritative, abs_diff,
}
use shigoku.Match.Score.Laws.{best_title-range, episode_part-range, year_part-range}
use shigoku.Match.Winner.{int_min, best_floor}

add_parts-range :
    (score : ℤ) (eps : Option ℤ) (year : ℤ)
    → score ≤ℤ pos 1600
    → pos 900 ≤ℤ score
    → ((b : ℤ) → eps ≡ some b → (b ≤ℤ pos 180) × (negsuc 119 ≤ℤ b))
    → (year ≤ℤ pos 120) × (negsuc 159 ≤ℤ year)
    → (int_min ≤ℤ add_parts score eps year) × (add_parts score eps year ≤ℤ pos 1900)
unfolding ◌+ℤ◌
add_parts-range score none year h g e y = (omega arith, omega arith)
add_parts-range score (some b) year h g e y = (ground (arith, e b refl), ground (arith, e b refl))

not_low : (s : ℤ) → (s <ℤ pos 0) ⊎ (pos 900 ≤ℤ s) → ltb_ℤ s (pos 0) ≡ false → pos 900 ≤ℤ s
not_low s (inl g) h = absurd (ground arith)
not_low s (inr g) h = g

pub candidate_score-range :
    (canonical : Enrichment) (cand : SearchHit)
    → (int_min ≤ℤ candidate_score canonical cand) × (candidate_score canonical cand ≤ℤ pos 1900)
unfolding candidate_score
candidate_score-range canonical cand =
    let (low, high, split) = best_title-range canonical cand in
    elim (Bool-cases (ltb_ℤ (best_title canonical cand) (pos 0))) [
      | inl h ↦ rw h (omega arith, omega arith)
      | inr h ↦ rw h (
          add_parts-range _ (episode_part canonical cand) (year_part canonical.year cand.year) high
            (not_low _ split h) (episode_part-range canonical cand)
            (year_part-range canonical.year cand.year))
    ]

low_floor :
    (canonical : Enrichment) (cand : SearchHit)
    → ltb_ℤ (best_title canonical cand) (pos 0) ≡ true
    → best_floor ≤ℤ candidate_score canonical cand
    → ⊥
unfolding candidate_score
low_floor canonical cand low h = ground (arith, low, h)

refused_floor :
    (canonical : Enrichment) (cand : SearchHit)
    → ltb_ℤ (best_title canonical cand) (pos 0) ≡ false
    → episode_part canonical cand ≡ none
    → best_floor ≤ℤ candidate_score canonical cand
    → ⊥
unfolding candidate_score
refused_floor canonical cand high n h = absurd (omega (arith, rw (high, n) at h))

-- A refused episode count comes from an authoritative total, more than three episodes away.
pub episode_part-none :
    (canonical : Enrichment) (cand : SearchHit)
    → 0 < value_or canonical.total_episodes 0
    → 0 < candidate_episodes cand
    → total_is_authoritative canonical.status ≡ true
    → 3 < abs_diff (value_or canonical.total_episodes 0) (candidate_episodes cand)
    → episode_part canonical cand ≡ none
unfolding episode_part
episode_part-none canonical cand k c a far = ground arith

-- A hit whose score reaches the floor has a title in common, and no refused episode count.
pub floor-titles :
    (canonical : Enrichment) (cand : SearchHit)
    → best_floor ≤ℤ candidate_score canonical cand
    → pos 900 ≤ℤ best_title canonical cand
unfolding candidate_score
floor-titles canonical cand h = elim (Bool-cases (ltb_ℤ (best_title canonical cand) (pos 0))) [
  | inl low ↦ absurd (low_floor canonical cand low h)
  | inr k ↦ not_low _ (best_title-range canonical cand).2 k
]

pub floor-part :
    (canonical : Enrichment) (cand : SearchHit)
    → best_floor ≤ℤ candidate_score canonical cand
    → episode_part canonical cand ≢ none
floor-part canonical cand h n = elim (Bool-cases (ltb_ℤ (best_title canonical cand) (pos 0))) [
  | inl low ↦ low_floor canonical cand low h
  | inr high ↦ refused_floor canonical cand high n h
]
