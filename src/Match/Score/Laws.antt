-- ===== src/Match/Score/Laws.antt =====
-- src/resolver.cpp, `candidate_score`: what the titles and the tie-breakers can add up to.
use shigoku.Domain.Types.{Enrichment}
use shigoku.Common.{
  Bytes, ◌⊎◌, arith, Option, Bool-cases, List, ℕ, inl, ◌∷◌, Bool, some, none, inr, [], ◌≡◌, ◌≤◌,
  if◌then◌else◌, ◌||◌, true, bytes_eq, starts_with, contains_text, false,
}
use shigoku.Match.Score.{
  no_score, max_ℤ, against, cross, best_title, episode_part, year_part, SearchHit,
}
use shigoku.Common.Int.{ℤ, pos, negsuc, ◌≤ℤ◌, ◌<ℤ◌, ltb_ℤ}
use shigoku.Match.Titles.{
  title_score, score_normal, no_overlap, is_empty, canon_season, normalize_title,
}

-- A score of titles: nothing in common, or a good one.
abbrev pub IsTitleScore : ℤ → Type 0
IsTitleScore s = (no_score ≤ℤ s) × (s ≤ℤ pos 1600) × ((s <ℤ pos 0) ⊎ (pos 900 ≤ℤ s))

none_common : IsTitleScore no_overlap
none_common = (omega arith, omega arith, inl (omega arith))

if-range :
    (c : Bool) (x y : ℤ) → IsTitleScore x → IsTitleScore y → IsTitleScore (if c then x else y)
if-range true x y p q = p
if-range false x y p q = q

good : (n : ℕ) → 900 ≤ n → n ≤ 1600 → IsTitleScore (pos n)
good n h g = (omega arith, omega arith, inr (omega arith))

score_normal-range : (a b : Bytes) → IsTitleScore (score_normal a b)
unfolding score_normal
score_normal-range a b = if-range (is_empty a || is_empty b) _ _ none_common (
    if-range (bytes_eq a b) _ _ (good 1600 (omega arith) (omega arith)) (
      if-range (starts_with a b || starts_with b a) _ _ (good 1250 (omega arith) (omega arith)) (
        if-range (contains_text a b || contains_text b a) _ _ (good 900 (omega arith) (omega arith))
          none_common)))

title_score-range : (a : Bytes) (b : Option Bytes) → IsTitleScore (title_score a b)
unfolding title_score
title_score-range a none = none_common
title_score-range a (some b) =
    if-range (is_empty a || is_empty b) _ _ none_common
      (score_normal-range (canon_season (normalize_title a)) (canon_season (normalize_title b)))

max-range : (a b : ℤ) → IsTitleScore a → IsTitleScore b → IsTitleScore (max_ℤ a b)
max-range a b p q = elim (Bool-cases (ltb_ℤ a b)) [ inl h ↦ rw h q | inr h ↦ rw h p ]

against-range :
    (score : ℤ) (k : Bytes) (cands : List (Option Bytes))
    → IsTitleScore score
    → IsTitleScore (against score k cands)
unfolding against
against-range score k [] p = p
against-range score k (c ∷ cands) p =
    against-range (max_ℤ score (title_score k c)) k cands
      (max-range score (title_score k c) p (title_score-range k c))

cross-range :
    (score : ℤ) (known cands : List (Option Bytes))
    → IsTitleScore score
    → IsTitleScore (cross score known cands)
unfolding cross
cross-range score [] cands p = p
cross-range score (none ∷ known) cands p = cross-range score known cands p
cross-range score (some [] ∷ known) cands p = cross-range score known cands p
cross-range score (some (b ∷ k) ∷ known) cands p =
    cross-range (against score (b ∷ k) cands) known cands (against-range score (b ∷ k) cands p)

pub best_title-range :
    (canonical : Enrichment) (cand : SearchHit) → IsTitleScore (best_title canonical cand)
unfolding best_title
best_title-range canonical cand =
    cross-range no_score _ _ (omega arith, omega arith, inl (omega arith))

pub episode_part-range :
    (canonical : Enrichment) (cand : SearchHit) (b : ℤ)
    → episode_part canonical cand ≡ some b
    → (b ≤ℤ pos 180) × (negsuc 119 ≤ℤ b)
unfolding episode_part
episode_part-range canonical cand b h = (ground arith, ground arith)

pub year_part-range : (a b : Option ℕ) → (year_part a b ≤ℤ pos 120) × (negsuc 159 ≤ℤ year_part a b)
unfolding year_part
year_part-range none b = (omega arith, omega arith)
year_part-range (some a) none = (omega arith, omega arith)
year_part-range (some a) (some b) = (ground arith, ground arith)
