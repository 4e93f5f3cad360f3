-- ===== src/Match/Pick/Sound.antt =====
-- src/resolver.cpp: the picks by score, over the scored candidates.
use shigoku.Domain.Types.{Enrichment}
use shigoku.Match.Score.Range.{candidate_score-range, floor-titles, floor-part}
use shigoku.Match.Score.{best_title, episode_part, SearchHit, candidate_score}
use shigoku.Match.Pick.{best_provider_match, best_catalog_match}
use shigoku.Common.{
  List, ℕ, All, get_elem?, map, ◌≡◌, some, ◌∷◌, suc, [], ◌≢◌, ◌↔◌, zero, ◌⊎◌, refl, none,
}
use shigoku.Common.Int.{ℤ, pos, ◌≤ℤ◌, ◌<ℤ◌, ◌+ℤ◌}
use shigoku.Match.Winner.{int_min, best_floor, match_margin, clear_winner}
use shigoku.Match.Winner.Wins.{clear_winner-Wins}

module _ {ℓ} {A : Type ℓ} (f : A → ℤ) where
  get_elem?-map :
      (xs : List A) (j : ℕ) (x : A) → get_elem? xs j ≡ some x → get_elem? (map f xs) j ≡ some (f x)
  get_elem?-map [] j x h = absurd (cc)
  get_elem?-map (y ∷ xs) zero x h = cc
  get_elem?-map (y ∷ xs) (suc j) x h = get_elem?-map xs j x h

  map-get_elem? :
      (xs : List A) (j : ℕ) (s : ℤ)
      → get_elem? (map f xs) j ≡ some s
      → (x : A) × (get_elem? xs j ≡ some x) × (f x ≡ s)
  map-get_elem? [] j s h = absurd (cc)
  map-get_elem? (y ∷ xs) zero s h = (y, refl, cc)
  map-get_elem? (y ∷ xs) (suc j) s h = map-get_elem? xs j s h

  All-map : ((x : A) → int_min ≤ℤ f x) → (xs : List A) → All (λ s. int_min ≤ℤ s) (map f xs)
  All-map p [] = tt
  All-map p (x ∷ xs) = (p x, All-map p xs)

  -- `k` is picked among `xs`: its score reaches the floor, and any other is negative or far below.
  abbrev pub IsPicked : List A → ℕ → A → Type ℓ
  IsPicked xs k x =
      (get_elem? xs k ≡ some x)
      × (best_floor ≤ℤ f x)
      × ((j : ℕ) (y : A)
          → j ≢ k
          → get_elem? xs j ≡ some y
          → (f y <ℤ pos 0) ⊎ (f y +ℤ match_margin ≤ℤ f x))

  clear_winner-IsPicked :
      ((x : A) → int_min ≤ℤ f x)
      → (xs : List A) (k : ℕ) → clear_winner (map f xs) ≡ some k
      → (x : A) × IsPicked xs k x
  clear_winner-IsPicked p xs k h =
      let (s, at, floor, apart) = (clear_winner-Wins (map f xs) k (All-map p xs)).0 h in
      let (x, there, e) = map-get_elem? xs k s at in
      (x, (there, rw e floor, λ j y n g. rw e (apart j (f y) n (get_elem?-map xs j y g))))

  IsPicked-clear_winner :
      ((x : A) → int_min ≤ℤ f x)
      → (xs : List A) (k : ℕ) (x : A) → IsPicked xs k x
      → clear_winner (map f xs) ≡ some k
  IsPicked-clear_winner p xs k x (there, floor, apart) =
      (clear_winner-Wins (map f xs) k (All-map p xs)).1 (
        f x,
        get_elem?-map xs k x there,
        floor,
        λ j r n g. let (y, at, e) = map-get_elem? xs j r g in rw (← e) (apart j y n at),
      )

-- A hit picked by its score has a title that overlaps with one of the show's, an episode count that is
-- not refused, and a score that reaches the floor; any other hit's is negative or at least 250 below.
pub best_provider_match-IsPicked :
    (canonical : Enrichment) (cands : List SearchHit) (k : ℕ)
    → best_provider_match canonical cands ≡ some k
    → (cand : SearchHit) × IsPicked (candidate_score canonical) cands k cand
      × (pos 900 ≤ℤ best_title canonical cand)
      × (episode_part canonical cand ≢ none)
unfolding best_provider_match
best_provider_match-IsPicked canonical cands k h =
    let (cand, picked) =
      clear_winner-IsPicked (candidate_score canonical)
        (λ cand. (candidate_score-range canonical cand).0) cands k h in
    (cand, picked, floor-titles canonical cand picked.1, floor-part canonical cand picked.1)

-- An entry of the catalog is picked for a hit exactly if its score reaches the floor and the score of any
-- other entry is negative or at least 250 below it.
pub best_catalog_match-IsPicked :
    (hit : SearchHit) (entries : List Enrichment) (k : ℕ)
    → (best_catalog_match hit entries ≡ some k)
      ↔ ((e : Enrichment) × IsPicked (λ e. candidate_score e hit) entries k e)
unfolding best_catalog_match
best_catalog_match-IsPicked hit entries k = (
  clear_winner-IsPicked (λ e. candidate_score e hit) (λ e. (candidate_score-range e hit).0) entries
      k,
  λ (e, picked).
      IsPicked-clear_winner (λ e. candidate_score e hit) (λ e. (candidate_score-range e hit).0)
        entries k e picked,
)
