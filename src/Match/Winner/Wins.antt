-- ===== src/Match/Winner/Wins.antt =====
-- src/resolver.cpp, `clear_winner`: the winner described without the loop.
use shigoku.Common.{
  ◌∙◌, get_elem?, All, ◌≡◌, some, ℕ_discrete, ◌≢◌, arith, ◌⊎◌, sym, inl, ◌↔◌, Bool-cases, inr, ◌∷◌,
  [], List, ℕ,
}
use shigoku.Common.Int.{ℤ, pos, ◌≤ℤ◌, ◌<ℤ◌, ◌+ℤ◌, ◌-ℤ◌, ltb_ℤ}
use mathlib.Core.Path.{subst, ap}
use shigoku.Match.Winner.{
  Top, no_top, see, see_all, decide, clear_winner, int_min, best_floor, match_margin,
}
use shigoku.Match.Winner.Laws.{IsTop, see-first, see_all-IsTop}

-- At `k` stands a score that reaches the floor; every other one is negative, or below it by the margin.
abbrev pub Wins : List ℤ → ℕ → Type 0
Wins scores k =
    (s : ℤ) × (get_elem? scores k ≡ some s)
    × (best_floor ≤ℤ s)
    × ((j : ℕ) (r : ℤ)
        → j ≢ k
        → get_elem? scores j ≡ some r
        → (r <ℤ pos 0) ⊎ (r +ℤ match_margin ≤ℤ s))

module _ (scores : List ℤ) (t : Top) (k : ℕ) (i : IsTop scores t k) where
  decide-index : (k' : ℕ) → decide t ≡ some k' → k ≡ k'
  unfolding decide
  decide-index k' h = ground (arith, i.index)

  decide-floor : (k' : ℕ) → decide t ≡ some k' → best_floor ≤ℤ t.best_score
  unfolding decide
  decide-floor k' h = ground arith

  decide-margin :
      (k' : ℕ) (r : ℤ)
      → decide t ≡ some k'
      → r ≤ℤ t.second_score
      → (r <ℤ pos 0) ⊎ (r +ℤ match_margin ≤ℤ t.best_score)
  unfolding decide ◌+ℤ◌ ◌-ℤ◌
  decide-margin k' r h g = elim (Bool-cases (ltb_ℤ t.second_score (pos 0))) [
    | inl n ↦ inl (ground arith)
    | inr n ↦ inr (ground arith)
  ]

  Wins-of-decide : decide t ≡ some k → Wins scores k
  Wins-of-decide h =
      (t.best_score, i.at, decide-floor k h, λ j r n g. decide-margin k r h (i.bounds j r n g))

  -- A winner is the top.
  top-of-Wins : (k' : ℕ) → Wins scores k' → k ≡ k'
  unfolding ◌+ℤ◌
  top-of-Wins k' (s, at, floor, apart) = elim (ℕ_discrete k' k) [
    | yes e ↦ sym e
    | no n ↦ elim (apart k t.best_score (λ e. n (sym e)) i.at) [
      | inl low ↦ absurd (omega (arith, i.bounds k' s n at, i.above))
      | inr low ↦ absurd (ground (arith, i.bounds k' s n at, i.above))
    ]
  ]

  decide-of-Wins : Wins scores k → decide t ≡ some k
  unfolding decide ◌+ℤ◌ ◌-ℤ◌
  decide-of-Wins (s, at, floor, apart) = elim i.second [
    | inl e ↦ ground (arith, i.index, i.at, at, e)
    | inr (j, n, g) ↦ elim (apart j t.second_score n g) [
      | inl low ↦ ground (arith, i.index, i.at, at)
      | inr low ↦ ground (arith, i.index, i.at, at)
    ]
  ]

  decide-Wins : (k' : ℕ) → (decide t ≡ some k') ↔ Wins scores k'
  decide-Wins k' = (
    (λ h.
        subst (Wins scores) (decide-index k' h)
          (Wins-of-decide (h ∙ ap some (sym (decide-index k' h))))),
    λ w.
        decide-of-Wins (subst (Wins scores) (sym (top-of-Wins k' w)) w)
        ∙ ap some (top-of-Wins k' w),
  )

-- A score wins, at scores that an `int32_t` holds, exactly if it reaches the floor of 1200 and every
-- other score is negative or lies at least 250 below it.
pub clear_winner-Wins :
    (scores : List ℤ) (k : ℕ)
    → All (λ s. int_min ≤ℤ s) scores
    → (clear_winner scores ≡ some k) ↔ Wins scores k
unfolding clear_winner see_all decide
clear_winner-Wins [] k r = (λ h. absurd (cc), λ w. absurd (cc (w.1)))
clear_winner-Wins (s ∷ scores) k r =
    let (k', i) = see_all-IsTop scores (s ∷ []) (see 0 s no_top) 0 (see-first s r.0) in
    decide-Wins (s ∷ scores) _ k' i k
