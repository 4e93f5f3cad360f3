-- ===== src/Match/Winner/Laws.antt =====
-- src/resolver.cpp, `clear_winner`: what it takes to win.
use shigoku.Common.{
  get_elem?, ◌≡◌, ◌≢◌, inl, ◌++◌, some, length, true, false, ◌⊎◌, suc, ℕ_discrete, arith,
  get_elem?-snoc, snoc-cases, get_elem?-append_left, Bool-cases, refl, get_elem?-lt, inr, sym, zero,
  length-snoc, List, ℕ, ◌∷◌, [],
}
use shigoku.Common.Int.{ℤ, ◌≤ℤ◌, ltb_ℤ}
use mathlib.Core.List.{append-nil, append_assoc}
use shigoku.Match.Winner.{Top, no_top, see, see_all, int_min}

-- The top of the scores seen so far: it stands at its index, and the second score bounds all others
-- and is one of them, if there is another.
pub record IsTop (seen : List ℤ) (t : Top) (k : ℕ) : Type 0 where
  pub index : t.best_idx ≡ some k
  pub at : get_elem? seen k ≡ some t.best_score
  pub above : t.second_score ≤ℤ t.best_score
  pub bounds : (j : ℕ) (r : ℤ) → j ≢ k → get_elem? seen j ≡ some r → r ≤ℤ t.second_score
  pub second :
      (t.second_score ≡ int_min) ⊎ ((j : ℕ) × (j ≢ k) × (get_elem? seen j ≡ some t.second_score))

module _ (i : ℕ) (s : ℤ) (t : Top) (k : ℕ) (e : t.best_idx ≡ some k) where
  see_higher :
      ltb_ℤ t.best_score s ≡ true
      → see i s t ≡ record { best_idx = some i; best_score = s; second_score = t.best_score }
  unfolding see
  see_higher h = rw (e, h)

  see_runner_up :
      ltb_ℤ t.best_score s ≡ false
      → ltb_ℤ t.second_score s ≡ true
      → see i s t ≡ record t { second_score = s }
  unfolding see
  see_runner_up h g = rw (e, h, g)

  see_lower : ltb_ℤ t.best_score s ≡ false → ltb_ℤ t.second_score s ≡ false → see i s t ≡ t
  unfolding see
  see_lower h g = rw (e, h, g)

first_alone : (s : ℤ) (b : ℤ) (j : ℕ) (r : ℤ) → j ≢ 0 → get_elem? (s ∷ []) j ≡ some r → r ≤ℤ b
first_alone s b zero r n h = absurd (n refl)
first_alone s b (suc j) r n h = absurd (cc)

pub see-first : (s : ℤ) → int_min ≤ℤ s → IsTop (s ∷ []) (see 0 s no_top) 0
unfolding see
see-first s r = record {
  index = refl;
  at = refl;
  above = r;
  bounds = first_alone s int_min;
  second = inl refl;
}

module _ (seen : List ℤ) (t : Top) (k : ℕ) (s : ℤ) (i : IsTop seen t k) where
  -- What was seen lies below the old best.
  below_best : (j : ℕ) (r : ℤ) → get_elem? seen j ≡ some r → r ≤ℤ t.best_score
  below_best j r g = elim (ℕ_discrete j k) [
    | yes e ↦ ground (arith, i.at, e, g)
    | no n ↦ omega (arith, i.bounds j r n g, i.above)
  ]

  k_apart : k ≢ length seen
  k_apart e = absurd (omega (arith, get_elem?-lt seen k t.best_score i.at))

  see-higher-IsTop :
      ltb_ℤ t.best_score s ≡ true → IsTop (seen ++ s ∷ []) (see (length seen) s t) (length seen)
  see-higher-IsTop h = rw (see_higher (length seen) s t k i.index h) record {
    index = refl;
    at = get_elem?-snoc seen s;
    above = ground arith;
    bounds = λ j r n g. elim (snoc-cases seen s j r g) [
      | inl f ↦ below_best j r f
      | inr (e, f) ↦ absurd (n e)
    ];
    second = inr (k, k_apart, get_elem?-append_left seen (s ∷ []) k t.best_score i.at);
  }

  -- A score that is no higher stays behind the old best.
  keep_bounds :
      (b : ℤ)
      → t.second_score ≤ℤ b
      → s ≤ℤ b
      → (j : ℕ) (r : ℤ) → j ≢ k
      → get_elem? (seen ++ s ∷ []) j ≡ some r
      → r ≤ℤ b
  keep_bounds b hb hs j r n g = elim (snoc-cases seen s j r g) [
    | inl f ↦ omega (arith, i.bounds j r n f)
    | inr (e, f) ↦ rw (← f) hs
  ]

  see-runner_up-IsTop :
      ltb_ℤ t.best_score s ≡ false
      → ltb_ℤ t.second_score s ≡ true
      → IsTop (seen ++ s ∷ []) (see (length seen) s t) k
  see-runner_up-IsTop h g = rw (see_runner_up (length seen) s t k i.index h g) record {
    index = i.index;
    at = get_elem?-append_left seen (s ∷ []) k t.best_score i.at;
    above = ground arith;
    bounds = keep_bounds s (ground arith) (omega arith);
    second = inr (length seen, (λ e. k_apart (sym e)), get_elem?-snoc seen s);
  }

  see-lower-IsTop :
      ltb_ℤ t.best_score s ≡ false
      → ltb_ℤ t.second_score s ≡ false
      → IsTop (seen ++ s ∷ []) (see (length seen) s t) k
  see-lower-IsTop h g = rw (see_lower (length seen) s t k i.index h g) record {
    index = i.index;
    at = get_elem?-append_left seen (s ∷ []) k t.best_score i.at;
    above = i.above;
    bounds = keep_bounds t.second_score (omega arith) (ground arith);
    second = elim i.second [
      | inl e ↦ inl e
      | inr (j, n, f) ↦ inr (j, n, get_elem?-append_left seen (s ∷ []) j t.second_score f)
    ];
  }

  see-IsTop : (k' : ℕ) × IsTop (seen ++ s ∷ []) (see (length seen) s t) k'
  see-IsTop = elim (Bool-cases (ltb_ℤ t.best_score s)) [
    | inl h ↦ (length seen, see-higher-IsTop h)
    | inr h ↦ (
      k,
      elim (Bool-cases (ltb_ℤ t.second_score s)) [
        | inl g ↦ see-runner_up-IsTop h g
        | inr g ↦ see-lower-IsTop h g
      ],
    )
  ]

pub see_all-IsTop :
    (scores seen : List ℤ) (t : Top) (k : ℕ)
    → IsTop seen t k
    → (k' : ℕ) × IsTop (seen ++ scores) (see_all (length seen) scores t) k'
unfolding see_all
see_all-IsTop [] seen t k i = (k, rw append-nil i)
see_all-IsTop (s ∷ scores) seen t k i =
    let (k', i') = see-IsTop seen t k s i in
    rw (← append_assoc seen (s ∷ []) scores, ← length-snoc seen s)
      (see_all-IsTop scores (seen ++ s ∷ []) (see (length seen) s t) k' i')
