-- ===== src/Hls/Cap.antt =====
-- src/hls.cpp, `select_variant`: the choice under a cap.
use shigoku.Store.Keyed.Laws.{some_inj}
use shigoku.Hls.Best.{select_variant-best}
use mathlib.Core.Path.{subst}
use shigoku.Domain.Enums.{quality_cap}
use shigoku.Domain.Types.{Quality}
use shigoku.Hls.{quality_rank, preferred, StreamLink, prefers, select_variant}
use shigoku.Common.{
  List, ℕ, All, ◌≤◌, Option, get_elem?, ◌≡◌, some, false, ◌∷◌, arith, none, suc, [], zero, refl,
}
use shigoku.Common.Int.{ltb_ℤ}

All-at {ℓ κ} :
    {A : Type ℓ} (P : A → Type κ) (xs : List A) (i : ℕ) (x : A)
    → All P xs
    → get_elem? xs i ≡ some x
    → P x
All-at P [] i x a h = absurd (cc)
All-at P (y ∷ xs) zero x a h = subst P (some_inj h) a.0
All-at P (y ∷ xs) (suc i) x a h = All-at P xs i x a.1 h

in_cap :
    (cap h top : ℕ)
    → h ≤ cap
    → ltb_ℤ (quality_rank top cap) (quality_rank h cap) ≡ false
    → (h ≤ top) × (top ≤ cap)
unfolding quality_rank
in_cap cap h top le n = (ground arith, ground arith)

-- What is not outranked by a height within the cap is within it too, and as high.
not_outranked :
    (q : Quality) (cap h : ℕ) (other : Option ℕ)
    → quality_cap q ≡ some cap
    → h ≤ cap
    → prefers q (some h) other ≡ false
    → (top : ℕ) × (other ≡ some top) × (h ≤ top) × (top ≤ cap)
not_outranked q cap h none e le n = absurd (cc)
not_outranked q cap h (some top) e le n =
    let n' = rw e at n in let bounds = in_cap cap h top le n' in (top, refl, bounds.0, bounds.1)

-- Under a cap, if some offered variant has a known height within it, then the one that is selected is
-- offered, its height is known and within the cap, and no lower than that one's.
pub select_variant-capped :
    (variants : List StreamLink) (quality : Quality) (cap : ℕ) (i : ℕ) (a : StreamLink) (h : ℕ)
    (pick : StreamLink)
    → quality_cap quality ≡ some cap
    → get_elem? variants i ≡ some a
    → a.resolution ≡ some h
    → h ≤ cap
    → select_variant variants quality ≡ some pick
    → ((j : ℕ) × (get_elem? variants j ≡ some pick))
      × ((top : ℕ) × (pick.resolution ≡ some top) × (h ≤ top) × (top ≤ cap))
unfolding preferred
select_variant-capped variants quality cap i a h pick c at e le s =
    let b = select_variant-best variants quality pick s in
    let n = All-at (λ a. preferred a pick quality ≡ false) variants i a b.1 at in
    (b.0, not_outranked quality cap h pick.resolution c le (rw e at n))
