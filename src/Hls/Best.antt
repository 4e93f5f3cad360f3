-- ===== src/Hls/Best.antt =====
-- src/hls.cpp, `select_variant`: the choice against all variants.
use shigoku.Store.Keyed.Laws.{some_inj}
use mathlib.Core.Path.{subst, ap, sym}
use shigoku.Domain.Enums.{quality_cap}
use shigoku.Hls.{StreamLink, preferred, pick_from, select_variant, outranks, prefers, is_worst}
use shigoku.Common.{
  Option, ℕ, if◌then◌else◌, ◌≡◌, List, false, All, ◌⊎◌, get_elem?, some, Bool-cases, true, ◌∷◌,
  none, inl, [], suc, arith, refl, inr, ◌∙◌, zero,
}
use shigoku.Domain.Types.{Quality}

outranks_irrefl : (q : Quality) (cap : Option ℕ) (a : ℕ) → outranks q cap a a ≡ false
outranks_irrefl q none a = elim (Bool-cases (is_worst q)) [
  | inl h ↦ ground arith
  | inr h ↦ ground arith
]
outranks_irrefl q (some cap) a = ground arith

outranks_trans :
    (q : Quality) (cap : Option ℕ) (a b c : ℕ)
    → outranks q cap a b ≡ false
    → outranks q cap b c ≡ false
    → outranks q cap a c ≡ false
outranks_trans q none a b c h g = elim (Bool-cases (is_worst q)) [
  | inl w ↦ ground arith
  | inr w ↦ ground arith
]
outranks_trans q (some cap) a b c h g = ground arith

prefers_irrefl : (q : Quality) (a : Option ℕ) → prefers q a a ≡ false
prefers_irrefl q none = refl
prefers_irrefl q (some a) = outranks_irrefl q (quality_cap q) a

prefers_trans :
    (q : Quality) (a b c : Option ℕ)
    → prefers q a b ≡ false
    → prefers q b c ≡ false
    → prefers q a c ≡ false
prefers_trans q none b c h g = refl
prefers_trans q (some a) none c h g = absurd (cc)
prefers_trans q (some a) (some b) none h g = absurd (cc)
prefers_trans q (some a) (some b) (some c) h g = outranks_trans q (quality_cap q) a b c h g

outranks_asym :
    (q : Quality) (cap : Option ℕ) (a b : ℕ)
    → outranks q cap b a ≡ true
    → outranks q cap a b ≡ false
outranks_asym q none a b h = elim (Bool-cases (is_worst q)) [
  | inl w ↦ ground arith
  | inr w ↦ ground arith
]
outranks_asym q (some cap) a b h = ground arith

-- If b is preferred to a, then a is not preferred to b.
prefers_asym : (q : Quality) (a b : Option ℕ) → prefers q b a ≡ true → prefers q a b ≡ false
prefers_asym q none b h = refl
prefers_asym q (some a) none h = absurd (cc)
prefers_asym q (some a) (some b) h = outranks_asym q (quality_cap q) a b h

-- The new pick is as good as the old one and as the variant.
next_pick : Quality → StreamLink → StreamLink → StreamLink
next_pick q v pick = if preferred v pick q then v else pick

next_pick-old : (q : Quality) (v pick : StreamLink) → preferred pick (next_pick q v pick) q ≡ false
unfolding preferred next_pick
next_pick-old q v pick = elim (Bool-cases (preferred v pick q)) [
  | inl h ↦ rw h (prefers_asym q pick.resolution v.resolution h)
  | inr h ↦ rw h (prefers_irrefl q pick.resolution)
]

next_pick-new : (q : Quality) (v pick : StreamLink) → preferred v (next_pick q v pick) q ≡ false
unfolding preferred next_pick
next_pick-new q v pick = elim (Bool-cases (preferred v pick q)) [
  | inl h ↦ rw h (prefers_irrefl q v.resolution)
  | inr h ↦ rw h h
]

preferred_trans :
    (q : Quality) (a b c : StreamLink)
    → preferred a b q ≡ false
    → preferred b c q ≡ false
    → preferred a c q ≡ false
unfolding preferred
preferred_trans q a b c h g = prefers_trans q a.resolution b.resolution c.resolution h g

pick_from-old :
    (q : Quality) (a pick : StreamLink) (variants : List StreamLink)
    → preferred a pick q ≡ false
    → preferred a (pick_from pick variants q) q ≡ false
unfolding pick_from next_pick
pick_from-old q a pick [] h = h
pick_from-old q a pick (v ∷ variants) h =
    pick_from-old q a (next_pick q v pick) variants
      (preferred_trans q a pick (next_pick q v pick) h (next_pick-old q v pick))

prefers_self : (q : Quality) (a : StreamLink) → preferred a a q ≡ false
unfolding preferred
prefers_self q a = prefers_irrefl q a.resolution

pick_from-unbeaten :
    (q : Quality) (pick : StreamLink) (variants : List StreamLink)
    → All (λ a. preferred a (pick_from pick variants q) q ≡ false) (pick ∷ variants)
unfolding pick_from next_pick
pick_from-unbeaten q pick [] = (prefers_self q pick, tt)
pick_from-unbeaten q pick (v ∷ variants) =
    let rest = pick_from-unbeaten q (next_pick q v pick) variants in
    (
      pick_from-old q pick (next_pick q v pick) variants (next_pick-old q v pick),
      (pick_from-old q v (next_pick q v pick) variants (next_pick-new q v pick), rest.1),
    )

-- The pick is one of the variants.
next_pick-cases :
    (q : Quality) (v pick : StreamLink) → (next_pick q v pick ≡ v) ⊎ (next_pick q v pick ≡ pick)
unfolding next_pick
next_pick-cases q v pick = elim (Bool-cases (preferred v pick q)) [
  | inl h ↦ inl (rw h refl)
  | inr h ↦ inr (rw h refl)
]

shift :
    (q : Quality) (pick v : StreamLink) (variants : List StreamLink)
    → ((i : ℕ) × (get_elem? (next_pick q v pick ∷ variants) i
          ≡ some (pick_from (next_pick q v pick) variants q)))
    → (i : ℕ) × (get_elem? (pick ∷ v ∷ variants) i
        ≡ some (pick_from (next_pick q v pick) variants q))
shift q pick v variants (suc i, h) = (suc (suc i), h)
shift q pick v variants (zero, h) = elim (next_pick-cases q v pick) [
  | inl e ↦ (1, ap some (sym e) ∙ h)
  | inr e ↦ (0, ap some (sym e) ∙ h)
]

pick_from-at :
    (q : Quality) (pick : StreamLink) (variants : List StreamLink)
    → (i : ℕ) × (get_elem? (pick ∷ variants) i ≡ some (pick_from pick variants q))
unfolding pick_from next_pick
pick_from-at q pick [] = (0, refl)
pick_from-at q pick (v ∷ variants) =
    shift q pick v variants (pick_from-at q (next_pick q v pick) variants)

-- The variant that is selected is one of those offered, and none of them is preferred to it.
pub select_variant-best :
    (variants : List StreamLink) (quality : Quality) (pick : StreamLink)
    → select_variant variants quality ≡ some pick
    → ((i : ℕ) × (get_elem? variants i ≡ some pick))
      × All (λ a. preferred a pick quality ≡ false) variants
unfolding select_variant
select_variant-best [] quality pick h = absurd (cc)
select_variant-best (v ∷ variants) quality pick h =
    subst
      (λ p.
        ((i : ℕ) × (get_elem? (v ∷ variants) i ≡ some p))
        × All (λ a. preferred a p quality ≡ false) (v ∷ variants))
      (some_inj h) (pick_from-at quality v variants, pick_from-unbeaten quality v variants)
