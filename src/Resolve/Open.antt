-- ===== src/Resolve/Open.antt =====
-- `classify_open` of src/resolve.cpp: bindings and derived keys, over the ordered providers.
use shigoku.Common.{
  ◌≡◌, refl, ap, ◌⊎◌, inl, inr, List, [], ◌∷◌, ◌++◌, Option, none, some, Bytes, All, arith,
  Option-cases,
}
use shigoku.Common.Int.{ℤ}
use shigoku.Domain.Types.{Enrichment}
use shigoku.Resolve.World.{World, effective_pref}

pub data ResolveTarget : Type 0 where
  bound : Bytes → Bytes → ℤ → ResolveTarget
  tier_a : Bytes → Bytes → ℤ → ResolveTarget
  needs_search : ℤ → ResolveTarget

-- One of the two loops: the first provider at which `look` answers, with the answer.
first_hit : (Bytes → Option Bytes) → List Bytes → Option (Bytes × Bytes)
first_hit look [] = none
first_hit look (p ∷ order) = elim (look p) [ some v ↦ some (p, v) | none ↦ first_hit look order ]

classify_in : World → Enrichment → List Bytes → ResolveTarget
unfolding first_hit
classify_in world canonical order = elim (first_hit (world.binding canonical.anilist_id) order) [
  | some (p, id) ↦ bound p id canonical.anilist_id
  | none ↦ elim (first_hit (λ p. world.canonical_key p canonical) order) [
    | some (p, key) ↦ tier_a p key canonical.anilist_id
    | none ↦ needs_search canonical.anilist_id
  ]
]

pub classify_open : World → Enrichment → ResolveTarget
unfolding classify_in
classify_open world canonical =
    classify_in world canonical (world.ordered (effective_pref world canonical.anilist_id))

-- `v` is the answer at `p`, and no provider before `p` answers.
pub record First (look : Bytes → Option Bytes) (order : List Bytes) (p v : Bytes) : Type 0 where
  pub before : List Bytes
  pub after : List Bytes
  pub split : order ≡ before ++ p ∷ after
  pub silent : All (λ q. look q ≡ none) before
  pub answers : look p ≡ some v

abbrev pub Silent : (Bytes → Option Bytes) → List Bytes → Type 0
Silent look = All (λ q. look q ≡ none)

-- What an order of providers and the two lookups say of the target.
pub data Tiered (world : World) (c : Enrichment) (order : List Bytes) (t : ResolveTarget)
    : Type 0 where
  by_binding :
      (p id : Bytes)
      → t ≡ bound p id c.anilist_id
      → First (world.binding c.anilist_id) order p id
      → Tiered world c order t
  by_key :
      (p key : Bytes)
      → t ≡ tier_a p key c.anilist_id
      → Silent (world.binding c.anilist_id) order
      → First (λ q. world.canonical_key q c) order p key
      → Tiered world c order t
  by_search :
      t ≡ needs_search c.anilist_id
      → Silent (world.binding c.anilist_id) order
      → Silent (λ q. world.canonical_key q c) order
      → Tiered world c order t

module _ (look : Bytes → Option Bytes) where
  First-cons :
      (q : Bytes) {order : List Bytes} {p v : Bytes}
      → look q ≡ none
      → First look order p v
      → First look (q ∷ order) p v
  First-cons q e f = record {
    before = q ∷ f.before;
    after = f.after;
    split = ap (◌∷◌ q) f.split;
    silent = (e, f.silent);
    answers = f.answers;
  }

  first_hit_lem :
      (order : List Bytes)
      → ((first_hit look order ≡ none) × Silent look order)
        ⊎ ((p v : Bytes) × (first_hit look order ≡ some (p, v)) × First look order p v)
  unfolding first_hit
  first_hit_lem [] = inl (refl, tt)
  first_hit_lem (q ∷ order) = elim (Option-cases (look q)) [
    | inr (v, e) ↦ inr (
      q,
      v,
      ground arith,
      record { before = []; after = order; split = refl; silent = tt; answers = e },
    )
    | inl e ↦ elim (first_hit_lem order) [
      | inl (m, s) ↦ inl (ground arith, (e, s))
      | inr (p, v, m, f) ↦ inr (p, v, ground arith, First-cons q e f)
    ]
  ]

-- An opened show goes to the first provider, in the effective order, that holds a binding for it; to
-- the first one with a derived key only if no provider holds a binding; and to a search only if no
-- provider has either.
pub classify_open-Tiered :
    (world : World) (c : Enrichment)
    → Tiered world c (world.ordered (effective_pref world c.anilist_id)) (classify_open world c)
unfolding classify_open
classify_open-Tiered world c = go (world.ordered (effective_pref world c.anilist_id))
  where
    go : (order : List Bytes) → Tiered world c order (classify_in world c order)
    go order = elim (first_hit_lem (world.binding c.anilist_id) order) [
      | inr (p, id, m, f) ↦ by_binding p id (ground arith) f
      | inl (m, s) ↦ elim (first_hit_lem (λ q. world.canonical_key q c) order) [
        | inr (p, key, k, f) ↦ by_key p key (ground arith) s f
        | inl (k, s') ↦ by_search (ground arith) s s'
      ]
    ]
