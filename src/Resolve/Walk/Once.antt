-- ===== src/Resolve/Walk/Once.antt =====
-- src/resolve.cpp, the class `Walk`: all the hops of a walk, while the world changes.
use shigoku.Common.{
  ℕ, zero, suc, ◌≤◌, ◌≡◌, ◌≢◌, refl, inl, inr, false, List, [], ◌∷◌, some, Bytes, arith, get_elem?,
  length, All, ap,
}
use shigoku.Resolve.World.{World}
use shigoku.Resolve.Walk.Masks.{IsTrackable, Distinct, All-get_elem?}
use shigoku.Resolve.Walk.Steps.{Kept, Lands, Justified}
use shigoku.Resolve.Walk.Advance.{advance_lem, hops_left}
use shigoku.Resolve.Walk.{Walk, Hop, fetch, search, hop, exhausted, is_tried, advance}

abbrev pub provider_of : Hop → Bytes
provider_of (fetch p id bind) = p
provider_of (search p aid) = p

-- The hops that a walk makes while the world changes between its calls, up to its exhaustion.
pub hops : List World → Walk → List Hop
hops [] w = []
hops (world ∷ later) w = elim (advance world w).1 [
  | hop h ↦ h ∷ hops later (advance world w).0
  | exhausted e ↦ []
]

-- A provider of the snapshot that was not tried when the walk began.
abbrev pub Untried : Walk → Hop → Type 0
Untried w h = (k : ℕ) × (get_elem? w.providers k ≡ some (provider_of h)) × (is_tried w k ≡ false)

abbrev pub DistinctHops : List Hop → Type 0
DistinctHops [] = Unit {0}
DistinctHops (h ∷ hs) = All (λ g. provider_of h ≢ provider_of g) hs × DistinctHops hs

provider_of-Lands :
    (world : World) (w w' : Walk) (h : Hop) (l : Lands world w w' h) → provider_of h ≡ l.provider
provider_of-Lands world w w' h l = of_reason l.reason
  where
    of_reason : Justified world w l.provider h → provider_of h ≡ l.provider
    of_reason (Justified.bound id b e) = ap provider_of e
    of_reason (Justified.keyed key b g k e) = ap provider_of e
    of_reason (Justified.searched b g k e) = ap provider_of e

index_unique :
    (ps : List Bytes) (k j : ℕ) (p : Bytes)
    → Distinct ps
    → get_elem? ps k ≡ some p
    → get_elem? ps j ≡ some p
    → k ≡ j
index_unique [] k j p d e f = cc
index_unique (q ∷ ps) zero zero p d e f = refl
index_unique (q ∷ ps) zero (suc j) p d e f = ground (arith, All-get_elem? (λ r. q ≢ r) ps j p d.0 f)
index_unique (q ∷ ps) (suc k) zero p d e f = ground (arith, All-get_elem? (λ r. q ≢ r) ps k p d.0 e)
index_unique (q ∷ ps) (suc k) (suc j) p d e f = ap suc (index_unique ps k j p d.1 e f)

-- Untried later was untried before.
Untried-back : {v w : Walk} (h : Hop) → Kept v w → Untried w h → Untried v h
Untried-back h kept (k, at, new) = (k, ground arith, ground (arith, kept.grows k))

All-Untried-back : {v w : Walk} (hs : List Hop) → Kept v w → All (Untried w) hs → All (Untried v) hs
All-Untried-back [] kept a = tt
All-Untried-back (h ∷ hs) kept a = (Untried-back h kept a.0, All-Untried-back hs kept a.1)

Lands-ne :
    (world : World) (w w' : Walk) (h g : Hop)
    → IsTrackable w.providers
    → Kept w w'
    → Lands world w w' h
    → Untried w' g
    → provider_of h ≢ provider_of g
Lands-ne world w w' h g t kept l (k, at, new) same =
    let p : provider_of h ≡ l.provider = provider_of-Lands world w w' h l in
    let at' : get_elem? w.providers k ≡ some l.provider = ground arith in
    let here : l.index ≡ k = index_unique w.providers l.index k l.provider t.distinct l.at at' in
    ground (arith, l.after)

All-Lands-ne :
    (world : World) (w w' : Walk) (h : Hop) (gs : List Hop)
    → IsTrackable w.providers
    → Kept w w'
    → Lands world w w' h
    → All (Untried w') gs
    → All (λ g. provider_of h ≢ provider_of g) gs
All-Lands-ne world w w' h [] t kept l a = tt
All-Lands-ne world w w' h (g ∷ gs) t kept l a =
    (Lands-ne world w w' h g t kept l a.0, All-Lands-ne world w w' h gs t kept l a.1)

-- Over distinct providers, at most 64, and however the world changes between two calls of `advance`:
-- every hop goes to a provider of the snapshot that was not tried when the walk began, no two hops go
-- to the same provider, and the hops are at most one more than the providers ahead of the cursor.
pub hops-once :
    (worlds : List World) (w : Walk)
    → IsTrackable w.providers
    → All (Untried w) (hops worlds w)
      × DistinctHops (hops worlds w)
      × (length (hops worlds w) ≤ hops_left w)
unfolding hops
hops-once [] w t = (tt, tt, omega arith)
hops-once (world ∷ later) w t =
    let a = advance_lem world w t in
    let v = (advance world w).0 in
    let t' : IsTrackable v.providers = rw a.kept.same_providers t in
    let rest = hops-once later v t' in
    elim a.outcome [
      | inr (m, spent) ↦ rw (m, hops) (tt, tt, omega arith)
      | inl (h, m, lands, fewer) ↦
          rw (m, hops)
            (
              (
                (lands.index, rw (provider_of-Lands world w v h lands) lands.at, lands.before),
                All-Untried-back (hops later v) a.kept rest.0,
              ),
              (All-Lands-ne world w v h (hops later v) t a.kept lands rest.0, rest.1),
              omega (arith, rest.2),
            )
    ]
