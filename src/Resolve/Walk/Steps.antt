-- ===== src/Resolve/Walk/Steps.antt =====
-- src/resolve.cpp, `Walk::advance`: one round of its loops.
use shigoku.Common.{
  ℕ, suc, ◌≤◌, ◌<◌, ◌≡◌, refl, ◌⊎◌, inl, inr, true, false, not, ◌&&◌, ◌||◌, ◌∙◌, ap, sym, length,
  Option, none, some, Bytes, arith, get_elem?, ◌==◌, Bool-cases, Option-cases,
}
use shigoku.Resolve.World.{World}
use shigoku.Resolve.Walk.Masks.{IsTrackable, is_tried-mark_tried, get_elem?-lt}
use shigoku.Resolve.Walk.{Walk, Hop, fetch, search, is_tried, mark_tried, probe, visit}

-- The snapshot and the walk's kind stay as they are, and a tried provider stays tried.
pub record Kept (w w' : Walk) : Type 0 where
  pub same_canonical : w'.canonical ≡ w.canonical
  pub same_providers : w'.providers ≡ w.providers
  pub same_origin : w'.origin ≡ w.origin
  pub same_probe : w'.probe_through_absence ≡ w.probe_through_absence
  pub same_first : w'.bindings_first ≡ w.bindings_first
  pub stays_swept : w.swept_bindings ≡ true → w'.swept_bindings ≡ true
  pub grows : (j : ℕ) → is_tried w j ≡ true → is_tried w' j ≡ true

pub Kept-trans : {u v w : Walk} → Kept u v → Kept v w → Kept u w
Kept-trans k l = record {
  same_canonical = l.same_canonical ∙ k.same_canonical;
  same_providers = l.same_providers ∙ k.same_providers;
  same_origin = l.same_origin ∙ k.same_origin;
  same_probe = l.same_probe ∙ k.same_probe;
  same_first = l.same_first ∙ k.same_first;
  stays_swept = λ h. l.stays_swept (k.stays_swept h);
  grows = λ j h. l.grows j (k.grows j h);
}

-- The hop at provider `p` under a world: its binding with nothing to mint, else, unless a fresh
-- absence is respected, its key to be minted, else a search.
pub data Justified (world : World) (w : Walk) (p : Bytes) (h : Hop) : Type 0 where
  bound :
      (id : Bytes)
      → world.binding w.canonical.anilist_id p ≡ some id
      → h ≡ fetch p id none
      → Justified world w p h
  keyed :
      (key : Bytes)
      → world.binding w.canonical.anilist_id p ≡ none
      → (w.probe_through_absence ≡ true) ⊎ (world.absent_fresh w.canonical.anilist_id p ≡ false)
      → world.canonical_key p w.canonical ≡ some key
      → h ≡ fetch p key (some w.canonical.anilist_id)
      → Justified world w p h
  searched :
      world.binding w.canonical.anilist_id p ≡ none
      → (w.probe_through_absence ≡ true) ⊎ (world.absent_fresh w.canonical.anilist_id p ≡ false)
      → world.canonical_key p w.canonical ≡ none
      → h ≡ search p w.canonical.anilist_id
      → Justified world w p h

-- The provider is passed over: unbound, freshly absent, and the walk is not a manual one.
pub record Passed (world : World) (w : Walk) (p : Bytes) : Type 0 where
  pub respects : w.probe_through_absence ≡ false
  pub absent : world.absent_fresh w.canonical.anilist_id p ≡ true
  pub unbound : world.binding w.canonical.anilist_id p ≡ none

probe_lem :
    (world : World) (w : Walk) (p : Bytes)
    → ((h : Hop) × (probe world w p ≡ some h) × Justified world w p h)
      ⊎ ((probe world w p ≡ none) × Passed world w p)
unfolding probe
probe_lem world w p = elim (Option-cases (world.binding w.canonical.anilist_id p)) [
  | inr (id, e) ↦ inl (fetch p id none, ground arith, bound id e refl)
  | inl e ↦
      elim (Bool-cases
        (not w.probe_through_absence && world.absent_fresh w.canonical.anilist_id p)) [
          | inl a ↦
              inr (
                ground arith,
                record { respects = ground arith; absent = ground arith; unbound = e },
              )
          | inr a ↦ elim (Option-cases (world.canonical_key p w.canonical)) [
            | inr (key, k) ↦ inl (_, ground arith, keyed key e (ground arith) k refl)
            | inl k ↦ inl (_, ground arith, searched e (ground arith) k refl)
          ]
        ]
]

-- A hop at an index that was untried and is tried now.
pub record Lands (world : World) (w w' : Walk) (h : Hop) : Type 0 where
  pub index : ℕ
  pub provider : Bytes
  pub at : get_elem? w.providers index ≡ some provider
  pub before : is_tried w index ≡ false
  pub after : is_tried w' index ≡ true
  pub reason : Justified world w provider h

-- From the cursor on, every provider was tried before or is passed over.
abbrev pub Spent : World → Walk → Type 0
Spent world w =
    (k : ℕ) (p : Bytes)
    → w.next ≤ k
    → get_elem? w.providers k ≡ some p
    → (is_tried w k ≡ true) ⊎ Passed world w p

mark_tried-grows :
    (w : Walk) (k j : ℕ) (p : Bytes)
    → IsTrackable w.providers
    → get_elem? w.providers k ≡ some p
    → is_tried w j ≡ true
    → is_tried (mark_tried w p) j ≡ true
mark_tried-grows w k j p t e h = ground (arith, is_tried-mark_tried w k j p t e)

pub mark_tried-Kept :
    (w : Walk) (k : ℕ) (p : Bytes)
    → IsTrackable w.providers
    → get_elem? w.providers k ≡ some p
    → Kept w (mark_tried w p)
unfolding mark_tried
mark_tried-Kept w k p t e = record {
  same_canonical = refl;
  same_providers = refl;
  same_origin = refl;
  same_probe = refl;
  same_first = refl;
  stays_swept = λ h. h;
  grows = λ j h. mark_tried-grows w k j p t e h;
}

-- What a round of the cursor's loop, or the whole loop, leaves behind.
pub record Round (world : World) (w w' : Walk) (o : Option Hop) (reach : Walk → Type 0)
    : Type 0 where
  pub kept : Kept w w'
  pub outcome :
      ((h : Hop) × (o ≡ some h)
        × Lands world w w' h
        × (w.next < w'.next)
        × (w.next < length w.providers))
      ⊎ ((o ≡ none) × reach w')

abbrev pub Moved : World → Walk → Bytes → Walk → Type 0
Moved world w p w' =
    (w'.next ≡ suc w.next)
    × ((is_tried w w.next ≡ true) ⊎ Passed world w p)
    × ((j : ℕ) → w.next < j → is_tried w' j ≡ true → is_tried w j ≡ true)

abbrev moved : Walk → Walk
moved w = record w { next = suc w.next }

is_tried-moved : (w : Walk) (j : ℕ) → is_tried (moved w) j ≡ is_tried w j
unfolding is_tried
is_tried-moved w j = refl

mark_tried-next : (w : Walk) (p : Bytes) → (mark_tried w p).next ≡ w.next
unfolding mark_tried
mark_tried-next w p = refl

moved-Kept : (w : Walk) → Kept w (moved w)
moved-Kept w = record {
  same_canonical = refl;
  same_providers = refl;
  same_origin = refl;
  same_probe = refl;
  same_first = refl;
  stays_swept = λ h. h;
  grows = λ j h. is_tried-moved w j ∙ h;
}

module _ (world : World) (w : Walk) (p : Bytes) (t : IsTrackable w.providers)
    (at : get_elem? w.providers w.next ≡ some p) where
  marked-tried : (j : ℕ) → is_tried (mark_tried (moved w) p) j ≡ (w.next == j || is_tried w j)
  marked-tried j =
      is_tried-mark_tried (moved w) w.next j p t at ∙ ap (◌||◌ (w.next == j)) (is_tried-moved w j)

  marked-Kept : Kept w (mark_tried (moved w) p)
  marked-Kept = Kept-trans (moved-Kept w) (mark_tried-Kept (moved w) w.next p t at)

  pub visit_lem : Round world w (visit world w p).0 (visit world w p).1 (Moved world w p)
  unfolding visit
  visit_lem = elim (Bool-cases (is_tried w w.next)) [
    | inl old ↦
        rw (is_tried-moved w w.next, old)
          (record {
            kept = moved-Kept w;
            outcome = inr (refl, (refl, inl old, λ j h b. sym (is_tried-moved w j) ∙ b));
          })
    | inr new ↦
        rw (is_tried-moved w w.next, new)
          (elim (probe_lem world w p) [
            | inl (h, m, r) ↦ record {
              kept = marked-Kept;
              outcome = inl (
                h,
                m,
                record {
                  index = w.next;
                  provider = p;
                  at = at;
                  before = new;
                  after = ground (arith, marked-tried w.next);
                  reason = r;
                },
                omega (arith, mark_tried-next (moved w) p),
                get_elem?-lt w.providers w.next at,
              );
            }
            | inr (m, passed) ↦ record {
              kept = marked-Kept;
              outcome = inr (
                m,
                (mark_tried-next (moved w) p, inr passed, λ j h b. ground (arith, marked-tried j)),
              );
            }
          ])
  ]
