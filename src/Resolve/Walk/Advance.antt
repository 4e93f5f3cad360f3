-- ===== src/Resolve/Walk/Advance.antt =====
-- src/resolve.cpp, `Walk::advance`: one call, with the sweep over the bindings where it is due.
use shigoku.Common.{
  ℕ, suc, ◌+◌, ◌-◌, ◌≤◌, ◌<◌, ◌≡◌, refl, ◌⊎◌, inl, inr, true, not, ◌&&◌, List, [], ◌∷◌, none, some,
  Bytes, arith, get_elem?, drop, Option-cases, Bool-cases, dec_lt, sym, ◌∙◌, length, if◌then◌else◌,
}
use shigoku.Resolve.World.{World}
use shigoku.Resolve.Walk.Masks.{IsTrackable, drop-cons, is_tried-mark_tried}
use shigoku.Resolve.Walk.Steps.{Kept, Kept-trans, bound, Lands, Spent, mark_tried-Kept}
use shigoku.Resolve.Walk.Scan.{scan-Round, drop-nil, Lands-back, Passed-back}
use shigoku.Resolve.Walk.{
  Walk, Hop, fetch, Outcome, hop, exhausted, is_tried, mark_tried, sweep, cursor, exhaust, advance,
}

-- The sweep is still due.
abbrev pub pending : Walk → ℕ
pending w = if w.bindings_first && not w.swept_bindings then 1 else 0

-- How many hops the walk can still make.
abbrev pub hops_left : Walk → ℕ
hops_left w = (length w.providers - w.next) + pending w

-- Every provider from index i on was tried before or has no binding.
abbrev pub Unbound : World → Walk → ℕ → Type 0
Unbound world w i =
    (k : ℕ) (p : Bytes)
    → i ≤ k
    → get_elem? w.providers k ≡ some p
    → (is_tried w k ≡ true) ⊎ (world.binding w.canonical.anilist_id p ≡ none)

-- A hop of the sweep: an existing binding, with nothing to mint.
pub record Swept (world : World) (w w' : Walk) (h : Hop) : Type 0 where
  pub kept : Kept w w'
  pub lands : Lands world w w' h
  pub same_next : w'.next ≡ w.next
  pub id : Bytes
  pub is_bound : world.binding w.canonical.anilist_id lands.provider ≡ some id
  pub fetches : h ≡ fetch lands.provider id none

mark_tried-next : (w : Walk) (p : Bytes) → (mark_tried w p).next ≡ w.next
unfolding mark_tried
mark_tried-next w p = refl

module _ (world : World) (w : Walk) (t : IsTrackable w.providers) where
  pub sweep_lem :
      (i : ℕ) (rest : List Bytes)
      → drop i w.providers ≡ rest
      → ((sweep world w i rest ≡ none) × Unbound world w i)
        ⊎ ((w' : Walk) × (h : Hop) × (sweep world w i rest ≡ some (w', h)) × Swept world w w' h)
  unfolding sweep
  sweep_lem i [] d = inl (refl, λ k p h e. absurd (drop-nil i k w.providers d h e))
  sweep_lem i (p ∷ rest) d =
      let (at, d') = drop-cons i w.providers d in
      let later = sweep_lem (suc i) rest d' in
      elim (Bool-cases (is_tried w i)) [
        | inl old ↦ elim later [
          | inl (m, u) ↦ inl (ground arith, unbound_from at (inl old) u)
          | inr (w', h, m, s) ↦ inr (w', h, ground arith, s)
        ]
        | inr new ↦ elim (Option-cases (world.binding w.canonical.anilist_id p)) [
          | inr (id, b) ↦ inr (
            mark_tried w p,
            fetch p id none,
            ground arith,
            record {
              kept = mark_tried-Kept w i p t at;
              lands = record {
                index = i;
                provider = p;
                at = at;
                before = new;
                after = ground (arith, is_tried-mark_tried w i i p t at);
                reason = bound id b refl;
              };
              same_next = mark_tried-next w p;
              id = id;
              is_bound = b;
              fetches = refl;
            },
          )
          | inl b ↦ elim later [
            | inl (m, u) ↦ inl (ground arith, unbound_from at (inr b) u)
            | inr (w', h, m, s) ↦ inr (w', h, ground arith, s)
          ]
        ]
      ]
    where
      unbound_from :
          get_elem? w.providers i ≡ some p
          → (is_tried w i ≡ true) ⊎ (world.binding w.canonical.anilist_id p ≡ none)
          → Unbound world w (suc i)
          → Unbound world w i
      unbound_from at first u k q h e = elim (dec_lt i k) [
        | yes later ↦ u k q later e
        | no now ↦
            let here : k ≡ i = omega arith in
            let same : p ≡ q = ground arith in rw here (rw (← same) first)
      ]

-- What one call of `advance` leaves behind.
pub record Advanced (world : World) (w w' : Walk) (o : Outcome) : Type 0 where
  pub kept : Kept w w'
  pub outcome :
      ((h : Hop) × (o ≡ hop h) × Lands world w w' h × (hops_left w' < hops_left w))
      ⊎ ((o ≡ exhausted (exhaust world w')) × Spent world w)

cursor-Advanced :
    (world : World) (w : Walk)
    → IsTrackable w.providers
    → (pending w ≡ 0)
    → Advanced world w (cursor world w).0 (cursor world w).1
unfolding cursor
cursor-Advanced world w t idle =
    let round = scan-Round world (drop w.next w.providers) w t refl in
    elim round.outcome [
      | inl (h, m, lands, moves, inside) ↦
          rw (m, cursor)
            (record {
              kept = round.kept;
              outcome = inl (h, refl, lands, fewer round.kept moves inside);
            })
      | inr (m, spent) ↦ rw (m, cursor) (record { kept = round.kept; outcome = inr (refl, spent) })
    ]
  where
    fewer :
        {v : Walk}
        → Kept w v
        → w.next < v.next
        → w.next < length w.providers
        → hops_left v < hops_left w
    fewer kept moves inside = ground (arith, kept.same_providers, kept.same_first, kept.stays_swept)

swept-Kept : (w : Walk) → Kept w (record w { swept_bindings = true })
unfolding is_tried
swept-Kept w = record {
  same_canonical = refl;
  same_providers = refl;
  same_origin = refl;
  same_probe = refl;
  same_first = refl;
  stays_swept = λ _. refl;
  grows = λ j h. h;
}

module _ (world : World) (w : Walk) (t : IsTrackable w.providers) where
  abbrev swept : Walk
  swept = record w { swept_bindings = true }

  swept_back :
      {v : Walk} {o : Outcome} → pending w ≡ 1 → Advanced world swept v o → Advanced world w v o
  swept_back {v} due a = record {
    kept = Kept-trans (swept-Kept w) a.kept;
    outcome = elim a.outcome [
      | inl (h, m, lands, fewer) ↦
          inl (h, m, Lands-back world w swept (swept-Kept w) v h lands, ground arith)
      | inr (m, spent) ↦ inr (
        m,
        λ k p h e. elim (spent k p h e) [
          | inl b ↦ inl (sym (is_tried-swept k) ∙ b)
          | inr s ↦ inr (Passed-back world w swept (swept-Kept w) p s)
        ],
      )
    ];
  }
    where
      is_tried-swept : (k : ℕ) → is_tried swept k ≡ is_tried w k
      is_tried-swept k = unfold is_tried in refl

  -- Over distinct providers, at most 64, one call of `advance` keeps the snapshot, the origin and all
  -- that was tried, and has one of two outcomes: a hop, justified by what the world says of its
  -- provider, to a provider that was untried before and is tried after, with fewer hops left; or the
  -- exhausted walk, where every provider from the cursor on was tried or is unbound and freshly absent.
  pub advance_lem : Advanced world w (advance world w).0 (advance world w).1
  unfolding advance
  advance_lem = elim (Bool-cases (w.bindings_first && not w.swept_bindings)) [
    | inr idle ↦ rw idle (cursor-Advanced world w t (ground arith))
    | inl due ↦ elim (sweep_lem world swept t 0 w.providers refl) [
      | inl (m, _) ↦
          rw (due, m) (swept_back (ground arith) (cursor-Advanced world swept t (ground arith)))
      | inr (v, h, m, s) ↦
          rw (due, m)
            (record {
              kept = Kept-trans (swept-Kept w) s.kept;
              outcome = inl (
                h,
                refl,
                Lands-back world w swept (swept-Kept w) v h s.lands,
                ground (arith, s.kept.stays_swept refl, s.kept.same_providers, s.same_next),
              );
            })
    ]
  ]
