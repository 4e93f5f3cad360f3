-- ===== src/Resolve/Walk/Rescue.antt =====
-- src/resolve.cpp, `Walk::exhaust`: the continuation of a forced probe.
use shigoku.Common.{
  ℕ, ◌≡◌, ◌≢◌, refl, inl, inr, true, [], ◌∷◌, none, some, Bytes, arith, get_elem?, ◌∙◌, ap, ◌⊎◌,
  false, ◌↔◌,
}
use shigoku.Domain.Types.{Enrichment}
use shigoku.Resolve.World.{World, non_empty_pref}
use shigoku.Resolve.Walk.Masks.{IsTrackable, only_marked, marked_at_start}
use shigoku.Resolve.Walk.Steps.{Kept, Lands, Justified}
use shigoku.Resolve.Walk.Advance.{advance_lem, sweep_lem, Unbound}
use shigoku.Resolve.Walk.{
  Walk, Hop, fetch, hop, exhausted, Exhausted, continue, advance, continuation,
  start_forced_preferred, exhaust, forced_preferred, fallback, is_tried,
}

forced_lem :
    (world : World) (c : Enrichment) (pref : Bytes) (v : Walk)
    → v.origin ≡ forced_preferred
    → v.canonical ≡ c
    → v.providers ≡ pref ∷ []
    → exhaust world v ≡ continue (continuation world c pref)
unfolding exhaust
forced_lem world c pref v o e p = ground arith

module _ (world : World) (c : Enrichment) (pref : Bytes)
    (t : IsTrackable (world.ordered (non_empty_pref pref))) where
  -- The continuation's first hop, where some other provider holds a binding.
  abbrev pub Rescued : Walk → Type 0
  Rescued n =
      (q id : Bytes) × ((advance world n).1 ≡ hop (fetch q id none))
      × (q ≢ pref)
      × (world.binding c.anilist_id q ≡ some id)

  abbrev sweeping : Walk
  sweeping = record (continuation world c pref) { swept_bindings = true }

  not_pref :
      {v : Walk} {h : Hop} {id : Bytes} (l : Lands world sweeping v h)
      → world.binding c.anilist_id l.provider ≡ some id
      → l.provider ≢ pref
  unfolding continuation
  not_pref l b e =
      let at : get_elem? sweeping.providers l.index ≡ some pref = ground (arith, l.at) in
      ground (arith, l.before, marked_at_start sweeping l.index pref t refl at)

  start_not_pref :
      {v : Walk} {h : Hop} (l : Lands world (continuation world c pref) v h) → l.provider ≢ pref
  unfolding continuation
  start_not_pref l e =
      let at : get_elem? (continuation world c pref).providers l.index ≡ some pref =
        ground (arith, l.at) in
      ground (arith, l.before, marked_at_start (continuation world c pref) l.index pref t refl at)

  -- The first hop, where no provider other than the forced one holds a binding: it goes to another
  -- provider, or all of them are freshly absent.
  abbrev pub Unrescued : Walk → Type 0
  Unrescued n =
      ((k : ℕ) (p : Bytes)
        → get_elem? n.providers k ≡ some p
        → (p ≡ pref) ⊎ (world.binding c.anilist_id p ≡ none))
      × (((h : Hop) × (q : Bytes) × ((advance world n).1 ≡ hop h)
            × Justified world n q h
            × (q ≢ pref))
          ⊎ ((k : ℕ) (p : Bytes)
              → get_elem? n.providers k ≡ some p
              → (p ≡ pref) ⊎ (world.absent_fresh c.anilist_id p ≡ true)))

  -- A walk from the first of all providers on, of which exactly the forced one counts as tried; it keeps
  -- clear of fresh absences, and its first hop is at an existing binding, where there is one.
  pub record Resumes (n : Walk) : Type 0 where
    pub same_canonical : n.canonical ≡ c
    pub same_providers : n.providers ≡ world.ordered (non_empty_pref pref)
    pub from_start : n.next ≡ 0
    pub is_fallback : n.origin ≡ fallback
    pub respects_absence : n.probe_through_absence ≡ false
    pub tried_pref :
        (k : ℕ) (p : Bytes) → get_elem? n.providers k ≡ some p → (is_tried n k ≡ true) ↔ (p ≡ pref)
    pub first_hop : Rescued n ⊎ Unrescued n

  only_pref :
      (k : ℕ) (p : Bytes)
      → get_elem? (continuation world c pref).providers k ≡ some p
      → is_tried (continuation world c pref) k ≡ true
      → p ≡ pref
  unfolding continuation
  only_pref k p at tried =
      let same : get_elem? (continuation world c pref).providers k ≡ some pref =
        only_marked (continuation world c pref) k pref refl tried in
      cc (at, same)

  pref_tried :
      (k : ℕ) (p : Bytes)
      → get_elem? (continuation world c pref).providers k ≡ some p
      → p ≡ pref
      → is_tried (continuation world c pref) k ≡ true
  unfolding continuation
  pref_tried k p at e = marked_at_start (continuation world c pref) k pref t refl (cc (at, e))

  continuation-Unrescued : Unbound world sweeping 0 → Unrescued (continuation world c pref)
  unfolding continuation is_tried
  continuation-Unrescued unbound = (
    λ k p at. elim (unbound k p (omega arith) at) [
      | inl tried ↦ inl (only_pref k p at tried)
      | inr none_there ↦ inr none_there
    ],
    elim (advance_lem world (continuation world c pref) t).outcome [
      | inl (h, m, lands, _) ↦ inl (h, lands.provider, m, lands.reason, start_not_pref lands)
      | inr (m, spent) ↦ inr (λ k p at. elim (spent k p (omega arith) at) [
        | inl tried ↦ inl (only_pref k p at tried)
        | inr passed ↦ inr passed.absent
      ])
    ],
  )

  continuation-first : Rescued (continuation world c pref) ⊎ Unrescued (continuation world c pref)
  unfolding advance continuation
  continuation-first = elim (sweep_lem world sweeping t 0 sweeping.providers refl) [
    | inl (m, unbound) ↦ inr (continuation-Unrescued unbound)
    | inr (v, h, m, s) ↦
        inl
          (s.lands.provider, s.id, rw m (ap hop s.fetches), not_pref s.lands s.is_bound, s.is_bound)
  ]

  continuation-Resumes : Resumes (continuation world c pref)
  unfolding continuation
  continuation-Resumes = record {
    same_canonical = refl;
    same_providers = refl;
    from_start = refl;
    is_fallback = refl;
    respects_absence = refl;
    tried_pref = λ k p at. (only_pref k p at, pref_tried k p at);
    first_hop = continuation-first;
  }

  -- A forced walk that has run out, whatever the world did meanwhile, continues with a walk from the first
  -- of all providers on, distinct and at most 64, of which exactly the forced one counts as tried. The
  -- first hop of that walk fetches an existing binding on another provider; or no other provider holds
  -- one, and the hop goes to another provider, or all others are freshly absent.
  pub exhausted-Rescued :
      (w : Walk) (e : Exhausted)
      → Kept (start_forced_preferred c pref) w
      → (advance world w).1 ≡ exhausted e
      → (n : Walk) × (e ≡ continue n) × Resumes n
  unfolding start_forced_preferred
  exhausted-Rescued w e kept h =
      let one : IsTrackable w.providers =
        rw kept.same_providers (record { distinct = (tt, tt); fits = omega arith }) in
      let a = advance_lem world w one in
      elim a.outcome [
        | inl (_, m, _, _) ↦ absurd (cc)
        | inr (m, _) ↦
            let same : e ≡ exhaust world (advance world w).0 = cc in
            (
              continuation world c pref,
              same
                  ∙ forced_lem world c pref _ (a.kept.same_origin ∙ kept.same_origin)
                      (a.kept.same_canonical ∙ kept.same_canonical)
                      (a.kept.same_providers ∙ kept.same_providers),
              continuation-Resumes,
            )
      ]
