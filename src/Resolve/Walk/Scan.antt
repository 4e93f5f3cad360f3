-- ===== src/Resolve/Walk/Scan.antt =====
-- src/resolve.cpp, `Walk::advance`: the cursor's loop.
use shigoku.Common.{
  ℕ, zero, suc, ◌≤◌, ◌≡◌, refl, inl, inr, List, [], ◌∷◌, some, Bytes, arith, get_elem?, drop,
  dec_lt, sym, ◌∙◌,
}
use shigoku.Resolve.World.{World}
use shigoku.Resolve.Walk.Masks.{IsTrackable, drop-cons, get_elem?-lt}
use shigoku.Resolve.Walk.Steps.{
  Kept, Kept-trans, Justified, bound, keyed, searched, Passed, Lands, Spent, Round, Moved,
  visit_lem,
}
use shigoku.Resolve.Walk.{Walk, Hop, visit, scan}

-- The facts about one walk hold of a later one with the same snapshot.
module _ (world : World) (u v : Walk) (kept : Kept u v) where
  Justified-back : (p : Bytes) (h : Hop) → Justified world v p h → Justified world u p h
  Justified-back p h (bound id b e) = bound id (ground (arith, kept.same_canonical)) e
  Justified-back p h (keyed key b g k e) =
      keyed key (ground arith) (ground arith) (ground arith) (ground arith)
  Justified-back p h (searched b g k e) =
      searched (ground arith) (ground arith) (ground arith) (ground arith)

  pub Passed-back : (p : Bytes) → Passed world v p → Passed world u p
  Passed-back p s = record {
    respects = sym kept.same_probe ∙ s.respects;
    absent = ground arith;
    unbound = ground arith;
  }

  pub Lands-back : (w : Walk) (h : Hop) → Lands world v w h → Lands world u w h
  Lands-back w h l = record {
    index = l.index;
    provider = l.provider;
    at = ground arith;
    before = ground (arith, kept.grows l.index);
    after = l.after;
    reason = Justified-back l.provider h l.reason;
  }

pub drop-nil {ℓ} :
    {A : Type ℓ} (n k : ℕ) (xs : List A) {x : A}
    → drop n xs ≡ []
    → n ≤ k
    → get_elem? xs k ≡ some x
    → ⊥
drop-nil n k [] d h e = cc
drop-nil zero k (y ∷ xs) d h e = cc
drop-nil (suc n) zero (y ∷ xs) d h e = absurd (omega arith)
drop-nil (suc n) (suc k) (y ∷ xs) d h e = drop-nil n k xs d (omega arith) e

module _ (world : World) where
  Spent-next :
      (w : Walk) (p : Bytes) (v : Walk)
      → Kept w v
      → get_elem? w.providers w.next ≡ some p
      → Moved world w p v
      → Spent world v
      → Spent world w
  Spent-next w p v kept at (n, first, back) spent k q h e = elim (dec_lt w.next k) [
    | yes later ↦
        let v_at : get_elem? v.providers k ≡ some q = ground arith in
        elim (spent k q (omega arith) v_at) [
          | inl b ↦ inl (back k later b)
          | inr s ↦ inr (Passed-back world w v kept q s)
        ]
    | no now ↦
        let here : k ≡ w.next = omega arith in
        let same : p ≡ q = ground arith in rw here (rw (← same) first)
  ]

  -- The loop keeps the walk, and ends at a hop or with everything behind the cursor spent.
  pub scan-Round :
      (rest : List Bytes) (w : Walk)
      → IsTrackable w.providers
      → drop w.next w.providers ≡ rest
      → Round world w (scan world w rest).0 (scan world w rest).1 (λ _. Spent world w)
  unfolding scan
  scan-Round [] w t d = record {
    kept = record {
      same_canonical = refl;
      same_providers = refl;
      same_origin = refl;
      same_probe = refl;
      same_first = refl;
      stays_swept = λ h. h;
      grows = λ j h. h;
    };
    outcome = inr (refl, λ k p h e. absurd (drop-nil w.next k w.providers d h e));
  }
  scan-Round (p ∷ rest) w t d =
      let (at, d') = drop-cons w.next w.providers d in
      let round = visit_lem world w p t at in
      let v = (visit world w p).0 in
      elim round.outcome [
        | inl (h, m, lands, moves, inside) ↦
            rw (m, scan)
              (record { kept = round.kept; outcome = inl (h, refl, lands, moves, inside) })
        | inr (m, after) ↦
            let t' : IsTrackable v.providers = rw round.kept.same_providers t in
            let d'' : drop v.next v.providers ≡ rest = rw (after.0, round.kept.same_providers) d' in
            let later = scan-Round rest v t' d'' in
            rw (m, scan)
              (record {
                kept = Kept-trans round.kept later.kept;
                outcome = elim later.outcome [
                  | inl (h, n, lands, moves, inside) ↦ inl (
                    h,
                    n,
                    Lands-back world w v round.kept _ h lands,
                    omega (arith, after.0),
                    get_elem?-lt w.providers w.next at,
                  )
                  | inr (n, spent) ↦ inr (n, Spent-next w p v round.kept at after spent)
                ];
              })
      ]
