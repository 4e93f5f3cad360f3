-- ===== src/Resolve/Tests.antt =====
-- The resolve engine at concrete inputs.
use shigoku.Common.Bits.{has_bit}
use shigoku.Resolve.Walk.Rescue.{Resumes, exhausted-Rescued}
use shigoku.Resolve.Route.{HistoryRecord}
use shigoku.Resolve.Walk.Steps.{Kept}
use shigoku.Common.{
  ◌≤◌, ◌≢◌, true, false, List, [], ◌∷◌, none, some, Bytes, codes, arith, All, length, bytes_eq,
  if◌then◌else◌, ◌≡◌, refl,
}
use shigoku.Common.Int.{pos}
use shigoku.Domain.Samples.{sample_show}
use shigoku.Resolve.World.{World, effective_pref}
use shigoku.Resolve.Open.{Tiered, classify_open, classify_open-Tiered}
use shigoku.Resolve.Walk.{
  Walk, start_fallback, advance, start_forced_preferred, cursor, continue, sweep, continuation,
  scan, visit, probe, is_tried, mark_tried, exhaust, mark, mark_from, exhausted,
}
use shigoku.Resolve.Walk.Masks.{IsTrackable}
use shigoku.Resolve.Walk.Advance.{Advanced, advance_lem, hops_left}
use shigoku.Resolve.Walk.Once.{Untried, DistinctHops, hops, hops-once}

abbrev senshi : Bytes
senshi = codes "senshi"

abbrev anibd : Bytes
anibd = codes "anibd"

abbrev providers : List Bytes
providers = senshi ∷ anibd ∷ []

-- Two providers; the show is bound on the second one.
abbrev two : World
two = record {
  ordered = λ pref. providers;
  registered = λ p. true;
  binding = λ aid p. if bytes_eq p anibd then some (codes "b1") else none;
  absent_fresh = λ aid p. false;
  canonical_key = λ p c. none;
  pin = λ aid. none;
  route_pref = λ aid. none;
  global_pref = senshi;
}

abbrev pinned : World
pinned = record two { pin = λ aid. some anibd }

senshi-ne-anibd : senshi ≢ anibd
senshi-ne-anibd e = cc

two_trackable : IsTrackable providers
two_trackable = record { distinct = ((senshi-ne-anibd, tt), (tt, tt)); fits = omega arith }

classify_open-Tiered_example :
    Tiered two sample_show
      (two.ordered (effective_pref two (pos 7)))
      (classify_open two sample_show)
classify_open-Tiered_example = classify_open-Tiered two sample_show

abbrev walk : Walk
walk = start_fallback two sample_show (some senshi)

walk_trackable : IsTrackable walk.providers
unfolding start_fallback
walk_trackable = two_trackable

advance_lem_example : Advanced two walk (advance two walk).0 (advance two walk).1
advance_lem_example = advance_lem two walk walk_trackable

hops-once_example :
    All (Untried walk) (hops (two ∷ two ∷ []) walk)
    × DistinctHops (hops (two ∷ two ∷ []) walk)
    × (length (hops (two ∷ two ∷ []) walk) ≤ hops_left walk)
hops-once_example = hops-once (two ∷ two ∷ []) walk walk_trackable

-- The forced probe of the preferred provider, after its one hop.
abbrev spent_walk : Walk
spent_walk = (advance two (start_forced_preferred sample_show senshi)).0

spent_walk-Kept : Kept (start_forced_preferred sample_show senshi) spent_walk
spent_walk-Kept = (advance_lem two (start_forced_preferred sample_show senshi) one).kept
  where
    one : IsTrackable (start_forced_preferred sample_show senshi).providers
    one = unfold start_forced_preferred in (record { distinct = (tt, tt); fits = omega arith })

spent_walk-exhausted :
    (advance two spent_walk).1 ≡ exhausted (continue (continuation two sample_show senshi))
unfolding advance cursor sweep scan visit probe is_tried mark_tried exhaust mark mark_from
    continuation start_forced_preferred has_bit bytes_eq
spent_walk-exhausted = refl

exhausted-Rescued_example :
    (n : Walk) × (continue (continuation two sample_show senshi) ≡ continue n)
    × Resumes two sample_show senshi two_trackable n
exhausted-Rescued_example =
    exhausted-Rescued two sample_show senshi two_trackable spent_walk
      (continue (continuation two sample_show senshi)) spent_walk-Kept spent_walk-exhausted

abbrev watched : HistoryRecord
watched = record {
  anilist_id = some (pos 7);
  source = senshi;
  source_id = codes "s1";
  canonical = some sample_show;
}
