-- ===== src/Resolve/Route.antt =====
-- `route_preferred` and `open_history` of src/resolve.cpp: how a show opened from the History list is
-- routed. A walk that the source shares by pointer is the walk itself.
use shigoku.Common.{
  ◌≡◌, ◌≢◌, ◌⊎◌, ◌↔◌, inl, inr, Bool, true, false, not, ◌&&◌, Option, none, some, Bytes, bytes_eq,
  bytes_eq_iff, arith, if◌then◌else◌, value_or, Option-cases, Bool-cases, bytes_eq_sound,
  bytes_eq_complete,
}
use shigoku.Common.Int.{ℤ, pos}
use shigoku.Domain.Types.{Enrichment}
use shigoku.Resolve.World.{World, non_empty_pref}
use shigoku.Resolve.Walk.{Walk, start_forced_preferred}

pub data RouteAction : Type 0 where
  open_binding : Bytes → Bytes → ℤ → RouteAction
  fetch_tier_a : Bytes → Bytes → ℤ → RouteAction
  start_walk : Walk → RouteAction
  no_action : RouteAction

pub record RouteOutcome : Type 0 where
  pub stamp : Option Bytes
  pub action : RouteAction

abbrev no_route : RouteOutcome
no_route = record { stamp = none; action = no_action }

is_settled : World → Enrichment → Bytes → Bool
is_settled world canonical pref = elim (world.route_pref canonical.anilist_id) [
  | some settled ↦ bytes_eq settled pref
  | none ↦ false
]

-- Settled under the live preference: its binding, if there is one, with no new stamp.
settled_route : World → Enrichment → Bytes → RouteOutcome
settled_route world canonical pref = elim (world.binding canonical.anilist_id pref) [
  | some id ↦ record { stamp = none; action = open_binding pref id canonical.anilist_id }
  | none ↦ no_route
]

-- The action of a forced probe of the preference.
forced_action : World → Enrichment → Bytes → RouteAction
forced_action world canonical pref = elim (world.binding canonical.anilist_id pref) [
  | some id ↦ open_binding pref id canonical.anilist_id
  | none ↦ elim (world.canonical_key pref canonical) [
    | some key ↦ fetch_tier_a pref key canonical.anilist_id
    | none ↦ start_walk (start_forced_preferred canonical pref)
  ]
]

route_to : World → Enrichment → Bytes → RouteOutcome
route_to world canonical pref =
    if is_settled world canonical pref
    then settled_route world canonical pref
    else if not (world.registered pref)
    then no_route
    else record { stamp = some pref; action = forced_action world canonical pref }

route_unpinned : World → Enrichment → Option Bytes → RouteOutcome
unfolding route_to
route_unpinned world canonical none = no_route
route_unpinned world canonical (some pref) = route_to world canonical pref

pub route_preferred : World → Enrichment → RouteOutcome
unfolding route_unpinned
route_preferred world canonical = elim (world.pin canonical.anilist_id) [
  | some pin ↦ no_route
  | none ↦ route_unpinned world canonical (non_empty_pref world.global_pref)
]

pub record HistoryRecord : Type 0 where
  pub anilist_id : Option ℤ
  pub source : Bytes
  pub source_id : Bytes
  pub canonical : Option Enrichment

pub data HistoryOpen : Type 0 where
  pin_binding : Bytes → Bytes → HistoryOpen
  routed : RouteOutcome → HistoryOpen
  from_record : Bytes → Bytes → HistoryOpen

is_action : RouteAction → Bool
is_action no_action = false
is_action _ = true

open_pinned : World → HistoryRecord → ℤ → Bytes → HistoryOpen
open_pinned world rec aid pin =
    if not (bytes_eq pin rec.source) && world.registered pin
    then elim (world.binding aid pin) [
      | some id ↦ pin_binding pin id
      | none ↦ from_record rec.source rec.source_id
    ]
    else from_record rec.source rec.source_id

open_unpinned : World → HistoryRecord → HistoryOpen
unfolding is_action
open_unpinned world rec = elim rec.canonical [
  | some canonical ↦
      let ro = route_preferred world canonical in
      if is_action ro.action then routed ro else from_record rec.source rec.source_id
  | none ↦ from_record rec.source rec.source_id
]

pub open_history : World → HistoryRecord → HistoryOpen
unfolding open_pinned open_unpinned
open_history world rec =
    let aid = value_or rec.anilist_id (pos 0) in
    elim (world.pin aid) [
      | some pin ↦ open_pinned world rec aid pin
      | none ↦ open_unpinned world rec
    ]

is_settled_iff :
    (world : World) (c : Enrichment) (pref : Bytes)
    → (is_settled world c pref ≡ true) ↔ (world.route_pref c.anilist_id ≡ some pref)
unfolding is_settled
is_settled_iff world c pref = elim (Option-cases (world.route_pref c.anilist_id)) [
  | inl e ↦ (λ h. ground arith, λ h. ground arith)
  | inr (s, e) ↦
      (λ h. ground (arith, bytes_eq_iff s pref), λ h. ground (arith, bytes_eq_iff s pref))
]

settled_route-stamp :
    (world : World) (c : Enrichment) (pref : Bytes) → (settled_route world c pref).stamp ≡ none
unfolding settled_route
settled_route-stamp world c pref = ground arith

route_to-stamp :
    (world : World) (c : Enrichment) (q pref : Bytes)
    → ((route_to world c q).stamp ≡ some pref)
      ↔ ((q ≡ pref) × (is_settled world c q ≡ false) × (world.registered q ≡ true))
unfolding route_to
route_to-stamp world c q pref = (
  λ h. ground (arith, settled_route-stamp world c q),
  λ h. ground (arith, settled_route-stamp world c q),
)

-- A re-route stamps exactly the live preference that has to be forced once: the show has no pin, the
-- preference is set, is not the one the show last settled under, and names a registered provider.
pub route_preferred-stamp :
    (world : World) (c : Enrichment) (pref : Bytes)
    → ((route_preferred world c).stamp ≡ some pref) ↔ (
        (world.pin c.anilist_id ≡ none)
        × (non_empty_pref world.global_pref ≡ some pref)
        × (world.route_pref c.anilist_id ≢ some pref)
        × (world.registered pref ≡ true))
unfolding route_preferred
route_preferred-stamp world c pref = elim (Option-cases (world.pin c.anilist_id)) [
  | inr (pin, e) ↦ (λ h. ground arith, λ h. ground arith)
  | inl e ↦ elim (Option-cases (non_empty_pref world.global_pref)) [
    | inl g ↦ (λ h. ground arith, λ h. ground arith)
    | inr (q, g) ↦
        let to = route_to-stamp world c q pref in
        let settled = is_settled_iff world c q in
        (λ h. ground (arith, to, settled), λ h. ground (arith, to, settled))
  ]
]

-- A show with a pin never borrows from a third provider: it opens at the pin's own binding, if the
-- pin is registered, bound and not the record's source, and in every other case at the record.
pub open_history-pinned :
    (world : World) (rec : HistoryRecord) (pin : Bytes)
    → world.pin (value_or rec.anilist_id (pos 0)) ≡ some pin
    → ((id : Bytes) × (open_history world rec ≡ pin_binding pin id)
        × (world.binding (value_or rec.anilist_id (pos 0)) pin ≡ some id)
        × (world.registered pin ≡ true)
        × (pin ≢ rec.source))
      ⊎ ((open_history world rec ≡ from_record rec.source rec.source_id)
          × ((world.binding (value_or rec.anilist_id (pos 0)) pin ≡ none)
              ⊎ (world.registered pin ≡ false)
              ⊎ (pin ≡ rec.source)))
unfolding open_history
open_history-pinned world rec pin h = elim (Bool-cases (bytes_eq pin rec.source)) [
  | inl same ↦ inr (ground arith, inr (inr (bytes_eq_sound pin rec.source same)))
  | inr other ↦ elim (Bool-cases (world.registered pin)) [
    | inr gone ↦ inr (ground arith, inr (inl gone))
    | inl live ↦ elim (Option-cases (world.binding (value_or rec.anilist_id (pos 0)) pin)) [
      | inl b ↦ inr (ground arith, inl b)
      | inr (id, b) ↦
          inl (id, ground arith, b, live, λ e. ground (arith, bytes_eq_complete pin rec.source e))
    ]
  ]
]
