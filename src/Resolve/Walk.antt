-- ===== src/Resolve/Walk.antt =====
-- The `Walk` of src/resolve.cpp: a forward-only cursor over a snapshot of providers, with a 64-bit
-- mask of the providers already tried. `advance` returns the next walk with a hop or with what an
-- exhausted walk does. Shifts are by less than 64, so no bit of the mask is lost.
pub mod Masks
pub mod Steps
pub mod Scan
pub mod Advance
pub mod Once
pub mod Rescue
use Prim.Native.Nat.{bit_or}
use shigoku.Common.{
  ℕ, suc, ◌+◌, ◌^◌, Bool, true, false, not, ◌&&◌, List, [], ◌∷◌, Option, none, some, Bytes,
  bytes_eq, if◌then◌else◌, leb, length, drop,
}
use shigoku.Common.Bits.{has_bit}
use shigoku.Common.Int.{ℤ}
use shigoku.Domain.Types.{Enrichment}
use shigoku.Resolve.World.{World, effective_pref, non_empty_pref}

pub data WalkOrigin : Type 0 where
  forced_preferred pin_flip fallback : WalkOrigin

-- `kMaxTrackedProviders`.
abbrev pub max_tracked_providers : ℕ
max_tracked_providers = 64

pub data Hop : Type 0 where
  fetch : Bytes → Bytes → Option ℤ → Hop
  search : Bytes → ℤ → Hop

pub record Walk : Type 0 where
  pub canonical : Enrichment
  pub providers : List Bytes
  pub next : ℕ
  pub tried : ℕ
  pub origin : WalkOrigin
  pub probe_through_absence : Bool
  pub bindings_first : Bool
  pub swept_bindings : Bool

pub data Exhausted : Type 0 where
  continue : Walk → Exhausted
  pin_kept dead_end : Exhausted

-- What `advance` returns: a hop, or `nullopt` with `out_exhausted` filled.
pub data Outcome : Type 0 where
  hop : Hop → Outcome
  exhausted : Exhausted → Outcome

unfoldable pub mark_from : ℕ → List Bytes → Bytes → ℕ
mark_from i [] name = 0
mark_from i (p ∷ ps) name =
    if leb max_tracked_providers i
    then 0
    else if bytes_eq p name
    then 2 ^ i
    else mark_from (suc i) ps name

-- The bit for `name`, or 0 if it is not found or stands past the ceiling.
unfoldable pub mark : List Bytes → Bytes → ℕ
mark providers name = mark_from 0 providers name

unfoldable pub is_tried : Walk → ℕ → Bool
is_tried w idx = if leb max_tracked_providers idx then false else has_bit w.tried idx

unfoldable pub mark_tried : Walk → Bytes → Walk
mark_tried w provider = record w { tried = bit_or w.tried (mark w.providers provider) }

-- `Walk::fallback`, `Walk::pin_flip` and `Walk::forced_preferred`.
abbrev pub marked_if : List Bytes → Option Bytes → ℕ
marked_if providers none = 0
marked_if providers (some name) = mark providers name

unfoldable pub start_fallback : World → Enrichment → Option Bytes → Walk
start_fallback world canonical failed =
    let providers = world.ordered (effective_pref world canonical.anilist_id) in
    record {
      canonical = canonical;
      providers = providers;
      next = 0;
      tried = marked_if providers failed;
      origin = fallback;
      probe_through_absence = false;
      bindings_first = false;
      swept_bindings = false;
    }

abbrev pub single : Enrichment → Bytes → WalkOrigin → Walk
single canonical target origin = record {
  canonical = canonical;
  providers = target ∷ [];
  next = 0;
  tried = 0;
  origin = origin;
  probe_through_absence = true;
  bindings_first = false;
  swept_bindings = false;
}

pub start_pin_flip : Enrichment → Bytes → Walk
start_pin_flip canonical target = single canonical target pin_flip

unfoldable pub start_forced_preferred : Enrichment → Bytes → Walk
start_forced_preferred canonical pref = single canonical pref forced_preferred

-- One round of the once-only sweep over the bindings, at index i.
unfoldable pub sweep : World → Walk → ℕ → List Bytes → Option (Walk × Hop)
sweep world w i [] = none
sweep world w i (p ∷ ps) =
    let rest = sweep world w (suc i) ps in
    if is_tried w i then rest else elim (world.binding w.canonical.anilist_id p) [
      | some id ↦ some (mark_tried w p, fetch p id none)
      | none ↦ rest
    ]

-- What the cursor does with a provider that is not tried yet.
unfoldable pub probe : World → Walk → Bytes → Option Hop
probe world w p = elim (world.binding w.canonical.anilist_id p) [
  | some id ↦ some (fetch p id none)
  | none ↦
      if not w.probe_through_absence && world.absent_fresh w.canonical.anilist_id p
      then none
      else elim (world.canonical_key p w.canonical) [
        | some key ↦ some (fetch p key (some w.canonical.anilist_id))
        | none ↦ some (search p w.canonical.anilist_id)
      ]
]

-- One round of the cursor's loop, at the provider under the cursor.
unfoldable pub visit : World → Walk → Bytes → Walk × Option Hop
visit world w p =
    let w' = record w { next = suc w.next } in
    if is_tried w' w.next then (w', none) else (mark_tried w' p, probe world w p)

-- The cursor's loop over the providers from the cursor on.
unfoldable pub scan : World → Walk → List Bytes → Walk × Option Hop
scan world w [] = (w, none)
scan world w (p ∷ ps) =
    let r = visit world w p in elim r.1 [ some h ↦ (r.0, some h) | none ↦ scan world r.0 ps ]

abbrev pub front_or_empty : List Bytes → Bytes
front_or_empty [] = []
front_or_empty (p ∷ ps) = p

-- The continuation of a forced walk: all providers, bindings first, the forced one already tried.
unfoldable pub continuation : World → Enrichment → Bytes → Walk
continuation world canonical pref =
    let providers = world.ordered (non_empty_pref pref) in
    record {
      canonical = canonical;
      providers = providers;
      next = 0;
      tried = mark providers pref;
      origin = fallback;
      probe_through_absence = false;
      bindings_first = true;
      swept_bindings = false;
    }

unfoldable pub exhaust : World → Walk → Exhausted
exhaust world w = elim w.origin [
  | forced_preferred ↦ continue (continuation world w.canonical (front_or_empty w.providers))
  | pin_flip ↦ pin_kept
  | fallback ↦ dead_end
]

-- The cursor's loop, then the exhausted walk.
unfoldable pub cursor : World → Walk → Walk × Outcome
cursor world w =
    let r = scan world w (drop w.next w.providers) in
    elim r.1 [ some h ↦ (r.0, hop h) | none ↦ (r.0, exhausted (exhaust world r.0)) ]

abbrev pub after_sweep : World → Walk → Option (Walk × Hop) → Walk × Outcome
after_sweep world w none = cursor world w
after_sweep world w (some (w', h)) = (w', hop h)

unfoldable pub advance : World → Walk → Walk × Outcome
advance world w =
    let w' = record w { swept_bindings = true } in
    if w.bindings_first && not w.swept_bindings
    then after_sweep world w' (sweep world w' 0 w'.providers)
    else cursor world w
