-- ===== src/Resolve/World.antt =====
-- `ResolveWorld`, the read-only view that the engine consults, as a record of its methods, and
-- `effective_pref`. The record has no laws: the engine relies on none.
use shigoku.Common.{Bool, List, [], ◌∷◌, Option, none, some, Bytes}
use shigoku.Common.Int.{ℤ}
use shigoku.Domain.Types.{Enrichment}

pub record World : Type 0 where
  pub ordered : Option Bytes → List Bytes
  pub registered : Bytes → Bool
  pub binding : ℤ → Bytes → Option Bytes
  pub absent_fresh : ℤ → Bytes → Bool
  pub canonical_key : Bytes → Enrichment → Option Bytes
  pub pin : ℤ → Option Bytes
  pub route_pref : ℤ → Option Bytes
  pub global_pref : Bytes

-- An empty global preference reads as none.
abbrev pub non_empty_pref : Bytes → Option Bytes
non_empty_pref [] = none
non_empty_pref (c ∷ s) = some (c ∷ s)

unfoldable pub effective_pref : World → ℤ → Option Bytes
effective_pref world anilist_id = elim (world.pin anilist_id) [
  | some p ↦ some p
  | none ↦ non_empty_pref world.global_pref
]
