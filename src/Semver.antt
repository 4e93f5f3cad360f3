-- ===== src/Semver.antt =====
-- src/semver.cpp: version numbers and which of two is newer.
pub mod Laws
mod Tests
use shigoku.Common.{
  ℕ, zero, suc, ◌+◌, ◌-◌, ◌*◌, ◌%◌, ◌^◌, Bool, true, false, not, ◌&&◌, ◌||◌, List, [], ◌∷◌, Option,
  none, some, Bytes, if◌then◌else◌, leb, ltb, ◌==◌, take, drop, has_value,
}

pub record Version : Type 0 where
  pub major : ℕ
  pub minor : ℕ
  pub patch : ℕ
  pub prerelease : Bool

-- '0' to '9', '.', '-', '+', 'v' and 'V'.
abbrev pub is_digit : ℕ → Bool
is_digit c = leb 0x30 c && leb c 0x39

-- The digits so far, on 32 bits.
unfoldable pub field_from : ℕ → Bytes → Option ℕ
field_from value [] = some value
field_from value (c ∷ seg) =
    let rest = field_from ((value * 10 + (c - 0x30)) % 2 ^ 32) seg in
    if is_digit c then rest else none

unfoldable pub parse_field : Bytes → Option ℕ
parse_field [] = none
parse_field (c ∷ seg) = field_from 0 (c ∷ seg)

-- `find`, as the text before and after the first such byte.
unfoldable pub split_at : ℕ → Bytes → Option (Bytes × Bytes)
split_at c [] = none
split_at c (d ∷ s) =
    let rest = split_at c s in
    if d == c
    then some ([], s)
    else elim rest [ some (front, back) ↦ some (d ∷ front, back) | none ↦ none ]

abbrev strip_v : Bytes → Bytes
strip_v [] = []
strip_v (c ∷ s) = if c == 0x76 || c == 0x56 then s else c ∷ s

abbrev is_prerelease_tail : Bytes → Bool
is_prerelease_tail [] = false
is_prerelease_tail (c ∷ tail) = not (c == 0x2B)

-- The core and whether a prerelease follows. Without a `+`, or with the `-` before it, what stands
-- before the `-` holds no `+`.
unfoldable pub split_core : Bytes → Bytes × Bool
split_core s = elim (split_at 0x2D s) [
  | some (front, tail) ↦ elim (split_at 0x2B front) [
    | none ↦ (front, is_prerelease_tail tail)
    | some (core, build) ↦ (core, false)
  ]
  | none ↦ elim (split_at 0x2B s) [ some (core, build) ↦ (core, false) | none ↦ (s, false) ]
]

abbrev from_fields : Option ℕ → Option ℕ → Option ℕ → Bool → Option Version
from_fields (some major) (some minor) (some patch) prerelease =
    some (record { major = major; minor = minor; patch = patch; prerelease = prerelease })
from_fields _ _ _ prerelease = none

-- Three segments, no more.
unfoldable pub parse_core : Bytes × Bool → Option Version
parse_core (core, prerelease) = elim (split_at 0x2E core) [
  | none ↦ none
  | some (first, rest) ↦ elim (split_at 0x2E rest) [
    | none ↦ none
    | some (second, third) ↦
        if has_value (split_at 0x2E third)
        then none
        else from_fields (parse_field first) (parse_field second) (parse_field third) prerelease
  ]
]

unfoldable pub parse_version : Bytes → Option Version
parse_version text = parse_core (split_core (strip_v text))

-- The rank of a version in the last place of the comparison: a release is above its prereleases.
abbrev pub release_rank : Version → ℕ
release_rank v = if v.prerelease then 0 else 1

-- `order(...) == greater`.
unfoldable pub is_greater : Version → Version → Bool
is_greater a b =
    if not (a.major == b.major)
    then ltb b.major a.major
    else if not (a.minor == b.minor)
    then ltb b.minor a.minor
    else if not (a.patch == b.patch)
    then ltb b.patch a.patch
    else ltb (release_rank b) (release_rank a)

abbrev both_greater : Option Version → Option Version → Bool
both_greater (some l) (some c) = is_greater l c
both_greater _ _ = false

unfoldable pub is_newer : Bytes → Bytes → Bool
is_newer latest current = both_greater (parse_version latest) (parse_version current)
