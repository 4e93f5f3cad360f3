-- ===== src/Domain/Airing.antt =====
-- src/domain.cpp: which episodes of a show have aired, and which of them are news.
pub mod Laws
use shigoku.Common.{
  ℕ, zero, suc, ◌+◌, ◌-◌, Bool, true, false, not, ◌&&◌, ◌||◌, List, [], ◌∷◌, Option, none, some,
  Bytes, codes, if◌then◌else◌, leb, ltb, ◌==◌, value_or, min,
}
use shigoku.Common.Int.{ℤ, ltb_ℤ}
use shigoku.Domain.Types.{
  Enrichment, Show, ListStatus, watching, planning, Season, winter, spring, summer, fall,
}
use shigoku.Domain.Enums.{eq_status}

-- ASCII case folding, byte by byte.
abbrev pub fold_case : ℕ → ℕ
fold_case c = if leb 0x41 c && leb c 0x5A then c + 0x20 else c

unfoldable pub eq_ci : Bytes → Bytes → Bool
eq_ci [] [] = true
eq_ci [] (d ∷ t) = false
eq_ci (c ∷ s) [] = false
eq_ci (c ∷ s) (d ∷ t) = let rest = eq_ci s t in if fold_case c == fold_case d then rest else false

unfoldable pub is_still_airing : Option Bytes → Bool
is_still_airing none = true
is_still_airing (some s) = not (eq_ci s (codes "FINISHED") || eq_ci s (codes "CANCELLED"))

pub parse_season : Bytes → Option Season
parse_season s =
    if eq_ci s (codes "winter")
    then some winter
    else if eq_ci s (codes "spring")
    then some spring
    else if eq_ci s (codes "summer")
    then some summer
    else if eq_ci s (codes "fall") || eq_ci s (codes "autumn")
    then some fall
    else none

unfoldable pub calendar_status : ListStatus → Bool
calendar_status s = eq_status s watching || eq_status s planning

-- `at` has a value that is not after `now`.
abbrev pub is_past : Option ℤ → ℤ → Bool
is_past none now = false
is_past (some at) now = not (ltb_ℤ now at)

-- The cap by a known positive total.
abbrev pub capped : ℕ → Option ℕ → ℕ
capped aired none = aired
capped aired (some zero) = aired
capped aired (some (suc t)) = min aired (suc t)

abbrev pub aired_by : Option ℕ → Bool → Option ℕ → Option ℕ
aired_by none past total = none
aired_by (some zero) past total = none
aired_by (some (suc n)) past total = some (capped (if past then suc n else n) total)

unfoldable pub aired_episodes : Enrichment → ℤ → Option ℕ
aired_episodes e now =
    if is_still_airing e.status
    then aired_by e.next_airing_episode (is_past e.next_airing_at now) e.total_episodes
    else e.total_episodes

unfoldable pub episodes_behind : Show → ℤ → ℕ
episodes_behind s now = elim (aired_episodes s.enrichment now) [
  | none ↦ 0
  | some aired ↦ if leb aired s.progress then 0 else aired - s.progress
]

pub record ScheduleNotice : Type 0 where
  pub show_index : ℕ
  pub episode : ℕ

-- What one show has to tell, if anything.
abbrev pub fresh_episode : Option ℕ → ℕ → Option ℕ
fresh_episode none high_water = none
fresh_episode (some zero) high_water = none
fresh_episode (some (suc n)) high_water = if leb (suc n) high_water then none else some (suc n)

unfoldable pub notice_of : Show → ℤ → Option ℕ
notice_of s now =
    if calendar_status s.list_status && is_past s.enrichment.next_airing_at now
    then fresh_episode s.enrichment.next_airing_episode (value_or s.notice_last_episode 0)
    else none

abbrev pub notice_at : ℕ → Option ℕ → List ScheduleNotice → List ScheduleNotice
notice_at i none rest = rest
notice_at i (some n) rest = record { show_index = i; episode = n } ∷ rest

unfoldable pub notices_from : ℕ → List Show → ℤ → List ScheduleNotice
notices_from i [] now = []
notices_from i (s ∷ shows) now = notice_at i (notice_of s now) (notices_from (suc i) shows now)

unfoldable pub detect_schedule_notices : List Show → ℤ → List ScheduleNotice
detect_schedule_notices shows now = notices_from 0 shows now
